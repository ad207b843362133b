-- ===== src/Server/Session/Effects/Start.antt =====
-- The changes that the start of a session makes.
use iot_ftp_upload_gateway.Base.{Bool, true, false, List, [], ◌∷◌, Option, none, some, Text}
use iot_ftp_upload_gateway.Io.{ErrorKind, IoResult, ok, err}
use iot_ftp_upload_gateway.Net.{Ipv4Addr, SocketAddr}
use iot_ftp_upload_gateway.Metrics.{observe_backend_io_error}
use iot_ftp_upload_gateway.Pasv.Relay.{connected_in_time}
use iot_ftp_upload_gateway.Backend.Rotator.{State, candidates_at}
use iot_ftp_upload_gateway.Backend.Tls.{negotiate_explicit_ftps}
use iot_ftp_upload_gateway.Run.{World, ◌>>=◌, ◌>>◌, pure, ask, measure}
use iot_ftp_upload_gateway.Run.Moves.{Moves, pure_moves, get_moves, ask_moves, change_moves}
use iot_ftp_upload_gateway.Server.Session.Config.{SessionConfig, service_not_available}
use iot_ftp_upload_gateway.Server.Session.Lines.{last_word, tell_client, backend_line}
use iot_ftp_upload_gateway.Server.Session.Connect.{
  connect_backend, blame, try_sources, Connected, unconnected, connected, of_source, unless_closed,
  connect_any, secure_backend, establish,
}
use iot_ftp_upload_gateway.Server.Session.Effects.{
  Closed, OwnCommand, io_failed, and_then, measure-moves, last_word-moves, tell_client-moves,
  backend_line-moves, unless_closed-moves,
}
use iot_ftp_upload_gateway.Server.Session.Effects.Backend.{negotiate_explicit_ftps-moves}

module _ {Own Line : Text → Type 0} {Peer : SocketAddr → Type 0} {R : World → World → Type 0}
    (closed : Closed Own Line Peer R) where
  connect_backend-moves : Moves R connect_backend
  unfolding connect_backend
  connect_backend-moves =
      and_then closed (ask_moves (λ env t. env.connect t) closed.ticked)
        λ answer. pure_moves closed.order (connected_in_time answer)

  pub blame-moves : (source : Ipv4Addr) (kind : ErrorKind) → Moves R (blame source kind)
  unfolding blame
  blame-moves source kind =
      and_then closed (ask_moves (λ env t. env.now t) closed.ticked)
        λ now. change_moves _ (closed.blamed source kind now)

  after_source :
      (source : Ipv4Addr) (rest : List Ipv4Addr)
      → Moves R (try_sources rest)
      → (x : IoResult (Unit {0}))
      → Moves R (elim x [
        | ok _ ↦ pure (some source)
        | err kind ↦ do measure (observe_backend_io_error kind); blame source kind; try_sources rest
      ])
  after_source source rest h (ok _) = pure_moves closed.order (some source)
  after_source source rest h (err kind) =
      and_then closed (measure-moves closed (io_failed kind))
        λ _. and_then closed (blame-moves source kind) λ _. h

  try_sources-moves : (sources : List Ipv4Addr) → Moves R (try_sources sources)
  unfolding try_sources
  try_sources-moves [] = pure_moves closed.order none
  try_sources-moves (source ∷ rest) =
      and_then closed connect_backend-moves (after_source source rest (try_sources-moves rest))

  after_direct :
      (x : IoResult (Unit {0}))
      → Moves R (elim x [
        | ok _ ↦ pure (connected none)
        | err kind ↦ do measure (observe_backend_io_error kind); pure unconnected
      ])
  after_direct (ok _) = pure_moves closed.order _
  after_direct (err kind) =
      and_then closed (measure-moves closed (io_failed kind))
        λ _. pure_moves closed.order unconnected

  by_rotator :
      (cfg : SessionConfig) (rotator : Option State)
      → Moves R (elim rotator [
        | none ↦ do
          result ← connect_backend
          elim result [
            | ok _ ↦ pure (connected none)
            | err kind ↦ do measure (observe_backend_io_error kind); pure unconnected
          ]
        | some state ↦ do
          now ← ask λ env t. env.now t
          source ← try_sources (candidates_at cfg.backend_key now state)
          pure (of_source source)
      ])
  by_rotator cfg none = and_then closed connect_backend-moves after_direct
  by_rotator cfg (some state) =
      and_then closed (ask_moves (λ env t. env.now t) closed.ticked) λ now.
        and_then closed (try_sources-moves (candidates_at cfg.backend_key now state))
          λ source. pure_moves closed.order (of_source source)

  pub connect_any-moves : (cfg : SessionConfig) → Moves R (connect_any cfg)
  unfolding connect_any
  connect_any-moves cfg = and_then closed (get_moves closed.order (λ w. w.rotator)) (by_rotator cfg)

module _ {Line : Text → Type 0} {Peer : SocketAddr → Type 0} {R : World → World → Type 0}
    (closed : Closed OwnCommand Line Peer R) where
  after_negotiation :
      (x : IoResult (Unit {0}))
      → Moves R (elim x [
        | ok _ ↦ pure tt
        | err kind ↦ do measure (observe_backend_io_error kind); last_word service_not_available
      ])
  after_negotiation (ok _) = pure_moves closed.order tt
  after_negotiation (err kind) =
      and_then closed (measure-moves closed (io_failed kind))
        λ _. last_word-moves closed (Unit {0}) service_not_available

  by_tls :
      (b : Bool)
      → Moves R (elim b [
        | false ↦ pure tt
        | true ↦ do
          result ← negotiate_explicit_ftps
          elim result [
            | ok _ ↦ pure tt
            | err kind ↦ do measure (observe_backend_io_error kind); last_word service_not_available
          ]
      ])
  by_tls false = pure_moves closed.order tt
  by_tls true = and_then closed (negotiate_explicit_ftps-moves closed) after_negotiation

  pub secure_backend-moves : (cfg : SessionConfig) → Moves R (secure_backend cfg)
  unfolding secure_backend
  secure_backend-moves cfg = by_tls cfg.backend_tls

  after_connect :
      (cfg : SessionConfig) (x : Connected)
      → Moves {A = Option Ipv4Addr} R (elim x [
        | unconnected ↦ last_word service_not_available
        | connected source ↦ do
          banner ← backend_line cfg.max_command_line_bytes
          unless_closed service_not_available banner
          secure_backend cfg
          tell_client banner
          pure source
      ])
  after_connect cfg unconnected = last_word-moves closed (Option Ipv4Addr) service_not_available
  after_connect cfg (connected source) =
      and_then closed (backend_line-moves closed cfg.max_command_line_bytes) λ banner.
        and_then closed (unless_closed-moves closed service_not_available banner) λ _.
          and_then closed (secure_backend-moves cfg) λ _.
            and_then closed (tell_client-moves closed banner) λ _. pure_moves closed.order source

  pub establish-moves : (cfg : SessionConfig) → Moves R (establish cfg)
  unfolding establish
  establish-moves cfg = and_then closed (connect_any-moves closed cfg) (after_connect cfg)
