-- ===== src/Server/Session/Connect.antt =====
-- The start of a session: the connection to the backend, its banner, and TLS.
use mathlib.Core.Option
use iot_ftp_upload_gateway.Base.{true, false, List, [], ◌∷◌, Option, none, some, Text}
use iot_ftp_upload_gateway.Io.{ErrorKind, IoResult, ok, err}
use iot_ftp_upload_gateway.Net.{Ipv4Addr}
use iot_ftp_upload_gateway.Metrics.{observe_backend_io_error}
use iot_ftp_upload_gateway.Pasv.Relay.{connected_in_time}
use iot_ftp_upload_gateway.Backend.Rotator.{State, candidates_at, report_connect_failure}
use iot_ftp_upload_gateway.Backend.Tls.{negotiate_explicit_ftps}
use iot_ftp_upload_gateway.Run.{World, Run, ◌>>=◌, ◌>>◌, pure, ask, get, change, measure}
use iot_ftp_upload_gateway.Server.Session.Config.{SessionConfig, service_not_available}
use iot_ftp_upload_gateway.Server.Session.Lines.{tell_client, last_word, backend_line}

-- `backend::connection::connect`.
unfoldable pub connect_backend : Run (IoResult (Unit {0}))
connect_backend = do answer ← ask λ env t. env.connect t; pure (connected_in_time answer)

abbrev pub with_rotator : (State → State) → World → World
with_rotator f w = record w { rotator = Option.map f w.rotator }

-- A failed connection tells against the source address, if it looks like its fault.
unfoldable pub blame : Ipv4Addr → ErrorKind → Run (Unit {0})
blame source kind = do
  now ← ask λ env t. env.now t
  change (with_rotator λ s. (report_connect_failure source kind now s).1)

-- The loop over the candidates: the first that connects.
unfoldable pub try_sources : List Ipv4Addr → Run (Option Ipv4Addr)
try_sources [] = pure none
try_sources (source ∷ rest) = do
  result ← connect_backend
  elim result [
    | ok _ ↦ pure (some source)
    | err kind ↦ do measure (observe_backend_io_error kind); blame source kind; try_sources rest
  ]

-- Whether the session is connected, and from which source.
pub data Connected : Type 0 where
  unconnected : Connected
  connected : Option Ipv4Addr → Connected

abbrev pub of_source : Option Ipv4Addr → Connected
of_source none = unconnected
of_source (some source) = connected (some source)

unfoldable pub connect_any : SessionConfig → Run Connected
connect_any cfg = do
  rotator ← get λ w. w.rotator
  elim rotator [
    | none ↦ do
      result ← connect_backend
      elim result [
        | ok _ ↦ pure (connected none)
        | err kind ↦ do measure (observe_backend_io_error kind); pure unconnected
      ]
    | some state ↦ do
      now ← ask λ env t. env.now t
      source ← try_sources (candidates_at cfg.backend_key now state)
      pure (of_source source)
  ]

-- TLS toward the backend, where it is on: an error ends the session.
unfoldable pub secure_backend : SessionConfig → Run (Unit {0})
secure_backend cfg = elim cfg.backend_tls [
  | false ↦ pure tt
  | true ↦ do
    result ← negotiate_explicit_ftps
    elim result [
      | ok _ ↦ pure tt
      | err kind ↦ do measure (observe_backend_io_error kind); last_word service_not_available
    ]
]

-- An empty read is the end of the stream.
abbrev pub unless_closed : Text → Text → Run (Unit {0})
unless_closed word [] = last_word word
unless_closed word (c ∷ line) = pure tt

-- From the connection to the banner: the source address of the session.
unfoldable pub establish : SessionConfig → Run (Option Ipv4Addr)
establish cfg = do
  result ← connect_any cfg
  elim result [
    | unconnected ↦ last_word service_not_available
    | connected source ↦ do
      banner ← backend_line cfg.max_command_line_bytes
      unless_closed service_not_available banner
      secure_backend cfg
      tell_client banner
      pure source
  ]
