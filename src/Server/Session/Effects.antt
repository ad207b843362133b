-- ===== src/Server/Session/Effects.antt =====
-- What a session may do to the world, one small change at a time. A relation that allows each of
-- these changes is kept by every part of a session that is made of them.
pub mod Backend
pub mod Start
pub mod Channel
pub mod Upload
pub mod Loop
pub mod Whole
use iot_ftp_upload_gateway.Base.{
  ℕ, ◌+◌, ◌≡◌, Bool, true, false, [], ◌∷◌, ◌++◌, Option, none, some, Text, codes, crlf,
}
use iot_ftp_upload_gateway.Io.{ErrorKind, IoResult, ok, err, Timed, done, elapsed, timed_out}
use iot_ftp_upload_gateway.Net.{Ipv4Addr, SocketAddr}
use iot_ftp_upload_gateway.Metrics.{
  Metrics, observe_backend_io_error, backend_pasv_failed, backend_data_connection_failed,
  data_connection_rejected, session_idle_timed_out, add_upload_bytes,
}
use iot_ftp_upload_gateway.Backend.Rotator.{State, report_connect_failure}
use iot_ftp_upload_gateway.Run.{
  World, Event, to_client, to_backend, data_accepted, data_connected, Run, ◌>>=◌, pure, halt,
  measure, emit_event, write_client, write_backend,
}
use iot_ftp_upload_gateway.Run.Moves.{
  Moves, Order, then_moves, pure_moves, halt_moves, get_moves, ask_moves, change_moves,
}
use iot_ftp_upload_gateway.Server.Session.Lines.{
  client_io, backend_io, tell_client, last_word, tell_backend, backend_line, read_line_with_timeout,
}
use iot_ftp_upload_gateway.Server.Session.Connect.{with_rotator, unless_closed}

-- The changes of the metrics that stand alone, outside of every guard.
pub data Observation : (Metrics → Metrics) → Type 0 where
  io_failed : (kind : ErrorKind) → Observation (observe_backend_io_error kind)
  pasv_failed : Observation backend_pasv_failed
  data_failed : Observation backend_data_connection_failed
  peer_rejected : Observation data_connection_rejected
  idle_timed_out : Observation session_idle_timed_out
  bytes_added : (n : ℕ) → Observation (add_upload_bytes n)

-- The commands that the gateway makes up for the backend.
pub data OwnCommand : Text → Type 0 where
  own_pasv : OwnCommand (codes "PASV" ++ crlf)
  own_epsv : OwnCommand (codes "EPSV" ++ crlf)
  own_auth : OwnCommand (codes "AUTH TLS" ++ crlf)
  own_pbsz : OwnCommand (codes "PBSZ 0" ++ crlf)
  own_prot : OwnCommand (codes "PROT P" ++ crlf)

abbrev pub with_event : Event → World → World
with_event e w = record w { trace = e ∷ w.trace }

-- A relation that allows each change; what may be sent and forwarded, and who may connect, are
-- parameters.
pub record Closed (Own Line : Text → Type 0) (Peer : SocketAddr → Type 0)
    (R : World → World → Type 0) : Type 0 where
  pub order : Order R
  pub ticked : (w : World) → R w (record w { time = w.time + 1 })
  pub told : (text : Text) (w : World) → R w (with_event (to_client text) w)
  pub sent : {text : Text} → Own text → (w : World) → R w (with_event (to_backend w.secured text) w)
  pub forwarded :
      {text : Text} → Line text → (w : World) → R w (with_event (to_backend w.secured text) w)
  pub met : {peer : SocketAddr} → Peer peer → (w : World) → R w (with_event (data_accepted peer) w)
  pub reached : (addr : SocketAddr) (w : World) → R w (with_event (data_connected addr) w)
  pub observed :
      {f : Metrics → Metrics}
      → Observation f
      → (w : World) → R w (record w { metrics = f w.metrics })
  pub blamed :
      (source : Ipv4Addr) (kind : ErrorKind) (now : ℕ) (w : World)
      → R w (with_rotator (λ s. (report_connect_failure source kind now s).1) w)
  pub made_secure : (w : World) → R w (record w { secured = true })

module _ {Own Line : Text → Type 0} {Peer : SocketAddr → Type 0} {R : World → World → Type 0}
    (closed : Closed Own Line Peer R) where
  pub and_then :
      {A B : Type 0} {m : Run A} {f : A → Run B}
      → Moves R m
      → ((a : A) → Moves R (f a))
      → Moves R (m >>= f)
  and_then = then_moves closed.order

  pub measure-moves : {f : Metrics → Metrics} → Observation f → Moves R (measure f)
  measure-moves o = change_moves _ (closed.observed o)

  pub client_io-moves : {A : Type 0} (x : IoResult A) → Moves R (client_io x)
  client_io-moves (ok a) = pure_moves closed.order a
  client_io-moves (err kind) = halt_moves closed.order _

  pub backend_io-moves : {A : Type 0} (x : IoResult A) → Moves R (backend_io x)
  backend_io-moves (ok a) = pure_moves closed.order a
  backend_io-moves (err kind) =
      and_then (measure-moves (io_failed kind)) λ _. halt_moves closed.order _

  pub write_client-moves : (text : Text) → Moves R (write_client text)
  write_client-moves text =
      and_then (change_moves _ (closed.told text))
        λ _. ask_moves (λ env t. env.client_write t) closed.ticked

  pub tell_client-moves : (text : Text) → Moves R (tell_client text)
  unfolding tell_client
  tell_client-moves text = and_then (write_client-moves text) client_io-moves

  pub last_word-moves : (A : Type 0) (text : Text) → Moves {A = A} R (last_word text)
  unfolding last_word
  last_word-moves A text = and_then (write_client-moves text) λ _. halt_moves closed.order A

  pub write_backend-moves :
      (text : Text)
      → ((w : World) → R w (with_event (to_backend w.secured text) w))
      → Moves R (write_backend text)
  write_backend-moves text h =
      and_then (change_moves _ h) λ _. ask_moves (λ env t. env.backend_write t) closed.ticked

  pub tell_backend-moves : {text : Text} → Line text → Moves R (tell_backend text)
  unfolding tell_backend
  tell_backend-moves line =
      and_then (write_backend-moves _ (closed.forwarded line)) backend_io-moves

  pub backend_line-moves : (n : ℕ) → Moves R (backend_line n)
  unfolding backend_line
  backend_line-moves n =
      and_then (ask_moves (λ env t. env.backend_read t) closed.ticked)
        λ read. backend_io-moves (read_line_with_timeout n read)

  pub unless_closed-moves : (word line : Text) → Moves R (unless_closed word line)
  unless_closed-moves word [] = last_word-moves _ word
  unless_closed-moves word (c ∷ line) = pure_moves closed.order tt
