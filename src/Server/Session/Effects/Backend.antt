-- ===== src/Server/Session/Effects/Backend.antt =====
-- The changes that the data connection to a backend and the negotiation of TLS make.
use iot_ftp_upload_gateway.Base.{
  ℕ, zero, suc, Bool, true, false, ◌++◌, Option, none, some, Text, codes, crlf, starts_with,
  if◌then◌else◌,
}
use iot_ftp_upload_gateway.Io.{IoResult, ok, err, Timed, done, elapsed, timed_out, invalid_data}
use iot_ftp_upload_gateway.Net.{SocketAddr}
use iot_ftp_upload_gateway.Pasv.Relay.{
  DataConnectLimits, BackendPassiveMode, epsv_mode, pasv_mode, opened, failed, control_connection,
  connect_failed, command_reply, connect_data, connected_in_time, by_pasv, by_epsv, pasv_addr,
  epsv_addr, in_time, open_backend_data_connection,
}
use iot_ftp_upload_gateway.Backend.Tls.{
  Progress, broken, finished, more, progress_of, read_reply, expect, max_reply_lines,
  command_expecting, protect_data, secure, handshake_result, shake_hands, negotiate_explicit_ftps,
}
use iot_ftp_upload_gateway.Run.{World, data_connected, Run, ◌>>=◌, ◌>>◌, pure, ask, emit_event}
use iot_ftp_upload_gateway.Run.Moves.{Moves, pure_moves, ask_moves, change_moves, io_moves}
use iot_ftp_upload_gateway.Server.Session.Effects.{
  Closed, OwnCommand, own_pasv, own_epsv, own_auth, own_pbsz, own_prot, and_then,
  write_backend-moves,
}

module _ {Own Line : Text → Type 0} {Peer : SocketAddr → Type 0} {R : World → World → Type 0}
    (closed : Closed Own Line Peer R) where
  after_write :
      (x : Timed (IoResult (Unit {0})))
      → Moves R (elim x [
        | elapsed ↦ pure (err timed_out)
        | done (err kind) ↦ pure (err kind)
        | done (ok _) ↦ do reply ← ask λ env t. env.backend_read t; pure (in_time reply)
      ])
  after_write elapsed = pure_moves closed.order _
  after_write (done (err kind)) = pure_moves closed.order _
  after_write (done (ok _)) =
      and_then closed (ask_moves (λ env t. env.backend_read t) closed.ticked)
        λ reply. pure_moves closed.order (in_time reply)

  command_reply-moves : (command : Text) → Own (command ++ crlf) → Moves R (command_reply command)
  unfolding command_reply
  command_reply-moves command own =
      and_then closed (change_moves _ (closed.sent own))
        λ _. and_then closed (ask_moves (λ env t. env.timed_write t) closed.ticked) after_write

  connected-moves :
      (addr : SocketAddr) (x : IoResult (Unit {0}))
      → Moves R (elim x [
        | ok _ ↦ do emit_event (data_connected addr); pure (opened addr)
        | err kind ↦ pure (failed (connect_failed kind))
      ])
  connected-moves addr (ok _) =
      and_then closed (change_moves _ (closed.reached addr))
        λ _. pure_moves closed.order (opened addr)
  connected-moves addr (err kind) = pure_moves closed.order _

  connect_data-moves : (addr : Option SocketAddr) → Moves R (connect_data addr)
  unfolding connect_data
  connect_data-moves none = pure_moves closed.order _
  connect_data-moves (some addr) =
      and_then closed (ask_moves (λ env t. env.connect t) closed.ticked)
        λ answer. connected-moves addr (connected_in_time answer)

  pub if_moves :
      {A : Type 0} {m n : Run A} → Moves R m → Moves R n → (b : Bool) → Moves R (if b then m else n)
  if_moves hm hn true = hm
  if_moves hm hn false = hn

  after_line :
      (lines : ℕ)
      → ((code : Option Text) → Moves R (read_reply lines code))
      → (p : Progress)
      → Moves {A = IoResult Text} R (elim p [
        | broken kind ↦ pure (err kind)
        | finished reply ↦ pure (ok reply)
        | more code' ↦ read_reply lines code'
      ])
  after_line lines next (broken kind) = pure_moves closed.order _
  after_line lines next (finished reply) = pure_moves closed.order _
  after_line lines next (more code) = next code

  pub read_reply-moves : (lines : ℕ) (code : Option Text) → Moves R (read_reply lines code)
  unfolding read_reply
  read_reply-moves zero code = pure_moves closed.order _
  read_reply-moves (suc lines) code =
      and_then closed (ask_moves (λ env t. env.backend_read t) closed.ticked)
        λ read. after_line lines (read_reply-moves lines) (progress_of code read)

  after_command :
      (expected : Text) (x : IoResult (Unit {0}))
      → Moves R (elim x [
        | err kind ↦ pure (err kind)
        | ok _ ↦ do code ← read_reply max_reply_lines none; pure (expect expected code)
      ])
  after_command expected (err kind) = pure_moves closed.order _
  after_command expected (ok _) =
      and_then closed (read_reply-moves max_reply_lines none)
        λ code. pure_moves closed.order (expect expected code)

  pub command_expecting-moves :
      (command expected : Text)
      → Own (command ++ crlf)
      → Moves R (command_expecting command expected)
  unfolding command_expecting
  command_expecting-moves command expected own =
      and_then closed (write_backend-moves closed _ (closed.sent own)) (after_command expected)

module _ {Line : Text → Type 0} {Peer : SocketAddr → Type 0} {R : World → World → Type 0}
    (closed : Closed OwnCommand Line Peer R) where
  by_pasv-moves :
      (limits : DataConnectLimits) (control : Option SocketAddr) → Moves R (by_pasv limits control)
  unfolding by_pasv
  by_pasv-moves limits control =
      and_then closed (command_reply-moves closed (codes "PASV") own_pasv) (
        io_moves
          (λ line. connect_data-moves closed (pasv_addr control limits.fallback_to_control_ip line))
          (λ kind. pure_moves closed.order (failed (control_connection kind))))

  by_epsv-moves :
      (limits : DataConnectLimits) (control : Option SocketAddr) → Moves R (by_epsv limits control)
  unfolding by_epsv
  by_epsv-moves limits control =
      and_then closed (command_reply-moves closed (codes "EPSV") own_epsv) (
        io_moves
          (λ line.
            if_moves closed (by_pasv-moves limits control)
              (connect_data-moves closed (epsv_addr control line)) (starts_with (codes "5") line))
          (λ kind. pure_moves closed.order (failed (control_connection kind))))

  by_mode :
      (limits : DataConnectLimits) (control : Option SocketAddr) (mode : BackendPassiveMode)
      → Moves R
          (elim mode [ epsv_mode ↦ by_epsv limits control | pasv_mode ↦ by_pasv limits control ])
  by_mode limits control epsv_mode = by_epsv-moves limits control
  by_mode limits control pasv_mode = by_pasv-moves limits control

  pub open_backend_data_connection-moves :
      (limits : DataConnectLimits) → Moves R (open_backend_data_connection limits)
  unfolding open_backend_data_connection
  open_backend_data_connection-moves limits = record {
    from = λ env w. (by_mode limits env.control_peer limits.passive_mode).from env w;
  }

  after_pbsz :
      (x : IoResult (Unit {0}))
      → Moves R (elim x [
        | err kind ↦ pure (err kind)
        | ok _ ↦ command_expecting (codes "PROT P") (codes "200")
      ])
  after_pbsz (err kind) = pure_moves closed.order _
  after_pbsz (ok _) = command_expecting-moves closed (codes "PROT P") (codes "200") own_prot

  pub protect_data-moves : Moves R protect_data
  unfolding protect_data
  protect_data-moves =
      and_then closed (command_expecting-moves closed (codes "PBSZ 0") (codes "200") own_pbsz)
        after_pbsz

  after_handshake :
      (x : IoResult (Unit {0}))
      → Moves R (elim x [ err kind ↦ pure (err kind) | ok _ ↦ do secure; protect_data ])
  after_handshake (err kind) = pure_moves closed.order _
  after_handshake (ok _) =
      and_then closed (change_moves _ closed.made_secure) λ _. protect_data-moves

  shake_hands-moves : Moves R shake_hands
  unfolding shake_hands
  shake_hands-moves =
      and_then closed (ask_moves (λ env t. env.handshake t) closed.ticked)
        λ answer. after_handshake (handshake_result answer)

  after_auth :
      (x : IoResult (Unit {0}))
      → Moves R (elim x [
        | err kind ↦ pure (err kind)
        | ok _ ↦ do
          ahead ← ask λ env t. env.buffered t
          if ahead then pure (err invalid_data) else shake_hands
      ])
  after_auth (err kind) = pure_moves closed.order _
  after_auth (ok _) =
      and_then closed (ask_moves (λ env t. env.buffered t) closed.ticked)
        (if_moves closed (pure_moves closed.order _) shake_hands-moves)

  pub negotiate_explicit_ftps-moves : Moves R negotiate_explicit_ftps
  unfolding negotiate_explicit_ftps
  negotiate_explicit_ftps-moves =
      and_then closed (command_expecting-moves closed (codes "AUTH TLS") (codes "234") own_auth)
        after_auth
