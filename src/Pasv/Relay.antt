-- ===== src/Pasv/Relay.antt =====
-- src/pasv/relay.rs: the data connection to a backend, opened as its passive-mode client, and the copy
-- of the bytes. `connect_from` and the wait for a reply are answers of the environment.
pub mod Copy
pub mod Transfer
mod Tests
use iot_ftp_upload_gateway.Base.{
  ℕ, ◌+◌, ◌%◌, ◌^◌, ◌≡◌, Bool, true, false, not, ◌&&◌, List, [], ◌∷◌, ◌++◌, Option, none, some,
  ◌==◌, if◌then◌else◌, Text, codes, crlf, lf, text_eq, starts_with, ends_with,
}
use iot_ftp_upload_gateway.Io.{
  ErrorKind, IoResult, ok, err, Timed, done, elapsed, timed_out, unexpected_eof, invalid_data,
}
use iot_ftp_upload_gateway.Net.{Ipv4Addr, IpAddr, v4, v6, SocketAddr}
use iot_ftp_upload_gateway.Protocol.Reply.{parse_epsv_reply, parse_pasv_reply}
use iot_ftp_upload_gateway.Run.{
  Env, World, Run, Flow, Event, data_connected, emit_to_backend, after, ◌>>=◌, ◌>>◌, pure, ask,
  change, emit_event,
}

-- `BackendPassiveMode` of config.rs.
pub data BackendPassiveMode : Type 0 where
  epsv_mode pasv_mode : BackendPassiveMode

pub data DataConnectError : Type 0 where
  control_connection : ErrorKind → DataConnectError
  unusable_reply : DataConnectError
  connect_failed : ErrorKind → DataConnectError

-- `io_error`: an unusable reply has none behind it.
abbrev pub io_error : DataConnectError → Option ErrorKind
io_error (control_connection kind) = some kind
io_error unusable_reply = none
io_error (connect_failed kind) = some kind

pub data Opened (A : Type 0) : Type 0 where
  opened : A → Opened A
  failed : DataConnectError → Opened A

-- The limits that change the result; the waits are the environment's.
pub record DataConnectLimits : Type 0 where
  pub fallback_to_control_ip : Bool
  pub passive_mode : BackendPassiveMode

unfoldable pub data_ip : Ipv4Addr → Option IpAddr → Bool → Ipv4Addr
data_ip announced (some (v4 control)) fallback =
    if fallback && announced == 0 then control else announced
data_ip announced (some (v6 control)) fallback = announced
data_ip announced none fallback = announced

-- What the read of a reply under the line limit comes to.
abbrev pub whole_line : IoResult Text → IoResult Text
whole_line (err kind) = err kind
whole_line (ok []) = err unexpected_eof
whole_line (ok (c ∷ line)) = if ends_with lf (c ∷ line) then ok (c ∷ line) else err invalid_data

abbrev pub in_time : Timed (IoResult Text) → IoResult Text
in_time elapsed = err timed_out
in_time (done result) = whole_line result

-- The write and the read stand under one timeout; any failure of them leaves the control connection
-- out of step.
unfoldable pub command_reply : Text → Run (IoResult Text)
command_reply command = do
  emit_to_backend (command ++ crlf)
  written ← ask λ env t. env.timed_write t
  elim written [
    | elapsed ↦ pure (err timed_out)
    | done (err kind) ↦ pure (err kind)
    | done (ok _) ↦ do reply ← ask λ env t. env.backend_read t; pure (in_time reply)
  ]

-- The address that an EPSV reply leads to.
abbrev pub epsv_addr : Option SocketAddr → Text → Option SocketAddr
epsv_addr control line = elim (parse_epsv_reply line) [
  | none ↦ none
  | some port ↦ elim control [
    | none ↦ none
    | some peer ↦ some (record { ip = peer.ip; port = port })
  ]
]

abbrev pub peer_ip : Option SocketAddr → Option IpAddr
peer_ip none = none
peer_ip (some peer) = some peer.ip

-- The address that a PASV reply leads to.
abbrev pub pasv_addr : Option SocketAddr → Bool → Text → Option SocketAddr
pasv_addr control fallback line = elim (parse_pasv_reply line) [
  | none ↦ none
  | some (announced, port) ↦
      some (record { ip = v4 (data_ip announced (peer_ip control) fallback); port = port })
]

abbrev pub connected_in_time : Timed (IoResult (Unit {0})) → IoResult (Unit {0})
connected_in_time elapsed = err timed_out
connected_in_time (done result) = result

unfoldable pub connect_data : Option SocketAddr → Run (Opened SocketAddr)
connect_data none = pure (failed unusable_reply)
connect_data (some addr) = do
  answer ← ask λ env t. env.connect t
  elim (connected_in_time answer) [
    | ok _ ↦ do emit_event (data_connected addr); pure (opened addr)
    | err kind ↦ pure (failed (connect_failed kind))
  ]

unfoldable pub by_pasv : DataConnectLimits → Option SocketAddr → Run (Opened SocketAddr)
by_pasv limits control = do
  reply ← command_reply (codes "PASV")
  elim reply [
    | err kind ↦ pure (failed (control_connection kind))
    | ok line ↦ connect_data (pasv_addr control limits.fallback_to_control_ip line)
  ]

unfoldable pub by_epsv : DataConnectLimits → Option SocketAddr → Run (Opened SocketAddr)
by_epsv limits control = do
  reply ← command_reply (codes "EPSV")
  elim reply [
    | err kind ↦ pure (failed (control_connection kind))
    | ok line ↦
        if starts_with (codes "5") line
        then by_pasv limits control
        else connect_data (epsv_addr control line)
  ]

unfoldable pub open_backend_data_connection : DataConnectLimits → Run (Opened SocketAddr)
open_backend_data_connection limits = do
  control ← λ env w. pure env.control_peer env w
  elim limits.passive_mode [
    | epsv_mode ↦ by_epsv limits control
    | pasv_mode ↦ by_pasv limits control
  ]
