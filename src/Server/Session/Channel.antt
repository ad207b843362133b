-- ===== src/Server/Session/Channel.antt =====
-- The data channel of an upload: the client's connection to the announced port, the slot of the
-- source address, and the connection to the backend. `accept_client_data` and the `match` on it.
use iot_ftp_upload_gateway.Base.{
  ◌+◌, Bool, true, false, not, List, [], ◌∷◌, Option, none, some, if◌then◌else◌,
}
use iot_ftp_upload_gateway.Io.{ErrorKind, IoResult, ok, err}
use iot_ftp_upload_gateway.Net.{Ipv4Addr, IpAddr, ip_eq, SocketAddr}
use iot_ftp_upload_gateway.Metrics.{
  data_connection_rejected, backend_pasv_failed, backend_data_connection_failed,
  observe_backend_io_error,
}
use iot_ftp_upload_gateway.Pasv.Relay.{
  DataConnectError, control_connection, unusable_reply, connect_failed, opened, failed,
  open_backend_data_connection,
}
use iot_ftp_upload_gateway.Backend.Rotator.{State, Wait, acquire_data_slot, drop_data_slot}
use iot_ftp_upload_gateway.Run.{
  World, Run, Flow, go, data_accepted, ◌>>=◌, ◌>>◌, pure, ask, get, measure, emit_event, guarded,
  scoped,
}
use iot_ftp_upload_gateway.Server.Session.Config.{SessionConfig}
use iot_ftp_upload_gateway.Server.Session.Connect.{blame, with_rotator}

-- How the wait for the client's data connection ended.
pub data Accepted : Type 0 where
  accepted : SocketAddr → Accepted
  accept_failed : ErrorKind → Accepted
  never_opened : Accepted

abbrev pub expected_ip : SessionConfig → Option IpAddr
expected_ip cfg = if cfg.require_data_ip_match then some cfg.client_ip else none

-- `Some(expected) if peer.ip() != expected`.
abbrev pub is_rejected : Option IpAddr → SocketAddr → Bool
is_rejected none peer = false
is_rejected (some expected) peer = not (ip_eq peer.ip expected)

unfoldable pub accept_client_data : Option IpAddr → List (IoResult SocketAddr) → Run Accepted
accept_client_data expected [] = pure never_opened
accept_client_data expected (err kind ∷ later) = pure (accept_failed kind)
accept_client_data expected (ok peer ∷ later) = elim (is_rejected expected peer) [
  | true ↦ do measure data_connection_rejected; accept_client_data expected later
  | false ↦ do emit_event (data_accepted peer); pure (accepted peer)
]

-- What the `match` comes to. A channel holds its slot's source, where rotation is on.
pub data Channel : Type 0 where
  channel : Option Ipv4Addr → Channel
  no_channel : Channel
  backend_control_lost : Channel

-- `rotation`: the rotator and the session's source, where both are there.
unfoldable pub rotation : Option Ipv4Addr → Run (Option Ipv4Addr)
rotation source = get λ w. elim w.rotator [ none ↦ none | some state ↦ source ]

abbrev pub claim_from : SessionConfig → Ipv4Addr → Wait → Option State → World → Flow Bool × World
claim_from cfg source wait none w = (go true, w)
claim_from cfg source wait (some state) w =
    let (claimed, after_wait) = acquire_data_slot cfg.backend_key cfg.capacity source wait state in
    (go claimed, record w { rotator = some after_wait; time = w.time + 1 })

-- Whether the transfer may go on: always, where rotation is off.
unfoldable pub claim_slot : SessionConfig → Option Ipv4Addr → Run Bool
claim_slot cfg none env w = (go true, w)
claim_slot cfg (some source) env w = claim_from cfg source (env.slot_wait w.time) w.rotator w

-- The drop of the channel's slot.
abbrev pub drop_slot : SessionConfig → Option Ipv4Addr → World → World
drop_slot cfg none w = w
drop_slot cfg (some source) w = with_rotator (drop_data_slot cfg.backend_key source) w

abbrev pub blame_if : Option Ipv4Addr → ErrorKind → Run (Unit {0})
blame_if none kind = pure tt
blame_if (some source) kind = blame source kind

-- A failure to open the backend's side.
unfoldable pub channel_failed : Option Ipv4Addr → DataConnectError → Run Channel
channel_failed source (control_connection kind) = do
  measure backend_pasv_failed
  measure (observe_backend_io_error kind)
  pure backend_control_lost
channel_failed source unusable_reply = do measure backend_pasv_failed; pure no_channel
channel_failed source (connect_failed kind) = do
  measure backend_data_connection_failed
  measure (observe_backend_io_error kind)
  blame_if source kind
  pure no_channel

-- The slot is dropped on every way out but with the channel, which takes it.
unfoldable pub open_backend_side : SessionConfig → Option Ipv4Addr → Run Channel
open_backend_side cfg source = do
  result ← guarded (drop_slot cfg source) (open_backend_data_connection cfg.connect_limits)
  elim result [
    | opened addr ↦ pure (channel source)
    | failed error ↦ scoped (drop_slot cfg source) (channel_failed source error)
  ]

unfoldable pub open_claimed : SessionConfig → Option Ipv4Addr → Run Channel
open_claimed cfg source = do
  claimed ← claim_slot cfg source
  if claimed then open_backend_side cfg source else pure no_channel

unfoldable pub open_channel : SessionConfig → Option Ipv4Addr → Run Channel
open_channel cfg source = do
  arrivals ← ask λ env t. env.accepts t
  result ← accept_client_data (expected_ip cfg) arrivals
  elim result [
    | accepted peer ↦ do rotating ← rotation source; open_claimed cfg rotating
    | accept_failed kind ↦ pure no_channel
    | never_opened ↦ pure no_channel
  ]
