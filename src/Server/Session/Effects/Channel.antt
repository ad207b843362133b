-- ===== src/Server/Session/Effects/Channel.antt =====
-- The changes that the opening of a data channel makes.
use iot_ftp_upload_gateway.Base.{
  ◌≡◌, refl, Bool, true, false, List, [], ◌∷◌, Option, none, some, Text,
}
use iot_ftp_upload_gateway.Io.{ErrorKind, IoResult, ok, err}
use iot_ftp_upload_gateway.Net.{Ipv4Addr, IpAddr, SocketAddr}
use iot_ftp_upload_gateway.Metrics.{data_connection_rejected}
use iot_ftp_upload_gateway.Pasv.Relay.{
  Opened, opened, failed, DataConnectError, control_connection, unusable_reply, connect_failed,
}
use iot_ftp_upload_gateway.Backend.Rotator.{State, Wait, acquire_data_slot, drop_data_slot}
use iot_ftp_upload_gateway.Run.{
  scoped, World, data_accepted, ◌>>=◌, ◌>>◌, pure, measure, emit_event,
}
use iot_ftp_upload_gateway.Run.Moves.{
  scoped_moves, guarded_moves, Moves, pure_moves, get_moves, ask_moves, change_moves,
}
use iot_ftp_upload_gateway.Server.Session.Config.{SessionConfig}
use iot_ftp_upload_gateway.Server.Session.Connect.{with_rotator}
use iot_ftp_upload_gateway.Server.Session.Channel.{
  Accepted, accepted, accept_failed, never_opened, expected_ip, is_rejected, accept_client_data,
  Channel, channel, no_channel, backend_control_lost, rotation, claim_from, claim_slot, drop_slot,
  blame_if, channel_failed, open_backend_side, open_claimed, open_channel,
}
use iot_ftp_upload_gateway.Server.Session.Effects.{
  Closed, OwnCommand, io_failed, pasv_failed, data_failed, peer_rejected, and_then, measure-moves,
}
use iot_ftp_upload_gateway.Server.Session.Effects.Backend.{
  open_backend_data_connection-moves, if_moves,
}
use iot_ftp_upload_gateway.Server.Session.Effects.Start.{blame-moves}

-- The peers that a session takes a data connection from.
abbrev pub IsWelcome : Option IpAddr → SocketAddr → Type 0
IsWelcome expected peer = is_rejected expected peer ≡ false

module _ {Line : Text → Type 0} {R : World → World → Type 0} (cfg : SessionConfig)
    (closed : Closed OwnCommand Line (IsWelcome (expected_ip cfg)) R) where
  met_peer :
      (peer : SocketAddr) (later : List (IoResult SocketAddr))
      → Moves R (accept_client_data (expected_ip cfg) later)
      → (b : Bool) → is_rejected (expected_ip cfg) peer ≡ b
      → Moves R (elim b [
        | true ↦ do measure data_connection_rejected; accept_client_data (expected_ip cfg) later
        | false ↦ do emit_event (data_accepted peer); pure (accepted peer)
      ])
  met_peer peer later h true e = and_then closed (measure-moves closed peer_rejected) λ _. h
  met_peer peer later h false e =
      and_then closed (change_moves _ (closed.met e)) λ _. pure_moves closed.order (accepted peer)

  pub accept_client_data-moves :
      (arrivals : List (IoResult SocketAddr))
      → Moves R (accept_client_data (expected_ip cfg) arrivals)
  unfolding accept_client_data
  accept_client_data-moves [] = pure_moves closed.order never_opened
  accept_client_data-moves (err kind ∷ later) = pure_moves closed.order _
  accept_client_data-moves (ok peer ∷ later) =
      met_peer peer later (accept_client_data-moves later) (is_rejected (expected_ip cfg) peer) refl

  blame_if-moves : (source : Option Ipv4Addr) (kind : ErrorKind) → Moves R (blame_if source kind)
  blame_if-moves none kind = pure_moves closed.order tt
  blame_if-moves (some source) kind = blame-moves closed source kind

  pub channel_failed-moves :
      (source : Option Ipv4Addr) (error : DataConnectError) → Moves R (channel_failed source error)
  unfolding channel_failed
  channel_failed-moves source (control_connection kind) =
      and_then closed (measure-moves closed pasv_failed) λ _.
        and_then closed (measure-moves closed (io_failed kind))
          λ _. pure_moves closed.order backend_control_lost
  channel_failed-moves source unusable_reply =
      and_then closed (measure-moves closed pasv_failed) λ _. pure_moves closed.order no_channel
  channel_failed-moves source (connect_failed kind) =
      and_then closed (measure-moves closed data_failed) λ _.
        and_then closed (measure-moves closed (io_failed kind))
          λ _. and_then closed (blame_if-moves source kind) λ _. pure_moves closed.order no_channel

  pub rotation-moves : (source : Option Ipv4Addr) → Moves R (rotation source)
  unfolding rotation
  rotation-moves source = get_moves closed.order _

-- For a relation that does not look at the rotator.
module _ {Line : Text → Type 0} {R : World → World → Type 0} (cfg : SessionConfig)
    (closed : Closed OwnCommand Line (IsWelcome (expected_ip cfg)) R)
    (rotated : (r : Option State) (w : World) → R w (record w { rotator = r })) where
  claim_from-moves :
      (source : Ipv4Addr) (wait : Wait) (r : Option State) (w : World)
      → R w (claim_from cfg source wait r w).1
  claim_from-moves source wait none w = closed.order.same w
  claim_from-moves source wait (some state) w =
      closed.order.both
        (rotated (some (acquire_data_slot cfg.backend_key cfg.capacity source wait state).1) w)
        (closed.ticked _)

  claim_slot-moves : (source : Option Ipv4Addr) → Moves R (claim_slot cfg source)
  unfolding claim_slot
  claim_slot-moves none = record { from = λ env w. closed.order.same w }
  claim_slot-moves (some source) = record {
    from = λ env w. claim_from-moves source (env.slot_wait w.time) w.rotator w;
  }

  pub drop_slot-moves : (source : Option Ipv4Addr) (w : World) → R w (drop_slot cfg source w)
  drop_slot-moves none w = closed.order.same w
  drop_slot-moves (some source) w =
      rotated (with_rotator (drop_data_slot cfg.backend_key source) w).rotator w

  after_open :
      (source : Option Ipv4Addr) (x : Opened SocketAddr)
      → Moves {A = Channel} R (elim x [
        | opened addr ↦ pure (channel source)
        | failed error ↦ scoped (drop_slot cfg source) (channel_failed source error)
      ])
  after_open source (opened addr) = pure_moves closed.order (channel source)
  after_open source (failed error) =
      scoped_moves (drop_slot cfg source) (channel_failed-moves cfg closed source error)
        λ w v k. closed.order.both k (drop_slot-moves source v)

  open_backend_side-moves : (source : Option Ipv4Addr) → Moves R (open_backend_side cfg source)
  unfolding open_backend_side
  open_backend_side-moves source =
      and_then closed
        (guarded_moves closed.order (drop_slot cfg source) (drop_slot-moves source)
          (open_backend_data_connection-moves closed cfg.connect_limits))
        (after_open source)

  pub open_claimed-moves : (source : Option Ipv4Addr) → Moves R (open_claimed cfg source)
  unfolding open_claimed
  open_claimed-moves source =
      and_then closed (claim_slot-moves source)
        (if_moves closed (open_backend_side-moves source) (pure_moves closed.order no_channel))

  after_accept :
      (source : Option Ipv4Addr) (x : Accepted)
      → Moves {A = Channel} R (elim x [
        | accepted peer ↦ do rotating ← rotation source; open_claimed cfg rotating
        | accept_failed kind ↦ pure no_channel
        | never_opened ↦ pure no_channel
      ])
  after_accept source (accepted peer) =
      and_then closed (rotation-moves cfg closed source) open_claimed-moves
  after_accept source (accept_failed kind) = pure_moves closed.order no_channel
  after_accept source never_opened = pure_moves closed.order no_channel

  pub open_channel-moves : (source : Option Ipv4Addr) → Moves R (open_channel cfg source)
  unfolding open_channel
  open_channel-moves source =
      and_then closed (ask_moves (λ env t. env.accepts t) closed.ticked) λ arrivals.
        and_then closed (accept_client_data-moves cfg closed arrivals) (after_accept source)
