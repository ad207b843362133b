-- ===== src/Server/Session/Slots/Opening.antt =====
-- What the opening of a data channel does to a transfer slot.
use Prim.Native.Nat.{max}
use mathlib.Core.Option
use iot_ftp_upload_gateway.Base.{
  ◌+◌, ◌<◌, sym, Option, none, some, arith, Text, subst, if◌then◌else◌,
}
use iot_ftp_upload_gateway.Net.{Ipv4Addr, SocketAddr}
use iot_ftp_upload_gateway.Pasv.Relay.{
  Opened, opened, failed, DataConnectError, control_connection, unusable_reply, connect_failed,
  open_backend_data_connection,
}
use iot_ftp_upload_gateway.Backend.Rotator.{
  SlotState, State, Wait, permit, closed, elapsed, acquire_data_slot,
}
use iot_ftp_upload_gateway.Backend.Rotator.Slots.{slot_of, returned}
use iot_ftp_upload_gateway.Backend.Rotator.Places.{changed, is_pair, acquire_data_slot-changed}
use iot_ftp_upload_gateway.Run.{
  World, Run, Flow, go, stop, after, Env, ◌>>=◌, pure, scoped, unless_done,
}
use iot_ftp_upload_gateway.Server.Session.Config.{SessionConfig}
use iot_ftp_upload_gateway.Server.Session.Connect.{blame}
use iot_ftp_upload_gateway.Server.Session.Channel.{
  Accepted, accepted, accept_failed, never_opened, Channel, channel, no_channel,
  backend_control_lost, rotation, claim_from, claim_slot, drop_slot, channel_failed,
  open_backend_side, open_claimed, open_channel,
}
use iot_ftp_upload_gateway.Server.Session.Effects.Backend.{open_backend_data_connection-moves}
use iot_ftp_upload_gateway.Server.Session.Effects.Channel.{
  accept_client_data-moves, channel_failed-moves,
}
use iot_ftp_upload_gateway.Server.Session.Slots.{
  Settled, settled_same, granted-Settled, refused-Settled, unchanged_none, place, put, Still, Done,
  Holds, dropped, Holds-Still, Still-Done, Still-closed,
}

module _ (cfg : SessionConfig) (backend : Text) (source : Ipv4Addr) where
  -- The opening of a channel leaves the slot settled, or the channel with the transfer begun.
  unfoldable pub Opens : Option SlotState → Flow Channel × World → Type 0
  Opens o (go (channel local), v) =
      Settled o (put cfg backend source local (place cfg backend source v))
  Opens o (go no_channel, v) = Settled o (place cfg backend source v)
  Opens o (go backend_control_lost, v) = Settled o (place cfg backend source v)
  Opens o (stop, v) = Settled o (place cfg backend source v)

  open_failed :
      (local : Option Ipv4Addr) (error : DataConnectError) (env : Env) (u v : World)
      → Holds cfg backend source local u v
      → Opens
          (place cfg backend source u)
          (scoped (drop_slot cfg local) (channel_failed local error) env v)
  unfolding Opens Holds Done channel_failed blame
  open_failed local error env u v h = given local error (
      dropped cfg backend source local u _ (
        Holds-Still cfg backend source local u v _ h
          ((channel_failed-moves cfg (Still-closed cfg backend source) local error).from env v)))
    where
      given :
          (local : Option Ipv4Addr) (error : DataConnectError)
          → Done cfg backend source u
              (scoped (drop_slot cfg local) (channel_failed local error) env v).1
          → Opens
              (place cfg backend source u)
              (scoped (drop_slot cfg local) (channel_failed local error) env v)
      given local (control_connection kind) k = k
      given local unusable_reply k = k
      given none (connect_failed kind) k = k
      given (some x) (connect_failed kind) k = k

  -- The two `match`es, on what the backend's side and the wait for the client came to.
  abbrev side_result : Option Ipv4Addr → Opened SocketAddr → Run Channel
  side_result local result = elim result [
    | opened addr ↦ pure (channel local)
    | failed error ↦ scoped (drop_slot cfg local) (channel_failed local error)
  ]

  abbrev accept_result : Option Ipv4Addr → Accepted → Run Channel
  accept_result local result = elim result [
    | accepted peer ↦ do rotating ← rotation local; open_claimed cfg rotating
    | accept_failed kind ↦ pure no_channel
    | never_opened ↦ pure no_channel
  ]

  side_opened :
      (local : Option Ipv4Addr) (env : Env) (u v : World)
      → Holds cfg backend source local u v
      → (x : Flow (Opened SocketAddr) × World) → Still cfg backend source v x.1
      → Opens
          (place cfg backend source u)
          (after (unless_done (drop_slot cfg local) x) λ result w. side_result local result env w)
  unfolding Opens Holds Done
  side_opened local env u v h (go (opened addr), w) k =
      Holds-Still cfg backend source local u v w h k
  side_opened local env u v h (go (failed error), w) k =
      open_failed local error env u w (Holds-Still cfg backend source local u v w h k)
  side_opened local env u v h (stop, w) k =
      dropped cfg backend source local u w (Holds-Still cfg backend source local u v w h k)

  open_backend_side-Opens :
      (local : Option Ipv4Addr) (env : Env) (u v : World)
      → Holds cfg backend source local u v
      → Opens (place cfg backend source u) (open_backend_side cfg local env v)
  unfolding open_backend_side
  open_backend_side-Opens local env u v h =
      side_opened local env u v h (open_backend_data_connection cfg.connect_limits env v) (
        (open_backend_data_connection-moves (Still-closed cfg backend source)
            cfg.connect_limits).from
          env v)

  capacity_positive : 0 < max cfg.capacity 1
  capacity_positive = omega arith

  claim_from-Opens :
      (local : Ipv4Addr) (env : Env) (wait : Wait) (r : Option State) (w : World)
      → Opens (place cfg backend source (record w { rotator = r })) (
          after (claim_from cfg local wait r (record w { rotator = r })) λ claimed v.
            (if claimed then open_backend_side cfg (some local) else pure no_channel) env v)
  unfolding Opens Holds place put acquire_data_slot open_backend_side
  claim_from-Opens local env wait none w =
      open_backend_side-Opens (some local) env (record w { rotator = none })
        (record w { rotator = none })
        (subst (λ (o : Option SlotState). Settled none o)
          (unchanged_none (is_pair cfg.backend_key local backend source)) (settled_same none))
  claim_from-Opens local env permit (some state) w =
      open_backend_side-Opens (some local) env (record w { rotator = some state })
        (record w {
          rotator = some (acquire_data_slot cfg.backend_key cfg.capacity local permit state).1;
          time = w.time + 1;
        })
        (subst
          (λ o.
            Settled (slot_of backend source state)
              (changed (Option.map returned) (is_pair cfg.backend_key local backend source) o))
          (sym (
            acquire_data_slot-changed cfg.backend_key local backend source cfg.capacity permit
              state))
          (granted-Settled (max cfg.capacity 1) (is_pair cfg.backend_key local backend source)
            (slot_of backend source state) capacity_positive))
  claim_from-Opens local env closed (some state) w =
      subst (Settled (slot_of backend source state))
        (sym (
          acquire_data_slot-changed cfg.backend_key local backend source cfg.capacity closed state))
        (refused-Settled (max cfg.capacity 1) (is_pair cfg.backend_key local backend source)
          (slot_of backend source state) capacity_positive).0
  claim_from-Opens local env elapsed (some state) w =
      subst (Settled (slot_of backend source state))
        (sym (
          acquire_data_slot-changed cfg.backend_key local backend source cfg.capacity elapsed
            state))
        (refused-Settled (max cfg.capacity 1) (is_pair cfg.backend_key local backend source)
          (slot_of backend source state) capacity_positive).1

  open_claimed-Opens :
      (local : Option Ipv4Addr) (env : Env) (w : World)
      → Opens (place cfg backend source w) (open_claimed cfg local env w)
  unfolding open_claimed claim_slot Holds put
  open_claimed-Opens none env w =
      open_backend_side-Opens none env w w (settled_same (place cfg backend source w))
  open_claimed-Opens (some local) env w =
      claim_from-Opens local env (env.slot_wait w.time) w.rotator w

  accepted-Opens :
      (local : Option Ipv4Addr) (env : Env) (u : World) (x : Flow Accepted × World)
      → Still cfg backend source u x.1
      → Opens (place cfg backend source u) (after x λ result v. accept_result local result env v)
  unfolding rotation Still Opens Done place
  accepted-Opens local env u (go (accepted peer), v) h =
      let rotating : Option Ipv4Addr = elim v.rotator [ none ↦ none | some state ↦ local ] in
      subst (λ (o : Option SlotState). Opens o (open_claimed cfg rotating env v)) h
        (open_claimed-Opens rotating env v)
  accepted-Opens local env u (go (accept_failed kind), v) h = Still-Done cfg backend source u v h
  accepted-Opens local env u (go never_opened, v) h = Still-Done cfg backend source u v h
  accepted-Opens local env u (stop, v) h = Still-Done cfg backend source u v h

  pub open_channel-Opens :
      (local : Option Ipv4Addr) (env : Env) (w : World)
      → Opens (place cfg backend source w) (open_channel cfg local env w)
  unfolding open_channel Still place
  open_channel-Opens local env w = accepted-Opens local env w _ (
      (accept_client_data-moves cfg (Still-closed cfg backend source) (env.accepts w.time)).from env
        (record w { time = w.time + 1 }))
