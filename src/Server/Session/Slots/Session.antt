-- ===== src/Server/Session/Slots/Session.antt =====
-- A whole session gives back the transfer slots that it claims.
use iot_ftp_upload_gateway.Base.{ℕ, ◌≡◌, Option, none, some, Text}
use iot_ftp_upload_gateway.Net.{Ipv4Addr}
use iot_ftp_upload_gateway.Run.{World, Flow, go, stop, after, Env, ◌>>=◌}
use iot_ftp_upload_gateway.Run.Moves.{Moves}
use iot_ftp_upload_gateway.Server.Session.Config.{
  SessionConfig, cannot_open_data, service_not_available,
}
use iot_ftp_upload_gateway.Server.Session.Channel.{
  Channel, channel, no_channel, backend_control_lost, open_channel,
}
use iot_ftp_upload_gateway.Server.Session.Lines.{tell_client, last_word}
use iot_ftp_upload_gateway.Server.Session.Upload.{attempt, with_channel, begin_attempt, end_attempt}
use iot_ftp_upload_gateway.Server.Session.Loop.{handle, begin_session, serve, release_active}
use iot_ftp_upload_gateway.Server.Session.Effects.{tell_client-moves, last_word-moves}
use iot_ftp_upload_gateway.Server.Session.Effects.Upload.{attempt-moves}
use iot_ftp_upload_gateway.Server.Session.Effects.Loop.{IsClientLine}
use iot_ftp_upload_gateway.Server.Session.Effects.Whole.{serve-moves}
use iot_ftp_upload_gateway.Server.Session.Slots.{
  slot_in, in_flight, HasPermit, settled_same, place, Still, Done, Holds, dropped, Holds-Still,
  Still-Done, order, Still-closed, Still-attempts,
}
use iot_ftp_upload_gateway.Server.Session.Slots.Opening.{Opens, open_channel-Opens}

module _ (cfg : SessionConfig) (backend : Text) (source : Ipv4Addr) where
  -- What the peers are told where there is no channel leaves the slot alone.
  told :
      (word : Text) (env : Env) (u v : World)
      → Done cfg backend source u v
      → Done cfg backend source u (last_word {A = Unit {0}} word env v).1
  told word env u v k = (order cfg backend source).both k (
      Still-Done cfg backend source v _
        ((last_word-moves (Still-closed cfg backend source) (Unit {0}) word).from env v))

  refused :
      (word : Text) (env : Env) (u v : World)
      → Done cfg backend source u v
      → Done cfg backend source u (tell_client word env v).1
  refused word env u v k = (order cfg backend source).both k (
      Still-Done cfg backend source v _
        ((tell_client-moves (Still-closed cfg backend source) word).from env v))

  stored :
      (line : Text)
      → IsClientLine line
      → (env : Env) (u : World) (x : Flow Channel × World)
      → Opens cfg backend source (place cfg backend source u) x
      → Done cfg backend source u (after x λ outcome v. with_channel cfg line outcome env v).1
  unfolding Opens Done Holds with_channel Still place
  stored line h env u (go (channel local), v) k =
      let attempted = end_attempt (attempt cfg line env (begin_attempt v)).1 in
      dropped cfg backend source local u attempted (
        Holds-Still cfg backend source local u v attempted k (
          (attempt-moves cfg (Still-closed cfg backend source) (Still-attempts cfg backend source)
              line h).from
            env (begin_attempt v)))
  stored line h env u (go no_channel, v) k = refused cannot_open_data env u v k
  stored line h env u (go backend_control_lost, v) k = told service_not_available env u v k
  stored line h env u (stop, v) k = k

  upload-Done :
      (local : Option Ipv4Addr) (line : Text)
      → IsClientLine line
      → Moves (Done cfg backend source) (open_channel cfg local >>= with_channel cfg line)
  upload-Done local line h = record {
    from = λ env w.
        stored line h env w (open_channel cfg local env w)
          (open_channel-Opens cfg backend source local env w);
  }

  serve-Done : (n : ℕ) → Moves (Done cfg backend source) (serve cfg n)
  unfolding Done place
  serve-Done n =
      serve-moves cfg (Still-closed cfg backend source) (order cfg backend source)
        (Still-Done cfg backend source) (λ active pool w. settled_same (place cfg backend source w))
        upload-Done n

  ended :
      (active : Option ℕ) (u v : World)
      → Done cfg backend source u v
      → Done cfg backend source u (release_active active v)
  unfolding Done place
  ended none u v h = h
  ended (some port) u v h = h

-- However a session goes and ends, as many transfers hold a permit of a backend and a source address
-- afterwards as before, and a permit of theirs is free. It must be that one was free before, or that
-- the two had no slot yet.
pub handle-in_flight :
    (cfg : SessionConfig) (n : ℕ) (env : Env) (w : World) (backend : Text) (source : Ipv4Addr)
    → HasPermit (slot_in backend source w)
    → HasPermit (slot_in backend source (handle cfg n env w).1)
      × (in_flight backend source (handle cfg n env w).1 ≡ in_flight backend source w)
unfolding handle Done place
handle-in_flight cfg n env w backend source h =
    let v = (serve cfg n env (begin_session w)).1 in
    ended cfg backend source v.active_pasv (begin_session w) v
      ((serve-Done cfg backend source n).from env (begin_session w)) h
