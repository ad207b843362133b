-- ===== src/Server/Session/Commands.antt =====
-- What a session sends to its backend, and whom it takes data connections from.
use iot_ftp_upload_gateway.Base.{ℕ, ◌≡◌, Bool, true, Option, none, some, Text, All, arith}
use iot_ftp_upload_gateway.Net.{IpAddr, ip_eq_iff, SocketAddr}
use iot_ftp_upload_gateway.Run.{
  Env, World, Event, to_client, to_backend, data_accepted, data_connected,
}
use iot_ftp_upload_gateway.Run.Moves.{Order, Moves}
use iot_ftp_upload_gateway.Server.Session.Config.{SessionConfig}
use iot_ftp_upload_gateway.Server.Session.Channel.{expected_ip}
use iot_ftp_upload_gateway.Server.Session.Loop.{handle, begin_session, serve, release_active}
use iot_ftp_upload_gateway.Server.Session.Effects.{Closed, OwnCommand}
use iot_ftp_upload_gateway.Server.Session.Effects.Channel.{IsWelcome}
use iot_ftp_upload_gateway.Server.Session.Effects.Upload.{Attempts, upload-moves}
use iot_ftp_upload_gateway.Server.Session.Effects.Loop.{IsClientLine}
use iot_ftp_upload_gateway.Server.Session.Effects.Whole.{serve-moves}

-- Every event of the trace is as `P` says, if it was before.
pub KeepsAll : (Event → Type 0) → World → World → Type 0
KeepsAll P u v = All P u.trace → All P v.trace

pub record Allows (cfg : SessionConfig) (P : Event → Type 0) : Type 0 where
  pub told : (text : Text) → P (to_client text)
  pub sent : {text : Text} → OwnCommand text → (b : Bool) → P (to_backend b text)
  pub forwarded : {text : Text} → IsClientLine text → (b : Bool) → P (to_backend b text)
  pub met : {peer : SocketAddr} → IsWelcome (expected_ip cfg) peer → P (data_accepted peer)
  pub reached : (addr : SocketAddr) → P (data_connected addr)

module _ (P : Event → Type 0) where
  order : Order (KeepsAll P)
  unfolding KeepsAll
  order = record { same = λ w h. h; both = λ f g h. g (f h) }

  attempts : Attempts (KeepsAll P) (KeepsAll P) (KeepsAll P)
  unfolding KeepsAll
  attempts = record {
    quiet = λ u v h. h;
    before = λ u v w h k a. k (h a);
    confirmed = λ u v h. h;
    uploaded = λ u v h. h;
    attempted = λ u v h. h;
    settled = λ u v h. h;
    settled_after = λ u v w h k a. k (h a);
  }

  begin_session-All : (w : World) → All P w.trace → All P (begin_session w).trace
  begin_session-All w h = h

  end_session-All :
      (active : Option ℕ) (w : World) → All P w.trace → All P (release_active active w).trace
  end_session-All none w h = h
  end_session-All (some port) w h = h

  module _ (cfg : SessionConfig) (allows : Allows cfg P) where
    closed : Closed OwnCommand IsClientLine (IsWelcome (expected_ip cfg)) (KeepsAll P)
    unfolding KeepsAll
    closed = record {
      order = order;
      ticked = λ w h. h;
      told = λ text w h. (allows.told text, h);
      sent = λ own w h. (allows.sent own w.secured, h);
      forwarded = λ line w h. (allows.forwarded line w.secured, h);
      met = λ welcome w h. (allows.met welcome, h);
      reached = λ addr w h. (allows.reached addr, h);
      observed = λ o w h. h;
      blamed = λ source kind now w h. h;
      made_secure = λ w h. h;
    }

    serve-KeepsAll : (n : ℕ) → Moves (KeepsAll P) (serve cfg n)
    unfolding KeepsAll
    serve-KeepsAll n =
        serve-moves cfg closed order (λ u v h. h) (λ active pool w h. h)
          (upload-moves cfg closed attempts (λ r w h. h) order) n

    pub handle-All :
        (n : ℕ) (env : Env) (w : World) → All P w.trace → All P (handle cfg n env w).1.trace
    unfolding handle KeepsAll
    handle-All n env w h =
        let v = (serve cfg n env (begin_session w)).1 in
        end_session-All v.active_pasv v ((serve-KeepsAll n).from env (begin_session w) h)

-- What may go to the backend: the gateway's own commands, and lines of the client that hold one
-- supported command.
pub data Sendable (text : Text) : Type 0 where
  own : OwnCommand text → Sendable text
  client_line : IsClientLine text → Sendable text

abbrev pub IsSendable : Event → Type 0
IsSendable (to_client text) = Unit
IsSendable (to_backend b text) = Sendable text
IsSendable (data_accepted peer) = Unit
IsSendable (data_connected addr) = Unit

abbrev pub IsPeer : IpAddr → Event → Type 0
IsPeer ip (data_accepted peer) = peer.ip ≡ ip
IsPeer ip (to_client text) = Unit
IsPeer ip (to_backend b text) = Unit
IsPeer ip (data_connected addr) = Unit

welcome_ip :
    (cfg : SessionConfig) (peer : SocketAddr)
    → cfg.require_data_ip_match ≡ true
    → IsWelcome (expected_ip cfg) peer
    → peer.ip ≡ cfg.client_ip
welcome_ip cfg peer required h = ground (arith, ip_eq_iff peer.ip cfg.client_ip)

-- Where the addresses are to match, every data connection that a session takes comes from the
-- address of its client.
pub handle-IsPeer :
    (cfg : SessionConfig) (n : ℕ) (env : Env) (w : World)
    → cfg.require_data_ip_match ≡ true
    → All (IsPeer cfg.client_ip) w.trace
    → All (IsPeer cfg.client_ip) (handle cfg n env w).1.trace
handle-IsPeer cfg n env w required h =
    handle-All _ cfg
      (record {
        told = λ text. tt;
        sent = λ command b. tt;
        forwarded = λ line b. tt;
        met = λ {peer = peer} welcome. welcome_ip cfg peer required welcome;
        reached = λ addr. tt;
      })
      n env w h
