-- ===== src/Server/Session/Secrecy.antt =====
-- What a session sends to its backend in the clear, where TLS toward the backend is on.
pub mod Negotiation
pub mod Start
use iot_ftp_upload_gateway.Base.{
  ℕ, ◌+◌, ◌≡◌, refl, sym, ap, ◌∙◌, Bool, true, false, List, [], ◌∷◌, ◌++◌, Option, none, some, Text,
  All, codes, crlf, if◌then◌else◌,
}
use iot_ftp_upload_gateway.Io.{ErrorKind, IoResult, ok, err, Timed, invalid_data}
use iot_ftp_upload_gateway.Net.{Ipv4Addr, SocketAddr}
use iot_ftp_upload_gateway.Metrics.{observe_backend_io_error}
use iot_ftp_upload_gateway.Pasv.PortManager.{PortManager}
use iot_ftp_upload_gateway.Backend.Tls.{
  command_expecting, protect_data, secure, handshake_result, shake_hands, negotiate_explicit_ftps,
}
use iot_ftp_upload_gateway.Run.{
  Env, World, Event, to_client, to_backend, data_accepted, data_connected, Flow, go, stop, Run,
  ◌>>=◌, ◌>>◌, pure, ask, measure,
}
use iot_ftp_upload_gateway.Run.Moves.{Order, Moves, ask_moves}
use iot_ftp_upload_gateway.Run.Triples.{Triple, then_triple, triple_of_moves}
use iot_ftp_upload_gateway.Server.Session.Config.{SessionConfig, service_not_available}
use iot_ftp_upload_gateway.Server.Session.Lines.{last_word, tell_client, backend_line}
use iot_ftp_upload_gateway.Server.Session.Connect.{
  Connected, unconnected, connected, connect_any, unless_closed, secure_backend, establish,
}
use iot_ftp_upload_gateway.Server.Session.Channel.{expected_ip}
use iot_ftp_upload_gateway.Server.Session.Loop.{
  handle, begin_session, end_session, serve, rounds, release_active,
}
use iot_ftp_upload_gateway.Server.Session.Effects.{
  Closed, OwnCommand, measure-moves, io_failed, last_word-moves, tell_client-moves,
  backend_line-moves, unless_closed-moves, and_then,
}
use iot_ftp_upload_gateway.Server.Session.Effects.Backend.{
  command_expecting-moves, protect_data-moves,
}
use iot_ftp_upload_gateway.Server.Session.Effects.Start.{connect_any-moves}
use iot_ftp_upload_gateway.Server.Session.Effects.Channel.{IsWelcome}
use iot_ftp_upload_gateway.Server.Session.Effects.Upload.{Attempts, with_channel-moves}
use iot_ftp_upload_gateway.Server.Session.Effects.Loop.{IsClientLine}

abbrev pub auth_tls : Text
auth_tls = codes "AUTH TLS" ++ crlf

-- Nothing in the clear but the request for TLS.
abbrev pub IsSecret : Event → Type 0
IsSecret (to_backend true text) = Unit
IsSecret (to_backend false text) = text ≡ auth_tls
IsSecret (to_client text) = Unit
IsSecret (data_accepted peer) = Unit
IsSecret (data_connected addr) = Unit

pub IsSafe : World → Type 0
IsSafe w = All IsSecret w.trace

-- Safe, and protected from here on.
pub record IsSecure (w : World) : Type 0 where
  pub safe : IsSafe w
  pub on : w.secured ≡ true

-- A change of a protected session.
pub KeepsSecure : World → World → Type 0
KeepsSecure u v = IsSecure u → IsSecure v

IsSecret-if : (b : Bool) (text : Text) → b ≡ true → IsSecret (to_backend b text)
IsSecret-if true text e = tt
IsSecret-if false text e = cc

sent_safe :
    (text : Text) (w : World)
    → IsSecure w
    → IsSecure (record w { trace = to_backend w.secured text ∷ w.trace })
unfolding IsSafe
sent_safe text w h = record { safe = (IsSecret-if w.secured text h.on, h.safe); on = h.on }

pub quiet : {u v : World} → v.trace ≡ u.trace → v.secured ≡ u.secured → IsSecure u → IsSecure v
unfolding IsSafe
quiet e k h = record { safe = rw (e) h.safe; on = k ∙ h.on }

told_safe :
    (e : Event) (w : World) → IsSecret e → IsSecure w → IsSecure (record w { trace = e ∷ w.trace })
unfolding IsSafe
told_safe e w k h = record { safe = (k, h.safe); on = h.on }

pub secure_order : Order KeepsSecure
unfolding KeepsSecure
secure_order = record { same = λ w h. h; both = λ f g h. g (f h) }

pub closed :
    (cfg : SessionConfig) → Closed OwnCommand IsClientLine (IsWelcome (expected_ip cfg)) KeepsSecure
unfolding KeepsSecure IsSafe
closed cfg = record {
  order = secure_order;
  ticked = λ w. quiet refl refl;
  told = λ text w. told_safe (to_client text) w tt;
  sent = λ {text = text} own w. sent_safe text w;
  forwarded = λ {text = text} line w. sent_safe text w;
  met = λ {peer = peer} welcome w. told_safe (data_accepted peer) w tt;
  reached = λ addr w. told_safe (data_connected addr) w tt;
  observed = λ o w. quiet refl refl;
  blamed = λ source kind now w. quiet refl refl;
  made_secure = λ w h. record { safe = h.safe; on = refl };
}

pub attempts : Attempts KeepsSecure KeepsSecure KeepsSecure
unfolding KeepsSecure
attempts = record {
  quiet = λ u v h. h;
  before = λ u v w h k a. k (h a);
  confirmed = λ u v h a. h (quiet refl refl a);
  uploaded = λ u v h a. quiet refl refl (h (quiet refl refl a));
  attempted = λ u v h a. quiet refl refl (h (quiet refl refl a));
  settled = λ u v h. h;
  settled_after = λ u v w h k a. k (h a);
}
