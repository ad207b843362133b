-- ===== src/Server/Session/Secrecy/Negotiation.antt =====
-- The negotiation of TLS: where it succeeds, the session is protected.
use iot_ftp_upload_gateway.Base.{ℕ, ◌≡◌, refl, Bool, true, false, Text, codes, if◌then◌else◌}
use iot_ftp_upload_gateway.Io.{ErrorKind, IoResult, ok, err, invalid_data}
use iot_ftp_upload_gateway.Backend.Tls.{
  protect_data, secure, handshake_result, shake_hands, negotiate_explicit_ftps,
}
use iot_ftp_upload_gateway.Run.{Env, World, to_backend, Flow, go, stop, Run, ◌>>=◌, ◌>>◌, pure, ask}
use iot_ftp_upload_gateway.Run.Moves.{Moves, ask_moves}
use iot_ftp_upload_gateway.Run.Triples.{Triple, then_triple, triple_of_moves}
use iot_ftp_upload_gateway.Server.Session.Config.{SessionConfig}
use iot_ftp_upload_gateway.Server.Session.Effects.{Closed}
use iot_ftp_upload_gateway.Server.Session.Effects.Backend.{
  command_expecting-moves, protect_data-moves,
}
use iot_ftp_upload_gateway.Server.Session.Secrecy.{
  auth_tls, IsSecret, IsSafe, IsSecure, KeepsSecure, closed,
}

-- A change of a session that only asks for TLS.
unfoldable pub KeepsSafe : World → World → Type 0
KeepsSafe u v = IsSafe u → IsSafe v

auth-IsSecret : (b : Bool) (text : Text) → text ≡ auth_tls → IsSecret (to_backend b text)
auth-IsSecret true text e = tt
auth-IsSecret false text e = e

pub starting : Closed (λ text. text ≡ auth_tls) (λ text. text ≡ auth_tls) (λ _. Unit {0}) KeepsSafe
unfolding KeepsSafe IsSafe
starting = record {
  order = record { same = λ w h. h; both = λ f g h. g (f h) };
  ticked = λ w h. h;
  told = λ text w h. (tt, h);
  sent = λ {text = text} e w h. (auth-IsSecret w.secured text e, h);
  forwarded = λ {text = text} e w h. (auth-IsSecret w.secured text e, h);
  met = λ welcome w h. (tt, h);
  reached = λ addr w h. (tt, h);
  observed = λ o w h. h;
  blamed = λ source kind now w h. h;
  made_secure = λ w h. h;
}

-- Safe whether it went on or stopped, from moves that only ask for TLS.
pub stays-IsSafe : {A : Type 0} {m : Run A} → Moves KeepsSafe m → Triple IsSafe m (λ _. IsSafe)
unfolding KeepsSafe
stays-IsSafe h = triple_of_moves h λ r u v p k. k p

-- The negotiation: where it succeeds, the session is protected.
unfoldable pub Negotiated : Flow (IoResult (Unit {0})) → World → Type 0
Negotiated (go (ok _)) w = IsSecure w
Negotiated (go (err kind)) w = IsSafe w
Negotiated stop w = IsSafe w

secure-Negotiated : (r : Flow (IoResult (Unit {0}))) (w : World) → IsSecure w → Negotiated r w
unfolding Negotiated
secure-Negotiated (go (ok _)) w h = h
secure-Negotiated (go (err kind)) w h = h.safe
secure-Negotiated stop w h = h.safe

failed-IsSafe : (kind : ErrorKind) → Triple IsSafe (pure (err kind)) Negotiated
unfolding Negotiated
failed-IsSafe kind = record { from = λ env w h. h }

after_handshake :
    (cfg : SessionConfig) (x : IoResult (Unit {0}))
    → Triple IsSafe
        (elim x [ err kind ↦ pure (err kind) | ok _ ↦ do secure; protect_data ])
        Negotiated
unfolding KeepsSecure IsSafe
after_handshake cfg (err kind) = failed-IsSafe kind
after_handshake cfg (ok _) = record {
  from = λ env w h. secure-Negotiated _ _ (
      (protect_data-moves (closed cfg)).from env (record w { secured = true })
        (record { safe = h; on = refl }));
}

asked : {A : Type 0} (f : Env → ℕ → A) → Triple IsSafe (ask f) (λ _. IsSafe)
asked f = stays-IsSafe (ask_moves f starting.ticked)

stopped_safe : (w : World) → IsSafe w → Negotiated stop w
unfolding Negotiated
stopped_safe w h = h

shake_hands-Negotiated : (cfg : SessionConfig) → Triple IsSafe shake_hands Negotiated
unfolding shake_hands
shake_hands-Negotiated cfg =
    then_triple (asked (λ env t. env.handshake t)) stopped_safe
      λ answer. after_handshake cfg (handshake_result answer)

unless_ahead :
    (cfg : SessionConfig) (b : Bool)
    → Triple IsSafe (if b then pure (err invalid_data) else shake_hands) Negotiated
unless_ahead cfg true = failed-IsSafe invalid_data
unless_ahead cfg false = shake_hands-Negotiated cfg

after_auth :
    (cfg : SessionConfig) (x : IoResult (Unit {0}))
    → Triple IsSafe
        (elim x [
          | err kind ↦ pure (err kind)
          | ok _ ↦ do
            ahead ← ask λ env t. env.buffered t
            if ahead then pure (err invalid_data) else shake_hands
        ])
        Negotiated
after_auth cfg (err kind) = failed-IsSafe kind
after_auth cfg (ok _) =
    then_triple (asked (λ env t. env.buffered t)) stopped_safe (unless_ahead cfg)

pub negotiate-Negotiated : (cfg : SessionConfig) → Triple IsSafe negotiate_explicit_ftps Negotiated
unfolding negotiate_explicit_ftps
negotiate-Negotiated cfg =
    then_triple
      (stays-IsSafe (command_expecting-moves starting (codes "AUTH TLS") (codes "234") refl))
      stopped_safe (after_auth cfg)
