-- ===== src/Backend/Tls/Negotiation.antt =====
-- What a negotiation that succeeds has sent, and how much of the stream a reply takes.
use iot_ftp_upload_gateway.Base.{
  ℕ, ◌≡◌, refl, ap, subst, ◌∙◌, Bool, true, false, List, ◌∷◌, ◌++◌, Text, codes, crlf,
  if◌then◌else◌,
}
use iot_ftp_upload_gateway.Io.{ErrorKind, IoResult, ok, err, invalid_data}
use iot_ftp_upload_gateway.Run.{
  Env, World, Event, to_backend, Flow, go, stop, ◌>>=◌, ◌>>◌, pure, ask,
}
use iot_ftp_upload_gateway.Run.Triples.{Triple, then_triple, triple_of_moves}
use iot_ftp_upload_gateway.Backend.Tls.{
  command_expecting, protect_data, secure, handshake_result, shake_hands, negotiate_explicit_ftps,
}
use iot_ftp_upload_gateway.Backend.Tls.Replies.{command_expecting-Sent}

-- What was sent so far, and whether the session is protected.
record At (events : List Event) (b : Bool) (w : World) : Type 0 where
  sent : w.trace ≡ events
  on : w.secured ≡ b

-- The three commands of a negotiation in order, the last first: one in the clear, two protected.
abbrev pub negotiated : List Event → List Event
negotiated before =
    to_backend true (codes "PROT P" ++ crlf)
    ∷ to_backend true (codes "PBSZ 0" ++ crlf)
    ∷ to_backend false (codes "AUTH TLS" ++ crlf)
    ∷ before

-- A negotiation that succeeded has sent the three commands; one that did not may end anywhere.
Complete : List Event → Flow (IoResult (Unit {0})) → World → Type 0
Complete before (go (ok _)) w = At (negotiated before) true w
Complete before (go (err kind)) w = Unit
Complete before stop w = Unit

any_end :
    (before : List Event) (b : Bool) (events : List Event) (kind : ErrorKind)
    → Triple (At events b) (pure (err kind)) (Complete before)
unfolding Complete
any_end before b events kind = record { from = λ env w h. tt }

command-At :
    (events : List Event) (b : Bool) (command expected : Text)
    → Triple
        (At events b)
        (command_expecting command expected)
        (λ _. At (to_backend b (command ++ crlf) ∷ events) b)
command-At events b command expected =
    triple_of_moves (command_expecting-Sent command expected) λ r u v p h. record {
      sent =
          h.trace_eq
          ∙ ap (λ (c : Bool). to_backend c (command ++ crlf) ∷ u.trace) p.on
          ∙ ap (λ (es : List Event). to_backend b (command ++ crlf) ∷ es) p.sent;
      on = h.secured_eq ∙ p.on;
    }

asked-At :
    {A : Type 0} (events : List Event) (b : Bool) (f : Env → ℕ → A)
    → Triple (At events b) (ask f) (λ _. At events b)
asked-At events b f = record { from = λ env w h. record { sent = h.sent; on = h.on } }

abbrev clear : List Event → List Event
clear before = to_backend false (codes "AUTH TLS" ++ crlf) ∷ before

abbrev size : List Event → List Event
size before = to_backend true (codes "PBSZ 0" ++ crlf) ∷ clear before

prot-Complete :
    (before : List Event)
    → Triple
        (At (size before) true)
        (command_expecting (codes "PROT P") (codes "200"))
        (Complete before)
unfolding Complete
prot-Complete before = record {
  from = λ env w h.
      completes _ _ ((command-At (size before) true (codes "PROT P") (codes "200")).from env w h);
}
  where
    completes :
        (r : Flow (IoResult (Unit {0}))) (w : World)
        → At (negotiated before) true w
        → Complete before r w
    completes (go (ok _)) w h = h
    completes (go (err kind)) w h = tt
    completes stop w h = tt

after_pbsz :
    (before : List Event) (x : IoResult (Unit {0}))
    → Triple
        (At (size before) true)
        (elim x [
          | err kind ↦ pure (err kind)
          | ok _ ↦ command_expecting (codes "PROT P") (codes "200")
        ])
        (Complete before)
after_pbsz before (err kind) = any_end before true (size before) kind
after_pbsz before (ok _) = prot-Complete before

protect_data-Complete :
    (before : List Event) → Triple (At (clear before) true) protect_data (Complete before)
unfolding protect_data Complete
protect_data-Complete before =
    then_triple (command-At (clear before) true (codes "PBSZ 0") (codes "200")) (λ w h. tt)
      (after_pbsz before)

after_handshake :
    (before : List Event) (x : IoResult (Unit {0}))
    → Triple
        (At (clear before) false)
        (elim x [ err kind ↦ pure (err kind) | ok _ ↦ do secure; protect_data ])
        (Complete before)
after_handshake before (err kind) = any_end before false (clear before) kind
after_handshake before (ok _) = record {
  from = λ env w h.
      (protect_data-Complete before).from env (record w { secured = true })
        (record { sent = h.sent; on = refl });
}

shake_hands-Complete :
    (before : List Event) → Triple (At (clear before) false) shake_hands (Complete before)
unfolding shake_hands Complete
shake_hands-Complete before =
    then_triple (asked-At (clear before) false (λ env t. env.handshake t)) (λ w h. tt)
      λ answer. after_handshake before (handshake_result answer)

unless_ahead :
    (before : List Event) (b : Bool)
    → Triple
        (At (clear before) false)
        (if b then pure (err invalid_data) else shake_hands)
        (Complete before)
unless_ahead before true = any_end before false (clear before) invalid_data
unless_ahead before false = shake_hands-Complete before

after_auth :
    (before : List Event) (x : IoResult (Unit {0}))
    → Triple
        (At (clear before) false)
        (elim x [
          | err kind ↦ pure (err kind)
          | ok _ ↦ do
            ahead ← ask λ env t. env.buffered t
            if ahead then pure (err invalid_data) else shake_hands
        ])
        (Complete before)
unfolding Complete
after_auth before (err kind) = any_end before false (clear before) kind
after_auth before (ok _) =
    then_triple (asked-At (clear before) false (λ env t. env.buffered t)) (λ w h. tt)
      (unless_ahead before)

negotiate-Complete :
    (before : List Event) → Triple (At before false) negotiate_explicit_ftps (Complete before)
unfolding negotiate_explicit_ftps Complete
negotiate-Complete before =
    then_triple (command-At before false (codes "AUTH TLS") (codes "234")) (λ w h. tt)
      (after_auth before)

-- A negotiation on a connection in the clear that succeeds has sent AUTH TLS in the clear and then
-- PBSZ 0 and PROT P under TLS, and nothing else, and what follows is protected.
pub negotiate_explicit_ftps-sends :
    (env : Env) (w : World)
    → w.secured ≡ false
    → (negotiate_explicit_ftps env w).0 ≡ go (ok tt)
    → ((negotiate_explicit_ftps env w).1.trace ≡ negotiated w.trace)
      × ((negotiate_explicit_ftps env w).1.secured ≡ true)
unfolding Complete
negotiate_explicit_ftps-sends env w plain done =
    let h =
      subst (λ r. Complete w.trace r (negotiate_explicit_ftps env w).1) done
        ((negotiate-Complete w.trace).from env w (record { sent = refl; on = plain })) in
    (h.sent, h.on)
