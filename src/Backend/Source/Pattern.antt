-- ===== src/Backend/Source/Pattern.antt =====
-- What a pattern means, and how its meaning goes along with one step of the matcher.
use iot_ftp_upload_gateway.Base.{
  ℕ, suc, ◌+◌, ◌*◌, ◌≡◌, ◌≢◌, refl, ap, Bool, true, false, ◌&&◌, ◌||◌, [], ◌∷◌, arith, ◌==◌,
  if◌then◌else◌, Text, all,
}
use iot_ftp_upload_gateway.Backend.Source.{consume, star_met, mismatch, turn_of}

-- A text matches from some position on.
abbrev pub any_suffix : (Text → Bool) → Text → Bool
any_suffix m [] = m []
any_suffix m (c ∷ t) = m (c ∷ t) || any_suffix m t

-- The first character fits, and the rest matches.
abbrev pub first_fits : ℕ → (Text → Bool) → Text → Bool
first_fits d m [] = false
first_fits d m (c ∷ t) = (d == b'?' || d == c) && m t

-- What a pattern means: `*` stands for any run of characters, `?` for exactly one.
abbrev pub matches : Text → Text → Bool
matches [] [] = true
matches [] (c ∷ t) = false
matches (d ∷ p) t = if d == b'*' then any_suffix (matches p) t else first_fits d (matches p) t

pub any_suffix_here : (m : Text → Bool) (t : Text) → m t ≡ true → any_suffix m t ≡ true
any_suffix_here m [] h = h
any_suffix_here m (c ∷ t) h = ground (arith, h)

pub any_suffix_twice :
    (m : Text → Bool) (t : Text) → any_suffix (any_suffix m) t ≡ true → any_suffix m t ≡ true
any_suffix_twice m [] h = h
any_suffix_twice m (c ∷ t) h = ground (arith, h, any_suffix_twice m t)

pub any_suffix-first_fits :
    (d c : ℕ) (m : Text → Bool) (t : Text)
    → any_suffix (first_fits d m) (c ∷ t) ≡ true
    → any_suffix m t ≡ true
any_suffix-first_fits d c m [] h = ground (arith, h)
any_suffix-first_fits d c m (e ∷ t) h =
    ground (arith, h, any_suffix_here m (e ∷ t), any_suffix-first_fits d e m t)

pub matches_end : (p : Text) → all (λ c. c == b'*') p ≡ matches p []
matches_end [] = refl
matches_end (d ∷ p) = ground (arith, matches_end p)

pub suc-mul : (m k : ℕ) → suc m * k ≡ m * k + k
suc-mul m k = omega arith

pub consume_fits :
    (d c : ℕ)
    → c ≢ b'*'
    → turn_of d c ≡ consume
    → ((d == b'?' || d == c) ≡ true) × ((d == b'*') ≡ false)
consume_fits d c h e = (ground (arith, e), ground (arith, e, h))

pub star_meets : (d c : ℕ) → turn_of d c ≡ star_met → (d == b'*') ≡ true
star_meets d c e = ground (arith, e)

pub mismatch-matches :
    (d c : ℕ) (p t : Text) → turn_of d c ≡ mismatch → matches (d ∷ p) (c ∷ t) ≡ false
mismatch-matches d c p t e = ground (arith, e)

pub consume-matches :
    (d c : ℕ) (p t : Text)
    → (d == b'?' || d == c) ≡ true
    → (d == b'*') ≡ false
    → matches (d ∷ p) (c ∷ t) ≡ matches p t
consume-matches d c p t fits plain = ground (arith, fits, plain)

pub star-matches :
    (d : ℕ) (p t : Text) → (d == b'*') ≡ true → matches (d ∷ p) t ≡ any_suffix (matches p) t
star-matches d p t e =
    ap (λ (b : Bool). if b then any_suffix (matches p) t else first_fits d (matches p) t) e

pub star_suffix :
    (d : ℕ) (p t : Text)
    → (d == b'*') ≡ true
    → any_suffix (matches (d ∷ p)) t ≡ any_suffix (any_suffix (matches p)) t
star_suffix d p t e =
    ap
      (λ (b : Bool).
        any_suffix (λ s. if b then any_suffix (matches p) s else first_fits d (matches p) s) t)
      e

pub plain_suffix :
    (d : ℕ) (p t : Text)
    → (d == b'*') ≡ false
    → any_suffix (matches (d ∷ p)) t ≡ any_suffix (first_fits d (matches p)) t
plain_suffix d p t e =
    ap
      (λ (b : Bool).
        any_suffix (λ s. if b then any_suffix (matches p) s else first_fits d (matches p) s) t)
      e

pub fuel_enough : (a b : ℕ) → (a + 1) * (b + 1) ≡ a * (b + 1) + (b + 1)
fuel_enough a b = omega arith
