-- ===== src/Backend/Source/Glob.antt =====
-- The matcher against what a pattern means, for texts without a `*` of their own.
use iot_ftp_upload_gateway.Base.{
  ℕ, zero, suc, ◌+◌, ◌*◌, ◌≤◌, ◌<◌, ◌≡◌, refl, sym, ap, ◌∙◌, Bool, true, false, [], ◌∷◌, none, some,
  arith, Text, Lacks, length, Bool-cases, inl, inr,
}
use iot_ftp_upload_gateway.Backend.Source.{
  Star, retry, Turn, consume, star_met, mismatch, turn_of, glob_loop, glob_match,
}
use iot_ftp_upload_gateway.Backend.Source.Pattern.{
  any_suffix, matches, any_suffix_here, any_suffix_twice, any_suffix-first_fits, matches_end,
  suc-mul, consume_fits, star_meets, mismatch-matches, consume-matches, star-matches, star_suffix,
  plain_suffix, fuel_enough,
}

-- The question that the loop was asked, as a Boolean, and the size of the patterns in play.
module _ (answer : Bool) (k : ℕ) where
  -- What the last `*` stands for: whether its pattern matches from some position on is the answer,
  -- and where it matches at once, so does what is left.
  abbrev pub Kept : ℕ → Text → Text → Star → Type 0
  Kept m p t none = answer ≡ true → matches p t ≡ true
  Kept m p t (some (back, text)) =
      (answer ≡ any_suffix (matches back) text)
      × (matches back text ≡ true → matches p t ≡ true)
      × Lacks b'*' text
      × (length t ≤ length text)
      × (length text ≤ m)
      × (length back < k)

  record Inv (f m : ℕ) (p t : Text) (star : Star) : Type 0 where
    now : matches p t ≡ true → answer ≡ true
    later : answer ≡ true → any_suffix (matches p) t ≡ true
    kept : Kept m p t star
    no_star : Lacks b'*' t
    text_le : length t ≤ m
    pattern_lt : length p < k
    fuel : m * k + length p < f

  -- A fresh start behind a `*`.
  Inv-start :
      (f m : ℕ) (p t : Text)
      → answer ≡ any_suffix (matches p) t
      → Lacks b'*' t
      → length t ≤ m
      → length p < k
      → m * k + length p < f
      → Inv f m p t (some (p, t))
  Inv-start f m p t e lacks hm hk hf = record {
    now = λ h. e ∙ any_suffix_here (matches p) t h;
    later = λ h. sym e ∙ h;
    kept = (e, λ h. h, lacks, omega arith, hm, hk);
    no_star = lacks;
    text_le = hm;
    pattern_lt = hk;
    fuel = hf;
  }

  from_answer : (b : Bool) → (b ≡ true → answer ≡ true) → (answer ≡ true → b ≡ true) → b ≡ answer
  from_answer b f g = elim (Bool-cases b) [
    | inl holds ↦ holds ∙ sym (f holds)
    | inr fails ↦ elim (Bool-cases answer) [
      | inl asked ↦ ground (arith, g asked, fails, asked)
      | inr also ↦ fails ∙ sym also
    ]
  ]

  -- After a mismatch the last `*` takes one character more.
  retry-answer :
      (f m c : ℕ) (p t : Text) (star : Star) (next : Text → Text → Star → Bool)
      → matches p (c ∷ t) ≡ false
      → Inv (suc f) m p (c ∷ t) star
      → ((m' : ℕ) (p' t' : Text)
          → Inv f m' p' t' (some (p', t'))
          → next p' t' (some (p', t')) ≡ answer)
      → retry star next ≡ answer
  retry-answer f m c p t none next fails inv step =
      from_answer false (λ h. ground (arith, h)) (λ h. ground (arith, inv.kept h, fails))
  retry-answer f m c p t (some (back, [])) next fails inv step = absurd (omega (arith, inv.kept.3))
  retry-answer f (zero) c p t (some (back, e ∷ text)) next fails inv step =
      absurd (omega (arith, inv.kept.4))
  retry-answer f (suc m) c p t (some (back, e ∷ text)) next fails inv step = step m back text (
      Inv-start f m back text (ground (arith, inv.kept.0, inv.kept.1, fails)) inv.kept.2.1
        (omega (arith, inv.kept.4)) inv.kept.5 (omega (arith, inv.fuel, inv.kept.5, suc-mul m k)))

  -- One character of each is consumed.
  Kept-consume :
      (m d c : ℕ) (p t : Text) (star : Star)
      → (matches (d ∷ p) (c ∷ t) ≡ true → matches p t ≡ true)
      → Kept m (d ∷ p) (c ∷ t) star
      → Kept m p t star
  Kept-consume m d c p t none down h = λ a. down (h a)
  Kept-consume m d c p t (some (back, text)) down h =
      (h.0, λ a. down (h.1 a), h.2, omega (arith, h.3), h.4, h.5)

  by_turn :
      (f m d c : ℕ) (p t : Text) (star : Star)
      → Inv (suc f) m (d ∷ p) (c ∷ t) star
      → ((m' : ℕ) (p' t' : Text) (star' : Star)
          → Inv f m' p' t' star'
          → glob_loop f p' t' star' ≡ answer)
      → (turn : Turn) → turn_of d c ≡ turn
      → (elim turn [
        | consume ↦ glob_loop f p t star
        | star_met ↦ glob_loop f p (c ∷ t) (some (p, c ∷ t))
        | mismatch ↦ retry star (glob_loop f)
      ])
        ≡ answer
  by_turn f m d c p t star inv next consume e =
      let (fits, plain) = consume_fits d c inv.no_star.0 e in
      next m p t star (record {
        now = λ h. inv.now (consume-matches d c p t fits plain ∙ h);
        later = λ a.
            any_suffix-first_fits d c (matches p) t
              (sym (plain_suffix d p (c ∷ t) plain) ∙ inv.later a);
        kept =
            Kept-consume m d c p t star (λ h. sym (consume-matches d c p t fits plain) ∙ h)
              inv.kept;
        no_star = inv.no_star.1;
        text_le = omega (arith, inv.text_le);
        pattern_lt = omega (arith, inv.pattern_lt);
        fuel = omega (arith, inv.fuel);
      })
  by_turn f m d c p t star inv next star_met e =
      let starred = star_meets d c e in
      next m p (c ∷ t) (some (p, c ∷ t)) (
        Inv-start f m p (c ∷ t)
          (sym (
            from_answer (any_suffix (matches p) (c ∷ t))
              (λ h. inv.now (star-matches d p (c ∷ t) starred ∙ h))
              (λ a.
                any_suffix_twice (matches p) (c ∷ t)
                  (sym (star_suffix d p (c ∷ t) starred) ∙ inv.later a))))
          inv.no_star inv.text_le (omega (arith, inv.pattern_lt)) (omega (arith, inv.fuel)))
  by_turn f m d c p t star inv next mismatch e =
      retry-answer f m c (d ∷ p) t star (glob_loop f) (mismatch-matches d c p t e) inv
        (λ m' p' t' i. next m' p' t' (some (p', t')) i)

  loop-answer :
      (f m : ℕ) (p t : Text) (star : Star) → Inv f m p t star → glob_loop f p t star ≡ answer
  unfolding glob_loop
  loop-answer zero m p t star inv = absurd (omega (arith, inv.fuel))
  loop-answer (suc f) m p [] star inv = matches_end p ∙ from_answer (matches p []) inv.now inv.later
  loop-answer (suc f) m [] (c ∷ t) star inv =
      retry-answer f m c [] t star (glob_loop f) refl inv
        (λ m' p' t' i. loop-answer f m' p' t' (some (p', t')) i)
  loop-answer (suc f) m (d ∷ p) (c ∷ t) star inv =
      by_turn f m d c p t star inv (λ m' p' t' star' i. loop-answer f m' p' t' star' i)
        (turn_of d c) refl

-- The matcher finds out whether a text that holds no `*` matches a pattern, of any number of stars.
pub glob_match-matches :
    (pattern text : Text) → Lacks b'*' text → glob_match pattern text ≡ matches pattern text
unfolding glob_match
glob_match-matches pattern text lacks =
    loop-answer (matches pattern text) (length pattern + 1)
      ((length text + 1) * (length pattern + 1)) (length text) pattern text none
      (record {
        now = λ h. h;
        later = λ h. any_suffix_here (matches pattern) text h;
        kept = λ h. h;
        no_star = lacks;
        text_le = omega arith;
        pattern_lt = omega arith;
        fuel = omega (arith, fuel_enough (length text) (length pattern));
      })

-- A star in the text at the place of the pattern's first star is taken for an ordinary character:
-- a pattern of a star alone does not match a text of a star and more.
pub glob_match_misses : (c : ℕ) (t : Text) → glob_match (b'*' ∷ []) (b'*' ∷ c ∷ t) ≡ false
unfolding glob_match glob_loop
glob_match_misses c t =
    ap (λ (f : ℕ). glob_loop f (b'*' ∷ []) (b'*' ∷ c ∷ t) none) (two_rounds (length t))
  where
    two_rounds : (n : ℕ) → (suc (suc n) + 1) * 2 ≡ suc (suc (n * 2 + 4))
    two_rounds n = omega arith
