-- ===== src/Backend/Rotator/Candidates.antt =====
-- Which source addresses a new session tries, and in which order.
use iot_ftp_upload_gateway.Base.{
  ℕ, zero, suc, ◌+◌, ◌-◌, ◌%◌, ◌≤◌, ◌<◌, ◌≡◌, refl, sym, ap, ◌∙◌, Bool, false, not, List, [], ◌∷◌,
  ◌++◌, Option, none, some, arith, ◌==◌, if◌then◌else◌, length, get_elem?, get_elem?-lt, keep, take,
  drop, Text,
}
use native.Mathlib.Nat.{mod-eq_of_lt, add-mod_right, mod-lt}
use iot_ftp_upload_gateway.Backend.Rotator.{
  State, push_found, ordered_from, advances_of, is_unhealthy, candidates_at,
}

-- A list from its element `k` on, and then from its start.
abbrev pub rotate : ℕ → List ℕ → List ℕ
rotate k xs = drop k xs ++ take k xs

-- Those that pass a test, if any does; otherwise all.
abbrev pub preferred : (ℕ → Bool) → List ℕ → List ℕ
preferred p xs = if length (keep p xs) == 0 then xs else keep p xs

drop-get_elem? :
    (k : ℕ) (xs : List ℕ) (x : ℕ) → get_elem? xs k ≡ some x → drop k xs ≡ x ∷ drop (suc k) xs
drop-get_elem? zero [] x h = cc
drop-get_elem? zero (y ∷ ys) x h = cc
drop-get_elem? (suc k) [] x h = cc
drop-get_elem? (suc k) (y ∷ ys) x h = drop-get_elem? k ys x h

push_found-append :
    (o : Option ℕ) (xs ys : List ℕ) → push_found o (xs ++ ys) ≡ push_found o xs ++ ys
push_found-append none xs ys = refl
push_found-append (some x) xs ys = refl

module _ (xs : List ℕ) (start : ℕ) where
  -- A run of indices that stays within the list.
  ordered_from_run :
      (left i k : ℕ)
      → k + left ≤ length xs
      → ((j : ℕ) → j < left → (start + (i + j)) % length xs ≡ k + j)
      → ordered_from xs start i left ≡ take left (drop k xs)
  unfolding ordered_from
  ordered_from_run zero i k h e = refl
  ordered_from_run (suc left) i k h e =
      let (x, found) = get_elem?-lt xs k (omega (arith, h)) in
      ap (λ (n : ℕ). push_found (get_elem? xs (n % length xs)) (ordered_from xs start (i + 1) left))
        (omega arith)
      ∙ ap (λ (n : ℕ). push_found (get_elem? xs n) (ordered_from xs start (i + 1) left))
          (e 0 (omega arith) ∙ omega arith)
      ∙ ap (λ (o : Option ℕ). push_found o (ordered_from xs start (i + 1) left)) found
      ∙ ap (λ (ys : List ℕ). x ∷ ys)
          (ordered_from_run left (i + 1) (suc k) (omega (arith, h)) (λ j l.
            ap (λ (n : ℕ). n % length xs) (omega arith)
            ∙ e (suc j) (omega (arith, l))
            ∙ omega arith))
      ∙ ap (take (suc left)) (sym (drop-get_elem? k xs x found))

  ordered_from-+ :
      (a b i : ℕ)
      → ordered_from xs start i (a + b)
        ≡ ordered_from xs start i a ++ ordered_from xs start (i + a) b
  unfolding ordered_from
  ordered_from-+ zero b i =
      ap (λ (n : ℕ). ordered_from xs start i n) (omega arith)
      ∙ ap (λ (n : ℕ). ordered_from xs start n b) (omega arith)
  ordered_from-+ (suc a) b i =
      ap (λ (n : ℕ). ordered_from xs start i n) (suc_out a b)
      ∙ ap (push_found (get_elem? xs ((start + i) % length xs))) (
          ordered_from-+ a b (i + 1)
          ∙ ap (λ (n : ℕ). ordered_from xs start (i + 1) a ++ ordered_from xs start n b)
              (omega arith))
      ∙ push_found-append (get_elem? xs ((start + i) % length xs)) _ _
    where
      suc_out : (a b : ℕ) → suc a + b ≡ suc (a + b)
      suc_out a b = omega arith

take-all : (k : ℕ) (xs : List ℕ) → k ≡ length xs → take k xs ≡ xs
take-all zero [] h = refl
take-all zero (x ∷ xs) h = absurd (omega (arith, h))
take-all (suc k) [] h = refl
take-all (suc k) (x ∷ xs) h = ap (λ (ys : List ℕ). x ∷ ys) (take-all k xs (omega (arith, h)))

length-drop : (k : ℕ) (xs : List ℕ) → k ≤ length xs → length (drop k xs) ≡ length xs - k
length-drop zero xs h = omega arith
length-drop (suc k) [] h = absurd (omega (arith, h))
length-drop (suc k) (x ∷ xs) h = omega (arith, length-drop k xs (omega (arith, h)))

-- The list in order from `start` on is the list rotated.
ordered_from-rotate :
    (xs : List ℕ) (start : ℕ)
    → start < length xs
    → ordered_from xs start 0 (length xs) ≡ rotate start xs
ordered_from-rotate xs start h =
    ap (λ (n : ℕ). ordered_from xs start 0 n) (omega (arith, h))
    ∙ ordered_from-+ xs start (length xs - start) start 0
    ∙ ap (λ (ys : List ℕ). ys ++ ordered_from xs start (0 + (length xs - start)) start)
        (ordered_from_run xs start (length xs - start) 0 start (omega (arith, h))
            (λ j l. mod-eq_of_lt (omega (arith, l)) ∙ omega arith)
          ∙ take-all (length xs - start) (drop start xs)
              (sym (length-drop start xs (omega (arith, h)))))
    ∙ ap (λ (ys : List ℕ). drop start xs ++ ys)
        (ordered_from_run xs start start (0 + (length xs - start)) 0 (omega (arith, h)) (λ j l.
          ap (λ (n : ℕ). n % length xs) (wrapped j)
          ∙ add-mod_right j (length xs)
          ∙ mod-eq_of_lt (omega (arith, l, h))
          ∙ omega arith))
  where
    wrapped : (j : ℕ) → start + (0 + (length xs - start) + j) ≡ j + length xs
    wrapped j = omega (arith, h)

ne-zero : (n : ℕ) → 0 < n → (n == 0) ≡ false
ne-zero n h = ground (arith, h)

-- A new session tries the source addresses from its backend's current one on, in a circle: the
-- healthy ones, or all of them where none is healthy.
pub candidates_at-rotate :
    (backend : Text) (now : ℕ) (state : State)
    → 0 < length state.sources
    → candidates_at backend now state
      ≡ preferred
          (λ ip. not (is_unhealthy state ip now))
          (rotate (advances_of backend state % length state.sources) state.sources)
unfolding candidates_at
candidates_at-rotate backend now state h =
    let start = advances_of backend state % length state.sources in
    let prefer = preferred (λ ip. not (is_unhealthy state ip now)) in
    ap
      (λ (empty : Bool).
        if empty then [] else prefer (ordered_from state.sources start 0 (length state.sources)))
      (ne-zero (length state.sources) h)
    ∙ ap prefer (ordered_from-rotate state.sources start (mod-lt _ h))
