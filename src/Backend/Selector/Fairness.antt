-- ===== src/Backend/Selector/Fairness.antt =====
-- How the round robin goes through the backends.
use native.Mathlib.Nat.{mod-lt}
use iot_ftp_upload_gateway.Base.{
  ℕ, zero, suc, ◌+◌, ◌%◌, ◌^◌, ◌<◌, ◌≡◌, refl, ap, ◌∙◌, List, some, arith, length, get_elem?,
  get_elem?-lt,
}
use iot_ftp_upload_gateway.Backend.Selector.{BackendSelector, next}

-- The cursor moved `n` times.
pub after_picks : {A : Type 0} → ℕ → BackendSelector A → BackendSelector A
after_picks zero s = s
after_picks (suc n) s = after_picks n (next s).1

after_picks-backends :
    {A : Type 0} (n : ℕ) (s : BackendSelector A) → (after_picks n s).backends ≡ s.backends
unfolding after_picks next
after_picks-backends zero s = refl
after_picks-backends (suc n) s = after_picks-backends n (next s).1

after_picks-next_index :
    {A : Type 0} (n : ℕ) (s : BackendSelector A)
    → s.next_index + n < 2 ^ 64
    → (after_picks n s).next_index ≡ s.next_index + n
unfolding after_picks next
after_picks-next_index zero s h = omega arith
after_picks-next_index (suc n) s h =
    after_picks-next_index n (next s).1 (omega (arith, h)) ∙ omega (arith, h)

-- Of the backends each gets its turn: as long as the cursor does not wrap, the pick after `n` others
-- is the backend at the place of the cursor and `n` more, counted in a circle, and there is one.
pub next-after_picks :
    {A : Type 0} (n : ℕ) (s : BackendSelector A)
    → 0 < length s.backends
    → s.next_index + n < 2 ^ 64
    → (a : A) × ((next (after_picks n s)).0 ≡ some a)
      × (get_elem? s.backends ((s.next_index + n) % length s.backends) ≡ some a)
unfolding next
next-after_picks n s some_backend h =
    let (a, found) =
      get_elem?-lt s.backends ((s.next_index + n) % length s.backends) (mod-lt _ some_backend) in
    (
      a,
      ap (λ (bs : List _). get_elem? bs ((after_picks n s).next_index % length bs))
            (after_picks-backends n s)
          ∙ ap (λ (i : ℕ). get_elem? s.backends (i % length s.backends))
              (after_picks-next_index n s h)
          ∙ found,
      found,
    )
