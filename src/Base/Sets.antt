-- ===== src/Base/Sets.antt =====
-- Sets of numbers as lists without repetition: a `HashSet` of ports.
use Prim.Native.Nat.{ℕ, zero, suc, ◌+◌, ◌≤◌, ◌<◌}
use mathlib.Core.Path.{◌≡◌, refl}
use mathlib.Core.Logic.{◌≢◌, inl, inr}
use mathlib.Core.Bool.{true, false}
use mathlib.Core.List.{List, [], ◌∷◌}
use native.Mathlib.Omega.{arith}
use iot_ftp_upload_gateway.Base.Tests.{◌==◌, if◌then◌else◌, Bool-cases}
use iot_ftp_upload_gateway.Base.Lists.{length, All}
use iot_ftp_upload_gateway.Base.Strings.{contains}

unfoldable pub remove : ℕ → List ℕ → List ℕ
remove x [] = []
remove x (y ∷ ys) = let rest = remove x ys in elim (y == x) [ true ↦ rest | false ↦ y ∷ rest ]

-- No number stands twice.
abbrev pub Distinct : List ℕ → Type 0
Distinct [] = Unit
Distinct (x ∷ xs) = (contains x xs ≡ false) × Distinct xs

pub remove-absent : (x : ℕ) (xs : List ℕ) → contains x xs ≡ false → remove x xs ≡ xs
unfolding remove
remove-absent x [] h = refl
remove-absent x (y ∷ ys) h = ground (arith, remove-absent x ys)

-- Taking out what was just put in gives the set back.
pub remove-cons : (x : ℕ) (xs : List ℕ) → contains x xs ≡ false → remove x (x ∷ xs) ≡ xs
unfolding remove
remove-cons x xs h = ground (arith, remove-absent x xs)

pub contains-remove_self : (x : ℕ) (xs : List ℕ) → contains x (remove x xs) ≡ false
unfolding remove
contains-remove_self x [] = refl
contains-remove_self x (y ∷ ys) = ground (arith, contains-remove_self x ys)

pub contains-remove_ne : (x y : ℕ) (xs : List ℕ) → x ≢ y → contains y (remove x xs) ≡ contains y xs
unfolding remove
contains-remove_ne x y [] h = refl
contains-remove_ne x y (z ∷ zs) h = ground (arith, contains-remove_ne x y zs h)

contains-remove-false :
    (x y : ℕ) (xs : List ℕ) → contains y xs ≡ false → contains y (remove x xs) ≡ false
unfolding remove
contains-remove-false x y [] h = refl
contains-remove-false x y (z ∷ zs) h = ground (arith, contains-remove-false x y zs)

pub remove-Distinct : (x : ℕ) (xs : List ℕ) → Distinct xs → Distinct (remove x xs)
unfolding remove
remove-Distinct x [] h = tt
remove-Distinct x (y ∷ ys) h =
    ground (arith, remove-Distinct x ys h.1, contains-remove-false x y ys h.0)

pub length-remove :
    (x : ℕ) (xs : List ℕ)
    → Distinct xs
    → contains x xs ≡ true
    → suc (length (remove x xs)) ≡ length xs
unfolding remove
length-remove x [] d h = cc
length-remove x (y ∷ ys) d h = ground (arith, length-remove x ys d.1, remove-absent x ys)

pub contains-remove :
    (x y : ℕ) (xs : List ℕ) → contains y (remove x xs) ≡ (if x == y then false else contains y xs)
unfolding remove
contains-remove x y [] = ground arith
contains-remove x y (z ∷ zs) = ground (arith, contains-remove x y zs)

-- Distinct numbers of a range are at most as many as the range has.
pub length-le_range :
    (n lo : ℕ) (xs : List ℕ)
    → Distinct xs
    → ((x : ℕ) → contains x xs ≡ true → (lo ≤ x) × (x < lo + n))
    → length xs ≤ n
length-le_range zero lo [] d h = omega arith
length-le_range zero lo (x ∷ xs) d h = absurd (omega (arith, h x (ground arith)))
length-le_range (suc n) lo xs d h = elim (Bool-cases (contains (lo + n) xs)) [
  | inl present ↦ omega (
    arith,
    length-remove (lo + n) xs d present,
    length-le_range n lo (remove (lo + n) xs) (remove-Distinct (lo + n) xs d)
        (λ x k. ground (arith, contains-remove (lo + n) x xs, h x)),
  )
  | inr absent ↦
      omega (arith, length-le_range n lo xs d (λ x k. ground (arith, h x, contains_apart absent k)))
]
  where
    contains_apart : {a b : ℕ} → contains a xs ≡ false → contains b xs ≡ true → a ≢ b
    contains_apart p q e = cc

pub All-of_contains :
    (P : ℕ → Type 0) (xs : List ℕ) → ((x : ℕ) → contains x xs ≡ true → P x) → All P xs
All-of_contains P [] h = tt
All-of_contains P (x ∷ xs) h =
    (h x (ground arith), All-of_contains P xs (λ y k. h y (ground arith)))
