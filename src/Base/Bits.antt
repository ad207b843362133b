-- ===== src/Base/Bits.antt =====
-- `|` of a number shifted left with one that fits below it, and `&` with a mask of ones.
use Prim.Native.Nat.{
  ℕ, zero, suc, ◌+◌, ◌*◌, ◌/◌, ◌%◌, ◌≤◌, ◌<◌, min, max, bit_and, bit_or, digits, bit_and-bitwise,
  bit_or-bitwise,
}
use mathlib.Core.Path.{◌≡◌, refl, ◌∙◌}
use native.Mathlib.Omega.{arith}

abbrev pow2 : ℕ → ℕ
pow2 zero = 1
pow2 (suc k) = 2 * pow2 k

pow2_pos : (k : ℕ) → 0 < pow2 k
pow2_pos zero = omega arith
pow2_pos (suc k) = omega (arith, pow2_pos k)

or_none : (n a : ℕ) → a ≤ n → digits (λ b. b) max n a 0 ≡ a
or_none zero zero h = refl
or_none zero (suc a) h = absurd (omega arith)
or_none (suc n) zero h = refl
or_none (suc n) (suc a) h = omega (arith, or_none n (suc a / 2) (omega arith))

or_disjoint :
    (k n a p b : ℕ) → a ≤ n → a ≡ p * pow2 k → b < pow2 k → digits (λ b. b) max n a b ≡ a + b
or_disjoint zero n a p zero h e l = omega (arith, or_none n a h)
or_disjoint zero n a p (suc b) h e l = absurd (omega arith)
or_disjoint (suc k) zero zero p b h e l = omega arith
or_disjoint (suc k) zero (suc a) p b h e l = absurd (omega arith)
or_disjoint (suc k) (suc n) zero p b h e l = omega arith
or_disjoint (suc k) (suc n) (suc a) p b h e l =
    omega (arith, or_disjoint k n (suc a / 2) p (b / 2) (omega arith) (omega arith) (omega arith))

and_none : (n a : ℕ) → digits (λ b. 0) min n a 0 ≡ 0
and_none zero a = refl
and_none (suc n) zero = refl
and_none (suc n) (suc a) = omega (arith, and_none n (suc a / 2))

and_mask :
    (k n a b t r : ℕ)
    → a ≤ n
    → b + 1 ≡ pow2 k
    → a ≡ t * pow2 k + r
    → r < pow2 k
    → digits (λ b. 0) min n a b ≡ r
and_mask zero n a zero t r h m e l = omega (arith, and_none n a)
and_mask zero n a (suc b) t r h m e l = absurd (omega arith)
and_mask (suc k) zero zero b t r h m e l = grind (arith, pow2_pos k)
and_mask (suc k) zero (suc a) b t r h m e l = absurd (omega arith)
and_mask (suc k) (suc n) zero b t r h m e l = grind (arith, pow2_pos k)
and_mask (suc k) (suc n) (suc a) b t r h m e l = omega (
  arith,
  and_mask k n (suc a / 2) (b / 2) t (r / 2) (omega arith) (omega (arith, pow2_pos k)) (omega arith)
      (omega arith),
  pow2_pos k,
)

-- A byte shifted left by eight bits, and a byte below it.
pub bit_or_bytes : (p q : ℕ) → q < 256 → bit_or (p * 256) q ≡ p * 256 + q
bit_or_bytes p q h =
    bit_or-bitwise (p * 256) q ∙ or_disjoint 8 (p * 256) (p * 256) p q (omega arith) refl h

pub bit_and_low_byte : (a : ℕ) → bit_and a 255 ≡ a % 256
bit_and_low_byte a =
    bit_and-bitwise a 255
    ∙ and_mask 8 a a 255 (a / 256) (a % 256) (omega arith) refl (omega arith) (omega arith)
