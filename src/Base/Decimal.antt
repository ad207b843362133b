-- ===== src/Base/Decimal.antt =====
-- Unsigned numbers in decimal: `Display` as `format!` prints them, and `str::parse::<uN>`.
use Prim.Native.Nat.{ℕ, zero, suc, ◌+◌, ◌-◌, ◌*◌, ◌/◌, ◌%◌, ◌^◌, ◌≤◌, ◌<◌}
use mathlib.Core.Path.{◌≡◌, refl, ◌∙◌}
use mathlib.Core.Logic.{◌≢◌}
use mathlib.Core.List.{[], ◌∷◌}
use mathlib.Core.Option.{Option, none, some}
use native.Mathlib.Omega.{arith}
use iot_ftp_upload_gateway.Base.Tests.{ltb, ◌==◌, if◌then◌else◌}
use iot_ftp_upload_gateway.Base.Lists.{All}
use iot_ftp_upload_gateway.Base.Strings.{Text, is_digit, codes, Lacks, NoneOf, is_whitespace}

abbrev pub u8_max : ℕ
u8_max = 255

abbrev pub u16_max : ℕ
u16_max = 65535

abbrev pub u64_max : ℕ
u64_max = 2 ^ 64 - 1

-- The digits of `n` before `out`; the fuel is above `n`.
pub emit : ℕ → ℕ → Text → Text
emit zero n out = out
emit (suc f) n out =
    let rest = emit f (n / 10) ((b'0' + n % 10) ∷ out) in
    if ltb n 10 then (b'0' + n) ∷ out else rest

unfoldable pub show : ℕ → Text
unfolding emit
show n = emit (suc n) n []

-- The digits of a text behind the number read so far; an overflow of `limit` is an error.
pub read_digits : ℕ → ℕ → Text → Option ℕ
read_digits limit acc [] = some acc
read_digits limit acc (c ∷ s) =
    let value = acc * 10 + (c - b'0') in
    let rest = read_digits limit value s in
    if is_digit c then (if ltb limit value then none else rest) else none

pub read_number : ℕ → Text → Option ℕ
read_number limit [] = none
read_number limit (c ∷ s) = read_digits limit 0 (c ∷ s)

-- `parse` of an unsigned type with the greatest value `limit`: one `+` may stand in front.
unfoldable pub parse_uint : ℕ → Text → Option ℕ
unfolding read_digits read_number
parse_uint limit [] = none
parse_uint limit (c ∷ s) = if c == b'+' then read_number limit s else read_number limit (c ∷ s)

abbrev pub IsDigit : ℕ → Type 0
IsDigit c = (b'0' ≤ c) × (c ≤ b'9')

emit-IsDigit : (f n : ℕ) (out : Text) → All IsDigit out → All IsDigit (emit f n out)
unfolding emit
emit-IsDigit zero n out h = h
emit-IsDigit (suc f) n out h =
    ground (arith, emit-IsDigit f (n / 10) ((b'0' + n % 10) ∷ out) ((omega arith, omega arith), h))

pub show-IsDigit : (n : ℕ) → All IsDigit (show n)
unfolding show
show-IsDigit n = emit-IsDigit (suc n) n [] tt

emit-ne-nil : (f n : ℕ) (out : Text) → out ≢ [] → emit f n out ≢ []
unfolding emit
emit-ne-nil zero n out h = h
emit-ne-nil (suc f) n out h = ground (arith, emit-ne-nil f (n / 10) ((b'0' + n % 10) ∷ out))

pub show-ne-nil : (n : ℕ) → show n ≢ []
unfolding show emit
show-ne-nil n = ground (arith, emit-ne-nil n (n / 10) ((b'0' + n % 10) ∷ []))

read_digits-emit :
    (limit f n : ℕ) (out : Text)
    → n < f
    → n ≤ limit
    → read_digits limit 0 (emit f n out) ≡ read_digits limit n out
unfolding emit read_digits
read_digits-emit limit zero n out h k = absurd (omega arith)
read_digits-emit limit (suc f) n out h k =
    ground (arith, read_digits-emit limit f (n / 10) ((b'0' + n % 10) ∷ out))

parse_uint-IsDigit :
    (limit : ℕ) (s : Text) → s ≢ [] → All IsDigit s → parse_uint limit s ≡ read_digits limit 0 s
unfolding parse_uint
parse_uint-IsDigit limit [] h k = absurd (h refl)
parse_uint-IsDigit limit (c ∷ s) h k = ground arith

-- A number in range is read back from its print.
pub parse_uint-show : (limit n : ℕ) → n ≤ limit → parse_uint limit (show n) ≡ some n
parse_uint-show limit n h =
    parse_uint-IsDigit limit (show n) (show-ne-nil n) (show-IsDigit n) ∙ read_back
  where
    read_back : read_digits limit 0 (show n) ≡ some n
    read_back = unfold show read_digits in read_digits-emit limit (suc n) n [] (omega arith) h

read_digits-le :
    (limit acc : ℕ) (s : Text) (r : ℕ) → acc ≤ limit → read_digits limit acc s ≡ some r → r ≤ limit
unfolding read_digits
read_digits-le limit acc [] r h e = ground arith
read_digits-le limit acc (c ∷ s) r h e =
    ground (arith, read_digits-le limit (acc * 10 + (c - b'0')) s r)

read_number-le : (limit : ℕ) (s : Text) (r : ℕ) → read_number limit s ≡ some r → r ≤ limit
unfolding read_number
read_number-le limit [] r e = cc
read_number-le limit (c ∷ s) r e = read_digits-le limit 0 (c ∷ s) r (omega arith) e

-- What is read is in range.
pub parse_uint-le : (limit : ℕ) (s : Text) (r : ℕ) → parse_uint limit s ≡ some r → r ≤ limit
unfolding parse_uint
parse_uint-le limit [] r e = cc
parse_uint-le limit (c ∷ s) r e =
    ground (arith, read_number-le limit s r, read_number-le limit (c ∷ s) r)

pub IsDigit-Lacks : (c : ℕ) (s : Text) → ¬ (IsDigit c) → All IsDigit s → Lacks c s
IsDigit-Lacks c [] h k = tt
IsDigit-Lacks c (d ∷ s) h k = (λ e. h (subst_digit e k.0), IsDigit-Lacks c s h k.1)
  where
    subst_digit : d ≡ c → IsDigit d → IsDigit c
    subst_digit e i = omega arith

pub show-Lacks : (c n : ℕ) → ¬ IsDigit c → Lacks c (show n)
show-Lacks c n h = IsDigit-Lacks c (show n) h (show-IsDigit n)

pub IsDigit-no_whitespace : (s : Text) → All IsDigit s → NoneOf is_whitespace s
IsDigit-no_whitespace [] k = tt
IsDigit-no_whitespace (d ∷ s) k = (ground arith, IsDigit-no_whitespace s k.1)

show_runs : show 60412 ≡ codes "60412"
unfolding show
show_runs = refl
