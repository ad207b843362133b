-- ===== src/Base/Utf8.antt =====
-- UTF-8: the text that bytes stand for, as `read_line` takes it, or none.
use Prim.Native.Nat.{ℕ, zero, suc, ◌+◌, ◌-◌, ◌*◌, ◌<◌}
use mathlib.Core.Path.{◌≡◌, refl}
use mathlib.Core.List.{List, [], ◌∷◌}
use mathlib.Core.Option.{Option, none, some}
use mathlib.Core.Option
use native.Mathlib.Omega.{arith}
use iot_ftp_upload_gateway.Base.Tests.{ltb, ◌==◌, if◌then◌else◌}
use iot_ftp_upload_gateway.Base.Lists.{All}
use iot_ftp_upload_gateway.Base.Strings.{Text, between}

abbrev pub Bytes : Type 0
Bytes = List ℕ

-- A character whose last `need` bytes are still to come, the next of them in a range.
pub record Pending : Type 0 where
  pub need : ℕ
  pub value : ℕ
  pub lo : ℕ
  pub hi : ℕ

pub data Utf8 : Type 0 where
  char : ℕ → Utf8
  more : Pending → Utf8
  invalid : Utf8

abbrev pub pending : ℕ → ℕ → ℕ → ℕ → Utf8
pending need value lo hi = more (record { need = need; value = value; lo = lo; hi = hi })

lead : ℕ → Utf8
lead b =
    if ltb b 0x80
    then char b
    else if between 0xc2 0xdf b
    then pending 0 (b - 0xc0) 0x80 0xbf
    else if b == 0xe0
    then pending 1 0 0xa0 0xbf
    else if b == 0xed
    then pending 1 0xd 0x80 0x9f
    else if between 0xe1 0xef b
    then pending 1 (b - 0xe0) 0x80 0xbf
    else if b == 0xf0
    then pending 2 0 0x90 0xbf
    else if between 0xf1 0xf3 b
    then pending 2 (b - 0xf0) 0x80 0xbf
    else if b == 0xf4
    then pending 2 4 0x80 0x8f
    else invalid

-- A byte of a character, with `need` more behind it.
continued : ℕ → ℕ → Utf8
continued zero value = char value
continued (suc need) value = pending need value 0x80 0xbf

continue : Pending → ℕ → Utf8
continue p b = if between p.lo p.hi b then continued p.need (p.value * 64 + (b - 0x80)) else invalid

next : Option Pending → ℕ → Utf8
next none b = lead b
next (some p) b = continue p b

decode_from : Option Pending → Bytes → Option Text
decode_from none [] = some []
decode_from (some p) [] = none
decode_from p (b ∷ s) = elim (next p b) [
  | char c ↦ Option.map (λ text. c ∷ text) (decode_from none s)
  | more q ↦ decode_from (some q) s
  | invalid ↦ none
]

unfoldable pub decode : Bytes → Option Text
unfolding decode_from next lead continue continued
decode s = decode_from none s

abbrev pub IsAscii : Bytes → Type 0
IsAscii = All (λ b. b < 0x80)

-- ASCII stands for itself.
pub decode-IsAscii : (s : Bytes) → IsAscii s → decode s ≡ some s
unfolding decode decode_from next lead
decode-IsAscii [] h = refl
decode-IsAscii (b ∷ s) h = ground (arith, h.0, decode-IsAscii s h.1)

euro : decode (0xe2 ∷ 0x82 ∷ 0xac ∷ 0x21 ∷ []) ≡ some (0x20ac ∷ 0x21 ∷ [])
unfolding decode
euro = refl

overlong : decode (0xc0 ∷ 0xaf ∷ []) ≡ none
unfolding decode
overlong = refl
