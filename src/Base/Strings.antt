-- ===== src/Base/Strings.antt =====
-- Texts as lists of code points, with the operations of Rust's `str` that the gateway uses. A
-- `str` index is a byte offset there; here a text is cut at a character, which is the same cut.
use Prim.Native.Nat.{ℕ, zero, suc, ◌+◌, ◌-◌}
use Prim.Native.Char.{code}
use Prim.Native.String.{String}
use mathlib.Core.Path.{◌≡◌, refl}
use mathlib.Core.Logic.{◌≢◌, ◌↔◌}
use mathlib.Core.Bool.{Bool, true, false, ◌&&◌, ◌||◌}
use mathlib.Core.List.{List, [], ◌∷◌}
use mathlib.Core.Option
use mathlib.Core.Option.{Option, none, some}
use native.Mathlib.Omega.{arith}
use iot_ftp_upload_gateway.Base.Tests.{leb, ◌==◌, if◌then◌else◌}
use iot_ftp_upload_gateway.Base.Lists.{All}

abbrev pub Text : Type 0
Text = List ℕ

abbrev pub codes : String → Text
codes String.[] = []
codes (String.◌∷◌ c s) = code c ∷ codes s

abbrev pub cr : ℕ
cr = 13

abbrev pub lf : ℕ
lf = 10

abbrev pub crlf : Text
crlf = cr ∷ lf ∷ []

abbrev pub between : ℕ → ℕ → ℕ → Bool
between lo hi c = leb lo c && leb c hi

-- `char::is_control`: the general category Cc.
abbrev pub is_control : ℕ → Bool
is_control c = leb c 0x1f || between 0x7f 0x9f c

-- `char::is_whitespace`: the property White_Space.
abbrev pub is_whitespace : ℕ → Bool
is_whitespace c =
    between 9 13 c
    || c == 0x20
    || c == 0x85
    || c == 0xa0
    || c == 0x1680
    || between 0x2000 0x200a c
    || c == 0x2028
    || c == 0x2029
    || c == 0x202f
    || c == 0x205f
    || c == 0x3000

abbrev pub is_digit : ℕ → Bool
is_digit c = between b'0' b'9' c

abbrev pub to_ascii_uppercase : ℕ → ℕ
to_ascii_uppercase c = if between b'a' b'z' c then c - 32 else c

abbrev pub to_ascii_lowercase : ℕ → ℕ
to_ascii_lowercase c = if between b'A' b'Z' c then c + 32 else c

abbrev pub text_eq : Text → Text → Bool
text_eq [] [] = true
text_eq [] (d ∷ t) = false
text_eq (c ∷ s) [] = false
text_eq (c ∷ s) (d ∷ t) = c == d && text_eq s t

pub text_eq_refl : (s : Text) → text_eq s s ≡ true
text_eq_refl [] = refl
text_eq_refl (c ∷ s) = ground (arith, text_eq_refl s)

pub text_eq_sound : (s t : Text) → text_eq s t ≡ true → s ≡ t
text_eq_sound [] [] h = refl
text_eq_sound [] (d ∷ t) h = cc
text_eq_sound (c ∷ s) [] h = cc
text_eq_sound (c ∷ s) (d ∷ t) h = ground (arith, text_eq_sound s t)

pub text_eq_iff : (s t : Text) → (text_eq s t ≡ true) ↔ (s ≡ t)
text_eq_iff s t = (text_eq_sound s t, λ e. rw e (text_eq_refl t))

abbrev pub contains : ℕ → Text → Bool
contains c [] = false
contains c (d ∷ s) = d == c || contains c s

abbrev pub starts_with : Text → Text → Bool
starts_with [] s = true
starts_with (c ∷ p) [] = false
starts_with (c ∷ p) (d ∷ s) = c == d && starts_with p s

abbrev pub ends_with : ℕ → Text → Bool
ends_with c [] = false
ends_with c (d ∷ []) = d == c
ends_with c (d ∷ e ∷ s) = ends_with c (e ∷ s)

-- The position of the first `c`.
abbrev pub find : ℕ → Text → Option ℕ
find c [] = none
find c (d ∷ s) = let rest = Option.map suc (find c s) in if d == c then some 0 else rest

abbrev pub take : ℕ → Text → Text
take zero s = []
take (suc n) [] = []
take (suc n) (c ∷ s) = c ∷ take n s

abbrev pub drop : ℕ → Text → Text
drop zero s = s
drop (suc n) [] = []
drop (suc n) (c ∷ s) = drop n s

-- `&s[from..to]`.
abbrev pub slice : ℕ → ℕ → Text → Text
slice from to s = take (to - from) (drop from s)

abbrev pub trim_start_with : (ℕ → Bool) → Text → Text
trim_start_with p [] = []
trim_start_with p (c ∷ s) = let rest = trim_start_with p s in if p c then rest else c ∷ s

-- `c` before an end that is already trimmed.
abbrev pub before_end : (ℕ → Bool) → ℕ → Text → Text
before_end p c [] = if p c then [] else c ∷ []
before_end p c (d ∷ s) = c ∷ d ∷ s

abbrev pub trim_end_with : (ℕ → Bool) → Text → Text
trim_end_with p [] = []
trim_end_with p (c ∷ s) = before_end p c (trim_end_with p s)

abbrev pub trim : Text → Text
trim s = trim_end_with is_whitespace (trim_start_with is_whitespace s)

abbrev pub split_once : ℕ → Text → Option (Text × Text)
split_once sep [] = none
split_once sep (c ∷ s) =
    let rest = Option.map (λ (l, r). (c ∷ l, r)) (split_once sep s) in
    if c == sep then some ([], s) else rest

-- One step of `rsplit_once`: the last separator is one behind `c`, if there is any, or `c` itself.
abbrev pub last_split : ℕ → ℕ → Text → Option (Text × Text) → Option (Text × Text)
last_split sep c s (some (l, r)) = some (c ∷ l, r)
last_split sep c s none = if c == sep then some ([], s) else none

abbrev pub rsplit_once : ℕ → Text → Option (Text × Text)
rsplit_once sep [] = none
rsplit_once sep (c ∷ s) = last_split sep c s (rsplit_once sep s)

-- The parts of `split` are never none, so the first one stands by itself.
abbrev pub add_to_first : ℕ → List Text → List Text
add_to_first c [] = (c ∷ []) ∷ []
add_to_first c (p ∷ ps) = (c ∷ p) ∷ ps

abbrev pub split : ℕ → Text → List Text
split sep [] = [] ∷ []
split sep (c ∷ s) = let rest = split sep s in if c == sep then [] ∷ rest else add_to_first c rest

abbrev pub Lacks : ℕ → Text → Type 0
Lacks c = All (λ d. d ≢ c)

-- No character passes the test.
abbrev pub NoneOf : (ℕ → Bool) → Text → Type 0
NoneOf p = All (λ d. p d ≡ false)
