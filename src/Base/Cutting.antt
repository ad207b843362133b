-- ===== src/Base/Cutting.antt =====
-- How `find`, `split`, `split_once` and `trim` act on a text that is put together from parts.
use Prim.Native.Nat.{ℕ, suc, ◌+◌, ◌-◌}
use mathlib.Core.Path.{◌≡◌, refl, ap}
use mathlib.Core.Bool.{Bool, true}
use mathlib.Core.Logic.{◌≢◌}
use mathlib.Core.List.{[], ◌∷◌, ◌++◌, cons-ne-nil}
use mathlib.Core.Option.{none, some}
use native.Mathlib.Omega.{arith}
use iot_ftp_upload_gateway.Base.Tests.{if◌then◌else◌}
use iot_ftp_upload_gateway.Base.Lists.{length}
use iot_ftp_upload_gateway.Base.Strings.{
  Text, Lacks, NoneOf, find, take, drop, slice, split, split_once, rsplit_once, trim_start_with,
  trim_end_with, trim, is_whitespace, before_end,
}

pub find-append : (c : ℕ) (s t : Text) → Lacks c s → find c (s ++ c ∷ t) ≡ some (length s)
find-append c [] t h = ground arith
find-append c (d ∷ s) t h = ground (arith, find-append c s t h.1)

pub take-append : (s t : Text) → take (length s) (s ++ t) ≡ s
take-append [] t = refl
take-append (c ∷ s) t = ap (◌∷◌ c) (take-append s t)

pub drop-append : (s t : Text) → drop (length s) (s ++ t) ≡ t
drop-append [] t = refl
drop-append (c ∷ s) t = drop-append s t

pub split-append : (c : ℕ) (s t : Text) → Lacks c s → split c (s ++ c ∷ t) ≡ s ∷ split c t
split-append c [] t h = ground arith
split-append c (d ∷ s) t h = ground (arith, split-append c s t h.1)

pub split_last : (c : ℕ) (s : Text) → Lacks c s → split c s ≡ s ∷ []
split_last c [] h = refl
split_last c (d ∷ s) h = ground (arith, split_last c s h.1)

pub split_once-append : (c : ℕ) (s t : Text) → Lacks c s → split_once c (s ++ c ∷ t) ≡ some (s, t)
split_once-append c [] t h = ground arith
split_once-append c (d ∷ s) t h = ground (arith, split_once-append c s t h.1)

pub split_once-none : (c : ℕ) (s : Text) → Lacks c s → split_once c s ≡ none
split_once-none c [] h = refl
split_once-none c (d ∷ s) h = ground (arith, split_once-none c s h.1)

pub rsplit_once-none : (c : ℕ) (s : Text) → Lacks c s → rsplit_once c s ≡ none
rsplit_once-none c [] h = refl
rsplit_once-none c (d ∷ s) h = rw (rsplit_once-none c s h.1) (ground (arith, h.0))

pub rsplit_once-append : (c : ℕ) (s t : Text) → Lacks c t → rsplit_once c (s ++ c ∷ t) ≡ some (s, t)
rsplit_once-append c [] t h = rw (rsplit_once-none c t h) (ground arith)
rsplit_once-append c (d ∷ s) t h = rw (rsplit_once-append c s t h) refl

pub trim_start-NoneOf : (p : ℕ → Bool) (s : Text) → NoneOf p s → trim_start_with p s ≡ s
trim_start-NoneOf p [] h = refl
trim_start-NoneOf p (c ∷ s) h = rw h.0

pub trim_end-NoneOf : (p : ℕ → Bool) (s : Text) → NoneOf p s → trim_end_with p s ≡ s
trim_end-NoneOf p [] h = refl
trim_end-NoneOf p (c ∷ []) h = rw h.0
trim_end-NoneOf p (c ∷ d ∷ s) h = rw (trim_end-NoneOf p (d ∷ s) h.1)

-- A text without white space is left as it is.
pub trim-NoneOf : (s : Text) → NoneOf is_whitespace s → trim s ≡ s
trim-NoneOf s h = rw (trim_start-NoneOf is_whitespace s h) (trim_end-NoneOf is_whitespace s h)

-- Nothing is cut off at the end of a word.
pub trim_end-append :
    (p : ℕ → Bool) (s t : Text)
    → s ≢ []
    → NoneOf p s
    → trim_end_with p (s ++ t) ≡ s ++ trim_end_with p t
trim_end-append p [] t h k = absurd (h refl)
trim_end-append p (c ∷ []) t h k = before_end_keeps (trim_end_with p t)
  where
    before_end_keeps : (r : Text) → before_end p c r ≡ c ∷ r
    before_end_keeps [] = rw k.0
    before_end_keeps (d ∷ r) = refl
trim_end-append p (c ∷ d ∷ s) t h k = rw (trim_end-append p (d ∷ s) t (cons-ne-nil d s) k.1)

pub trim_end_idem :
    (p : ℕ → Bool) (s : Text) → trim_end_with p (trim_end_with p s) ≡ trim_end_with p s
trim_end_idem p [] = refl
trim_end_idem p (c ∷ s) = step (trim_end_with p s) (trim_end_idem p s)
  where
    step :
        (r : Text) → trim_end_with p r ≡ r → trim_end_with p (before_end p c r) ≡ before_end p c r
    step [] h = ground arith
    step (d ∷ r) h = rw h

-- The two ends of a text are trimmed in either order.
pub trim_start-trim_end :
    (p : ℕ → Bool) (s : Text)
    → trim_start_with p (trim_end_with p s) ≡ trim_end_with p (trim_start_with p s)
trim_start-trim_end p [] = refl
trim_start-trim_end p (c ∷ s) = step (trim_end_with p s) (trim_start-trim_end p s) refl
  where
    step :
        (r : Text)
        → trim_start_with p r ≡ trim_end_with p (trim_start_with p s)
        → trim_end_with p s ≡ r
        → trim_start_with p (before_end p c r)
          ≡ trim_end_with p (if p c then trim_start_with p s else c ∷ s)
    step [] h e = ground arith
    step (d ∷ r) h e = ground arith

pub trim-trim_end : (s : Text) → trim (trim_end_with is_whitespace s) ≡ trim s
trim-trim_end s =
    rw (trim_start-trim_end is_whitespace s)
      (trim_end_idem is_whitespace (trim_start_with is_whitespace s))

pub NoneOf-Lacks : (p : ℕ → Bool) (c : ℕ) (s : Text) → p c ≡ true → NoneOf p s → Lacks c s
NoneOf-Lacks p c [] h k = tt
NoneOf-Lacks p c (d ∷ s) h k = (λ e. apart (rw e h), NoneOf-Lacks p c s h k.1)
  where
    apart : p d ≡ true → ⊥
    apart g = cc (k.0)

pub drop_past : (s t : Text) (c : ℕ) → drop (suc (length s)) (s ++ c ∷ t) ≡ t
drop_past [] t c = refl
drop_past (d ∷ s) t c = drop_past s t c

-- What stands between the first `c` and the first `d` behind it.
pub slice-append :
    (s inner t : Text) (c d : ℕ) (from to : ℕ)
    → from ≡ length s + 1
    → to ≡ length s + suc (length inner)
    → slice from to (s ++ c ∷ (inner ++ d ∷ t)) ≡ inner
slice-append s inner t c d from to hf ht =
    cc (from_suc, width, drop_past s (inner ++ d ∷ t) c, take-append inner (d ∷ t))
  where
    from_suc : from ≡ suc (length s)
    from_suc = omega arith

    width : to - from ≡ length inner
    width = omega arith
