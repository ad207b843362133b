-- ===== src/Metrics/Scrape.antt =====
-- What a scraper reads out of the rendered text: a line that is no comment is a name with its labels,
-- a blank, and a number.
use iot_ftp_upload_gateway.Base.{
  ℕ, ◌≤◌, ◌≡◌, refl, ap, ◌∙◌, Bool, true, false, not, List, [], ◌∷◌, ◌++◌, Option, none, some,
  arith, ◌==◌, if◌then◌else◌, append_assoc, All, Text, lf, Lacks, contains, split, split-append,
  rsplit_once, rsplit_once-append, show, show-Lacks, parse_uint, parse_uint-show, u64_max, ◌>>=◌,
}
use iot_ftp_upload_gateway.Metrics.Render.{unlines}

abbrev pub is_comment : Text → Bool
is_comment [] = true
is_comment (c ∷ s) = c == b'#'

-- The number behind the last blank.
abbrev pub number_of : Text × Text → Option (Text × ℕ)
number_of (id, digits) = do value ← parse_uint u64_max digits; some (id, value)

abbrev pub read_sample : Text → Option (Text × ℕ)
read_sample line = rsplit_once b' ' line >>= number_of

abbrev pub with_first : Text × ℕ → Option (List (Text × ℕ)) → Option (List (Text × ℕ))
with_first sample none = none
with_first sample (some samples) = some (sample ∷ samples)

unfoldable pub read_lines : List Text → Option (List (Text × ℕ))
read_lines [] = some []
read_lines (line ∷ lines) =
    let rest = read_lines lines in
    if is_comment line then rest else (do sample ← read_sample line; with_first sample rest)

unfoldable pub scrape : Text → Option (List (Text × ℕ))
unfolding read_lines
scrape text = read_lines (split lf text)

-- A text of lines falls into these lines and an empty rest.
pub split-unlines :
    (lines : List Text) (rest : Text)
    → All (Lacks lf) lines
    → split lf (unlines lines ++ rest) ≡ lines ++ split lf rest
split-unlines [] rest h = refl
split-unlines (line ∷ lines) rest h =
    ap (split lf) (append_assoc line (lf ∷ unlines lines) rest)
    ∙ split-append lf line (unlines lines ++ rest) h.0
    ∙ ap (λ (ls : List Text). line ∷ ls) (split-unlines lines rest h.1)

pub contains-Lacks : (c : ℕ) (s : Text) → contains c s ≡ false → Lacks c s
contains-Lacks c [] h = tt
contains-Lacks c (d ∷ s) h = ground (arith, contains-Lacks c s)

-- The first character starts no comment.
abbrev pub is_plain : Text → Bool
is_plain [] = false
is_plain (c ∷ s) = not (c == b'#')

read_sample_lem :
    (id : Text) (value : ℕ)
    → value ≤ u64_max
    → read_sample (id ++ b' ' ∷ show value) ≡ some (id, value)
read_sample_lem id value h =
    rw
      (
        rsplit_once-append b' ' id (show value) (show-Lacks b' ' value (λ i. omega arith)),
        parse_uint-show u64_max value h,
      )
      refl

is_plain-append : (s t : Text) → is_plain s ≡ true → is_comment (s ++ t) ≡ false
is_plain-append [] t h = cc
is_plain-append (c ∷ s) t h = ground arith

pub read_lines-comment :
    (line : Text) (lines : List Text)
    → is_comment line ≡ true
    → read_lines (line ∷ lines) ≡ read_lines lines
unfolding read_lines
read_lines-comment line lines h = rw h refl

pub read_lines-sample :
    (id : Text) (value : ℕ) (lines : List Text)
    → is_plain id ≡ true
    → value ≤ u64_max
    → read_lines ((id ++ b' ' ∷ show value) ∷ lines) ≡ with_first (id, value) (read_lines lines)
unfolding read_lines
read_lines-sample id value lines h k =
    rw (is_plain-append id (b' ' ∷ show value) h, read_sample_lem id value k) refl
