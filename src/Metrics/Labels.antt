-- ===== src/Metrics/Labels.antt =====
-- Label values: what a reader of the text format makes of an escaped one.
use iot_ftp_upload_gateway.Base.{
  ℕ, ◌≡◌, refl, Bool, true, false, [], ◌∷◌, ◌++◌, Option, none, some, arith, ◌==◌, if◌then◌else◌,
  All-append, Text, lf, Lacks,
}
use iot_ftp_upload_gateway.Metrics.Render.{escape_char, escape_label_value}

abbrev prepend : ℕ → Option (Text × Text) → Option (Text × Text)
prepend c none = none
prepend c (some (value, rest)) = some (c ∷ value, rest)

abbrev unescape : ℕ → ℕ
unescape c = if c == b'n' then lf else c

-- The value up to the closing quote, and what follows it; the flag is set behind a backslash.
unfoldable pub read_label : Bool → Text → Option (Text × Text)
read_label escaped [] = none
read_label true (c ∷ s) = prepend (unescape c) (read_label false s)
read_label false (c ∷ s) =
    let in_escape = read_label true s in
    let rest = prepend c (read_label false s) in
    if c == b'"' then some ([], s) else if c == b'\\' then in_escape else rest

-- Whatever the value holds, it is read back from its escaped form, up to the quote that closes it.
pub read_label-escape_label_value :
    (value rest : Text)
    → read_label false (escape_label_value value ++ b'"' ∷ rest) ≡ some (value, rest)
unfolding read_label escape_label_value
read_label-escape_label_value [] rest = refl
read_label-escape_label_value (c ∷ value) rest =
    ground (arith, read_label-escape_label_value value rest)

escape_char-Lacks : (c : ℕ) → Lacks lf (escape_char c)
escape_char-Lacks c = ground arith

-- An escaped value stays on its line.
pub escape_label_value-Lacks : (value : Text) → Lacks lf (escape_label_value value)
unfolding escape_label_value
escape_label_value-Lacks [] = tt
escape_label_value-Lacks (c ∷ value) =
    All-append _ (escape_char c) (escape_label_value value) (escape_char-Lacks c)
      (escape_label_value-Lacks value)
