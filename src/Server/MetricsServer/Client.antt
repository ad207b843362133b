-- ===== src/Server/MetricsServer/Client.antt =====
-- What a client reads out of a response: its status, and a body that is as long as it is said to be.
use iot_ftp_upload_gateway.Base.{
  ℕ, zero, suc, List, [], ◌∷◌, Option, none, some, ◌==◌, if◌then◌else◌, Text, codes, cr, lf,
  split_once, parse_uint, u64_max, ◌>>=◌,
}
use mathlib.Core.Option
use iot_ftp_upload_gateway.Server.Session.Lines.{byte_length}

abbrev pub strip_prefix : Text → Text → Option Text
strip_prefix [] s = some s
strip_prefix (c ∷ p) [] = none
strip_prefix (c ∷ p) (d ∷ s) = let rest = strip_prefix p s in if c == d then rest else none

abbrev pub behind_lf : Text × Text → Option (Text × Text)
behind_lf (line, rest) = Option.map (λ later. (line, later)) (strip_prefix (lf ∷ []) rest)

-- A line that a carriage return and a line feed end, and what is behind them.
abbrev pub line_end : Text → Option (Text × Text)
line_end s = split_once cr s >>= behind_lf

abbrev pub on_line : (Text → Option (List Text × Text)) → Text × Text → Option (List Text × Text)
on_line again ([], rest) = some ([], rest)
on_line again (c ∷ line, rest) =
    Option.map (λ (lines, body). ((c ∷ line) ∷ lines, body)) (again rest)

-- The lines up to a blank one, of which there may be so many, and the body.
unfoldable pub head : ℕ → Text → Option (List Text × Text)
head zero s = none
head (suc fuel) s = line_end s >>= on_line (head fuel)

-- The header's value.
abbrev pub field : Text → List Text → Option Text
field name [] = none
field name (line ∷ lines) =
    let rest = field name lines in
    elim (strip_prefix name line) [ none ↦ rest | some value ↦ some value ]

abbrev pub max_headers : ℕ
max_headers = 100

abbrev pub checked : Text → Text → ℕ → Option (Text × Text)
checked status body len = if len == byte_length body then some (status, body) else none

abbrev pub after_head : Text → List Text × Text → Option (Text × Text)
after_head status (headers, body) = do
  digits ← field (codes "Content-Length: ") headers
  len ← parse_uint u64_max digits
  checked status body len

abbrev pub after_first : Text × Text → Option (Text × Text)
after_first (first, later) = do
  status ← strip_prefix (codes "HTTP/1.1 ") first
  found ← head max_headers later
  after_head status found

unfoldable pub read_response : Text → Option (Text × Text)
unfolding head
read_response s = line_end s >>= after_first
