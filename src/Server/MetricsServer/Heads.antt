-- ===== src/Server/MetricsServer/Heads.antt =====
-- How the lines of a well-formed request are read, up to its blank line.
use iot_ftp_upload_gateway.Base.{
  All, ℕ, zero, suc, ◌+◌, ◌-◌, ◌≤◌, ◌<◌, ◌≡◌, ◌≢◌, refl, ap, true, false, List, [], ◌∷◌, ◌++◌,
  Option, none, some, arith, ◌==◌, length, length-append, All-append, cr, lf, crlf, Lacks,
  ends_with, Bytes, IsAscii, decode-IsAscii,
}
use iot_ftp_upload_gateway.Io.{ErrorKind, ok}
use iot_ftp_upload_gateway.Server.MetricsServer.{
  take_line, read_line, finished, line_cap, is_blank_line, headers, max_request_line_bytes,
}

-- A text of one line, without its line feed.
pub record IsLine (line : Bytes) : Type 0 where
  pub ascii : IsAscii line
  pub one_line : Lacks lf line

take_line-append_lf :
    (limit : ℕ) (line rest : Bytes)
    → Lacks lf line
    → length line < limit
    → take_line limit (line ++ lf ∷ rest) ≡ (line ++ lf ∷ [], rest)
unfolding take_line
take_line-append_lf zero line rest h k = absurd (omega arith)
take_line-append_lf (suc limit) [] rest h k = refl
take_line-append_lf (suc limit) (c ∷ line) rest h k =
    ground (arith, h.0, take_line-append_lf limit line rest h.1)

pub take_line_all :
    (limit : ℕ) (line : Bytes)
    → Lacks lf line
    → length line ≤ limit
    → take_line limit line ≡ (line, [])
unfolding take_line
take_line_all zero [] h k = refl
take_line_all zero (c ∷ line) h k = absurd (omega arith)
take_line_all (suc limit) [] h k = refl
take_line_all (suc limit) (c ∷ line) h k = ground (arith, h.0, take_line_all limit line h.1)

pub ends_with-append : (line : Bytes) → ends_with lf (line ++ lf ∷ []) ≡ true
ends_with-append [] = refl
ends_with-append (c ∷ []) = refl
ends_with-append (c ∷ d ∷ line) = ends_with-append (d ∷ line)

is_blank_line-append :
    (line : Bytes)
    → Lacks lf line
    → line ≢ []
    → line ≢ cr ∷ []
    → is_blank_line (line ++ lf ∷ []) ≡ false
is_blank_line-append [] h k l = absurd (k refl)
is_blank_line-append (c ∷ []) h k l =
    let visible : c ≢ cr = λ e. l (ap (λ (d : ℕ). d ∷ []) e) in ground (arith, visible)
is_blank_line-append (c ∷ d ∷ line) h k l = ground (arith, h.1.0)

pub length-append_lf : (line : Bytes) → length (line ++ lf ∷ []) ≡ length line + 1
length-append_lf line = length-append line (lf ∷ [])

-- A whole line is read with its line feed, whether or not the stream fails behind it.
pub read_line-append_lf :
    (limit : ℕ) (line rest : Bytes) (failure : Option ErrorKind)
    → IsLine line
    → length line < limit
    → read_line limit (record { bytes = line ++ lf ∷ rest; failure = failure })
      ≡ ok (record {
        size = length line + 1;
        text = line ++ lf ∷ [];
        later = record { bytes = rest; failure = failure };
      })
unfolding read_line
read_line-append_lf limit line rest none l h =
    rw
      (
        take_line-append_lf limit line rest l.one_line h,
        decode-IsAscii (line ++ lf ∷ [])
            (All-append (λ b. b < 0x80) line (lf ∷ []) l.ascii (omega arith, tt)),
        length-append_lf line,
      )
      refl
read_line-append_lf limit line rest (some kind) l h =
    rw
      (
        take_line-append_lf limit line rest l.one_line h,
        ends_with-append line,
        decode-IsAscii (line ++ lf ∷ [])
            (All-append (λ b. b < 0x80) line (lf ∷ []) l.ascii (omega arith, tt)),
        length-append_lf line,
      )
      refl

-- Header lines, as they are sent.
abbrev pub header_bytes : List Bytes → Bytes → Bytes
header_bytes [] rest = rest
header_bytes (line ∷ lines) rest = line ++ lf ∷ header_bytes lines rest

abbrev pub header_size : List Bytes → ℕ
header_size [] = 0
header_size (line ∷ lines) = length line + 1 + header_size lines

pub record IsHeader (line : Bytes) : Type 0 where
  pub is_line : IsLine line
  pub filled : line ≢ []
  pub visible : line ≢ cr ∷ []

blank-IsLine : IsLine (cr ∷ [])
blank-IsLine = record { ascii = (omega arith, tt); one_line = ((λ e. omega arith), tt) }

pub headers-finished :
    (fuel budget : ℕ) (lines : List Bytes) (rest : Bytes) (failure : Option ErrorKind)
    → All IsHeader lines
    → header_size lines + 2 ≤ budget
    → budget ≤ max_request_line_bytes
    → budget < fuel
    → headers fuel budget (record { bytes = header_bytes lines (crlf ++ rest); failure = failure })
      ≡ finished (record { bytes = rest; failure = failure })
unfolding headers
headers-finished zero budget lines rest failure h k small f = absurd (omega arith)
headers-finished (suc fuel) budget [] rest failure h k small f =
    let capped : line_cap budget ≡ budget = ground arith in
    let some_budget : (budget == 0) ≡ false = ground arith in
    rw
      (
        some_budget,
        capped,
        read_line-append_lf budget (cr ∷ []) rest failure blank-IsLine (omega arith),
      )
      (ground arith)
headers-finished (suc fuel) budget (line ∷ lines) rest failure h k small f =
    let capped : line_cap budget ≡ budget = ground arith in
    let some_budget : (budget == 0) ≡ false = ground arith in
    let some_byte : ((length line + 1) == 0) ≡ false = ground arith in
    rw
      (
        some_budget,
        capped,
        read_line-append_lf budget line (header_bytes lines (crlf ++ rest)) failure h.0.is_line
            (omega arith),
        some_byte,
        ends_with-append line,
        is_blank_line-append line h.0.is_line.one_line h.0.filled h.0.visible,
      )
      (ground (
        arith,
        headers-finished fuel (budget - (length line + 1)) lines rest failure h.1 (omega (arith, k))
            (omega arith) (omega arith),
      ))
