-- ===== src/Server/MetricsServer/Requests.antt =====
-- How requests are read: a whole one up to its blank line, and one that is broken off.
use iot_ftp_upload_gateway.Base.{
  All, ℕ, suc, ◌+◌, ◌≤◌, ◌<◌, ◌≡◌, ◌≢◌, refl, ap, ◌∙◌, Bool, true, false, not, List, [], ◌∷◌, ◌++◌,
  Option, none, arith, ◌==◌, length, keep, append_assoc, All-append, Text, cr, lf, crlf, NoneOf,
  NoneOf-Lacks, is_whitespace, Bytes, IsAscii, decode-IsAscii,
}
use iot_ftp_upload_gateway.Io.{ErrorKind, ok}
use iot_ftp_upload_gateway.Server.MetricsServer.{
  read_line, split_where, split_whitespace, request_line, request_of, parsed, read_request,
  max_header_bytes, max_request_line_bytes,
}
use iot_ftp_upload_gateway.Server.MetricsServer.Heads.{
  IsLine, IsHeader, take_line_all, read_line-append_lf, ends_with-append, header_bytes, header_size,
  headers-finished,
}

split_where-append :
    (p : ℕ → Bool) (word s : Text) (c : ℕ)
    → NoneOf p word
    → p c ≡ true
    → split_where p (word ++ c ∷ s) ≡ word ∷ split_where p s
split_where-append p [] s c h k = ground (arith, k)
split_where-append p (d ∷ word) s c h k = ground (arith, h.0, split_where-append p word s c h.1 k)

-- A word of a request: visible ASCII.
pub record IsWord (word : Text) : Type 0 where
  pub ascii : IsAscii word
  pub visible : NoneOf is_whitespace word
  pub filled : word ≢ []

named : (word : Text) → word ≢ [] → (length word == 0) ≡ false
named [] h = absurd (h refl)
named (c ∷ word) h = ground arith

split_whitespace-append :
    (word s : Text) (c : ℕ)
    → IsWord word
    → is_whitespace c ≡ true
    → split_whitespace (word ++ c ∷ s) ≡ word ∷ split_whitespace s
split_whitespace-append word s c w h =
    ap (keep (λ (part : Text). not (length part == 0)))
      (split_where-append is_whitespace word s c w.visible h)
    ∙ rw (keep, named word w.filled) refl

-- The first line of a request, without its line feed.
abbrev pub first_line : Text → Text → Text → Text
first_line method path version = method ++ b' ' ∷ (path ++ b' ' ∷ (version ++ cr ∷ []))

module _ (method path version : Text) (m : IsWord method) (p : IsWord path)
    (v : IsWord version) where
  split_whitespace-first_line :
      split_whitespace (first_line method path version ++ lf ∷ []) ≡ method ∷ path ∷ version ∷ []
  split_whitespace-first_line =
      ap split_whitespace (regroup method path version)
      ∙ split_whitespace-append method _ b' ' m refl
      ∙ ap (λ (words : List Text). method ∷ words)
          (split_whitespace-append path _ b' ' p refl
            ∙ ap (λ (words : List Text). path ∷ words)
                (split_whitespace-append version (lf ∷ []) cr v refl))
    where
      regroup :
          (a b c : Text)
          → first_line a b c ++ lf ∷ [] ≡ a ++ b' ' ∷ (b ++ b' ' ∷ (c ++ cr ∷ lf ∷ []))
      regroup a b c = simp append_assoc

  first_line-All :
      (P : ℕ → Type 0)
      → All P method
      → All P path
      → All P version
      → P b' '
      → P cr
      → All P (first_line method path version)
  first_line-All P hm hp hv blank return =
      All-append P method _ hm
        (blank, All-append P path _ hp (blank, All-append P version (cr ∷ []) hv (return, tt)))

  first_line-IsLine : IsLine (first_line method path version)
  first_line-IsLine = record {
    ascii = first_line-All (λ b. b < 0x80) m.ascii p.ascii v.ascii (omega arith) (omega arith);
    one_line =
        first_line-All (λ b. b ≢ lf) (NoneOf-Lacks is_whitespace lf method refl m.visible)
          (NoneOf-Lacks is_whitespace lf path refl p.visible)
          (NoneOf-Lacks is_whitespace lf version refl v.visible) (λ e. omega arith)
          (λ e. omega arith);
  }

  -- A request of a method, a path and a version, each a word of visible ASCII, and of any header
  -- lines, is read as this method and this path, and just up to its blank line, if its first line
  -- and its header lines have at most 8192 bytes each. Nothing hangs on how the stream ends behind it.
  pub read_request-request :
      (lines : List Bytes) (rest : Bytes) (failure : Option ErrorKind)
      → length (first_line method path version) < max_request_line_bytes
      → All IsHeader lines
      → header_size lines + 2 ≤ max_header_bytes
      → read_request (record {
        bytes = first_line method path version ++ lf ∷ header_bytes lines (crlf ++ rest);
        failure = failure;
      })
        ≡ parsed (request_line method path) (record { bytes = rest; failure = failure })
  unfolding read_request
  read_request-request lines rest failure short hs fits =
      let line = first_line method path version in
      let some_byte : ((length line + 1) == 0) ≡ false = ground arith in
      rw
        (
          read_line-append_lf max_request_line_bytes line (header_bytes lines (crlf ++ rest))
              failure first_line-IsLine short,
          some_byte,
          ends_with-append line,
          headers-finished (suc max_header_bytes) max_header_bytes lines rest failure hs fits
              (omega arith) (omega arith),
          split_whitespace-first_line,
        )
        (ground arith)

read_line_all :
    (limit : ℕ) (line : Bytes)
    → IsLine line
    → length line ≤ limit
    → read_line limit (record { bytes = line; failure = none })
      ≡ ok (record {
        size = length line;
        text = line;
        later = record { bytes = []; failure = none };
      })
unfolding read_line
read_line_all limit line l h =
    rw (take_line_all limit line l.one_line h, decode-IsAscii line l.ascii) refl

-- A peer that closes the connection in the middle of its first line is not taken for one that closed
-- it before a request: what was sent of the line is read as if the line had been whole.
pub read_request_broken_off :
    (line : Bytes)
    → IsLine line
    → line ≢ []
    → length line < max_request_line_bytes
    → read_request (record { bytes = line; failure = none })
      ≡ parsed (request_of (split_whitespace line)) (record { bytes = []; failure = none })
unfolding read_request
read_request_broken_off line l filled h =
    let short : (length line == max_request_line_bytes) ≡ false = ground (arith, h) in
    rw (read_line_all max_request_line_bytes line l (omega arith), named line filled, short) refl
