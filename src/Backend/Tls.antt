-- ===== src/Backend/Tls.antt =====
-- src/backend/tls.rs: explicit FTPS toward a backend. The handshake itself and the read buffer are the
-- environment's; the stream of replies is read line by line.
pub mod Connector
pub mod Trust
pub mod Sessions
pub mod Isolation
pub mod Replies
pub mod Negotiation
mod Tests
mod ConnectorTests
use iot_ftp_upload_gateway.Base.{
  ℕ, zero, suc, Bool, true, false, ◌&&◌, [], ◌∷◌, ◌++◌, Option, none, some, ◌==◌, leb,
  if◌then◌else◌, Text, codes, crlf, lf, text_eq, starts_with, ends_with, is_digit, all, take,
  length, get_elem?,
}
use iot_ftp_upload_gateway.Io.{
  ErrorKind, IoResult, ok, err, Timed, done, elapsed, timed_out, unexpected_eof, invalid_data,
  permission_denied,
}
use iot_ftp_upload_gateway.Run.{Run, ◌>>=◌, ◌>>◌, pure, ask, change, write_backend}

-- `MAX_REPLY_LINES`.
abbrev pub max_reply_lines : ℕ
max_reply_lines = 32

-- At least four bytes, of which the first three are digits.
abbrev pub is_well_formed : Text → Bool
is_well_formed line = leb 4 (length line) && all is_digit (take 3 line)

abbrev pub byte_is : ℕ → ℕ → Text → Bool
byte_is i c line = elim (get_elem? line i) [ none ↦ false | some d ↦ d == c ]

-- What one line does to the reply read so far: an error, the code, or on with the next line.
pub data Progress : Type 0 where
  broken : ErrorKind → Progress
  finished : Text → Progress
  more : Option Text → Progress

-- The `match` on the code of the first line.
abbrev pub of_code : Option Text → Text → Progress
of_code none line =
    if byte_is 3 b'-' line then more (some (take 3 line)) else finished (take 3 line)
of_code (some first) line =
    if starts_with first line && byte_is 3 b' ' line then finished first else more (some first)

unfoldable pub reply_line : Option Text → Text → Progress
reply_line code [] = broken unexpected_eof
reply_line code (c ∷ s) =
    let line = c ∷ s in
    if ends_with lf line
    then (if is_well_formed line then of_code code line else broken invalid_data)
    else broken invalid_data

abbrev pub progress_of : Option Text → Timed (IoResult Text) → Progress
progress_of code elapsed = broken timed_out
progress_of code (done (err kind)) = broken kind
progress_of code (done (ok line)) = reply_line code line

-- `read_reply_code` with `lines` left to read.
unfoldable pub read_reply : ℕ → Option Text → Run (IoResult Text)
read_reply zero code = pure (err invalid_data)
read_reply (suc lines) code = do
  read ← ask λ env t. env.backend_read t
  elim (progress_of code read) [
    | broken kind ↦ pure (err kind)
    | finished reply ↦ pure (ok reply)
    | more code' ↦ read_reply lines code'
  ]

abbrev pub expect : Text → IoResult Text → IoResult (Unit {0})
expect expected (err kind) = err kind
expect expected (ok code) = if text_eq code expected then ok tt else err permission_denied

unfoldable pub command_expecting : Text → Text → Run (IoResult (Unit {0}))
command_expecting command expected = do
  written ← write_backend (command ++ crlf)
  elim written [
    | err kind ↦ pure (err kind)
    | ok _ ↦ do code ← read_reply max_reply_lines none; pure (expect expected code)
  ]

-- From here on what goes to the backend is protected.
abbrev pub secure : Run (Unit {0})
secure = change λ w. record w { secured = true }

abbrev pub handshake_result : Timed (IoResult (Unit {0})) → IoResult (Unit {0})
handshake_result elapsed = err timed_out
handshake_result (done result) = result

-- The commands that follow the handshake.
unfoldable pub protect_data : Run (IoResult (Unit {0}))
protect_data = do
  pbsz ← command_expecting (codes "PBSZ 0") (codes "200")
  elim pbsz [ err kind ↦ pure (err kind) | ok _ ↦ command_expecting (codes "PROT P") (codes "200") ]

unfoldable pub shake_hands : Run (IoResult (Unit {0}))
shake_hands = do
  answer ← ask λ env t. env.handshake t
  elim (handshake_result answer) [ err kind ↦ pure (err kind) | ok _ ↦ do secure; protect_data ]

unfoldable pub negotiate_explicit_ftps : Run (IoResult (Unit {0}))
negotiate_explicit_ftps = do
  auth ← command_expecting (codes "AUTH TLS") (codes "234")
  elim auth [
    | err kind ↦ pure (err kind)
    | ok _ ↦ do
      ahead ← ask λ env t. env.buffered t
      if ahead then pure (err invalid_data) else shake_hands
  ]
