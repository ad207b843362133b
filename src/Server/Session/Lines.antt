-- ===== src/Server/Session/Lines.antt =====
-- Reading lines under a limit, and what a failure on either connection does to a session: the
-- helpers and the two macros at the top of src/server/session.rs.
use iot_ftp_upload_gateway.Base.{
  ℕ, ◌+◌, Bool, not, ◌&&◌, ◌||◌, [], ◌∷◌, ltb, ◌==◌, if◌then◌else◌, Text, cr, lf, ends_with,
  trim_end_with,
}
use iot_ftp_upload_gateway.Io.{IoResult, ok, err, Timed, done, elapsed, timed_out, invalid_data}
use iot_ftp_upload_gateway.Metrics.{observe_backend_io_error}
use iot_ftp_upload_gateway.Run.{
  Run, ◌>>=◌, ◌>>◌, pure, halt, ask, measure, write_client, write_backend,
}

-- The bytes of a character and of a text in UTF-8.
abbrev pub char_bytes : ℕ → ℕ
char_bytes c = if ltb c 0x80 then 1 else if ltb c 0x800 then 2 else if ltb c 0x10000 then 3 else 4

abbrev pub byte_length : Text → ℕ
byte_length [] = 0
byte_length (c ∷ s) = char_bytes c + byte_length s

-- `read_line_bounded`, given what `take(max_bytes)` and `read_line` made of the stream.
unfoldable pub read_line_bounded : ℕ → IoResult Text → IoResult Text
read_line_bounded max_bytes (err kind) = err kind
read_line_bounded max_bytes (ok line) =
    if byte_length line == max_bytes && not (ends_with lf line) then err invalid_data else ok line

unfoldable pub read_line_with_timeout : ℕ → Timed (IoResult Text) → IoResult Text
unfolding read_line_bounded
read_line_with_timeout max_bytes elapsed = err timed_out
read_line_with_timeout max_bytes (done read) = read_line_bounded max_bytes read

abbrev pub is_line_end : ℕ → Bool
is_line_end c = c == cr || c == lf

-- `trim_end_matches(['\r', '\n'])`.
abbrev pub without_line_end : Text → Text
without_line_end = trim_end_with is_line_end

-- `client_io!`: a failure ends the session.
abbrev pub client_io : {A : Type 0} → IoResult A → Run A
client_io (ok a) = pure a
client_io (err kind) = halt

-- `backend_io!`: a failure is counted if it is a timeout, and ends the session.
abbrev pub backend_io : {A : Type 0} → IoResult A → Run A
backend_io (ok a) = pure a
backend_io (err kind) = do measure (observe_backend_io_error kind); halt

unfoldable pub tell_client : Text → Run (Unit {0})
tell_client text = do written ← write_client text; client_io written

-- A last word, whatever becomes of it: `let _ = …`.
unfoldable pub last_word : {A : Type 0} → Text → Run A
last_word text = do _ ← write_client text; halt

unfoldable pub tell_backend : Text → Run (Unit {0})
tell_backend text = do written ← write_backend text; backend_io written

unfoldable pub backend_line : ℕ → Run Text
backend_line max_bytes = do
  read ← ask λ env t. env.backend_read t
  backend_io (read_line_with_timeout max_bytes read)
