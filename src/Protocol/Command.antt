-- ===== src/Protocol/Command.antt =====
-- src/protocol/command.rs: the commands that a client may send, how a line is read as one, and how a
-- command is printed in a log. Texts are lists of code points.
pub mod Escape
pub mod Parse
pub mod Injection
mod Tests
use iot_ftp_upload_gateway.Base.{
  ℕ, zero, suc, ◌+◌, ◌-◌, ◌/◌, ◌%◌, Bool, true, false, not, ◌||◌, List, [], ◌∷◌, ◌++◌, Option, none,
  some, ltb, ◌==◌, if◌then◌else◌, Text, codes, cr, lf, between, is_control, any, contains, trim,
  split_once, map, to_ascii_uppercase, text_eq,
}

-- One hexadecimal digit, in lower case.
abbrev pub hex_digit : ℕ → ℕ
hex_digit d = if ltb d 10 then b'0' + d else b'a' + (d - 10)

-- The hexadecimal digits of `n` before `out`; the fuel is above `n`.
pub hex : ℕ → ℕ → Text → Text
hex zero n out = out
hex (suc f) n out =
    let rest = hex f (n / 16) (hex_digit (n % 16) ∷ out) in
    if ltb n 16 then hex_digit n ∷ out else rest

-- `char::escape_default`.
pub escape_default : ℕ → Text
unfolding hex
escape_default c =
    if c == b'\t'
    then codes "\\t"
    else if c == cr
    then codes "\\r"
    else if c == lf
    then codes "\\n"
    else if c == b'\'' || c == b'"' || c == b'\\'
    then b'\\' ∷ c ∷ []
    else if between 0x20 0x7e c
    then c ∷ []
    else codes "\\u{" ++ hex (suc c) c (b'}' ∷ [])

-- The loop of `escape_control_chars`.
pub escape_each : Text → Text
escape_each [] = []
escape_each (c ∷ s) = (if is_control c then escape_default c else c ∷ []) ++ escape_each s

unfoldable pub escape_control_chars : Text → Text
unfolding escape_each
escape_control_chars input = if not (any is_control input) then input else escape_each input

unfoldable pub has_embedded_line_break : Text → Bool
has_embedded_line_break body = contains cr body || contains lf body

pub data FtpCommand : Type 0 where
  user pass : Text → FtpCommand
  syst : FtpCommand
  type : Text → FtpCommand
  pwd : FtpCommand
  cwd : Text → FtpCommand
  pasv epsv : FtpCommand
  stor mkd : Text → FtpCommand
  quit noop : FtpCommand
  unknown : Text → FtpCommand

-- The `match` on the verb, already in upper case.
pub of_verb : Text → Text → FtpCommand
of_verb verb rest =
    if text_eq verb (codes "USER")
    then user rest
    else if text_eq verb (codes "PASS")
    then pass rest
    else if text_eq verb (codes "SYST")
    then syst
    else if text_eq verb (codes "TYPE")
    then type rest
    else if text_eq verb (codes "PWD")
    then pwd
    else if text_eq verb (codes "CWD")
    then cwd rest
    else if text_eq verb (codes "PASV")
    then pasv
    else if text_eq verb (codes "EPSV")
    then epsv
    else if text_eq verb (codes "STOR")
    then stor rest
    else if text_eq verb (codes "MKD")
    then mkd rest
    else if text_eq verb (codes "QUIT")
    then quit
    else if text_eq verb (codes "NOOP")
    then noop
    else unknown verb

-- The verb and its argument: the line up to the first blank, and what follows it, trimmed.
pub verb_and_rest : Text → Text × Text
verb_and_rest line = elim (split_once 0x20 line) [
  | some (verb, rest) ↦ (verb, trim rest)
  | none ↦ (line, [])
]

unfoldable pub parse : Text → FtpCommand
unfolding of_verb verb_and_rest
parse line =
    let (verb, rest) = verb_and_rest (trim line) in of_verb (map to_ascii_uppercase verb) rest

unfoldable pub as_log_str : FtpCommand → Text
as_log_str (user arg) = codes "USER " ++ escape_control_chars arg
as_log_str (pass _) = codes "PASS <redacted>"
as_log_str syst = codes "SYST"
as_log_str (type arg) = codes "TYPE " ++ escape_control_chars arg
as_log_str pwd = codes "PWD"
as_log_str (cwd arg) = codes "CWD " ++ escape_control_chars arg
as_log_str pasv = codes "PASV"
as_log_str epsv = codes "EPSV"
as_log_str (stor arg) = codes "STOR " ++ escape_control_chars arg
as_log_str (mkd arg) = codes "MKD " ++ escape_control_chars arg
as_log_str quit = codes "QUIT"
as_log_str noop = codes "NOOP"
as_log_str (unknown verb) = codes "UNKNOWN " ++ escape_control_chars verb
