-- ===== src/Protocol/Command/Tests.antt =====
-- Sample lines, and the theorems about commands at concrete inputs.
use iot_ftp_upload_gateway.Base.{
  ◌≡◌, ◌↔◌, refl, false, [], ◌∷◌, ◌++◌, codes, cr, lf, is_control, NoneOf, Lacks,
}
use iot_ftp_upload_gateway.Protocol.Command.{
  user, stor, epsv, quit, unknown, of_verb, parse, as_log_str, escape_control_chars, escape_default,
  has_embedded_line_break,
}
use iot_ftp_upload_gateway.Protocol.Command.Escape.{as_log_str-NoneOf, escape_control_chars_idem}
use iot_ftp_upload_gateway.Protocol.Command.Parse.{
  is_supported, IsWord, parse-append, of_verb-unknown_iff,
}
use iot_ftp_upload_gateway.Protocol.Command.Injection.{has_embedded_line_break_iff}

parses_user : parse (codes "USER iot") ≡ user (codes "iot")
unfolding parse
parses_user = refl

parses_quit : parse (codes "Quit") ≡ quit
unfolding parse
parses_quit = refl

parses_epsv_argument : parse (codes "EPSV 2") ≡ epsv
unfolding parse
parses_epsv_argument = refl

parses_unknown : parse (codes "RETR file.txt") ≡ unknown (codes "RETR")
unfolding parse
parses_unknown = refl

escapes_return :
    as_log_str (parse (codes "STOR evil" ++ cr ∷ codes "file.txt")) ≡ codes "STOR evil\\rfile.txt"
unfolding parse as_log_str escape_control_chars escape_default
escapes_return = refl

escapes_escape : escape_control_chars (0x1b ∷ codes "[2J") ≡ codes "\\u{1b}[2J"
unfolding escape_control_chars escape_default
escapes_escape = refl

allows_backslash : has_embedded_line_break (codes "back\\slash") ≡ false
unfolding has_embedded_line_break
allows_backslash = refl

IsWord-stor : IsWord (codes "stor")
IsWord-stor = (cc, (refl, (refl, (refl, (refl, tt)))))

stor_is_parsed : parse (codes "stor" ++ 0x20 ∷ codes " a b ") ≡ of_verb (codes "STOR") (codes "a b")
stor_is_parsed = parse-append (codes "stor") (codes " a b ") IsWord-stor

as_log_str-NoneOf_example : NoneOf is_control (as_log_str (stor (cr ∷ codes "x")))
as_log_str-NoneOf_example = as_log_str-NoneOf (stor (cr ∷ codes "x"))

escaping_twice :
    escape_control_chars (escape_control_chars (cr ∷ [])) ≡ escape_control_chars (cr ∷ [])
escaping_twice = escape_control_chars_idem (cr ∷ [])

single_line :
    (has_embedded_line_break (codes "STOR a.jpg") ≡ false)
    ↔ (Lacks cr (codes "STOR a.jpg") × Lacks lf (codes "STOR a.jpg"))
single_line = has_embedded_line_break_iff (codes "STOR a.jpg")

retr_is_unsupported :
    (of_verb (codes "RETR") (codes "a") ≡ unknown (codes "RETR"))
    ↔ (is_supported (codes "RETR") ≡ false)
retr_is_unsupported = of_verb-unknown_iff (codes "RETR") (codes "a")
