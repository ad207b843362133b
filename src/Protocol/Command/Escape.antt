-- ===== src/Protocol/Command/Escape.antt =====
-- What a log line can hold: escaped texts and printed commands are free of control characters.
use iot_ftp_upload_gateway.Base.{
  ℕ, zero, suc, ◌/◌, ◌%◌, ◌<◌, ◌≡◌, refl, Bool, true, false, [], ◌∷◌, ◌++◌, arith, Text, codes,
  is_control, any, NoneOf, All-append, ltb, ltb→lt, Bool-cases, inl, inr,
}
use iot_ftp_upload_gateway.Protocol.Command.{
  hex_digit, hex, escape_default, escape_each, escape_control_chars, FtpCommand, user, pass, syst,
  type, pwd, cwd, pasv, epsv, stor, mkd, quit, noop, unknown, as_log_str,
}

hex_digit_plain : (d : ℕ) → d < 16 → is_control (hex_digit d) ≡ false
hex_digit_plain d h = ground arith

hex-NoneOf : (f n : ℕ) (out : Text) → NoneOf is_control out → NoneOf is_control (hex f n out)
unfolding hex
hex-NoneOf zero n out h = h
hex-NoneOf (suc f) n out h =
    let rest =
      hex-NoneOf f (n / 16) (hex_digit (n % 16) ∷ out)
        (hex_digit_plain (n % 16) (omega arith), h) in
    elim (Bool-cases (ltb n 16)) [
      | inl small ↦ rw small (hex_digit_plain n (ltb→lt n 16 small), h)
      | inr large ↦ rw large rest
    ]

escape_default-NoneOf : (c : ℕ) → is_control c ≡ true → NoneOf is_control (escape_default c)
unfolding escape_default
escape_default-NoneOf c h = ground (arith, hex-NoneOf (suc c) c (b'}' ∷ []) (refl, tt))

escape_each-NoneOf : (s : Text) → NoneOf is_control (escape_each s)
unfolding escape_each
escape_each-NoneOf [] = tt
escape_each-NoneOf (c ∷ s) = elim (Bool-cases (is_control c)) [
  | inl control ↦
      rw control
        (All-append _ (escape_default c) _ (escape_default-NoneOf c control) (escape_each-NoneOf s))
  | inr plain ↦ rw plain (plain, escape_each-NoneOf s)
]

any-NoneOf : (p : ℕ → Bool) (s : Text) → any p s ≡ false → NoneOf p s
any-NoneOf p [] h = tt
any-NoneOf p (c ∷ s) h = ground (arith, any-NoneOf p s)

-- The escaped text holds no control character, whatever the input.
pub escape_control_chars-NoneOf : (s : Text) → NoneOf is_control (escape_control_chars s)
unfolding escape_control_chars
escape_control_chars-NoneOf s = elim (Bool-cases (any is_control s)) [
  | inl some_control ↦ rw some_control (escape_each-NoneOf s)
  | inr no_control ↦ rw no_control (any-NoneOf is_control s no_control)
]

logged :
    (verb arg : Text)
    → any is_control verb ≡ false
    → NoneOf is_control (verb ++ escape_control_chars arg)
logged verb arg h =
    All-append _ verb _ (any-NoneOf is_control verb h) (escape_control_chars-NoneOf arg)

-- No command is printed with a control character, so a client can forge no line of the log.
pub as_log_str-NoneOf : (c : FtpCommand) → NoneOf is_control (as_log_str c)
unfolding as_log_str
as_log_str-NoneOf (user arg) = logged (codes "USER ") arg refl
as_log_str-NoneOf (pass _) = any-NoneOf is_control (codes "PASS <redacted>") refl
as_log_str-NoneOf syst = any-NoneOf is_control (codes "SYST") refl
as_log_str-NoneOf (type arg) = logged (codes "TYPE ") arg refl
as_log_str-NoneOf pwd = any-NoneOf is_control (codes "PWD") refl
as_log_str-NoneOf (cwd arg) = logged (codes "CWD ") arg refl
as_log_str-NoneOf pasv = any-NoneOf is_control (codes "PASV") refl
as_log_str-NoneOf epsv = any-NoneOf is_control (codes "EPSV") refl
as_log_str-NoneOf (stor arg) = logged (codes "STOR ") arg refl
as_log_str-NoneOf (mkd arg) = logged (codes "MKD ") arg refl
as_log_str-NoneOf quit = any-NoneOf is_control (codes "QUIT") refl
as_log_str-NoneOf noop = any-NoneOf is_control (codes "NOOP") refl
as_log_str-NoneOf (unknown verb) = logged (codes "UNKNOWN ") verb refl

-- Text without control characters is left as it is.
pub escape_control_chars-plain : (s : Text) → any is_control s ≡ false → escape_control_chars s ≡ s
unfolding escape_control_chars
escape_control_chars-plain s h = rw h

NoneOf-any : (p : ℕ → Bool) (s : Text) → NoneOf p s → any p s ≡ false
NoneOf-any p [] h = refl
NoneOf-any p (c ∷ s) h = rw h.0 (NoneOf-any p s h.1)

-- Escaping once is enough: the second time changes nothing.
pub escape_control_chars_idem :
    (s : Text) → escape_control_chars (escape_control_chars s) ≡ escape_control_chars s
escape_control_chars_idem s =
    escape_control_chars-plain _ (NoneOf-any is_control _ (escape_control_chars-NoneOf s))
