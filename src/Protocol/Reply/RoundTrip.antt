-- ===== src/Protocol/Reply/RoundTrip.antt =====
-- What the gateway prints as a passive-mode reply, its own parsers read back.
use Prim.Native.Nat.{bit_and}
use iot_ftp_upload_gateway.Base.{
  ℕ, ◌+◌, ◌*◌, ◌/◌, ◌%◌, ◌^◌, ◌≤◌, ◌<◌, ◌≡◌, ◌≢◌, refl, subst, ap, ◌∙◌, true, List, [], ◌∷◌, ◌++◌,
  some, arith, append_assoc, All-append, Text, codes, Lacks, split, trim, show, parse_uint, u16_max,
  find-append, drop-append, slice-append, split-append, split_last, trim-NoneOf, IsDigit,
  show-IsDigit, show-Lacks, IsDigit-no_whitespace, parse_uint-show, bit_or_bytes, ==_refl,
  bit_and_low_byte,
}
use iot_ftp_upload_gateway.Net.{Ipv4Addr, IsIpv4, octet, from_octets, from_octets-octet}
use iot_ftp_upload_gateway.Protocol.Reply.{
  pasv_reply, epsv_reply, parenthesised, is_ascii_graphic, first_delimiter, port_field, nonzero,
  parse_epsv_reply, parse_numbers, of_numbers, parse_pasv_reply,
}

pub parenthesised-append :
    (s inner t : Text)
    → Lacks b'(' s
    → Lacks b')' inner
    → parenthesised (s ++ b'(' ∷ (inner ++ b')' ∷ t)) ≡ some inner
unfolding parenthesised
parenthesised-append s inner t hs hi =
    rw
      (
        find-append b'(' s (inner ++ b')' ∷ t) hs,
        drop-append s (b'(' ∷ (inner ++ b')' ∷ t)),
        find-append b')' (b'(' ∷ inner) t ((λ e. omega arith), hi),
      )
      (ap some (slice-append s inner t b'(' b')' _ _ refl refl))

parse_part : (n : ℕ) → n ≤ u16_max → parse_uint u16_max (trim (show n)) ≡ some n
parse_part n h =
    rw (trim-NoneOf (show n) (IsDigit-no_whitespace (show n) (show-IsDigit n)))
      (parse_uint-show u16_max n h)

-- Six numbers with commas between them.
abbrev fields : ℕ → ℕ → ℕ → ℕ → ℕ → ℕ → Text
fields a b c d p q =
    show a
    ++ b',' ∷ (show b ++ b',' ∷ (show c ++ b',' ∷ (show d ++ b',' ∷ (show p ++ b',' ∷ show q))))

-- A text that digits and other characters than `c` make up.
join-Lacks :
    (c n : ℕ) (rest : Text)
    → ¬ IsDigit c
    → b',' ≢ c
    → Lacks c rest
    → Lacks c (show n ++ b',' ∷ rest)
join-Lacks c n rest h k r = All-append _ (show n) (b',' ∷ rest) (show-Lacks c n h) (k, r)

fields-Lacks : (a b c d p q : ℕ) → Lacks b')' (fields a b c d p q)
fields-Lacks a b c d p q =
    joined a _
      (joined b _ (joined c _ (joined d _ (joined p _ (show-Lacks b')' q (λ e. omega arith))))))
  where
    joined : (n : ℕ) (rest : Text) → Lacks b')' rest → Lacks b')' (show n ++ b',' ∷ rest)
    joined n rest r = join-Lacks b')' n rest (λ e. omega arith) (λ e. omega arith) r

parse_numbers-cons :
    (n : ℕ) (rest : Text) (ns : List ℕ)
    → n ≤ u16_max
    → parse_numbers (split b',' rest) ≡ some ns
    → parse_numbers (split b',' (show n ++ b',' ∷ rest)) ≡ some (n ∷ ns)
unfolding parse_numbers
parse_numbers-cons n rest ns h e =
    rw (split-append b',' (show n) rest (show-Lacks b',' n (λ i. omega arith)), parse_part n h, e)

parse_numbers_last : (n : ℕ) → n ≤ u16_max → parse_numbers (split b',' (show n)) ≡ some (n ∷ [])
unfolding parse_numbers
parse_numbers_last n h =
    rw (split_last b',' (show n) (show-Lacks b',' n (λ i. omega arith)), parse_part n h)

parse_numbers-fields :
    (a b c d p q : ℕ)
    → (a < 256) × (b < 256) × (c < 256) × (d < 256) × (p < 256) × (q < 256)
    → parse_numbers (split b',' (fields a b c d p q)) ≡ some (a ∷ b ∷ c ∷ d ∷ p ∷ q ∷ [])
parse_numbers-fields a b c d p q h = parse_numbers-cons a _ _ (omega arith) (
    parse_numbers-cons b _ _ (omega arith) (
      parse_numbers-cons c _ _ (omega arith) (
        parse_numbers-cons d _ _ (omega arith)
          (parse_numbers-cons p _ _ (omega arith) (parse_numbers_last q (omega arith))))))

abbrev high : ℕ → ℕ
high port = port / 2 ^ 8 % 2 ^ 8

abbrev low : ℕ → ℕ
low port = bit_and port 0xff % 2 ^ 8

-- The text between the parentheses of a PASV reply.
abbrev body : Ipv4Addr → ℕ → Text
body ip port = fields (octet 0 ip) (octet 1 ip) (octet 2 ip) (octet 3 ip) (high port) (low port)

bytes :
    (ip : Ipv4Addr) (port : ℕ)
    → (octet 0 ip < 256)
      × (octet 1 ip < 256)
      × (octet 2 ip < 256)
      × (octet 3 ip < 256)
      × (high port < 256)
      × (low port < 256)
bytes ip port = omega arith

pasv_reply-fields :
    (ip : Ipv4Addr) (port : ℕ)
    → pasv_reply ip port
      ≡ codes "227 Entering Passive Mode " ++ b'(' ∷ (body ip port ++ b')' ∷ codes ".\r\n")
unfolding pasv_reply
pasv_reply-fields ip port = simp append_assoc

of_numbers_lem :
    (a b c d p q : ℕ)
    → (a < 256) × (b < 256) × (c < 256) × (d < 256) × (p < 256) × (q < 256)
    → of_numbers (a ∷ b ∷ c ∷ d ∷ p ∷ q ∷ []) ≡ some (from_octets a b c d, p * 256 + q)
unfolding of_numbers
of_numbers_lem a b c d p q h =
    let shifted : p * 2 ^ 8 % 2 ^ 16 ≡ p * 256 = omega arith in
    ground (arith, shifted, bit_or_bytes p q)

read_back :
    (ip : Ipv4Addr) (port : ℕ)
    → IsIpv4 ip
    → port ≤ u16_max
    → ◌≡◌ {A = Ipv4Addr × ℕ}
        (
          from_octets (octet 0 ip) (octet 1 ip) (octet 2 ip) (octet 3 ip),
          high port * 256 + low port,
        )
        (ip, port)
read_back ip port hi hp =
    let same_port : high port * 256 + low port ≡ port = omega (arith, bit_and_low_byte port) in
    λ i. (from_octets-octet ip hi i, same_port i)

-- The address and port that a PASV reply announces are the ones that its parser reads.
pub parse_pasv_reply-pasv_reply :
    (ip : Ipv4Addr) (port : ℕ)
    → IsIpv4 ip
    → port ≤ u16_max
    → parse_pasv_reply (pasv_reply ip port) ≡ some (ip, port)
unfolding parse_pasv_reply
parse_pasv_reply-pasv_reply ip port hi hp =
    rw
      (
        pasv_reply-fields ip port,
        parenthesised-append (codes "227 Entering Passive Mode ") (body ip port) (codes ".\r\n")
            (omega arith) (fields-Lacks _ _ _ _ _ _),
        parse_numbers-fields _ _ _ _ _ _ (bytes ip port),
      )
      (of_numbers_lem _ _ _ _ _ _ (bytes ip port) ∙ ap some (read_back ip port hi hp))

first_delimiter_lem :
    (d : ℕ) (s : Text) → is_ascii_graphic d ≡ true → first_delimiter (d ∷ s) ≡ some d
unfolding first_delimiter
first_delimiter_lem d s g = rw g

split_delimited :
    (d : ℕ) (field : Text)
    → Lacks d field
    → split d (d ∷ d ∷ d ∷ (field ++ d ∷ [])) ≡ [] ∷ [] ∷ [] ∷ field ∷ [] ∷ []
split_delimited d field h = simp (==_refl d, split-append d field [] h)

-- An EPSV reply may use any visible delimiter but a digit and the closing parenthesis, and may
-- hold any text around the parentheses.
pub parse_epsv_reply_delimited :
    (d port : ℕ) (s t : Text)
    → is_ascii_graphic d ≡ true
    → ¬ IsDigit d
    → d ≢ b')'
    → Lacks b'(' s
    → port ≤ u16_max
    → parse_epsv_reply (s ++ b'(' ∷ ((d ∷ d ∷ d ∷ (show port ++ d ∷ [])) ++ b')' ∷ t))
      ≡ nonzero port
unfolding parse_epsv_reply port_field
parse_epsv_reply_delimited d port s t g n k hs hp = rw (
  parenthesised-append s (d ∷ d ∷ d ∷ (show port ++ d ∷ [])) t hs (
    k,
    (k, (k, All-append _ (show port) (d ∷ []) (show-Lacks b')' port (λ i. omega arith)) (k, tt))),
  ),
  first_delimiter_lem d _ g,
  split_delimited d (show port) (show-Lacks d port n),
  parse_uint-show u16_max port hp,
)

-- What `epsv_reply` prints is read back, but for port 0, which its reader refuses.
pub parse_epsv_reply-epsv_reply :
    (port : ℕ) → port ≤ u16_max → parse_epsv_reply (epsv_reply port) ≡ nonzero port
unfolding epsv_reply
parse_epsv_reply-epsv_reply port h =
    subst (λ line. parse_epsv_reply line ≡ nonzero port) (simp append_assoc)
      (parse_epsv_reply_delimited b'|' port (codes "229 Entering Extended Passive Mode ")
        (codes ".\r\n") refl (λ i. omega arith) (omega arith) (omega arith) h)
