-- ===== src/Protocol/Reply.antt =====
-- src/protocol/reply.rs: the 227 and 229 replies, printed for a client and parsed from a backend. An
-- IPv4 address is the 32-bit number that its four octets spell, a port a 16-bit number.
pub mod RoundTrip
pub mod Bounds
mod Tests
use Prim.Native.Nat.{bit_and, bit_or}
use iot_ftp_upload_gateway.Base.{
  ℕ, zero, suc, ◌+◌, ◌-◌, ◌*◌, ◌/◌, ◌%◌, ◌^◌, ◌≤◌, ◌<◌, ◌≡◌, Bool, true, false, not, List, [], ◌∷◌,
  ◌++◌, Option, none, some, ltb, ◌==◌, if◌then◌else◌, Text, codes, between, any, find, drop, slice,
  split, trim, show, parse_uint, u16_max, ◌>>=◌,
}
use iot_ftp_upload_gateway.Net.{Ipv4Addr, octet, from_octets}

unfoldable pub pasv_reply : Ipv4Addr → ℕ → Text
pasv_reply ip port =
    let p1 = port / 2 ^ 8 % 2 ^ 8 in
    let p2 = bit_and port 0xff % 2 ^ 8 in
    codes "227 Entering Passive Mode ("
    ++ (show (octet 0 ip)
        ++ b','
          ∷ (show (octet 1 ip)
              ++ b','
                ∷ (show (octet 2 ip)
                    ++ b','
                      ∷ (show (octet 3 ip)
                          ++ b',' ∷ (show p1 ++ b',' ∷ (show p2 ++ codes ").\r\n"))))))

unfoldable pub epsv_reply : ℕ → Text
epsv_reply port = codes "229 Entering Extended Passive Mode (|||" ++ (show port ++ codes "|).\r\n")

-- `&line[start + 1..end]`, where `end` is the first `)` at or after the first `(`. Both parsers
-- begin with it.
pub parenthesised : Text → Option Text
parenthesised line = do
  start ← find b'(' line
  offset ← find b')' (drop start line)
  let end = start + offset
  some (slice (start + 1) end line)

-- `is_ascii_graphic`.
abbrev pub is_ascii_graphic : ℕ → Bool
is_ascii_graphic = between b'!' b'~'

pub first_delimiter : Text → Option ℕ
first_delimiter [] = none
first_delimiter (c ∷ inner) = if is_ascii_graphic c then some c else none

-- The slice pattern: five fields, of which all but the fourth are empty.
pub port_field : List Text → Option Text
port_field ([] ∷ [] ∷ [] ∷ port ∷ [] ∷ []) = some port
port_field _ = none

pub nonzero : ℕ → Option ℕ
nonzero port = if port == 0 then none else some port

unfoldable pub parse_epsv_reply : Text → Option ℕ
parse_epsv_reply line = do
  inner ← parenthesised line
  delimiter ← first_delimiter inner
  field ← port_field (split delimiter inner)
  port ← parse_uint u16_max field
  nonzero port

-- `map(…).collect::<Option<Vec<u16>>>()`.
pub parse_numbers : List Text → Option (List ℕ)
parse_numbers [] = some []
parse_numbers (part ∷ parts) = do
  n ← parse_uint u16_max (trim part)
  rest ← parse_numbers parts
  some (n ∷ rest)

pub of_numbers : List ℕ → Option (Ipv4Addr × ℕ)
of_numbers (o1 ∷ o2 ∷ o3 ∷ o4 ∷ p1 ∷ p2 ∷ []) =
    if any (λ n. ltb 255 n) (o1 ∷ o2 ∷ o3 ∷ o4 ∷ p1 ∷ p2 ∷ [])
    then none
    else some (
      from_octets (o1 % 2 ^ 8) (o2 % 2 ^ 8) (o3 % 2 ^ 8) (o4 % 2 ^ 8),
      bit_or (p1 * 2 ^ 8 % 2 ^ 16) p2,
    )
of_numbers _ = none

unfoldable pub parse_pasv_reply : Text → Option (Ipv4Addr × ℕ)
parse_pasv_reply line = do
  inner ← parenthesised line
  numbers ← parse_numbers (split b',' inner)
  of_numbers numbers
