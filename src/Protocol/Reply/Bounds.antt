-- ===== src/Protocol/Reply/Bounds.antt =====
-- What the parsers of passive-mode replies return is an address and a port.
use iot_ftp_upload_gateway.Base.{
  ℕ, ◌*◌, ◌%◌, ◌^◌, ◌≤◌, ◌≡◌, ◌≢◌, List, [], ◌∷◌, some, arith, Text, parse_uint, parse_uint-le,
  u16_max, >>=-eq-some, bit_or_bytes, split,
}
use iot_ftp_upload_gateway.Net.{Ipv4Addr, IsIpv4}
use iot_ftp_upload_gateway.Protocol.Reply.{
  parenthesised, first_delimiter, port_field, nonzero, parse_epsv_reply, parse_numbers, of_numbers,
  parse_pasv_reply,
}

of_numbers_bounds :
    (numbers : List ℕ) (ip : Ipv4Addr) (port : ℕ)
    → of_numbers numbers ≡ some (ip, port)
    → IsIpv4 ip × (port ≤ u16_max)
unfolding of_numbers
of_numbers_bounds (o1 ∷ o2 ∷ o3 ∷ o4 ∷ p1 ∷ p2 ∷ []) ip port h =
    let shifted : p1 ≤ 255 → p1 * 2 ^ 8 % 2 ^ 16 ≡ p1 * 256 = λ l. omega arith in
    ground (arith, shifted, bit_or_bytes p1 p2)
of_numbers_bounds _ ip port h = cc

-- An accepted PASV reply gives four octets and a 16-bit port.
pub parse_pasv_reply_bounds :
    (line : Text) (ip : Ipv4Addr) (port : ℕ)
    → parse_pasv_reply line ≡ some (ip, port)
    → IsIpv4 ip × (port ≤ u16_max)
unfolding parse_pasv_reply
parse_pasv_reply_bounds line ip port h =
    let (inner, _, h') = >>=-eq-some (parenthesised line) _ h in
    let (numbers, _, h'') = >>=-eq-some (parse_numbers (split b',' inner)) _ h' in
    of_numbers_bounds numbers ip port h''

-- An accepted EPSV reply gives a 16-bit port other than 0.
pub parse_epsv_reply_bounds :
    (line : Text) (port : ℕ) → parse_epsv_reply line ≡ some port → (port ≢ 0) × (port ≤ u16_max)
unfolding parse_epsv_reply nonzero
parse_epsv_reply_bounds line port h =
    let (inner, _, h1) = >>=-eq-some (parenthesised line) _ h in
    let (d, _, h2) = >>=-eq-some (first_delimiter inner) _ h1 in
    let (field, _, h3) = >>=-eq-some (port_field (split d inner)) _ h2 in
    let (n, e, h4) = >>=-eq-some (parse_uint u16_max field) _ h3 in
    let small = parse_uint-le u16_max field n e in ground arith
