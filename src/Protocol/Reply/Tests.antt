-- ===== src/Protocol/Reply/Tests.antt =====
-- Sample replies, and the theorems about replies at concrete inputs.
use iot_ftp_upload_gateway.Base.{
  ℕ, ◌≤◌, ◌≡◌, ◌≢◌, refl, [], ◌∷◌, ◌++◌, none, some, arith, codes, show, u16_max, parse_uint,
}
use iot_ftp_upload_gateway.Net.{Ipv4Addr, IsIpv4, from_octets}
use iot_ftp_upload_gateway.Protocol.Reply.{
  pasv_reply, epsv_reply, parse_epsv_reply, parse_pasv_reply, parenthesised, first_delimiter,
  port_field, nonzero, parse_numbers, of_numbers,
}
use iot_ftp_upload_gateway.Protocol.Reply.RoundTrip.{
  parse_pasv_reply-pasv_reply, parse_epsv_reply_delimited, parse_epsv_reply-epsv_reply,
}
use iot_ftp_upload_gateway.Protocol.Reply.Bounds.{parse_pasv_reply_bounds, parse_epsv_reply_bounds}

abbrev localhost : Ipv4Addr
localhost = from_octets 127 0 0 1

encodes_pasv : pasv_reply localhost 10000 ≡ codes "227 Entering Passive Mode (127,0,0,1,39,16).\r\n"
unfolding pasv_reply show
encodes_pasv = refl

encodes_epsv : epsv_reply 65535 ≡ codes "229 Entering Extended Passive Mode (|||65535|).\r\n"
unfolding epsv_reply show
encodes_epsv = refl

parses_leading_text :
    parse_pasv_reply (codes "227 Entering Passive Mode (10,0,0,5,200,3).\r\n")
    ≡ some (from_octets 10 0 0 5, 51203)
unfolding parse_pasv_reply parenthesised parse_numbers of_numbers parse_uint
parses_leading_text = refl

rejects_octet : parse_pasv_reply (codes "227 Entering Passive Mode (1,2,3,4,5,300).\r\n") ≡ none
unfolding parse_pasv_reply parenthesised parse_numbers of_numbers parse_uint
rejects_octet = refl

epsv_bang : parse_epsv_reply (codes "229 ok (!!!2121!)") ≡ some 2121
unfolding parse_epsv_reply parenthesised first_delimiter port_field nonzero parse_uint
epsv_bang = refl

epsv_rejects :
    (parse_epsv_reply (codes "502 Command not implemented.") ≡ none)
    × (parse_epsv_reply (codes "229 (|||0|)") ≡ none)
    × (parse_epsv_reply (codes "229 (|||70000|)") ≡ none)
    × (parse_epsv_reply (codes "229 (|||6446|extra|)") ≡ none)
    × (parse_epsv_reply (codes "229 (|||6446)") ≡ none)
unfolding parse_epsv_reply parenthesised first_delimiter port_field nonzero parse_uint
epsv_rejects = (refl, refl, refl, refl, refl)

parse_pasv_reply-pasv_reply_example :
    parse_pasv_reply (pasv_reply localhost 51200) ≡ some (localhost, 51200)
parse_pasv_reply-pasv_reply_example =
    parse_pasv_reply-pasv_reply localhost 51200 (omega arith) (omega arith)

bang_is_read :
    parse_epsv_reply
      (codes "229 ok " ++ b'(' ∷ ((b'!' ∷ b'!' ∷ b'!' ∷ (show 2121 ++ b'!' ∷ [])) ++ b')' ∷ []))
    ≡ nonzero 2121
bang_is_read =
    parse_epsv_reply_delimited b'!' 2121 (codes "229 ok ") [] refl (λ i. omega arith) (omega arith)
      (omega arith) (omega arith)

accepted_pasv : IsIpv4 (from_octets 10 0 0 5) × (51203 ≤ u16_max)
accepted_pasv =
    parse_pasv_reply_bounds (codes "227 Entering Passive Mode (10,0,0,5,200,3).\r\n")
      (from_octets 10 0 0 5) 51203 parses_leading_text

accepted_epsv : ◌≢◌ {A = ℕ} 2121 0 × (2121 ≤ u16_max)
accepted_epsv = parse_epsv_reply_bounds (codes "229 ok (!!!2121!)") 2121 epsv_bang

epsv_is_read_back : parse_epsv_reply (epsv_reply 6446) ≡ nonzero 6446
epsv_is_read_back = parse_epsv_reply-epsv_reply 6446 (omega arith)
