-- ===== src/Net.antt =====
-- Addresses of std::net. An IPv4 address is the 32-bit number that its octets spell, an IPv6 address
-- a 128-bit number, a port a 16-bit number.
use iot_ftp_upload_gateway.Base.{
  Bool, true, false, ◌∷◌, ◌++◌, Text, show, ◌==◌, ◌↔◌, Key, ℕ, ◌+◌, ◌-◌, ◌*◌, ◌/◌, ◌%◌, ◌^◌, ◌<◌,
  ◌≡◌, arith,
}

abbrev pub Ipv4Addr : Type 0
Ipv4Addr = ℕ

abbrev pub IsIpv4 : Ipv4Addr → Type 0
IsIpv4 ip = ip < 2 ^ 32

-- Octet `i`, counted from the left.
abbrev pub octet : ℕ → Ipv4Addr → ℕ
octet i ip = ip / 2 ^ (8 * (3 - i)) % 2 ^ 8

abbrev pub from_octets : ℕ → ℕ → ℕ → ℕ → Ipv4Addr
from_octets a b c d = ((a * 2 ^ 8 + b) * 2 ^ 8 + c) * 2 ^ 8 + d

pub from_octets-octet :
    (ip : Ipv4Addr)
    → IsIpv4 ip
    → from_octets (octet 0 ip) (octet 1 ip) (octet 2 ip) (octet 3 ip) ≡ ip
from_octets-octet ip h = omega arith

pub data IpAddr : Type 0 where
  v4 : Ipv4Addr → IpAddr
  v6 : ℕ → IpAddr

abbrev pub ip_eq : IpAddr → IpAddr → Bool
ip_eq (v4 a) (v4 b) = a == b
ip_eq (v4 a) (v6 b) = false
ip_eq (v6 a) (v4 b) = false
ip_eq (v6 a) (v6 b) = a == b

pub ip_eq_iff : (a b : IpAddr) → (ip_eq a b ≡ true) ↔ (a ≡ b)
ip_eq_iff (v4 a) (v4 b) = ground arith
ip_eq_iff (v4 a) (v6 b) = (λ h. cc, λ h. cc)
ip_eq_iff (v6 a) (v4 b) = (λ h. cc, λ h. cc)
ip_eq_iff (v6 a) (v6 b) = ground arith

instance abbrev pub ip_key : Key IpAddr
ip_key = record { beq = ip_eq; beq_iff = ip_eq_iff }

pub record SocketAddr : Type 0 where
  pub ip : IpAddr
  pub port : ℕ

-- `Display` of an IPv4 address.
abbrev pub show_ipv4 : Ipv4Addr → Text
show_ipv4 ip =
    show (octet 0 ip)
    ++ b'.' ∷ (show (octet 1 ip) ++ b'.' ∷ (show (octet 2 ip) ++ b'.' ∷ show (octet 3 ip)))
