-- ===== src/Backend/Connection.antt =====
-- src/backend/connection.rs: the connection to a backend, tried at each of its addresses. How an
-- attempt at an address ends is an argument.
pub mod Attempts
mod Tests
use iot_ftp_upload_gateway.Base.{Bool, true, false, List, [], ◌∷◌, Option, none, some, keep}
use iot_ftp_upload_gateway.Io.{
  ErrorKind, IoResult, ok, err, Timed, done, elapsed, timed_out, addr_not_available,
}
use iot_ftp_upload_gateway.Net.{Ipv4Addr, IpAddr, v4, v6, SocketAddr}

abbrev pub is_ipv4 : SocketAddr → Bool
is_ipv4 addr = elim addr.ip [ v4 ip ↦ true | v6 ip ↦ false ]

-- `connect_from`, given how the connection from that source ends.
unfoldable pub connect_from :
    {A : Type 0}
    → (Option Ipv4Addr → SocketAddr → IoResult A)
    → Option Ipv4Addr
    → SocketAddr
    → IoResult A
connect_from dial none addr = dial none addr
connect_from dial (some source) addr = elim (is_ipv4 addr) [
  | true ↦ dial (some source) addr
  | false ↦ err addr_not_available
]

-- `addrs.retain(SocketAddr::is_ipv4)`, for a source address.
abbrev pub reachable : Option Ipv4Addr → List SocketAddr → List SocketAddr
reachable none addrs = addrs
reachable (some source) addrs = keep is_ipv4 addrs

abbrev pub or_no_address : Option ErrorKind → ErrorKind
or_no_address none = addr_not_available
or_no_address (some kind) = kind

-- The loop over the addresses, with the last error so far.
unfoldable pub try_addrs :
    {A : Type 0} → (SocketAddr → IoResult A) → Option ErrorKind → List SocketAddr → IoResult A
try_addrs connect last [] = err (or_no_address last)
try_addrs connect last (addr ∷ addrs) = elim (connect addr) [
  | ok stream ↦ ok stream
  | err kind ↦ try_addrs connect (some kind) addrs
]

unfoldable pub connect_inner :
    {A : Type 0}
    → (Option Ipv4Addr → SocketAddr → IoResult A)
    → IoResult (List SocketAddr)
    → Option Ipv4Addr
    → IoResult A
connect_inner dial (err kind) source = err kind
connect_inner dial (ok addrs) source =
    try_addrs (connect_from dial source) none (reachable source addrs)
