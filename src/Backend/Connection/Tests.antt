-- ===== src/Backend/Connection/Tests.antt =====
-- A backend with an IPv6 address and two IPv4 addresses, of which the second answers.
use iot_ftp_upload_gateway.Base.{ℕ, refl, List, [], ◌∷◌, Option, some, ◌==◌, if◌then◌else◌}
use iot_ftp_upload_gateway.Io.{IoResult, ok, err, connection_refused}
use iot_ftp_upload_gateway.Net.{Ipv4Addr, v4, v6, SocketAddr}
use iot_ftp_upload_gateway.Backend.Connection.{connect_from, reachable, try_addrs, connect_inner}
use iot_ftp_upload_gateway.Backend.Connection.Attempts.{First, connect_inner-First}

abbrev addrs : List SocketAddr
addrs =
    record { ip = v6 1; port = 21 }
    ∷ record { ip = v4 5; port = 21 }
    ∷ record { ip = v4 6; port = 22 }
    ∷ []

abbrev dial : Option Ipv4Addr → SocketAddr → IoResult ℕ
dial source addr = if addr.port == 22 then ok 1 else err connection_refused

connect_inner-First_example : First (connect_from dial (some 9)) (reachable (some 9) addrs) 1
unfolding connect_inner try_addrs connect_from
connect_inner-First_example = connect_inner-First dial addrs (some 9) 1 refl
