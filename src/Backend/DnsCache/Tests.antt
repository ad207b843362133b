-- ===== src/Backend/DnsCache/Tests.antt =====
-- A backend that moves.
use iot_ftp_upload_gateway.Base.{◌-◌, ◌≡◌, refl, List, [], ◌∷◌, codes, ltb, if◌then◌else◌, lookup}
use iot_ftp_upload_gateway.Io.{ok}
use iot_ftp_upload_gateway.Net.{v4, SocketAddr}
use iot_ftp_upload_gateway.Backend.DnsCache.{new, resolve, cached}
use iot_ftp_upload_gateway.Backend.DnsCache.Freshness.{resolve-resolve}

abbrev old : List SocketAddr
old = record { ip = v4 1; port = 21 } ∷ []

abbrev moved : List SocketAddr
moved = record { ip = v4 2; port = 21 } ∷ []

resolve-resolve_example :
    (resolve
      (codes "ftp")
      21
      40000
      40001
      (ok moved)
      (resolve (codes "ftp") 21 100 105 (ok old) new).1).0
    ≡ (if ltb (40000 - 105) 30000 then ok old else ok moved)
unfolding cached lookup
resolve-resolve_example =
    resolve-resolve (codes "ftp") 21 100 105 40000 40001 old (ok moved) new refl
