-- ===== src/Backend/Source/Tests.antt =====
-- Two interfaces of a host, one of them virtual.
use iot_ftp_upload_gateway.Base.{◌≡◌, refl, true, false, List, [], ◌∷◌, codes, contains, any}
use iot_ftp_upload_gateway.Net.{from_octets}
use iot_ftp_upload_gateway.Backend.Source.{
  InterfaceAddr, BackendSourceConfig, select_sources, glob_match, glob_loop, matches_name,
}
use iot_ftp_upload_gateway.Backend.Source.Pattern.{matches}
use iot_ftp_upload_gateway.Backend.Source.Glob.{glob_match-matches, glob_match_misses}
use iot_ftp_upload_gateway.Backend.Source.Selection.{Ascending, offers, select_sources-offers}

alias_of_ens5 : matches_name (codes "ens?") (codes "ens5:1") ≡ true
unfolding matches_name glob_match glob_loop
alias_of_ens5 = refl

glob_match-matches_example :
    glob_match (codes "br-*0") (codes "br-100") ≡ matches (codes "br-*0") (codes "br-100")
glob_match-matches_example =
    glob_match-matches (codes "br-*0") (codes "br-100") (cc, (cc, (cc, (cc, (cc, (cc, tt))))))

glob_match_misses_example : glob_match (codes "*") (codes "*a") ≡ false
glob_match_misses_example = glob_match_misses b'a' []

abbrev host : List InterfaceAddr
host =
    record { interface = codes "docker0"; ip = from_octets 172 17 0 1 }
    ∷ record { interface = codes "ens5"; ip = from_octets 10 0 0 5 }
    ∷ []

abbrev automatic : BackendSourceConfig
automatic = record { include_interfaces = []; exclude_interfaces = [] }

select_sources-offers_example :
    Ascending (select_sources host automatic)
    × (contains (from_octets 10 0 0 5) (select_sources host automatic)
        ≡ any (offers automatic (from_octets 10 0 0 5)) host)
select_sources-offers_example = select_sources-offers host automatic (from_octets 10 0 0 5)
