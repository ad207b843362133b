-- ===== src/Config/Tests.antt =====
-- Two backends, one of them at an IPv6 address.
use iot_ftp_upload_gateway.Base.{
  ◌≡◌, refl, true, List, [], ◌∷◌, none, some, codes, All, arith, parse_uint,
}
use iot_ftp_upload_gateway.Config.{
  BackendConfig, parse_bool, parse_first_last, parse_name_list, parse_backend, parse_each,
  parse_backends,
}
use iot_ftp_upload_gateway.Config.Ranges.{HasPorts, parse_backends-HasPorts}
use iot_ftp_upload_gateway.Config.Backends.{show_backends, IsHost, parse_backends-show_backends}

true_in_any_case : parse_bool (codes " True ") ≡ some true
unfolding parse_bool
true_in_any_case = refl

inverted : parse_first_last (codes "9:8") ≡ none
unfolding parse_first_last parse_uint
inverted = refl

abbrev first : BackendConfig
first = record {
  host = codes "ftp.example";
  port = 21;
  passive_ports = record { start = 8192; end = 8200 };
}

abbrev second : BackendConfig
second = record {
  host = codes "::1";
  port = 2121;
  passive_ports = record { start = 50000; end = 50000 };
}

abbrev two : List BackendConfig
two = first ∷ second ∷ []

first-HasPorts : HasPorts first
first-HasPorts = record { port_le = omega arith; start_le = omega arith; end_le = omega arith }

second-HasPorts : HasPorts second
second-HasPorts = record { port_le = omega arith; start_le = omega arith; end_le = omega arith }

first-IsHost : IsHost first.host
first-IsHost = record {
  no_whitespace = ground arith;
  no_comma = ground arith;
  no_at = ground arith;
}

second-IsHost : IsHost second.host
second-IsHost = record {
  no_whitespace = ground arith;
  no_comma = ground arith;
  no_at = ground arith;
}

parse_backends-show_backends_example : parse_backends (show_backends two) ≡ some two
parse_backends-show_backends_example =
    parse_backends-show_backends two
      ((first-HasPorts, first-IsHost), ((second-HasPorts, second-IsHost), tt))

read_one : parse_backends (codes "ftp.example:21@8192:8200, ") ≡ some (first ∷ [])
unfolding parse_backends parse_name_list parse_each parse_backend parse_first_last parse_uint
read_one = refl

backends-HasPorts : All HasPorts (first ∷ [])
backends-HasPorts =
    parse_backends-HasPorts (codes "ftp.example:21@8192:8200, ") (first ∷ []) read_one
