-- ===== src/Config/LoadTests.antt =====
-- A host that names its backends in a variable, and gives no file.
use iot_ftp_upload_gateway.Base.{
  ◌≡◌, ◌≢◌, refl, false, [], ◌∷◌, none, some, if◌then◌else◌, codes, text_eq, parse_uint,
}
use iot_ftp_upload_gateway.Config.{
  BackendConfig, parse_name_list, parse_first_last, parse_backend, parse_each, parse_backends,
  default_backend_passive_ports,
}
use iot_ftp_upload_gateway.Config.Settings.{Settings, default_settings, parse_tls_mode}
use iot_ftp_upload_gateway.Config.File.{
  Form, text, map_form, File, backends_of, deserialize_port_range,
}
use iot_ftp_upload_gateway.Config.Load.{
  Host, unset, set_to, apply_each, apply_env_overrides, validate, load,
}
use iot_ftp_upload_gateway.Config.Ready.{IsReady, load-IsReady}

abbrev host : Host
host = record {
  env_var = λ name.
      if text_eq name (codes "GATEWAY_BACKENDS") then set_to (codes "ftp.example:21") else unset;
  is_file = λ path. false;
  parse_ip = λ text. none;
  parse_ipv4 = λ text. none;
}

abbrev backend : BackendConfig
backend = record {
  host = codes "ftp.example";
  port = 21;
  passive_ports = default_backend_passive_ports;
}

abbrev loaded : Settings
loaded = record default_settings { backends = backend ∷ [] }

loads : load host none ≡ some loaded
unfolding load apply_env_overrides apply_each validate parse_backends parse_name_list parse_each
    parse_backend parse_uint
loads = refl

abbrev bare_host : Host
bare_host = record host { env_var = λ name. unset }

-- Without backends there is nothing to forward to.
needs_backends : load bare_host none ≡ none
unfolding load apply_env_overrides apply_each validate
needs_backends = refl

tls_in_capitals : parse_tls_mode (codes "EXPLICIT") ≢ none
unfolding parse_tls_mode
tls_in_capitals = cc

-- A file with one backend, whose range is written in either form.
abbrev with_range : Form → File
with_range form = record {
  settings = default_settings;
  backends = record { host = codes "ftp.example"; port = 21; passive_ports = some form } ∷ [];
}

reads_file : load bare_host (some (some (with_range (text (codes "8192:8200"))))) ≡ some loaded
unfolding load apply_env_overrides apply_each validate backends_of deserialize_port_range
    parse_first_last parse_uint
reads_file = refl

refuses_empty_range :
    load bare_host (some (some (with_range (map_form (record { start = 9; end = 8 }))))) ≡ none
unfolding load backends_of deserialize_port_range
refuses_empty_range = refl

load-IsReady_example : IsReady host loaded
load-IsReady_example = load-IsReady host none loaded (λ read e. cc) loads
