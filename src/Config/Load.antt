-- ===== src/Config/Load.antt =====
-- `Config::load`: the file, then the environment's variables on top of it, then the validation. The
-- reading of the file and of addresses (serde and std::net) are arguments.
use iot_ftp_upload_gateway.Base.{
  ℕ, Bool, true, false, not, ◌&&◌, List, [], ◌∷◌, ◌++◌, Option, none, some, ◌==◌, leb,
  if◌then◌else◌, length, any, Text, codes, trim, parse_uint, u16_max, u64_max, ◌>>=◌,
}
use iot_ftp_upload_gateway.Net.{Ipv4Addr, IpAddr}
use iot_ftp_upload_gateway.Config.{parse_backends, parse_bool, parse_name_list}
use iot_ftp_upload_gateway.Config.File.{File, read_file}
use iot_ftp_upload_gateway.Config.Settings.{
  BackendTlsMode, explicit, BackendSourceMode, rotate, BackendTlsConfig, SourceSettings, Settings,
  default_settings, parse_tls_mode, parse_max_version, parse_source_mode, parse_passive_mode,
}

-- `env_var`: a variable that is set to what is no Unicode is an error.
pub data Variable : Type 0 where
  unset : Variable
  set_to : Text → Variable
  not_unicode : Variable

-- What lies outside: the variables, which paths are files, and how addresses are read.
pub record Host : Type 0 where
  pub env_var : Text → Variable
  pub is_file : Text → Bool
  pub parse_ip : Text → Option IpAddr
  pub parse_ipv4 : Text → Option Ipv4Addr

abbrev pub put_parsed :
    {A : Type 0} → (A → Settings → Settings) → Option A → Settings → Option Settings
put_parsed put none s = none
put_parsed put (some a) s = some (put a s)

abbrev pub put_variable :
    {A : Type 0}
    → (Text → Option A)
    → (A → Settings → Settings)
    → Variable
    → Settings
    → Option Settings
put_variable parse put unset s = some s
put_variable parse put not_unicode s = none
put_variable parse put (set_to v) s = put_parsed put (parse v) s

-- `if let Some(v) = env_var(name)? { field = parse(v)?; }`.
abbrev pub override :
    {A : Type 0}
    → Host
    → Text
    → (Text → Option A)
    → (A → Settings → Settings)
    → Settings
    → Option Settings
override host name parse put s = put_variable parse put (host.env_var name) s

abbrev u16 : Text → Option ℕ
u16 = parse_uint u16_max

-- A `u64`, and a `usize` on a 64-bit host.
abbrev u64 : Text → Option ℕ
u64 = parse_uint u64_max

-- Parsers that cannot fail.
unfoldable pub as_is : Text → Option Text
as_is v = some v

unfoldable pub names : Text → Option (List Text)
names v = some (parse_name_list v)

abbrev pub overrides : Host → List (Settings → Option Settings)
overrides host =
    override host (codes "GATEWAY_LISTEN_ADDRESS") host.parse_ip
      (λ v s. record s { listen = record s.listen { address = v } })
    ∷ override host (codes "GATEWAY_LISTEN_PORT") u16
        (λ v s. record s { listen = record s.listen { port = v } })
    ∷ override host (codes "GATEWAY_PASSIVE_ADDRESS") host.parse_ipv4
        (λ v s. record s { passive = record s.passive { address = v } })
    ∷ override host (codes "GATEWAY_PASSIVE_PORT_RANGE_START") u16 (λ v s. record s {
      passive = record s.passive { port_range = record s.passive.port_range { start = v } };
    })
    ∷ override host (codes "GATEWAY_PASSIVE_PORT_RANGE_END") u16 (λ v s. record s {
      passive = record s.passive { port_range = record s.passive.port_range { end = v } };
    })
    ∷ override host (codes "GATEWAY_BACKENDS") parse_backends (λ v s. record s { backends = v })
    ∷ override host (codes "GATEWAY_BACKEND_TLS") parse_tls_mode
        (λ v s. record s { backend_tls = record s.backend_tls { mode = v } })
    ∷ override host (codes "GATEWAY_BACKEND_TLS_CA_FILE") as_is
        (λ v s. record s { backend_tls = record s.backend_tls { ca_file = some v } })
    ∷ override host (codes "GATEWAY_BACKEND_TLS_SERVER_NAME") as_is
        (λ v s. record s { backend_tls = record s.backend_tls { server_name = some v } })
    ∷ override host (codes "GATEWAY_BACKEND_TLS_MAX_VERSION") parse_max_version
        (λ v s. record s { backend_tls = record s.backend_tls { max_version = v } })
    ∷ override host (codes "GATEWAY_BACKEND_SOURCE") parse_source_mode
        (λ v s. record s { backend_source = record s.backend_source { mode = v } })
    ∷ override host (codes "GATEWAY_BACKEND_SOURCE_INCLUDE") names (λ v s. record s {
      backend_source = record s.backend_source {
        interfaces = record s.backend_source.interfaces { include_interfaces = v };
      };
    })
    ∷ override host (codes "GATEWAY_BACKEND_SOURCE_EXCLUDE") names (λ v s. record s {
      backend_source = record s.backend_source {
        interfaces = record s.backend_source.interfaces { exclude_interfaces = v };
      };
    })
    ∷ override host (codes "GATEWAY_BACKEND_SOURCE_REFRESH_SECS") u64
        (λ v s. record s { backend_source = record s.backend_source { refresh_secs = v } })
    ∷ override host (codes "GATEWAY_CONNECTION_TIMEOUT_SECS") u64
        (λ v s. record s { timeouts = record s.timeouts { connection_timeout_secs = v } })
    ∷ override host (codes "GATEWAY_IDLE_TIMEOUT_SECS") u64
        (λ v s. record s { timeouts = record s.timeouts { idle_timeout_secs = v } })
    ∷ override host (codes "GATEWAY_COMMAND_TIMEOUT_SECS") u64
        (λ v s. record s { timeouts = record s.timeouts { command_timeout_secs = v } })
    ∷ override host (codes "GATEWAY_DATA_IDLE_TIMEOUT_SECS") u64
        (λ v s. record s { timeouts = record s.timeouts { data_idle_timeout_secs = v } })
    ∷ override host (codes "GATEWAY_MAX_COMMAND_LINE_BYTES") u64
        (λ v s. record s { limits = record s.limits { max_command_line_bytes = v } })
    ∷ override host (codes "GATEWAY_MAX_CONNECTIONS_PER_IP") u64
        (λ v s. record s { limits = record s.limits { max_connections_per_ip = v } })
    ∷ override host (codes "GATEWAY_REQUIRE_DATA_IP_MATCH") parse_bool
        (λ v s. record s { limits = record s.limits { require_data_ip_match = v } })
    ∷ override host (codes "GATEWAY_BACKEND_PASV_FALLBACK_TO_CONTROL_IP") parse_bool
        (λ v s. record s { limits = record s.limits { backend_pasv_fallback_to_control_ip = v } })
    ∷ override host (codes "GATEWAY_BACKEND_PASSIVE_MODE") parse_passive_mode
        (λ v s. record s { limits = record s.limits { backend_passive_mode = v } })
    ∷ override host (codes "GATEWAY_METRICS_ADDRESS") host.parse_ip
        (λ v s. record s { metrics = record s.metrics { address = v } })
    ∷ override host (codes "GATEWAY_METRICS_PORT") u16
        (λ v s. record s { metrics = record s.metrics { port = some v } })
    ∷ []

-- One after the other, up to the first error.
unfoldable pub apply_each : List (Settings → Option Settings) → Settings → Option Settings
apply_each [] s = some s
apply_each (o ∷ os) s = do s' ← o s; apply_each os s'

unfoldable pub apply_env_overrides : Host → Settings → Option Settings
apply_env_overrides host s = apply_each (overrides host) s

abbrev is_some_empty : Option Text → Bool
is_some_empty none = false
is_some_empty (some name) = length name == 0

abbrev is_missing : Host → Option Text → Bool
is_missing host none = false
is_missing host (some path) = not (host.is_file path)

-- The two checks of TLS, where it is on.
abbrev pub tls_fits : Host → BackendTlsConfig → BackendTlsMode → Bool
tls_fits host tls BackendTlsMode.off = true
tls_fits host tls explicit =
    not (is_missing host tls.ca_file) && not (is_some_empty tls.server_name)

abbrev pub is_blank : Text → Bool
is_blank name = length (trim name) == 0

-- The two checks of the rotation, where it is on.
abbrev pub source_fits : SourceSettings → BackendSourceMode → Bool
source_fits source BackendSourceMode.off = true
source_fits source rotate =
    not (source.refresh_secs == 0)
    && not (
        any is_blank (source.interfaces.include_interfaces ++ source.interfaces.exclude_interfaces))

-- Whether no check ends in an error.
unfoldable pub validate : Host → Settings → Bool
validate host s =
    not (length s.backends == 0)
    && not (leb s.passive.port_range.end s.passive.port_range.start)
    && tls_fits host s.backend_tls s.backend_tls.mode
    && source_fits s.backend_source s.backend_source.mode

abbrev pub if_valid : Host → Settings → Option Settings
if_valid host s = if validate host s then some s else none

-- The file as it was read, if one is given: none where the reading or the parsing failed.
abbrev pub file_or_default : Option (Option File) → Option Settings
file_or_default none = some default_settings
file_or_default (some read) = read >>= read_file

unfoldable pub load : Host → Option (Option File) → Option Settings
load host file = do
  given ← file_or_default file
  settings ← apply_env_overrides host given
  if_valid host settings
