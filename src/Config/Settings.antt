-- ===== src/Config/Settings.antt =====
-- The settings of src/config.rs as one record, their defaults, and the parsers of the modes. What
-- TLS and the choice of interfaces want is grouped as it is in the source; the two lists of
-- interfaces are the record that the selection takes.
use iot_ftp_upload_gateway.Base.{
  ℕ, Bool, true, List, [], Option, none, some, map, if◌then◌else◌, Text, codes, text_eq,
  to_ascii_lowercase,
}
use iot_ftp_upload_gateway.Net.{Ipv4Addr, IpAddr, v4, from_octets}
use iot_ftp_upload_gateway.Pasv.PortManager.{PortRange}
use iot_ftp_upload_gateway.Pasv.Relay.{BackendPassiveMode, epsv_mode, pasv_mode}
use iot_ftp_upload_gateway.Backend.Source.{BackendSourceConfig}
use iot_ftp_upload_gateway.Config.{BackendConfig}

pub record ListenConfig : Type 0 where
  pub address : IpAddr
  pub port : ℕ

pub record PassiveConfig : Type 0 where
  pub address : Ipv4Addr
  pub port_range : PortRange

pub data BackendTlsMode : Type 0 where
  off explicit : BackendTlsMode

pub data BackendTlsMaxVersion : Type 0 where
  v1_2 v1_3 : BackendTlsMaxVersion

pub record BackendTlsConfig : Type 0 where
  pub mode : BackendTlsMode
  pub ca_file : Option Text
  pub server_name : Option Text
  pub max_version : BackendTlsMaxVersion

pub data BackendSourceMode : Type 0 where
  off rotate : BackendSourceMode

pub record SourceSettings : Type 0 where
  pub mode : BackendSourceMode
  pub interfaces : BackendSourceConfig
  pub refresh_secs : ℕ

pub record TimeoutConfig : Type 0 where
  pub connection_timeout_secs : ℕ
  pub idle_timeout_secs : ℕ
  pub command_timeout_secs : ℕ
  pub data_idle_timeout_secs : ℕ

pub record LimitsConfig : Type 0 where
  pub max_command_line_bytes : ℕ
  pub max_connections_per_ip : ℕ
  pub require_data_ip_match : Bool
  pub backend_pasv_fallback_to_control_ip : Bool
  pub backend_passive_mode : BackendPassiveMode

pub record MetricsConfig : Type 0 where
  pub address : IpAddr
  pub port : Option ℕ

pub record Settings : Type 0 where
  pub listen : ListenConfig
  pub passive : PassiveConfig
  pub backends : List BackendConfig
  pub backend_tls : BackendTlsConfig
  pub backend_source : SourceSettings
  pub timeouts : TimeoutConfig
  pub limits : LimitsConfig
  pub metrics : MetricsConfig

-- `Default`.
abbrev pub default_range : PortRange
default_range = record { start = 10000; end = 20000 }

abbrev pub default_tls : BackendTlsConfig
default_tls = record {
  mode = BackendTlsMode.off;
  ca_file = none;
  server_name = none;
  max_version = v1_3;
}

abbrev pub default_source : SourceSettings
default_source = record {
  mode = BackendSourceMode.off;
  interfaces = record { include_interfaces = []; exclude_interfaces = [] };
  refresh_secs = 30;
}

abbrev pub default_timeouts : TimeoutConfig
default_timeouts = record {
  connection_timeout_secs = 10;
  idle_timeout_secs = 300;
  command_timeout_secs = 30;
  data_idle_timeout_secs = 60;
}

abbrev pub default_limits : LimitsConfig
default_limits = record {
  max_command_line_bytes = 4096;
  max_connections_per_ip = 10;
  require_data_ip_match = true;
  backend_pasv_fallback_to_control_ip = true;
  backend_passive_mode = epsv_mode;
}

abbrev pub default_settings : Settings
default_settings = record {
  listen = record { address = v4 (from_octets 0 0 0 0); port = 21 };
  passive = record { address = from_octets 0 0 0 0; port_range = default_range };
  backends = [];
  backend_tls = default_tls;
  backend_source = default_source;
  timeouts = default_timeouts;
  limits = default_limits;
  metrics = record { address = v4 (from_octets 127 0 0 1); port = none };
}

-- A word in any case that is one of two.
abbrev pub one_of_two : {A : Type 0} → Text → Text → A → Text → A → Option A
one_of_two word first a second b =
    if text_eq word first then some a else if text_eq word second then some b else none

unfoldable pub parse_tls_mode : Text → Option BackendTlsMode
parse_tls_mode raw =
    one_of_two (map to_ascii_lowercase raw) (codes "off") BackendTlsMode.off (codes "explicit")
      explicit

unfoldable pub parse_max_version : Text → Option BackendTlsMaxVersion
parse_max_version raw = one_of_two raw (codes "1.2") v1_2 (codes "1.3") v1_3

unfoldable pub parse_source_mode : Text → Option BackendSourceMode
parse_source_mode raw =
    one_of_two (map to_ascii_lowercase raw) (codes "off") BackendSourceMode.off (codes "rotate")
      rotate

unfoldable pub parse_passive_mode : Text → Option BackendPassiveMode
parse_passive_mode raw =
    one_of_two (map to_ascii_lowercase raw) (codes "epsv") epsv_mode (codes "pasv") pasv_mode
