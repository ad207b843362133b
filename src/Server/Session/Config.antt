-- ===== src/Server/Session/Config.antt =====
-- What a session is given, and the replies that the gateway itself makes up.
use iot_ftp_upload_gateway.Base.{ℕ, Bool, Text, codes, crlf, ◌++◌}
use iot_ftp_upload_gateway.Net.{Ipv4Addr, IpAddr}
use iot_ftp_upload_gateway.Pasv.Relay.{DataConnectLimits}

pub record SessionConfig : Type 0 where
  pub client_ip : IpAddr
  -- "host:port"
  pub backend_key : Text
  -- how many data ports the backend has
  pub capacity : ℕ
  pub passive_address : Ipv4Addr
  pub max_command_line_bytes : ℕ
  pub require_data_ip_match : Bool
  pub connect_limits : DataConnectLimits
  pub backend_tls : Bool

abbrev pub service_not_available : Text
service_not_available = codes "421 Service not available" ++ crlf

abbrev pub line_too_long : Text
line_too_long = codes "500 Command line too long" ++ crlf

abbrev pub syntax_error : Text
syntax_error = codes "501 Syntax error in parameters or arguments" ++ crlf

abbrev pub not_implemented : Text
not_implemented = codes "502 Command not implemented" ++ crlf

abbrev pub cannot_open_data : Text
cannot_open_data = codes "425 Can't open data connection" ++ crlf

abbrev pub transfer_aborted : Text
transfer_aborted = codes "426 Connection closed; transfer aborted" ++ crlf

abbrev pub idle_timeout : Text
idle_timeout = codes "421 Idle timeout, closing control connection" ++ crlf
