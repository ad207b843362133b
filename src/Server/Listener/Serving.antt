-- ===== src/Server/Listener/Serving.antt =====
-- What a session is given by the listener, and what holds of each session of a program that runs.
use iot_ftp_upload_gateway.Base.{Bool, true, false, ◌∷◌, ◌++◌, Option, none, some, show}
use iot_ftp_upload_gateway.Net.{SocketAddr}
use iot_ftp_upload_gateway.Config.{BackendConfig}
use iot_ftp_upload_gateway.Config.Settings.{Settings}
use iot_ftp_upload_gateway.Config.File.{File}
use iot_ftp_upload_gateway.Pasv.PortManager
use iot_ftp_upload_gateway.Pasv.PortManager.{PortManager, range_len}
use iot_ftp_upload_gateway.Backend.Tls.Connector.{BackendTlsConnector}
use iot_ftp_upload_gateway.Server.Session.Config.{SessionConfig}
use iot_ftp_upload_gateway.Server.Listener.Start.{Shared}

abbrev pub is_given : Option BackendTlsConnector → Bool
is_given none = false
is_given (some connector) = true

-- The arguments of `session::handle` as a session reads them; the timeouts are the environment's.
abbrev pub session_config : Shared → SocketAddr → BackendConfig → SessionConfig
session_config p peer_addr backend = record {
  client_ip = peer_addr.ip;
  backend_key = backend.host ++ b':' ∷ show backend.port;
  capacity = range_len backend.passive_ports;
  passive_address = p.config.passive.address;
  max_command_line_bytes = p.config.limits.max_command_line_bytes;
  require_data_ip_match = p.config.limits.require_data_ip_match;
  connect_limits = record {
    fallback_to_control_ip = p.config.limits.backend_pasv_fallback_to_control_ip;
    passive_mode = p.config.limits.backend_passive_mode;
  };
  backend_tls = is_given p.backend_tls;
}
