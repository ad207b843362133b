-- ===== src/Server/Listener/Start.antt =====
-- How src/server/listener.rs builds the parts of the gateway, and src/main.rs in front of it. What the
-- system, the TLS library and the file give is an argument.
use iot_ftp_upload_gateway.Base.{ℕ, List, Option, none, some}
use iot_ftp_upload_gateway.Io.{ErrorKind, IoResult, ok, err}
use iot_ftp_upload_gateway.Net.{SocketAddr}
use iot_ftp_upload_gateway.Config.Settings.{BackendTlsMode, BackendSourceMode, Settings}
use iot_ftp_upload_gateway.Config.File.{File}
use iot_ftp_upload_gateway.Config.Load.{Host, load}
use iot_ftp_upload_gateway.Pasv.PortManager
use iot_ftp_upload_gateway.Pasv.PortManager.{PortManager}
use iot_ftp_upload_gateway.Backend.DnsCache
use iot_ftp_upload_gateway.Backend.DnsCache.{DnsCache}
use iot_ftp_upload_gateway.Backend.Source.{InterfaceAddr}
use iot_ftp_upload_gateway.Backend.Rotator.{State}
use iot_ftp_upload_gateway.Backend.Rotator.Refresh
use iot_ftp_upload_gateway.Backend.Tls.Connector
use iot_ftp_upload_gateway.Backend.Tls.Connector.{
  TlsLibrary, Resumption, BackendTlsConnector, CaError, Built, built, failed,
}
use iot_ftp_upload_gateway.Server.Listener.{Gateway, start}

-- Whether an address can be bound, the TLS library and the store of its first configuration, and the
-- listing of the interfaces.
pub record Surroundings : Type 0 where
  pub bind : SocketAddr → IoResult Unit
  pub library : TlsLibrary
  pub resumption : Resumption
  pub interfaces : IoResult (List InterfaceAddr)

-- Why the program ends before its loop; without a backend the selector panics.
pub data Failure : Type 0 where
  not_loaded no_backend no_usable_sources : Failure
  not_bound listing_failed : ErrorKind → Failure
  bad_ca_file : CaError → Failure

pub data Part (A : Type 0) : Type 0 where
  made : A → Part A
  missing : Failure → Part A

-- What every session is given a clone of, and the address of the metrics endpoint, if there is one.
pub record Shared : Type 0 where
  pub config : Settings
  pub port_manager : PortManager
  pub dns_cache : DnsCache
  pub backend_tls : Option BackendTlsConnector
  pub source_rotator : Option State
  pub gateway : Gateway
  pub metrics_addr : Option SocketAddr

abbrev pub of_built : Built → Part (Option BackendTlsConnector)
of_built (built connector) = made (some connector)
of_built (failed e) = missing (bad_ca_file e)

abbrev pub tls_part : Surroundings → Settings → BackendTlsMode → Part (Option BackendTlsConnector)
tls_part env config BackendTlsMode.off = made none
tls_part env config BackendTlsMode.explicit =
    of_built (Connector.new env.library config.backend_tls env.resumption)

abbrev pub of_started : Refresh.Started → Part (Option State)
of_started (Refresh.Started.started rotator) = made (some rotator)
of_started Refresh.Started.no_usable_sources = missing no_usable_sources
of_started (Refresh.Started.listing_failed kind) = missing (listing_failed kind)

abbrev pub rotator_part : Surroundings → Settings → BackendSourceMode → Part (Option State)
rotator_part env config BackendSourceMode.off = made none
rotator_part env config BackendSourceMode.rotate =
    of_started (Refresh.start env.interfaces config.backend_source.interfaces)

abbrev pub listen_addr : Settings → SocketAddr
listen_addr config = record { ip = config.listen.address; port = config.listen.port }

abbrev pub metrics_addr_of : Settings → Option ℕ → Option SocketAddr
metrics_addr_of config none = none
metrics_addr_of config (some port) = some (record { ip = config.metrics.address; port = port })

abbrev pub shared_of : Settings → Gateway → Option BackendTlsConnector → Option State → Shared
shared_of config gateway tls rotator = record {
  config = config;
  port_manager = PortManager.new config.passive.port_range;
  dns_cache = DnsCache.new;
  backend_tls = tls;
  source_rotator = rotator;
  gateway = gateway;
  metrics_addr = metrics_addr_of config config.metrics.port;
}

-- The first step that fails ends the start, in this order.
abbrev pub assemble :
    Settings
    → IoResult Unit
    → Option Gateway
    → Part (Option BackendTlsConnector)
    → Part (Option State)
    → Part Shared
assemble config (err kind) gateway tls rotator = missing (not_bound kind)
assemble config (ok _) none tls rotator = missing no_backend
assemble config (ok _) (some gateway) (missing e) rotator = missing e
assemble config (ok _) (some gateway) (made tls) (missing e) = missing e
assemble config (ok _) (some gateway) (made tls) (made rotator) =
    made (shared_of config gateway tls rotator)

-- `run` up to its loop.
unfoldable pub prepare : Surroundings → Settings → Part Shared
prepare env config =
    assemble config (env.bind (listen_addr config)) (start config)
      (tls_part env config config.backend_tls.mode)
      (rotator_part env config config.backend_source.mode)

abbrev pub prepare_loaded : Surroundings → Option Settings → Part Shared
prepare_loaded env none = missing not_loaded
prepare_loaded env (some config) = prepare env config

-- `main` up to that loop.
unfoldable pub main : Host → Surroundings → Option (Option File) → Part Shared
main host env file = prepare_loaded env (load host file)
