-- ===== src/Server/Listener/StartTests.antt =====
-- A host with TLS toward its backend and rotation over its one interface.
use iot_ftp_upload_gateway.Base.{
  ◌≡◌, refl, true, false, [], ◌∷◌, none, some, if◌then◌else◌, Text, codes, text_eq, parse_uint,
}
use iot_ftp_upload_gateway.Io.{ok, done}
use iot_ftp_upload_gateway.Net.{Ipv4Addr, v4, SocketAddr, from_octets}
use iot_ftp_upload_gateway.Config.{
  BackendConfig, parse_name_list, parse_backend, parse_each, parse_backends,
  default_backend_passive_ports,
}
use iot_ftp_upload_gateway.Config.Settings.{
  Settings, default_settings, default_tls, default_source, explicit, rotate, parse_tls_mode,
  parse_source_mode,
}
use iot_ftp_upload_gateway.Config.Load.{
  Host, Variable, unset, set_to, apply_each, apply_env_overrides, validate, load,
}
use iot_ftp_upload_gateway.Config.Ready.{IsReady}
use iot_ftp_upload_gateway.Backend.Rotator.{State, sort, insert_sorted, dedup}
use iot_ftp_upload_gateway.Backend.Rotator
use iot_ftp_upload_gateway.Backend.Rotator.Refresh
use iot_ftp_upload_gateway.Backend.Source.{
  select_sources, resolve_sources, matches_any, matches_name, glob_match, glob_loop,
}
use iot_ftp_upload_gateway.Backend.Tls.Connector.{TlsLibrary, BackendTlsConnector, add_each}
use iot_ftp_upload_gateway.Backend.Tls.Connector
use iot_ftp_upload_gateway.Backend.Tls.Trust.{bundled, trusting}
use iot_ftp_upload_gateway.Backend.Selector
use iot_ftp_upload_gateway.Server.Listener.{gateway_of, start}
use iot_ftp_upload_gateway.Server.Listener.Start.{
  Surroundings, made, Shared, shared_of, prepare, main,
}
use iot_ftp_upload_gateway.Server.Listener.Running.{IsRunning, main-IsRunning}
use iot_ftp_upload_gateway.Pasv.PortManager
use iot_ftp_upload_gateway.Server.Listener.Reaching.{main-reaches}
use iot_ftp_upload_gateway.Run.{Env, World, control_line}
use iot_ftp_upload_gateway.Backend.Rotator.{permit}

abbrev variable : Text → Variable
variable name =
    if text_eq name (codes "GATEWAY_BACKENDS")
    then set_to (codes "ftp.example:21")
    else if text_eq name (codes "GATEWAY_BACKEND_TLS")
    then set_to (codes "explicit")
    else if text_eq name (codes "GATEWAY_BACKEND_SOURCE")
    then set_to (codes "rotate")
    else unset

abbrev host : Host
host = record {
  env_var = variable;
  is_file = λ path. false;
  parse_ip = λ text. none;
  parse_ipv4 = λ text. none;
}

abbrev library : TlsLibrary
library = record {
  pem_file_iter = λ path. none;
  is_usable = λ cert. true;
  webpki_roots = codes "root" ∷ [];
  is_server_name = λ name. true;
}

abbrev address : Ipv4Addr
address = from_octets 10 0 0 5

abbrev env : Surroundings
env = record {
  bind = λ addr. ok tt;
  library = library;
  resumption = record { store = 0; entries = 256 };
  interfaces = ok (record { interface = codes "ens5"; ip = address } ∷ []);
}

abbrev backend : BackendConfig
backend = record {
  host = codes "ftp.example";
  port = 21;
  passive_ports = default_backend_passive_ports;
}

abbrev loaded : Settings
loaded = record default_settings {
  backends = backend ∷ [];
  backend_tls = record default_tls { mode = explicit };
  backend_source = record default_source { mode = rotate };
}

loads : load host none ≡ some loaded
unfolding load apply_env_overrides apply_each validate parse_backends parse_name_list parse_each
    parse_backend parse_uint parse_tls_mode parse_source_mode
loads = refl

abbrev rotator : State
rotator = Rotator.new (address ∷ [])

rotates :
    Refresh.start env.interfaces loaded.backend_source.interfaces ≡ Refresh.Started.started rotator
unfolding Refresh.start resolve_sources select_sources matches_any matches_name glob_match glob_loop
    dedup sort insert_sorted
rotates = refl

abbrev shared : Shared
shared =
    shared_of loaded (gateway_of loaded (record { backends = backend ∷ []; next_index = 0 }))
      (some (trusting loaded.backend_tls env.resumption (codes "root" ∷ []))) (some rotator)

starts : start loaded ≡ some shared.gateway
unfolding start Selector.new
starts = refl

runs : main host env none ≡ made shared
unfolding main prepare Connector.new
runs = rw (loads, starts, rotates) refl

main-IsRunning_example : IsReady host loaded × IsRunning env shared
main-IsRunning_example = main-IsRunning host env none shared (λ read e. cc) runs

main-reaches_example : (p : Shared) × (main host env none ≡ made p)
main-reaches_example =
    main-reaches host env none loaded (λ read e. cc) loads refl (λ on. (codes "root" ∷ [], bundled))
      (λ on. (rotator, rotates))

abbrev client : SocketAddr
client = record { ip = v4 (from_octets 10 0 0 7); port = 40000 }

-- A client that says nothing, and a backend that closes the connection.
abbrev around_session : Env
around_session = record {
  client_read = λ t. control_line (ok []);
  client_write = λ t. ok tt;
  backend_read = λ t. done (ok []);
  backend_write = λ t. ok tt;
  timed_write = λ t. done (ok tt);
  accepts = λ t. [];
  can_bind = λ t k port. true;
  connect = λ t. done (ok tt);
  handshake = λ t. done (ok tt);
  buffered = λ t. false;
  control_peer = none;
  slot_wait = λ t. permit;
  now = λ t. t;
  upload = λ t. [];
  download = λ t. [];
  upload_first = λ t. true;
}

abbrev world : World
world = record {
  time = 0;
  trace = [];
  secured = false;
  metrics = shared.gateway.metrics;
  pool = shared.port_manager;
  rotator = shared.source_rotator;
  active_pasv = none;
  upload_confirmed = false;
}
