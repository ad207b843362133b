-- ===== src/Server/Listener/Tests.antt =====
-- Two connections of one address where one is allowed, and one after the first has ended.
use iot_ftp_upload_gateway.Base.{◌+◌, ◌≡◌, refl, List, [], ◌∷◌, some, arith, codes}
use iot_ftp_upload_gateway.Net.{v4, SocketAddr, from_octets}
use iot_ftp_upload_gateway.Config.{BackendConfig, default_backend_passive_ports}
use iot_ftp_upload_gateway.Config.Settings.{Settings, default_settings, default_limits}
use iot_ftp_upload_gateway.Backend.Selector
use iot_ftp_upload_gateway.Server.Listener.{
  Gateway, gateway_of, start, Event, accepted, session_ends, rejected, started, nothing, run,
  active_sessions,
}
use iot_ftp_upload_gateway.Server.Listener.Spec.{spec_step, spec_run, spec_start}
use iot_ftp_upload_gateway.Server.Listener.Refinement.{run-spec_run}
use iot_ftp_upload_gateway.Server.Listener.Held.{count_started, active_sessions-run}

abbrev backend : BackendConfig
backend = record {
  host = codes "ftp.example";
  port = 21;
  passive_ports = default_backend_passive_ports;
}

abbrev config : Settings
config = record default_settings {
  backends = backend ∷ [];
  limits = record default_limits { max_connections_per_ip = 1 };
}

abbrev camera : SocketAddr
camera = record { ip = v4 (from_octets 10 0 0 7); port = 40000 }

abbrev events : List Event
events = accepted camera ∷ accepted camera ∷ session_ends 1 ∷ accepted camera ∷ []

abbrev gateway : Gateway
gateway = gateway_of config (record { backends = backend ∷ []; next_index = 0 })

starts : start config ≡ some gateway
unfolding start Selector.new
starts = refl

run-spec_run_example : (run events gateway).0 ≡ spec_run 1 (backend ∷ []) events spec_start
run-spec_run_example = run-spec_run config gateway events (omega arith) starts (omega arith)

promised :
    spec_run 1 (backend ∷ []) events spec_start
    ≡ started 1 (some backend) ∷ rejected ∷ nothing ∷ started 2 (some backend) ∷ []
unfolding spec_run spec_step
promised = refl

-- One session runs, and two are counted.
active_sessions-run_example :
    active_sessions (run events gateway).1
    ≡ active_sessions gateway + count_started (run events gateway).0
active_sessions-run_example = active_sessions-run events gateway
