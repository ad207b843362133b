-- ===== src/Server/Session/Tests.antt =====
-- One upload of a session, and the theorems on sessions at that run.
use iot_ftp_upload_gateway.Base.{
  ℕ, ◌≡◌, refl, Bool, true, false, [], ◌∷◌, ◌++◌, none, some, Text, All, codes, crlf, arith, ◌-◌,
  ltb, lookup, if◌then◌else◌,
}
use iot_ftp_upload_gateway.Io.{ok, done}
use iot_ftp_upload_gateway.Net.{v4, SocketAddr, from_octets}
use iot_ftp_upload_gateway.Metrics.{Metrics}
use iot_ftp_upload_gateway.Pasv.Relay.{epsv_mode}
use iot_ftp_upload_gateway.Backend.Rotator.{permit}
use iot_ftp_upload_gateway.Run.{Env, World, control_line, turn}
use iot_ftp_upload_gateway.Server.Session.Config.{SessionConfig}
use iot_ftp_upload_gateway.Server.Session.Loop.{handle}
use iot_ftp_upload_gateway.Server.Session.Commands.{IsPeer, handle-IsPeer}
use iot_ftp_upload_gateway.Server.Session.Accounts.Uploads.{Closes, handle-Closes}
use iot_ftp_upload_gateway.Server.Session.Accounts.Totals.{totals, Fits, NoneFalls, handle-Grows}
use iot_ftp_upload_gateway.Server.Session.Ports.Session.{handle-in_use}
use iot_ftp_upload_gateway.Server.Session.Slots.{slot_in, in_flight, HasPermit}
use iot_ftp_upload_gateway.Server.Session.Slots.Session.{handle-in_flight}

abbrev loopback : ℕ
loopback = from_octets 127 0 0 1

abbrev client_peer : SocketAddr
client_peer = record { ip = v4 loopback; port = 50000 }

abbrev other_peer : SocketAddr
other_peer = record { ip = v4 (from_octets 10 0 0 9); port = 50001 }

abbrev cfg : Bool → SessionConfig
cfg tls = record {
  client_ip = v4 loopback;
  backend_key = codes "ftp:21";
  capacity = 1;
  passive_address = loopback;
  max_command_line_bytes = 512;
  require_data_ip_match = true;
  connect_limits = record { fallback_to_control_ip = false; passive_mode = epsv_mode };
  backend_tls = tls;
}

-- The client's lines and the backend's replies, by the moment they are read at.
abbrev client_lines : ℕ → Text
client_lines t =
    if ltb t 5
    then codes "PASV" ++ crlf
    else if ltb t 19
    then codes "STOR a.jpg" ++ crlf
    else codes "QUIT" ++ crlf

abbrev backend_lines : ℕ → Text
backend_lines t =
    if ltb t 5
    then codes "220 ready" ++ crlf
    else if ltb t 10
    then codes "229 Entering Extended Passive Mode (|||2121|)" ++ crlf
    else if ltb t 13
    then codes "150 go" ++ crlf
    else if ltb t 17
    then codes "226 done" ++ crlf
    else codes "221 bye" ++ crlf

abbrev env : Env
env = record {
  client_read = λ t. control_line (ok (client_lines t));
  client_write = λ t. ok tt;
  backend_read = λ t. done (ok (backend_lines t));
  backend_write = λ t. ok tt;
  timed_write = λ t. done (ok tt);
  accepts = λ t. ok other_peer ∷ ok client_peer ∷ [];
  can_bind = λ t k port. true;
  connect = λ t. done (ok tt);
  handshake = λ t. done (ok tt);
  buffered = λ t. false;
  control_peer = some (record { ip = v4 (from_octets 10 0 0 1); port = 21 });
  slot_wait = λ t. permit;
  now = λ t. t;
  upload = λ t. turn (ok 5) (ok tt) ∷ turn (ok 0) (ok tt) ∷ [];
  download = λ t. turn (ok 0) (ok tt) ∷ [];
  upload_first = λ t. true;
}

abbrev start : World
start = record {
  time = 0;
  trace = [];
  secured = false;
  metrics = iot_ftp_upload_gateway.Metrics.new;
  pool = record { in_use = []; range = record { start = 40000; end = 40001 }; next_offset = 0 };
  rotator = none;
  active_pasv = none;
  upload_confirmed = false;
}

-- A backend that speaks TLS.
abbrev tls_lines : ℕ → Text
tls_lines t =
    if ltb t 2
    then codes "220 ready" ++ crlf
    else if ltb t 4
    then codes "234 go ahead" ++ crlf
    else if ltb t 10
    then codes "200 ok" ++ crlf
    else codes "221 bye" ++ crlf

abbrev tls_env : Env
tls_env = record env {
  backend_read = λ t. done (ok (tls_lines t));
  client_read = λ t. control_line (ok (codes "QUIT" ++ crlf));
}

handle-IsPeer_example : All (IsPeer (v4 loopback)) (handle (cfg false) 3 env start).1.trace
handle-IsPeer_example = handle-IsPeer (cfg false) 3 env start refl tt

handle-Closes_example : Closes start.metrics (handle (cfg false) 3 env start).1.metrics
handle-Closes_example = handle-Closes (cfg false) 3 env start (omega arith) (omega arith)

handle-in_use_example : (handle (cfg false) 3 env start).1.pool.in_use ≡ []
handle-in_use_example = handle-in_use (cfg false) 3 env start (omega arith) (omega arith)

handle-Grows_example :
    Fits (totals (handle (cfg false) 3 env start).1.metrics)
    × NoneFalls (totals start.metrics) (totals (handle (cfg false) 3 env start).1.metrics)
handle-Grows_example = handle-Grows (cfg false) 3 env start (omega arith)

abbrev local : ℕ
local = from_octets 10 0 0 5

abbrev rotation_start : World
rotation_start = record start {
  rotator = some (record { sources = local ∷ []; unhealthy = []; backends = [] });
}

-- The session's peers, two moments later: for the source address it asks the clock, and it waits for a
-- slot.
abbrev rotation_env : Env
rotation_env = record env {
  client_read = λ t. control_line (ok (client_lines (t - 2)));
  backend_read = λ t. done (ok (backend_lines (t - 2)));
}

abbrev after_rotation : World
after_rotation = (handle (cfg false) 3 rotation_env rotation_start).1

handle-in_flight_example :
    HasPermit (slot_in (codes "ftp:21") local after_rotation)
    × (in_flight (codes "ftp:21") local after_rotation ≡ 0)
unfolding lookup
handle-in_flight_example =
    handle-in_flight (cfg false) 3 rotation_env rotation_start (codes "ftp:21") local tt
