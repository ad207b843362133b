-- ===== src/Server/Listener.antt =====
-- src/server/listener.rs: the loop that accepts connections, and the set of its sessions. A session is a
-- task of a `JoinSet`, which keeps a task that is finished until it is joined.
pub mod Start
pub mod Running
pub mod Reaching
pub mod Serving
pub mod Spec
pub mod Tasks
pub mod Simulation
pub mod Refinement
pub mod Held
mod Tests
mod StartTests
use mathlib.Core.Option
use iot_ftp_upload_gateway.Base.{
  ℕ, ◌+◌, ◌%◌, ◌^◌, Bool, true, false, not, ◌&&◌, List, [], ◌∷◌, ◌++◌, Option, none, some, ◌==◌,
  if◌then◌else◌, length,
}
use iot_ftp_upload_gateway.Io.{ErrorKind}
use iot_ftp_upload_gateway.Net.{IpAddr, SocketAddr}
use iot_ftp_upload_gateway.Metrics
use iot_ftp_upload_gateway.Metrics.{Metrics, connection_rejected}
use iot_ftp_upload_gateway.Backend.Selector
use iot_ftp_upload_gateway.Backend.Selector.{BackendSelector}
use iot_ftp_upload_gateway.Config.{BackendConfig}
use iot_ftp_upload_gateway.Config.Settings.{Settings}
use iot_ftp_upload_gateway.Server.IpLimiter
use iot_ftp_upload_gateway.Server.IpLimiter.{
  IpConnectionLimiter, IpConnectionGuard, try_acquire, drop_guard,
}

-- A session: what it was given, and whether it is over. Its guard goes when it is over.
pub record Task : Type 0 where
  pub session_id : ℕ
  pub ip_guard : IpConnectionGuard
  pub backend : Option BackendConfig
  pub finished : Bool

pub record Gateway : Type 0 where
  pub backend_selector : BackendSelector BackendConfig
  pub ip_limiter : IpConnectionLimiter
  pub metrics : Metrics
  pub next_session_id : ℕ
  pub sessions : List Task

abbrev pub gateway_of : Settings → BackendSelector BackendConfig → Gateway
gateway_of config selector = record {
  backend_selector = selector;
  ip_limiter = IpLimiter.new config.limits.max_connections_per_ip;
  metrics = Metrics.new;
  next_session_id = 1;
  sessions = [];
}

-- The state that `run` builds; none where the selector refuses an empty list of backends.
unfoldable pub start : Settings → Option Gateway
start config = Option.map (gateway_of config) (Selector.new config.backends)

-- What the loop meets: an `accept` that fails, a connection, and the end of a session.
pub data Event : Type 0 where
  accept_failed : ErrorKind → Event
  accepted : SocketAddr → Event
  session_ends : ℕ → Event

pub data Outcome : Type 0 where
  nothing : Outcome
  rejected : Outcome
  started : ℕ → Option BackendConfig → Outcome

abbrev pub spawn : IpConnectionGuard → IpConnectionLimiter → Gateway → Outcome × Gateway
spawn guard limiter g =
    let (backend, selector) = Selector.next g.backend_selector in
    (
      started g.next_session_id backend,
      record g {
        ip_limiter = limiter;
        backend_selector = selector;
        next_session_id = (g.next_session_id + 1) % 2 ^ 64;
        sessions =
            record {
              session_id = g.next_session_id;
              ip_guard = guard;
              backend = backend;
              finished = false;
            }
            ∷ g.sessions;
      },
    )

-- `let Some(ip_guard) = ip_limiter.try_acquire(…) else { … }`.
abbrev pub admit : Option IpConnectionGuard × IpConnectionLimiter → Gateway → Outcome × Gateway
admit (none, limiter) g =
    (rejected, record g { ip_limiter = limiter; metrics = connection_rejected g.metrics })
admit (some guard, limiter) g = spawn guard limiter g

abbrev pub is_running : ℕ → Task → Bool
is_running id task = not task.finished && task.session_id == id

abbrev pub with_task :
    Task → Option (IpConnectionGuard × List Task) → Option (IpConnectionGuard × List Task)
with_task task none = none
with_task task (some (guard, tasks)) = some (guard, task ∷ tasks)

-- The running session of this number is over: its guard, and the tasks after it.
unfoldable pub finish : ℕ → List Task → Option (IpConnectionGuard × List Task)
finish id [] = none
finish id (task ∷ tasks) =
    let rest = with_task task (finish id tasks) in
    if is_running id task
    then some (task.ip_guard, record task { finished = true } ∷ tasks)
    else rest

abbrev pub release : Option (IpConnectionGuard × List Task) → Gateway → Gateway
release none g = g
release (some (guard, tasks)) g = record g {
  ip_limiter = drop_guard guard g.ip_limiter;
  sessions = tasks;
}

unfoldable pub step : Event → Gateway → Outcome × Gateway
unfolding finish
step (accept_failed kind) g = (nothing, g)
step (accepted peer) g = admit (try_acquire peer.ip g.ip_limiter) g
step (session_ends id) g = (nothing, release (finish id g.sessions) g)

unfoldable pub run : List Event → Gateway → List Outcome × Gateway
run [] g = ([], g)
run (event ∷ events) g =
    let (outcome, after) = step event g in
    let (outcomes, last) = run events after in (outcome ∷ outcomes, last)

-- What is logged as the number of sessions to drain.
unfoldable pub active_sessions : Gateway → ℕ
active_sessions g = length g.sessions
