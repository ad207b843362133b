-- ===== src/Server/Listener/Refinement.antt =====
-- The listener does what it promises: its table, guards and cursors implement the specification.
use iot_ftp_upload_gateway.Base.{
  ℕ, ◌+◌, ◌^◌, ◌≤◌, ◌<◌, ◌≡◌, refl, List, [], ◌∷◌, some, arith, length,
}
use mathlib.Core.Path.{ap₂}
use iot_ftp_upload_gateway.Config.{BackendConfig}
use iot_ftp_upload_gateway.Config.Settings.{Settings}
use iot_ftp_upload_gateway.Backend.Selector
use iot_ftp_upload_gateway.Server.IpLimiter.{try_acquire}
use iot_ftp_upload_gateway.Server.IpLimiter.Counting.{try_acquire-Acquired}
use iot_ftp_upload_gateway.Server.IpLimiter.History.{Acquired-Inv}
use iot_ftp_upload_gateway.Server.Listener.{
  Gateway, start, Event, accept_failed, accepted, session_ends, finish, step, run,
}
use iot_ftp_upload_gateway.Server.Listener.Spec.{Spec, spec_step, spec_run}
use iot_ftp_upload_gateway.Server.Listener.Tasks.{guards_of, finish-Finished}
use iot_ftp_upload_gateway.Server.Listener.Spec.{spec_start}
use iot_ftp_upload_gateway.Server.Listener.Simulation.{
  Simulates, Agrees, admit-Agrees, release-Simulates, start-Simulates,
}

module _ (limit : ℕ) (backends : List BackendConfig) where
  step-Agrees :
      (event : Event) (g : Gateway) (s : Spec)
      → s.admitted + 2 < 2 ^ 64
      → Simulates limit backends g s
      → Agrees limit backends (step event g) (spec_step limit backends event s)
  unfolding step spec_step
  step-Agrees (accept_failed kind) g s small v = (refl, v)
  step-Agrees (accepted peer) g s small v =
      let gs = guards_of g.sessions in
      let r = try_acquire peer.ip g.ip_limiter in
      let ends = try_acquire-Acquired peer.ip g.ip_limiter gs v.table in
      admit-Agrees limit backends peer.ip g s r small v ends
        (Acquired-Inv peer.ip g.ip_limiter gs r ends v.table)
  step-Agrees (session_ends id) g s small v = (
    refl,
    release-Simulates limit backends id g s (finish id g.sessions) v
        (finish-Finished id g.sessions),
  )

  spec_step-admitted :
      (event : Event) (s : Spec) → (spec_step limit backends event s).1.admitted ≤ s.admitted + 1
  unfolding spec_step
  spec_step-admitted (accept_failed kind) s = omega arith
  spec_step-admitted (accepted peer) s = ground arith
  spec_step-admitted (session_ends id) s = omega arith

  run_from-spec_run :
      (events : List Event) (g : Gateway) (s : Spec)
      → s.admitted + length events + 1 < 2 ^ 64
      → Simulates limit backends g s
      → (run events g).0 ≡ spec_run limit backends events s
  unfolding run spec_run
  run_from-spec_run [] g s small v = refl
  run_from-spec_run (event ∷ events) g s small v =
      let (same, after) = step-Agrees event g s (omega (arith, small)) v in
      ap₂ ◌∷◌ same (
        run_from-spec_run events (step event g).1 (spec_step limit backends event s).1
          (omega (arith, small, spec_step-admitted event s)) after)

-- The listener implements its specification. For a limit of each address below 2 ^ 64, a listener
-- that starts answers every history of fewer than 2 ^ 64 - 1 events, in every order of connections,
-- failed accepts and ends of sessions, with the outcomes that the specification gives: a connection
-- is refused exactly while the live sessions of its address are as many as a limit that is not 0,
-- the sessions that are admitted are numbered from 1 on, and the backends take turns.
pub run-spec_run :
    (config : Settings) (g : Gateway) (events : List Event)
    → config.limits.max_connections_per_ip < 2 ^ 64
    → start config ≡ some g
    → length events + 1 < 2 ^ 64
    → (run events g).0
      ≡ spec_run config.limits.max_connections_per_ip config.backends events spec_start
unfolding start
run-spec_run config g events limit_fits starts few =
    run_from-spec_run config.limits.max_connections_per_ip config.backends events g spec_start
      (omega (arith, few))
      (start-Simulates config (Selector.new config.backends) g limit_fits refl starts)
