-- ===== src/Server/Listener/Simulation.antt =====
-- How the state of the listener stands for that of its specification, and that each operation keeps it.
use mathlib.Core.Option
use iot_ftp_upload_gateway.Base.{
  ℕ, ◌+◌, ◌%◌, ◌^◌, ◌<◌, ◌≡◌, refl, sym, ap, subst, ◌∙◌, true, false, List, ◌∷◌, Option, none, some,
  arith, if◌then◌else◌, length, get_elem?,
}
use mathlib.Core.Path.{ap₂}
use iot_ftp_upload_gateway.Net.{IpAddr}
use iot_ftp_upload_gateway.Config.{BackendConfig}
use iot_ftp_upload_gateway.Config.Settings.{Settings}
use iot_ftp_upload_gateway.Backend.Selector
use iot_ftp_upload_gateway.Server.IpLimiter.{
  IpConnectionLimiter, IpConnectionGuard, try_acquire, drop_guard,
}
use iot_ftp_upload_gateway.Server.IpLimiter
use iot_ftp_upload_gateway.Server.IpLimiter.Counting.{
  live, Inv, guards_after, Acquired, unlimited, refused, granted,
}
use iot_ftp_upload_gateway.Server.IpLimiter.History.{drop_guard-Inv, start-Inv}
use iot_ftp_upload_gateway.Server.Listener.{
  Task, Gateway, gateway_of, Outcome, rejected, started, spawn, admit, release,
}
use iot_ftp_upload_gateway.Server.Listener.Spec.{
  spec_start, Session, Spec, count, remove, is_full, spec_admit,
}
use iot_ftp_upload_gateway.Server.Listener.Tasks.{
  sessions_of, guards_of, AllCounted, live-guards_of, Finished, absent, ended,
}

abbrev session : ℕ → IpAddr → Session
session id ip = record { session_id = id; ip = ip }

drop_guard-max_per_ip :
    (guard : IpConnectionGuard) (l : IpConnectionLimiter)
    → (drop_guard guard l).max_per_ip ≡ l.max_per_ip
unfolding drop_guard
drop_guard-max_per_ip guard l = ground arith

module _ (limit : ℕ) (backends : List BackendConfig) where
  -- How the state of the listener stands for that of the specification.
  pub record Simulates (g : Gateway) (s : Spec) : Type 0 where
    pub table : Inv g.ip_limiter (guards_of g.sessions)
    pub max_per_ip : g.ip_limiter.max_per_ip ≡ limit
    pub counted : 0 < limit → AllCounted g.sessions
    pub live : s.live ≡ sessions_of g.sessions
    pub session_id : g.next_session_id ≡ s.admitted + 1
    pub cursor : g.backend_selector.next_index ≡ s.admitted
    pub given : g.backend_selector.backends ≡ backends

  abbrev pub Agrees : Outcome × Gateway → Outcome × Spec → Type 0
  Agrees (o, g) (o', s) = (o ≡ o') × Simulates g s

  -- A guard that was given stands for a session that the specification admits.
  spawn-Agrees :
      (ip : IpAddr) (guard : IpConnectionGuard) (l : IpConnectionLimiter) (g : Gateway) (s : Spec)
      → s.admitted + 2 < 2 ^ 64
      → Simulates g s
      → Inv l (guard ∷ guards_of g.sessions)
      → l.max_per_ip ≡ limit
      → guard.ip ≡ ip
      → (0 < limit → guard.counted ≡ true)
      → Agrees (spawn guard l g) (spec_admit limit backends ip s)
  unfolding Selector.next
  spawn-Agrees ip guard l g s small v inv same is_ip holds = (
    ap₂ started v.session_id (
        ap (λ (bs : List BackendConfig). get_elem? bs (g.backend_selector.next_index % length bs))
          v.given
        ∙ ap (λ (i : ℕ). get_elem? backends (i % length backends)) v.cursor),
    record {
      table = inv;
      max_per_ip = same;
      counted = λ h. (holds h, v.counted h);
      live = ap₂ ◌∷◌ (ap₂ session (sym v.session_id) (sym is_ip)) v.live;
      session_id = omega (arith, v.session_id, small);
      cursor = omega (arith, v.cursor, small);
      given = v.given;
    },
  )

  count-live :
      (ip : IpAddr) (g : Gateway) (s : Spec)
      → 0 < limit
      → Simulates g s
      → live ip (guards_of g.sessions) ≡ count ip s.live
  count-live ip g s h v = live-guards_of ip g.sessions (v.counted h) ∙ ap (count ip) (sym v.live)

  pub admit-Agrees :
      (ip : IpAddr) (g : Gateway) (s : Spec) (r : Option IpConnectionGuard × IpConnectionLimiter)
      → s.admitted + 2 < 2 ^ 64
      → Simulates g s
      → Acquired ip g.ip_limiter (guards_of g.sessions) r
      → Inv r.1 (guards_after r.0 (guards_of g.sessions))
      → Agrees
          (admit r g)
          (if is_full limit ip s.live then (rejected, s) else spec_admit limit backends ip s)
  admit-Agrees ip g s r small v (unlimited z) inv =
      let room : is_full limit ip s.live ≡ false = ground (arith, z, v.max_per_ip) in
      rw room (
        spawn-Agrees ip _ _ g s small v inv v.max_per_ip refl
          (λ h. absurd (omega (arith, z, v.max_per_ip))))
  admit-Agrees ip g s r small v (refused h full) inv =
      let full_too : is_full limit ip s.live ≡ true =
        let some_limit : 0 < limit = omega (arith, h, v.max_per_ip) in
        ground (arith, full, v.max_per_ip, count-live ip g s some_limit v, some_limit) in
      rw full_too (
        refl,
        record {
          table = v.table;
          max_per_ip = v.max_per_ip;
          counted = v.counted;
          live = v.live;
          session_id = v.session_id;
          cursor = v.cursor;
          given = v.given;
        },
      )
  admit-Agrees ip g s r small v (granted {l'} below same counts) inv =
      let room : is_full limit ip s.live ≡ false =
        let some_limit : 0 < limit = omega (arith, below, v.max_per_ip) in
        ground (arith, below, v.max_per_ip, count-live ip g s some_limit v, some_limit) in
      rw room (spawn-Agrees ip _ _ g s small v inv (same ∙ v.max_per_ip) refl (λ h. refl))

  pub release-Simulates :
      (id : ℕ) (g : Gateway) (s : Spec) (r : Option (IpConnectionGuard × List Task))
      → Simulates g s
      → Finished id g.sessions r
      → Simulates (release r g) (record s { live = remove id s.live })
  release-Simulates id g s none v (absent e) = record {
    table = v.table;
    max_per_ip = v.max_per_ip;
    counted = v.counted;
    live = ap (remove id) v.live ∙ e;
    session_id = v.session_id;
    cursor = v.cursor;
    given = v.given;
  }
  release-Simulates id g s (some (guard, after)) v (ended e w c n) = record {
    table = drop_guard-Inv guard g.ip_limiter (guards_of g.sessions) (guards_of after) w v.table;
    max_per_ip = drop_guard-max_per_ip guard g.ip_limiter ∙ v.max_per_ip;
    counted = λ h. c (v.counted h);
    live = ap (remove id) v.live ∙ sym e;
    session_id = v.session_id;
    cursor = v.cursor;
    given = v.given;
  }

new-fields :
    (backends : List BackendConfig) (s : Selector.BackendSelector BackendConfig)
    → Selector.new backends ≡ some s
    → (s.backends ≡ backends) × (s.next_index ≡ 0)
unfolding Selector.new
new-fields backends s made = ground (arith, made)

-- A listener that starts.
pub start-Simulates :
    (config : Settings) (r : Option (Selector.BackendSelector BackendConfig)) (g : Gateway)
    → config.limits.max_connections_per_ip < 2 ^ 64
    → Selector.new config.backends ≡ r
    → Option.map (gateway_of config) r ≡ some g
    → Simulates config.limits.max_connections_per_ip config.backends g spec_start
unfolding IpLimiter.new
start-Simulates config none g small made e = cc
start-Simulates config (some selector) g small made e =
    let limit = config.limits.max_connections_per_ip in
    let (given, at) = new-fields config.backends selector made in
    let built : gateway_of config selector ≡ g = cc in
    subst (λ x. Simulates limit config.backends x spec_start) built
      (record {
        table = start-Inv limit small;
        max_per_ip = refl;
        counted = λ h. tt;
        live = refl;
        session_id = refl;
        cursor = at;
        given = given;
      })
