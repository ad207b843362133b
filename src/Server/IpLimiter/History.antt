-- ===== src/Server/IpLimiter/History.antt =====
-- The table counts the live guards of each address, and the limit holds after any history.
use iot_ftp_upload_gateway.Base.{
  ℕ, ◌+◌, ◌^◌, ◌<◌, ◌≡◌, refl, true, false, ◌&&◌, List, [], ◌∷◌, Option, arith, if◌then◌else◌,
  lookup, Bool-cases, inl, inr,
}
use iot_ftp_upload_gateway.Net.{IpAddr, ip_eq, ip_eq_iff, ip_key}
use iot_ftp_upload_gateway.Server.IpLimiter.{
  IpConnectionLimiter, IpConnectionGuard, new, try_acquire, decrement, drop_guard,
}
use iot_ftp_upload_gateway.Server.IpLimiter.Counting.{
  live, entry, Inv, Without, live-Without, guards_after, lookup-decrement, Acquired, unlimited,
  refused, granted, try_acquire-Acquired,
}

module _ (g : IpConnectionGuard) (l : IpConnectionLimiter) where
  drop_uncounted : g.counted ≡ false → drop_guard g l ≡ l
  unfolding drop_guard
  drop_uncounted h = rw h

  drop_counted :
      (n : ℕ)
      → g.counted ≡ true
      → lookup g.ip l.counts ≡ entry n
      → 0 < n
      → drop_guard g l ≡ record l { counts = decrement g.ip n l.counts }
  unfolding drop_guard
  drop_counted n h e k = ground arith

live-cons :
    (ip : IpAddr) (g : IpConnectionGuard) (gs : List IpConnectionGuard)
    → live ip (g ∷ gs) ≡ (if g.counted && ip_eq g.ip ip then 1 else 0) + live ip gs
unfolding live
live-cons ip g gs = refl

pub drop_guard-Inv :
    (g : IpConnectionGuard) (l : IpConnectionLimiter) (gs hs : List IpConnectionGuard)
    → Without g gs hs
    → Inv l gs
    → Inv (drop_guard g l) hs
drop_guard-Inv g l gs hs w v = elim (Bool-cases g.counted) [
  | inr free ↦ rw (drop_uncounted g l free) (record {
    table = λ ip. ground (arith, v.table ip, live-Without ip g w);
    bounded = λ ip. ground (arith, v.bounded ip, live-Without ip g w);
    u64 = v.u64;
  })
  | inl held ↦
      let here : live g.ip gs ≡ live g.ip hs + 1 =
        ground (arith, live-Without g.ip g w, ip_eq_iff g.ip g.ip) in
      rw (drop_counted g l (live g.ip gs) held (v.table g.ip) (omega arith)) (record {
        table = λ ip. ground (
          arith,
          v.table ip,
          live-Without ip g w,
          ip_eq_iff g.ip ip,
          lookup-decrement g.ip ip (live g.ip gs) l.counts (omega arith)
              (omega (arith, v.bounded g.ip, v.u64)),
        );
        bounded = λ ip. ground (arith, v.bounded ip, live-Without ip g w);
        u64 = v.u64;
      })
]

pub Acquired-Inv :
    (ip : IpAddr) (l : IpConnectionLimiter) (gs : List IpConnectionGuard)
    (r : Option IpConnectionGuard × IpConnectionLimiter)
    → Acquired ip l gs r
    → Inv l gs
    → Inv r.1 (guards_after r.0 gs)
Acquired-Inv ip l gs r (unlimited z) v = record {
  table = λ j. ground (arith, v.table j, live-cons j (record { counted = false; ip = ip }) gs);
  bounded = λ j. ground (arith, v.bounded j, live-cons j (record { counted = false; ip = ip }) gs);
  u64 = v.u64;
}
Acquired-Inv ip l gs r (refused h full) v = v
Acquired-Inv ip l gs r (granted {l'} room same counts) v = record {
  table = λ j. ground (
    arith,
    v.table j,
    counts j,
    ip_eq_iff ip j,
    live-cons j (record { counted = true; ip = ip }) gs,
  );
  bounded = λ j.
      ground
        (arith, v.bounded j, ip_eq_iff ip j, live-cons j (record { counted = true; ip = ip }) gs);
  u64 = rw same v.u64;
}

-- The limiter and the guards that are live.
pub record System : Type 0 where
  pub limiter : IpConnectionLimiter
  pub guards : List IpConnectionGuard

pub data Step (s t : System) : Type 0 where
  connects :
      (ip : IpAddr)
      → t ≡ record {
        limiter = (try_acquire ip s.limiter).1;
        guards = guards_after (try_acquire ip s.limiter).0 s.guards;
      }
      → Step s t
  ends :
      (g : IpConnectionGuard) (gs : List IpConnectionGuard)
      → Without g s.guards gs
      → t ≡ record { limiter = drop_guard g s.limiter; guards = gs }
      → Step s t

pub data Reach (s : System) : System → Type 0 where
  here : Reach s s
  next : {t u : System} → Reach s t → Step t u → Reach s u

abbrev pub start : ℕ → System
start max_per_ip = record { limiter = new max_per_ip; guards = [] }

pub start-Inv : (n : ℕ) → n < 2 ^ 64 → Inv (new n) []
unfolding new lookup live
start-Inv n h = record { table = λ ip. refl; bounded = λ ip. omega arith; u64 = h }

Step-Inv : (s t : System) → Step s t → Inv s.limiter s.guards → Inv t.limiter t.guards
Step-Inv s t (connects ip e) v =
    rw e (Acquired-Inv ip s.limiter s.guards _ (try_acquire-Acquired ip s.limiter s.guards v) v)
Step-Inv s t (ends g gs w e) v = rw e (drop_guard-Inv g s.limiter s.guards gs w v)

pub Reach-counts :
    (max_per_ip : ℕ) (t : System)
    → max_per_ip < 2 ^ 64
    → Reach (start max_per_ip) t
    → Inv t.limiter t.guards
Reach-counts n t h here = start-Inv n h
Reach-counts n _ h (next {t} {u} r st) = Step-Inv t u st (Reach-counts n t h r)
