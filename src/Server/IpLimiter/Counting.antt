-- ===== src/Server/IpLimiter/Counting.antt =====
-- How an acquisition changes a table that counts the live guards of each address.
use iot_ftp_upload_gateway.Base.{
  ℕ, ◌+◌, ◌-◌, ◌%◌, ◌^◌, ◌≤◌, ◌<◌, ◌≡◌, ◌⊎◌, refl, true, false, ◌&&◌, List, [], ◌∷◌, Option, none,
  some, arith, ◌==◌, if◌then◌else◌, lookup, insert, lookup-insert, lookup-erase, inl, inr,
}
use iot_ftp_upload_gateway.Net.{IpAddr, ip_eq, ip_key}
use iot_ftp_upload_gateway.Server.IpLimiter.{
  IpConnectionLimiter, IpConnectionGuard, entry_or_zero, try_acquire, decrement,
}

-- The live guards of `ip` that hold a share of the table.
unfoldable pub live : IpAddr → List IpConnectionGuard → ℕ
live ip [] = 0
live ip (g ∷ gs) = (if g.counted && ip_eq g.ip ip then 1 else 0) + live ip gs

-- The entry that a table has for a count: none for 0.
abbrev pub entry : ℕ → Option ℕ
entry n = if n == 0 then none else some n

pub record Inv (l : IpConnectionLimiter) (gs : List IpConnectionGuard) : Type 0 where
  pub table : (ip : IpAddr) → lookup ip l.counts ≡ entry (live ip gs)
  pub bounded : (ip : IpAddr) → live ip gs ≤ l.max_per_ip
  pub u64 : l.max_per_ip < 2 ^ 64

-- `g` stands somewhere in the first list, and the second is what is left without it.
pub data Without (g : IpConnectionGuard)
    : List IpConnectionGuard → List IpConnectionGuard → Type 0 where
  front : {gs : List IpConnectionGuard} → Without g (g ∷ gs) gs
  behind :
      (h : IpConnectionGuard) {gs hs : List IpConnectionGuard}
      → Without g gs hs
      → Without g (h ∷ gs) (h ∷ hs)

pub live-Without :
    (ip : IpAddr) (g : IpConnectionGuard) {gs hs : List IpConnectionGuard}
    → Without g gs hs
    → live ip gs ≡ (if g.counted && ip_eq g.ip ip then 1 else 0) + live ip hs
unfolding live
live-Without ip g front = refl
live-Without ip g (behind h w) = ground (arith, live-Without ip g w)

abbrev pub guards_after : Option IpConnectionGuard → List IpConnectionGuard → List IpConnectionGuard
guards_after none gs = gs
guards_after (some g) gs = g ∷ gs

module _ (ip : IpAddr) (l : IpConnectionLimiter) where
  acquire_unlimited :
      l.max_per_ip ≡ 0 → try_acquire ip l ≡ (some (record { counted = false; ip = ip }), l)
  unfolding try_acquire
  acquire_unlimited z = rw (≡→== z)
    where
      ≡→== : {a b : ℕ} → a ≡ b → (a == b) ≡ true
      ≡→== e = ground arith

  acquire_refused :
      (c : ℕ)
      → 0 < l.max_per_ip
      → lookup ip l.counts ≡ entry c
      → l.max_per_ip ≤ c
      → try_acquire ip l ≡ (none, l)
  unfolding try_acquire
  acquire_refused c h e k = ground arith

  acquire_granted :
      (c : ℕ)
      → lookup ip l.counts ≡ entry c
      → c < l.max_per_ip
      → try_acquire ip l ≡ (
        some (record { counted = true; ip = ip }),
        record l { counts = insert ip (c + 1) (entry_or_zero ip l.counts).1 },
      )
  unfolding try_acquire
  acquire_granted c e k = ground arith

lookup-entry_or_zero :
    (ip j : IpAddr) (n : ℕ) (m : List (IpAddr × ℕ))
    → lookup j (insert ip n (entry_or_zero ip m).1) ≡ (if ip_eq ip j then some n else lookup j m)
lookup-entry_or_zero ip j n m =
    ground
      (arith, lookup-insert ip j n m, lookup-insert ip j 0 m, lookup-insert ip j n (insert ip 0 m))

pub lookup-decrement :
    (ip j : IpAddr) (n : ℕ) (m : List (IpAddr × ℕ))
    → 0 < n
    → n < 2 ^ 64
    → lookup j (decrement ip n m) ≡ (if ip_eq ip j then entry (n - 1) else lookup j m)
lookup-decrement ip j n m h k =
    let left : (n + 2 ^ 64 - 1) % 2 ^ 64 ≡ n - 1 = omega arith in
    ground (
      arith,
      left,
      lookup-insert ip j ((n + 2 ^ 64 - 1) % 2 ^ 64) m,
      lookup-erase ip j (insert ip ((n + 2 ^ 64 - 1) % 2 ^ 64) m),
    )

-- How an acquisition ends, in terms of the guards that are live.
pub data Acquired (ip : IpAddr) (l : IpConnectionLimiter) (gs : List IpConnectionGuard)
    : Option IpConnectionGuard × IpConnectionLimiter → Type 0 where
  unlimited : l.max_per_ip ≡ 0 → Acquired ip l gs (some (record { counted = false; ip = ip }), l)
  refused : 0 < l.max_per_ip → live ip gs ≡ l.max_per_ip → Acquired ip l gs (none, l)
  granted :
      {l' : IpConnectionLimiter}
      → live ip gs < l.max_per_ip
      → l'.max_per_ip ≡ l.max_per_ip
      → ((j : IpAddr)
          → lookup j l'.counts ≡ (if ip_eq ip j then some (live ip gs + 1) else lookup j l.counts))
      → Acquired ip l gs (some (record { counted = true; ip = ip }), l')

-- Where the table counts the guards, an attempt to connect is refused exactly at the limit, and
-- otherwise raises the address's count by one and no other; without a limit nothing is counted.
pub try_acquire-Acquired :
    (ip : IpAddr) (l : IpConnectionLimiter) (gs : List IpConnectionGuard)
    → Inv l gs
    → Acquired ip l gs (try_acquire ip l)
try_acquire-Acquired ip l gs v = elim (bounds (live ip gs) l.max_per_ip (v.bounded ip)) [
  | inl z ↦ rw (acquire_unlimited ip l z) (unlimited z)
  | inr (inl full) ↦
      rw (acquire_refused ip l _ full.0 (v.table ip) (omega arith)) (refused full.0 full.1)
  | inr (inr room) ↦
      rw (acquire_granted ip l _ (v.table ip) room)
        (granted room refl (λ j. lookup-entry_or_zero ip j _ l.counts))
]
  where
    bounds : (c n : ℕ) → c ≤ n → (n ≡ 0) ⊎ ((0 < n) × (c ≡ n) ⊎ (c < n))
    bounds c n h = grind arith
