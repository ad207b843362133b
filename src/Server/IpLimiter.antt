-- ===== src/Server/IpLimiter.antt =====
-- src/server/ip_limiter.rs: at most so many connections from one address. The table under the mutex is
-- an association list; a guard remembers whether it holds a share of the table.
pub mod Counting
pub mod History
mod Tests
use iot_ftp_upload_gateway.Base.{
  ℕ, ◌+◌, ◌-◌, ◌%◌, ◌^◌, Bool, true, false, List, [], ◌∷◌, Option, none, some, leb, ◌==◌,
  if◌then◌else◌, lookup, insert, erase,
}
use iot_ftp_upload_gateway.Net.{IpAddr, ip_key}

pub record IpConnectionLimiter : Type 0 where
  pub counts : List (IpAddr × ℕ)
  pub max_per_ip : ℕ

pub record IpConnectionGuard : Type 0 where
  pub counted : Bool
  pub ip : IpAddr

unfoldable pub new : ℕ → IpConnectionLimiter
new max_per_ip = record { counts = []; max_per_ip = max_per_ip }

-- `counts.entry(ip).or_insert(0)`: the count, and the table that now has the entry.
abbrev pub entry_or_zero : IpAddr → List (IpAddr × ℕ) → ℕ × List (IpAddr × ℕ)
entry_or_zero ip counts = elim (lookup ip counts) [
  | some count ↦ (count, counts)
  | none ↦ (0, insert ip 0 counts)
]

unfoldable pub try_acquire :
    IpAddr → IpConnectionLimiter → Option IpConnectionGuard × IpConnectionLimiter
try_acquire ip l =
    if l.max_per_ip == 0
    then (some (record { counted = false; ip = ip }), l)
    else let (count, counts) = entry_or_zero ip l.counts in
      if leb l.max_per_ip count then (none, record l { counts = counts }) else (
        some (record { counted = true; ip = ip }),
        record l { counts = insert ip (count + 1) counts },
      )

-- `*count -= 1` in `usize`, and the entry goes when it reaches 0.
abbrev pub decrement : IpAddr → ℕ → List (IpAddr × ℕ) → List (IpAddr × ℕ)
decrement ip count counts =
    let left = (count + 2 ^ 64 - 1) % 2 ^ 64 in
    if left == 0 then erase ip (insert ip left counts) else insert ip left counts

-- `Drop` of a guard.
unfoldable pub drop_guard : IpConnectionGuard → IpConnectionLimiter → IpConnectionLimiter
drop_guard g l =
    if g.counted
    then elim (lookup g.ip l.counts) [
      | some count ↦ record l { counts = decrement g.ip count l.counts }
      | none ↦ l
    ]
    else l
