-- ===== src/Pasv/PortManager.antt =====
-- src/pasv/port_manager.rs: the pool of passive ports. The set of ports in use is a list without
-- repetition, the cursor is a `u32` that wraps, and whether a port can be bound is the system's
-- answer, an argument. A port given out is a guard; dropping the guard is `release`.
pub mod Search
pub mod Complete
pub mod Steps
pub mod Interleaving
mod Tests
use iot_ftp_upload_gateway.Base.{
  ℕ, zero, suc, ◌+◌, ◌-◌, ◌%◌, ◌^◌, ◌≤◌, ◌<◌, Bool, true, false, not, List, [], ◌∷◌, Option, none,
  some, contains, length, remove,
}

-- `PortRange` of config.rs.
pub record PortRange : Type 0 where
  pub start : ℕ
  pub end : ℕ

pub record PortManager : Type 0 where
  pub in_use : List ℕ
  pub range : PortRange
  pub next_offset : ℕ

unfoldable pub new : PortRange → PortManager
new range = record { in_use = []; range = range; next_offset = 0 }

-- `end as u32 - start as u32 + 1`.
abbrev pub range_size : PortRange → ℕ
range_size range = (range.end + 2 ^ 32 - range.start + 1) % 2 ^ 32

-- `start + offset as u16` for the offset that the cursor `next` stands for.
abbrev pub port_at : PortRange → ℕ → ℕ
port_at range next = (range.start + next % range_size range % 2 ^ 16) % 2 ^ 16

-- `next_offset.fetch_add(1)`: the candidate, and the pool with the cursor moved.
abbrev pub candidate : PortManager → ℕ × PortManager
candidate m =
    (port_at m.range m.next_offset, record m { next_offset = (m.next_offset + 1) % 2 ^ 32 })

-- `in_use.insert(port)` under the lock: whether it was new.
abbrev pub reserve : ℕ → PortManager → Bool × PortManager
reserve port m = elim (contains port m.in_use) [
  | true ↦ (false, m)
  | false ↦ (true, record m { in_use = port ∷ m.in_use })
]

-- `in_use.remove(&port)` under the lock: a failed bind, and the drop of a guard.
abbrev pub release : ℕ → PortManager → PortManager
release port m = record m { in_use = remove port m.in_use }

-- The loop of `allocate` with `rounds` left; `bind` answers for each round and port.
pub search : (ℕ → ℕ → Bool) → ℕ → PortManager → Option ℕ × PortManager
search bind zero m = (none, m)
search bind (suc rounds) m =
    let (port, moved) = candidate m in
    let (reserved, taken) = reserve port moved in
    elim reserved [
      | false ↦ search bind rounds moved
      | true ↦ elim (bind rounds port) [
        | true ↦ (some port, taken)
        | false ↦ search bind rounds (release port taken)
      ]
    ]

unfoldable pub allocate : (ℕ → ℕ → Bool) → PortManager → Option ℕ × PortManager
unfolding search
allocate bind m = search bind (range_size m.range) m

-- `PortRange::len`, in `usize`.
abbrev pub range_len : PortRange → ℕ
range_len range = (range.end + 2 ^ 64 - range.start + 1) % 2 ^ 64

unfoldable pub capacity : PortManager → ℕ
capacity m = range_len m.range

unfoldable pub active_count : PortManager → ℕ
active_count m = length m.in_use

-- A range that `Config::validate` lets pass, and a cursor that fits its type.
pub record IsValid (m : PortManager) : Type 0 where
  pub ordered : m.range.start ≤ m.range.end
  pub u16_end : m.range.end < 2 ^ 16
  pub u32_next : m.next_offset < 2 ^ 32
