-- ===== src/Pasv/PortManager/Search.antt =====
-- What `allocate` gives out: a free port of the range, or nothing and the pool as it was.
use iot_ftp_upload_gateway.Base.{
  ℕ, zero, suc, ◌+◌, ◌-◌, ◌%◌, ◌^◌, ◌≤◌, ◌<◌, ◌≡◌, refl, Bool, true, false, ◌∷◌, Option, none, some,
  arith, contains, remove-cons, Bool-cases, inl, inr,
}
use iot_ftp_upload_gateway.Pasv.PortManager.{
  PortRange, PortManager, range_size, port_at, search, allocate, IsValid,
}

pub range_size_lem :
    (r : PortRange) → r.start ≤ r.end → r.end < 2 ^ 16 → range_size r ≡ r.end - r.start + 1
range_size_lem r h k = omega arith

pub port_at_bounds :
    (r : PortRange) (next : ℕ)
    → r.start ≤ r.end
    → r.end < 2 ^ 16
    → (r.start ≤ port_at r next) × (port_at r next ≤ r.end)
port_at_bounds r next h k = grind (arith, range_size_lem r h k)

-- The pool after one round that gave nothing: the cursor has moved.
abbrev pub advance : PortManager → PortManager
advance m = record m { next_offset = (m.next_offset + 1) % 2 ^ 32 }

abbrev pub current : PortManager → ℕ
current m = port_at m.range m.next_offset

module _ (bind : ℕ → ℕ → Bool) (k : ℕ) (m : PortManager) where
  pub search_taken :
      contains (current m) m.in_use ≡ true → search bind (suc k) m ≡ search bind k (advance m)
  unfolding search
  search_taken h = rw h

  pub search_bound :
      contains (current m) m.in_use ≡ false
      → bind k (current m) ≡ true
      → search bind (suc k) m
        ≡ (some (current m), record (advance m) { in_use = current m ∷ m.in_use })
  unfolding search
  search_bound h b = ground arith

  pub search_refused :
      contains (current m) m.in_use ≡ false
      → bind k (current m) ≡ false
      → search bind (suc k) m ≡ search bind k (advance m)
  unfolding search
  search_refused h b = ground (arith, remove-cons (current m) m.in_use h)

-- How an allocation ends.
abbrev pub Outcome : PortManager → Option ℕ × PortManager → Type 0
Outcome m (some port, m') =
    (m.range.start ≤ port)
    × (port ≤ m.range.end)
    × (contains port m.in_use ≡ false)
    × (m'.in_use ≡ port ∷ m.in_use)
    × (m'.range ≡ m.range)
Outcome m (none, m') = (m'.in_use ≡ m.in_use) × (m'.range ≡ m.range)

search-Outcome :
    (bind : ℕ → ℕ → Bool) (k : ℕ) (m : PortManager)
    → m.range.start ≤ m.range.end
    → m.range.end < 2 ^ 16
    → Outcome m (search bind k m)
search-Outcome bind zero m h e = unfold search in (refl, refl)
search-Outcome bind (suc k) m h e = elim (Bool-cases (contains (current m) m.in_use)) [
  | inl taken ↦ rw (search_taken bind k m taken) (search-Outcome bind k (advance m) h e)
  | inr free ↦ elim (Bool-cases (bind k (current m))) [
    | inl bound ↦
        let (low, high) = port_at_bounds m.range m.next_offset h e in
        rw (search_bound bind k m free bound) (low, high, free, refl, refl)
    | inr refused ↦
        rw (search_refused bind k m free refused) (search-Outcome bind k (advance m) h e)
  ]
]

pub allocate-Outcome_within :
    (bind : ℕ → ℕ → Bool) (m : PortManager)
    → m.range.start ≤ m.range.end
    → m.range.end < 2 ^ 16
    → Outcome m (allocate bind m)
unfolding allocate
allocate-Outcome_within bind m h e = search-Outcome bind (range_size m.range) m h e

-- A port is given out free and from the range, and it is what the set grows by; where none is
-- given, the set is as before.
pub allocate-Outcome :
    (bind : ℕ → ℕ → Bool) (m : PortManager) → IsValid m → Outcome m (allocate bind m)
unfolding allocate
allocate-Outcome bind m v = search-Outcome bind _ m v.ordered v.u16_end
