-- ===== src/Backend/Rotator.antt =====
-- src/backend/rotator.rs: the source addresses of backend connections. Instants and durations are
-- numbers of milliseconds; what lies under the mutex is one record; a semaphore is the number of its
-- free permits, and how the wait for one ended is an argument.
pub mod Cycle
pub mod Candidates
pub mod Slots
pub mod Places
pub mod Refresh
pub mod Offered
pub mod Snapshot
mod Tests
mod RefreshTests
use Prim.Native.Nat.{max}
use iot_ftp_upload_gateway.Base.{
  ℕ, zero, suc, ◌+◌, ◌-◌, ◌%◌, ◌^◌, Bool, true, false, not, List, [], ◌∷◌, Option, none, some, ltb,
  leb, ◌==◌, if◌then◌else◌, length, get_elem?, keep, contains, Text, text_eq, lookup, insert,
  retain, number_key, text_key,
}
use iot_ftp_upload_gateway.Io.{
  ErrorKind, addr_not_available, network_unreachable, host_unreachable, timed_out,
  permission_denied,
}
use iot_ftp_upload_gateway.Net.{Ipv4Addr}
use iot_ftp_upload_gateway.Metrics.{saturating_add}

-- 60 seconds.
abbrev pub unhealthy_for : ℕ
unhealthy_for = 60000

pub record SlotState : Type 0 where
  pub available_permits : ℕ
  pub capacity : ℕ
  pub started_total : ℕ
  pub slot_timeouts_total : ℕ

pub record BackendState : Type 0 where
  pub advances : ℕ
  pub started_in_cycle : ℕ
  pub slots : List (Ipv4Addr × SlotState)

pub record State : Type 0 where
  pub sources : List Ipv4Addr
  pub unhealthy : List (Ipv4Addr × ℕ)
  pub backends : List (Text × BackendState)

-- `sort` of addresses, by insertion.
unfoldable pub insert_sorted : ℕ → List ℕ → List ℕ
insert_sorted x [] = x ∷ []
insert_sorted x (y ∷ ys) = let rest = insert_sorted x ys in if leb x y then x ∷ y ∷ ys else y ∷ rest

unfoldable pub sort : List ℕ → List ℕ
sort [] = []
sort (x ∷ xs) = insert_sorted x (sort xs)

-- `dedup`: of equal neighbours one stays.
unfoldable pub dedup : List ℕ → List ℕ
dedup [] = []
dedup (x ∷ []) = x ∷ []
dedup (x ∷ y ∷ ys) = let rest = dedup (y ∷ ys) in if x == y then rest else x ∷ rest

unfoldable pub new : List Ipv4Addr → State
new sources = record { sources = dedup (sort sources); unhealthy = []; backends = [] }

-- Whether the set changed, and the state.
unfoldable pub set_sources : List Ipv4Addr → State → Bool × State
set_sources given state =
    let sources = dedup (sort given) in
    if text_eq state.sources sources then (false, state) else (
      true,
      record state {
        unhealthy = retain (λ ip. contains ip sources) state.unhealthy;
        sources = sources;
      },
    )

unfoldable pub is_unhealthy : State → Ipv4Addr → ℕ → Bool
is_unhealthy state ip now = elim (lookup ip state.unhealthy) [
  | none ↦ false
  | some until ↦ ltb now until
]

abbrev pub push_found : Option Ipv4Addr → List Ipv4Addr → List Ipv4Addr
push_found none rest = rest
push_found (some ip) rest = ip ∷ rest

-- `(0..len).map(|i| sources[(start + i) % len])`, with `left` indices to go; none is out of range.
unfoldable pub ordered_from : List Ipv4Addr → ℕ → ℕ → ℕ → List Ipv4Addr
ordered_from sources start i zero = []
ordered_from sources start i (suc left) =
    push_found (get_elem? sources ((start + i) % length sources))
      (ordered_from sources start (i + 1) left)

-- `backends.get(backend).map_or(0, |b| b.advances)`.
unfoldable pub advances_of : Text → State → ℕ
advances_of backend state = elim (lookup backend state.backends) [ none ↦ 0 | some b ↦ b.advances ]

unfoldable pub candidates_at : Text → ℕ → State → List Ipv4Addr
candidates_at backend now state =
    let len = length state.sources in
    if len == 0
    then []
    else let start = advances_of backend state % len in
      let ordered = ordered_from state.sources start 0 len in
      let healthy = keep (λ ip. not (is_unhealthy state ip now)) ordered in
      if length healthy == 0 then ordered else healthy

-- The `matches!` of `report_connect_failure`.
abbrev pub is_source_fault : ErrorKind → Bool
is_source_fault addr_not_available = true
is_source_fault network_unreachable = true
is_source_fault host_unreachable = true
is_source_fault timed_out = true
is_source_fault permission_denied = true
is_source_fault _ = false

unfoldable pub mark_unhealthy_at : Ipv4Addr → ℕ → State → State
mark_unhealthy_at source now state = record state {
  unhealthy = insert source (now + unhealthy_for) state.unhealthy;
}

unfoldable pub report_connect_failure : Ipv4Addr → ErrorKind → ℕ → State → Bool × State
unfolding mark_unhealthy_at
report_connect_failure source kind now state =
    let fault = is_source_fault kind in
    (fault, if fault then mark_unhealthy_at source now state else state)

-- How the wait for a permit ended.
pub data Wait : Type 0 where
  permit closed elapsed : Wait

abbrev pub no_backend : BackendState
no_backend = record { advances = 0; started_in_cycle = 0; slots = [] }

abbrev pub or_default : Option BackendState → BackendState
or_default none = no_backend
or_default (some b) = b

-- `entry(backend).or_default()`.
abbrev pub backend_or_default : Text → State → BackendState
backend_or_default backend state = or_default (lookup backend state.backends)

abbrev pub set_backend : Text → BackendState → State → State
set_backend backend b state = record state { backends = insert backend b state.backends }

-- `entry(source).or_insert_with(…)`.
abbrev pub or_insert : ℕ → Ipv4Addr → BackendState → Option SlotState → BackendState
or_insert capacity source b (some slot) = b
or_insert capacity source b none =
    let slot : SlotState = record {
      available_permits = capacity;
      capacity = capacity;
      started_total = 0;
      slot_timeouts_total = 0;
    } in
    record b { slots = insert source slot b.slots }

-- The first critical section: the slot of the pair is made if it is not there.
unfoldable pub ensure_slot : Text → ℕ → Ipv4Addr → State → State
ensure_slot backend capacity source state =
    let b = backend_or_default backend state in
    set_backend backend (or_insert capacity source b (lookup source b.slots)) state

-- A change of the slot of a pair, where it is there.
abbrev pub update_found :
    Ipv4Addr → (SlotState → SlotState) → BackendState → Option SlotState → BackendState
update_found source f b none = b
update_found source f b (some slot) = record b { slots = insert source (f slot) b.slots }

abbrev pub update_slot : Ipv4Addr → (SlotState → SlotState) → BackendState → BackendState
update_slot source f b = update_found source f b (lookup source b.slots)

-- `backends.get_mut(backend).and_then(|b| b.slots.get_mut(&source))`, and the change of that slot.
abbrev pub update_backend :
    Text → Ipv4Addr → (SlotState → SlotState) → Option BackendState → State → State
update_backend backend source f none state = state
update_backend backend source f (some b) state = set_backend backend (update_slot source f b) state

-- The timeout branch.
unfoldable pub count_timeout : Text → Ipv4Addr → State → State
count_timeout backend source state =
    update_backend backend source
      (λ slot. record slot { slot_timeouts_total = saturating_add slot.slot_timeouts_total 1 })
      (lookup backend state.backends) state

-- One more transfer of the cycle; a full cycle moves the backend on to its next source.
abbrev pub count_in_cycle : ℕ → BackendState → BackendState
count_in_cycle capacity b =
    let started = (b.started_in_cycle + 1) % 2 ^ 64 in
    if leb capacity started
    then record b { started_in_cycle = 0; advances = (b.advances + 1) % 2 ^ 64 }
    else record b { started_in_cycle = started }

-- The permit that was granted, and the last critical section.
unfoldable pub count_started : Text → ℕ → Ipv4Addr → State → State
count_started backend capacity source state =
    let b = backend_or_default backend state in
    let claimed =
      update_slot source
        (λ slot. record slot {
          available_permits = slot.available_permits - 1;
          started_total = saturating_add slot.started_total 1;
        })
        b in
    set_backend backend (count_in_cycle capacity claimed) state

-- Whether a slot was claimed, and the state.
unfoldable pub acquire_data_slot : Text → ℕ → Ipv4Addr → Wait → State → Bool × State
unfolding ensure_slot count_timeout count_started
acquire_data_slot backend wanted source wait state =
    let capacity = max wanted 1 in
    let ready = ensure_slot backend capacity source state in
    elim wait [
      | permit ↦ (true, count_started backend capacity source ready)
      | closed ↦ (false, ready)
      | elapsed ↦ (false, count_timeout backend source ready)
    ]

-- The drop of a `DataSlot`.
unfoldable pub drop_data_slot : Text → Ipv4Addr → State → State
drop_data_slot backend source state =
    update_backend backend source
      (λ slot. record slot { available_permits = slot.available_permits + 1 })
      (lookup backend state.backends) state
