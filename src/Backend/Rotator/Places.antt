-- ===== src/Backend/Rotator/Places.antt =====
-- What the operations of a rotator do to the slot of any pair of a backend and a source address.
use Prim.Native.Nat.{max}
use mathlib.Core.Option
use iot_ftp_upload_gateway.Base.{
  ℕ, ◌≡◌, refl, sym, ap, ◌∙◌, Bool, true, false, ◌&&◌, List, [], Option, none, some, arith, ◌==◌,
  if◌then◌else◌, Text, text_eq, text_eq_iff, lookup, lookup-insert, number_key, text_key,
}
use iot_ftp_upload_gateway.Net.{Ipv4Addr}
use iot_ftp_upload_gateway.Metrics.{saturating_add}
use iot_ftp_upload_gateway.Backend.Rotator.{
  State, BackendState, SlotState, Wait, permit, closed, elapsed, or_default, backend_or_default,
  set_backend, or_insert, ensure_slot, update_found, update_slot, update_backend, count_started,
  count_timeout, acquire_data_slot, drop_data_slot,
}
use iot_ftp_upload_gateway.Backend.Rotator.Slots.{slot_of, claimed, returned, count_in_cycle-slots}

-- A change of one entry of a table, as another entry sees it.
abbrev pub changed :
    (Option SlotState → Option SlotState) → Bool → Option SlotState → Option SlotState
changed g same o = if same then g o else o

abbrev fresh : ℕ → SlotState
fresh capacity = record {
  available_permits = capacity;
  capacity = capacity;
  started_total = 0;
  slot_timeouts_total = 0;
}

abbrev pub or_full : ℕ → Option SlotState → Option SlotState
or_full capacity none = some (fresh capacity)
or_full capacity (some slot) = some slot

no_slots : (s : Ipv4Addr) → lookup {V = SlotState} s [] ≡ none
unfolding lookup
no_slots s = refl

changed-changed :
    (f g : Option SlotState → Option SlotState) (c : Bool) (o : Option SlotState)
    → changed g c (changed f c o) ≡ changed (λ r. g (f r)) c o
changed-changed f g true o = refl
changed-changed f g false o = refl

abbrev timed_out : SlotState → SlotState
timed_out slot = record slot { slot_timeouts_total = saturating_add slot.slot_timeouts_total 1 }

-- What a claim leaves of the slot of the pair.
abbrev pub after_wait : ℕ → Wait → Option SlotState → Option SlotState
after_wait capacity permit o = Option.map claimed (or_full capacity o)
after_wait capacity closed o = or_full capacity o
after_wait capacity elapsed o = Option.map timed_out (or_full capacity o)

module _ (source s : Ipv4Addr) where
  update_slot-changed :
      (f : SlotState → SlotState) (b : BackendState)
      → lookup s (update_slot source f b).slots
        ≡ changed (Option.map f) (source == s) (lookup s b.slots)
  update_slot-changed f b = of_found (lookup source b.slots) refl
    where
      of_found :
          (r : Option SlotState)
          → lookup source b.slots ≡ r
          → lookup s (update_found source f b r).slots
            ≡ changed (Option.map f) (source == s) (lookup s b.slots)
      of_found none e = ground (arith, e)
      of_found (some slot) e = ground (arith, e, lookup-insert source s (f slot) b.slots)

  or_insert-changed :
      (capacity : ℕ) (b : BackendState)
      → lookup s (or_insert capacity source b (lookup source b.slots)).slots
        ≡ changed (or_full capacity) (source == s) (lookup s b.slots)
  or_insert-changed capacity b = of_found (lookup source b.slots) refl
    where
      of_found :
          (r : Option SlotState)
          → lookup source b.slots ≡ r
          → lookup s (or_insert capacity source b r).slots
            ≡ changed (or_full capacity) (source == s) (lookup s b.slots)
      of_found none e = ground (arith, e, lookup-insert source s (fresh capacity) b.slots)
      of_found (some slot) e = ground (arith, e)

module _ (backend : Text) (source : Ipv4Addr) (b : Text) (s : Ipv4Addr) where
  -- Whether it is the pair that is changed.
  abbrev pub is_pair : Bool
  is_pair = text_eq backend b && (source == s)

  set_backend-changed :
      (g : Option SlotState → Option SlotState) (after : BackendState) (state : State)
      → lookup s after.slots
        ≡ changed g (source == s) (lookup s (backend_or_default backend state).slots)
      → slot_of b s (set_backend backend after state) ≡ changed g is_pair (slot_of b s state)
  set_backend-changed g after state h =
      ap (λ (r : Option BackendState). lookup s (or_default r).slots)
        (lookup-insert backend b after state.backends)
      ∙ of_test (text_eq backend b) refl
    where
      of_test :
          (c : Bool)
          → text_eq backend b ≡ c
          → lookup s (or_default (if c then some after else lookup b state.backends)).slots
            ≡ changed g (c && (source == s)) (slot_of b s state)
      of_test true e =
          h
          ∙ ap (λ (x : Text). changed g (source == s) (slot_of x s state))
              ((text_eq_iff backend b).0 e)
      of_test false e = refl

  update_backend-changed :
      (f : SlotState → SlotState) (state : State)
      → slot_of b s (update_backend backend source f (lookup backend state.backends) state)
        ≡ changed (Option.map f) is_pair (slot_of b s state)
  update_backend-changed f state = of_found (lookup backend state.backends) refl
    where
      nowhere :
          (c : Bool)
          → text_eq backend b ≡ c
          → lookup backend state.backends ≡ none
          → slot_of b s state ≡ changed (Option.map f) (c && (source == s)) (slot_of b s state)
      nowhere true e h = ground (
        arith,
        ap (λ (x : Text). slot_of x s state) (sym ((text_eq_iff backend b).0 e))
            ∙ ap (λ (r : Option BackendState). lookup s (or_default r).slots) h
            ∙ no_slots s,
      )
      nowhere false e h = refl

      of_found :
          (r : Option BackendState)
          → lookup backend state.backends ≡ r
          → slot_of b s (update_backend backend source f r state)
            ≡ changed (Option.map f) is_pair (slot_of b s state)
      of_found none e = nowhere (text_eq backend b) refl e
      of_found (some found) e =
          set_backend-changed (Option.map f) (update_slot source f found) state (
            update_slot-changed source s f found
            ∙ ap
                (λ (r : Option BackendState).
                  changed (Option.map f) (source == s) (lookup s (or_default r).slots))
                (sym e))

  ensure_slot-changed :
      (capacity : ℕ) (state : State)
      → slot_of b s (ensure_slot backend capacity source state)
        ≡ changed (or_full capacity) is_pair (slot_of b s state)
  unfolding ensure_slot
  ensure_slot-changed capacity state =
      set_backend-changed (or_full capacity) _ state
        (or_insert-changed source s capacity (backend_or_default backend state))

  count_started-changed :
      (capacity : ℕ) (state : State)
      → slot_of b s (count_started backend capacity source state)
        ≡ changed (Option.map claimed) is_pair (slot_of b s state)
  unfolding count_started
  count_started-changed capacity state = set_backend-changed (Option.map claimed) _ state (
      ap (λ (slots : List (Ipv4Addr × SlotState)). lookup s slots) (count_in_cycle-slots capacity _)
      ∙ update_slot-changed source s claimed (backend_or_default backend state))

  pub drop_data_slot-changed :
      (state : State)
      → slot_of b s (drop_data_slot backend source state)
        ≡ changed (Option.map returned) is_pair (slot_of b s state)
  unfolding drop_data_slot
  drop_data_slot-changed state = update_backend-changed returned state

  pub acquire_data_slot-changed :
      (wanted : ℕ) (wait : Wait) (state : State)
      → slot_of b s (acquire_data_slot backend wanted source wait state).1
        ≡ changed (after_wait (max wanted 1) wait) is_pair (slot_of b s state)
  unfolding acquire_data_slot count_timeout
  acquire_data_slot-changed wanted closed state = ensure_slot-changed (max wanted 1) state
  acquire_data_slot-changed wanted permit state =
      count_started-changed (max wanted 1) (ensure_slot backend (max wanted 1) source state)
      ∙ ap (changed (Option.map claimed) is_pair) (ensure_slot-changed (max wanted 1) state)
      ∙ changed-changed (or_full (max wanted 1)) (Option.map claimed) is_pair (slot_of b s state)
  acquire_data_slot-changed wanted elapsed state =
      update_backend-changed timed_out (ensure_slot backend (max wanted 1) source state)
      ∙ ap (changed (Option.map timed_out) is_pair) (ensure_slot-changed (max wanted 1) state)
      ∙ changed-changed (or_full (max wanted 1)) (Option.map timed_out) is_pair (slot_of b s state)
