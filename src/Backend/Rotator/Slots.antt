-- ===== src/Backend/Rotator/Slots.antt =====
-- The permits of a transfer slot over the life of a transfer.
use Prim.Native.Nat.{max}
use iot_ftp_upload_gateway.Base.{
  ℕ, ◌+◌, ◌-◌, ◌%◌, ◌^◌, ◌<◌, ◌≡◌, refl, sym, ap, ◌∙◌, Bool, List, Option, none, some, arith, leb,
  if◌then◌else◌, Text, lookup, insert, lookup-insert, beq_refl, number_key, text_key, Bool-cases,
  inl, inr,
}
use iot_ftp_upload_gateway.Net.{Ipv4Addr}
use iot_ftp_upload_gateway.Metrics.{saturating_add}
use iot_ftp_upload_gateway.Backend.Rotator.{
  State, BackendState, SlotState, permit, or_default, backend_or_default, set_backend, or_insert,
  ensure_slot, update_found, update_slot, update_backend, count_in_cycle, count_started,
  acquire_data_slot, drop_data_slot,
}
use iot_ftp_upload_gateway.Backend.Rotator.Cycle.{backend_or_default-set_backend}

-- The slot of a pair of a backend and a source address.
abbrev pub slot_of : Text → Ipv4Addr → State → Option SlotState
slot_of backend source state = lookup source (backend_or_default backend state).slots

module _ (source : Ipv4Addr) where
  lookup-insert_slot :
      (slot : SlotState) (slots : List (Ipv4Addr × SlotState))
      → lookup source (insert source slot slots) ≡ some slot
  lookup-insert_slot slot slots =
      lookup-insert source source slot slots
      ∙ ap (λ (c : Bool). if c then some slot else lookup source slots) (beq_refl source)

  update_found-slot :
      (f : SlotState → SlotState) (b : BackendState) (slot : SlotState)
      → lookup source b.slots ≡ some slot
      → lookup source (update_slot source f b).slots ≡ some (f slot)
  update_found-slot f b slot h =
      ap (λ (r : Option SlotState). lookup source (update_found source f b r).slots) h
      ∙ lookup-insert_slot (f slot) b.slots

  or_insert-slot :
      (capacity : ℕ) (b : BackendState) (slot : SlotState)
      → lookup source b.slots ≡ some slot
      → lookup source (or_insert capacity source b (lookup source b.slots)).slots ≡ some slot
  or_insert-slot capacity b slot h =
      ap (λ (r : Option SlotState). lookup source (or_insert capacity source b r).slots) h ∙ h

pub count_in_cycle-slots :
    (capacity : ℕ) (b : BackendState) → (count_in_cycle capacity b).slots ≡ b.slots
count_in_cycle-slots capacity b =
    elim (Bool-cases (leb capacity ((b.started_in_cycle + 1) % 2 ^ 64))) [
      | inl full ↦ rw (full) refl
      | inr open_cycle ↦ rw (open_cycle) refl
    ]

-- What a claim does to the slot, and what the end of the transfer does.
abbrev pub claimed : SlotState → SlotState
claimed slot = record slot {
  available_permits = slot.available_permits - 1;
  started_total = saturating_add slot.started_total 1;
}

abbrev pub returned : SlotState → SlotState
returned slot = record slot { available_permits = slot.available_permits + 1 }

no_slot :
    {A : Type 0} (source : Ipv4Addr) (slot : SlotState)
    → lookup source (or_default none).slots ≡ some slot
    → A
unfolding lookup
no_slot source slot h = cc

module _ (backend : Text) (source : Ipv4Addr) where
  acquire_data_slot-slot :
      (wanted : ℕ) (state : State) (slot : SlotState)
      → slot_of backend source state ≡ some slot
      → slot_of backend source (acquire_data_slot backend wanted source permit state).1
        ≡ some (claimed slot)
  unfolding acquire_data_slot count_started ensure_slot
  acquire_data_slot-slot wanted state slot h =
      let b = backend_or_default backend state in
      let made = or_insert (max wanted 1) source b (lookup source b.slots) in
      let ready = set_backend backend made state in
      ap (λ (c : BackendState). lookup source c.slots)
        (backend_or_default-set_backend backend _ ready)
      ∙ ap (λ (slots : List (Ipv4Addr × SlotState)). lookup source slots)
          (count_in_cycle-slots (max wanted 1) _)
      ∙ update_found-slot source claimed (backend_or_default backend ready) slot (
          ap (λ (c : BackendState). lookup source c.slots)
            (backend_or_default-set_backend backend made state)
          ∙ or_insert-slot source (max wanted 1) b slot h)

  drop_data_slot-slot :
      (state : State) (slot : SlotState)
      → slot_of backend source state ≡ some slot
      → slot_of backend source (drop_data_slot backend source state) ≡ some (returned slot)
  unfolding drop_data_slot
  drop_data_slot-slot state slot h = on_found (lookup backend state.backends) refl
    where
      on_found :
          (r : Option BackendState)
          → lookup backend state.backends ≡ r
          → slot_of backend source (update_backend backend source returned r state)
            ≡ some (returned slot)
      on_found none e =
          no_slot source slot
            (ap (λ (c : Option BackendState). lookup source (or_default c).slots) (sym e) ∙ h)
      on_found (some b) e =
          ap (λ (c : BackendState). lookup source c.slots)
            (backend_or_default-set_backend backend _ state)
          ∙ update_found-slot source returned b slot
              (ap (λ (c : Option BackendState). lookup source (or_default c).slots) (sym e) ∙ h)

-- A transfer that was granted a slot and then ends leaves the slot's permits as they were, whatever
-- the capacity that was asked for; the transfer stays counted.
pub drop_data_slot-acquire_data_slot :
    (backend : Text) (source : Ipv4Addr) (wanted : ℕ) (state : State) (slot : SlotState)
    → slot_of backend source state ≡ some slot
    → 0 < slot.available_permits
    → slot_of backend source
        (drop_data_slot backend source (acquire_data_slot backend wanted source permit state).1)
      ≡ some (record slot { started_total = saturating_add slot.started_total 1 })
drop_data_slot-acquire_data_slot backend source wanted state slot h free =
    drop_data_slot-slot backend source (acquire_data_slot backend wanted source permit state).1
      (claimed slot) (acquire_data_slot-slot backend source wanted state slot h)
    ∙ ap
        (λ (n : ℕ). some (record slot {
          available_permits = n;
          started_total = saturating_add slot.started_total 1;
        }))
        (omega (arith, free))
