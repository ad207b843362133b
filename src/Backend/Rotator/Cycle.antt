-- ===== src/Backend/Rotator/Cycle.antt =====
-- When a backend's sessions move on to its next source address.
use Prim.Native.Nat.{max, ◌/◌, ◌*◌}
use native.Mathlib.Nat.{mul-add-div_right, div-eq_of_lt}
use iot_ftp_upload_gateway.Base.{
  ℕ, suc, ◌+◌, ◌%◌, ◌^◌, ◌<◌, ◌≡◌, refl, sym, ap, subst, ◌∙◌, Bool, List, [], ◌∷◌, Option, none,
  some, arith, leb, if◌then◌else◌, length, Text, lookup, insert, lookup-insert, beq_refl,
  number_key, text_key, Bool-cases, inl, inr,
}
use iot_ftp_upload_gateway.Net.{Ipv4Addr}
use iot_ftp_upload_gateway.Backend.Rotator.{
  State, BackendState, SlotState, permit, or_default, backend_or_default, set_backend, or_insert,
  ensure_slot, update_found, count_in_cycle, count_started, acquire_data_slot, advances_of,
}

pub lookup-insert_self :
    (backend : Text) (b : BackendState) (backends : List (Text × BackendState))
    → lookup backend (insert backend b backends) ≡ some b
lookup-insert_self backend b backends =
    lookup-insert backend backend b backends
    ∙ ap (λ (c : Bool). if c then some b else lookup backend backends) (beq_refl backend)

pub backend_or_default-set_backend :
    (backend : Text) (b : BackendState) (state : State)
    → backend_or_default backend (set_backend backend b state) ≡ b
backend_or_default-set_backend backend b state =
    ap or_default (lookup-insert_self backend b state.backends)

-- The transfers of a backend that a state has seen, as far as it counts them.
record Cycle (capacity n : ℕ) (b : BackendState) : Type 0 where
  turns : ℕ
  total : turns * capacity + b.started_in_cycle ≡ n
  within : b.started_in_cycle < capacity
  advances_eq : b.advances ≡ turns % 2 ^ 64

next_turn :
    (turns capacity started n : ℕ)
    → turns * capacity + started ≡ n
    → suc started ≡ capacity
    → suc turns * capacity + 0 ≡ suc n
next_turn turns capacity started n h e = ground (arith, h, e)

count_in_cycle-Cycle :
    (capacity n : ℕ) (b : BackendState)
    → capacity < 2 ^ 64
    → Cycle capacity n b
    → Cycle capacity (suc n) (count_in_cycle capacity b)
count_in_cycle-Cycle capacity n b small h =
    elim (Bool-cases (leb capacity ((b.started_in_cycle + 1) % 2 ^ 64))) [
      | inl full ↦ rw (full) (record {
        turns = suc h.turns;
        total = next_turn h.turns capacity b.started_in_cycle n h.total (ground (arith, h.within));
        within = omega (arith, h.within);
        advances_eq = ground (arith, h.advances_eq);
      })
      | inr open_cycle ↦ rw (open_cycle) (record {
        turns = h.turns;
        total = ground (arith, h.total, h.within);
        within = ground (arith, h.within);
        advances_eq = h.advances_eq;
      })
    ]

or_insert-Cycle :
    (capacity n size : ℕ) (source : Ipv4Addr) (b : BackendState) (slot : Option SlotState)
    → Cycle capacity n b
    → Cycle capacity n (or_insert size source b slot)
or_insert-Cycle capacity n size source b (some slot) h = h
or_insert-Cycle capacity n size source b none h = record {
  turns = h.turns;
  total = h.total;
  within = h.within;
  advances_eq = h.advances_eq;
}

update_found-Cycle :
    (capacity n : ℕ) (source : Ipv4Addr) (f : SlotState → SlotState) (b : BackendState)
    (slot : Option SlotState)
    → Cycle capacity n b
    → Cycle capacity n (update_found source f b slot)
update_found-Cycle capacity n source f b none h = h
update_found-Cycle capacity n source f b (some slot) h = record {
  turns = h.turns;
  total = h.total;
  within = h.within;
  advances_eq = h.advances_eq;
}

-- Transfers of one backend, each granted a slot on the next address of a list.
pub grant_all : Text → ℕ → List Ipv4Addr → State → State
grant_all backend wanted [] state = state
grant_all backend wanted (source ∷ rest) state =
    grant_all backend wanted rest (acquire_data_slot backend wanted source permit state).1

module _ (backend : Text) (wanted : ℕ) (small : wanted < 2 ^ 64) where
  grant-Cycle :
      (n : ℕ) (source : Ipv4Addr) (state : State)
      → Cycle (max wanted 1) n (backend_or_default backend state)
      → Cycle
          (max wanted 1)
          (suc n)
          (backend_or_default backend (acquire_data_slot backend wanted source permit state).1)
  unfolding acquire_data_slot count_started ensure_slot
  grant-Cycle n source state h = rw (backend_or_default-set_backend) (
      count_in_cycle-Cycle (max wanted 1) n _ (omega (arith, small)) (
        update_found-Cycle (max wanted 1) n source _ _ _ (
          subst (Cycle (max wanted 1) n) (sym (backend_or_default-set_backend backend _ state))
            (or_insert-Cycle (max wanted 1) n (max wanted 1) source _ _ h))))

  grant_all-Cycle :
      (n : ℕ) (sources : List Ipv4Addr) (state : State)
      → Cycle (max wanted 1) n (backend_or_default backend state)
      → Cycle
          (max wanted 1)
          (n + length sources)
          (backend_or_default backend (grant_all backend wanted sources state))
  unfolding grant_all
  grant_all-Cycle n [] state h =
      subst (λ k. Cycle (max wanted 1) k (backend_or_default backend state)) (omega arith) h
  grant_all-Cycle n (source ∷ rest) state h =
      subst
        (λ k.
          Cycle (max wanted 1) k
            (backend_or_default backend (grant_all backend wanted (source ∷ rest) state)))
        (omega arith)
        (grant_all-Cycle (suc n) rest (acquire_data_slot backend wanted source permit state).1
          (grant-Cycle n source state h))

advances_of_lem :
    (backend : Text) (state : State)
    → advances_of backend state ≡ (backend_or_default backend state).advances
unfolding advances_of
advances_of_lem backend state = of_found (lookup backend state.backends)
  where
    of_found :
        (r : Option BackendState)
        → (elim r [ none ↦ 0 | some b ↦ b.advances ]) ≡ (or_default r).advances
    of_found none = refl
    of_found (some b) = refl

turns_of :
    (capacity n turns started : ℕ)
    → turns * capacity + started ≡ n
    → started < capacity
    → turns ≡ n / capacity
turns_of capacity n turns started h k = sym (
    ap (λ (m : ℕ). m / capacity) (sym h)
    ∙ mul-add-div_right (omega (arith, k)) turns started
    ∙ ap (λ (m : ℕ). turns + m) (div-eq_of_lt k)
    ∙ omega arith)

-- After any sequence of granted transfers to a backend that had none, its sessions have moved on
-- to the next source address once for each full capacity of them, whatever the sources were.
pub advances_of-grant_all :
    (backend : Text) (wanted : ℕ) (sources : List Ipv4Addr) (state : State)
    → wanted < 2 ^ 64
    → lookup backend state.backends ≡ none
    → advances_of backend (grant_all backend wanted sources state)
      ≡ length sources / max wanted 1 % 2 ^ 64
advances_of-grant_all backend wanted sources state small fresh =
    let h = grant_all-Cycle backend wanted small 0 sources state (
      subst (Cycle (max wanted 1) 0) (sym (ap or_default fresh))
        (record { turns = 0; total = omega arith; within = omega arith; advances_eq = refl })) in
    advances_of_lem backend _
    ∙ h.advances_eq
    ∙ ap (λ (k : ℕ). k % 2 ^ 64)
        (turns_of (max wanted 1) _ h.turns _ h.total h.within
          ∙ ap (λ (k : ℕ). k / max wanted 1) (omega arith))
