-- ===== src/Backend/Rotator/Tests.antt =====
-- Two source addresses and a backend with two data ports.
use Prim.Native.Nat.{max, ◌/◌}
use iot_ftp_upload_gateway.Base.{
  ◌%◌, ◌^◌, ◌≡◌, refl, not, [], ◌∷◌, Text, codes, arith, lookup, some,
}
use iot_ftp_upload_gateway.Backend.Rotator.{
  State, SlotState, permit, acquire_data_slot, drop_data_slot, advances_of, candidates_at,
  is_unhealthy,
}
use iot_ftp_upload_gateway.Backend.Rotator.Cycle.{grant_all, advances_of-grant_all}
use iot_ftp_upload_gateway.Metrics.{saturating_add}
use iot_ftp_upload_gateway.Backend.Rotator.Slots.{slot_of, drop_data_slot-acquire_data_slot}
use iot_ftp_upload_gateway.Backend.Rotator.Candidates.{preferred, rotate, candidates_at-rotate}

abbrev two : State
two = record { sources = 10 ∷ 11 ∷ []; unhealthy = (10, 500) ∷ []; backends = [] }

abbrev backend : Text
backend = codes "ftp:21"

advances_of-grant_all_example :
    advances_of backend (grant_all backend 2 (10 ∷ 11 ∷ 10 ∷ []) two) ≡ 3 / max 2 1 % 2 ^ 64
unfolding lookup
advances_of-grant_all_example =
    advances_of-grant_all backend 2 (10 ∷ 11 ∷ 10 ∷ []) two (omega arith) refl

candidates_at-rotate_example :
    candidates_at backend 100 two
    ≡ preferred
        (λ ip. not (is_unhealthy two ip 100))
        (rotate (advances_of backend two % 2) (10 ∷ 11 ∷ []))
candidates_at-rotate_example = candidates_at-rotate backend 100 two (omega arith)

abbrev slot : SlotState
slot = record { available_permits = 1; capacity = 2; started_total = 5; slot_timeouts_total = 0 }

abbrev busy : State
busy = record two {
  backends = (backend, record { advances = 0; started_in_cycle = 1; slots = (10, slot) ∷ [] }) ∷ [];
}

slot_comes_back :
    slot_of backend 10 (drop_data_slot backend 10 (acquire_data_slot backend 2 10 permit busy).1)
    ≡ some (record slot { started_total = saturating_add 5 1 })
unfolding lookup
slot_comes_back = drop_data_slot-acquire_data_slot backend 10 2 busy slot refl (omega arith)
