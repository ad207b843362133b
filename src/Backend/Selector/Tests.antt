-- ===== src/Backend/Selector/Tests.antt =====
-- Three backends.
use iot_ftp_upload_gateway.Base.{ℕ, ◌+◌, ◌%◌, ◌≡◌, [], ◌∷◌, some, arith, get_elem?}
use iot_ftp_upload_gateway.Backend.Selector.{BackendSelector, next}
use iot_ftp_upload_gateway.Backend.Selector.Fairness.{after_picks, next-after_picks}

abbrev three : BackendSelector ℕ
three = record { backends = 7 ∷ 8 ∷ 9 ∷ []; next_index = 2 }

third_pick :
    (a : ℕ) × ((next (after_picks 2 three)).0 ≡ some a)
    × (get_elem? three.backends ((2 + 2) % 3) ≡ some a)
third_pick = next-after_picks 2 three (omega arith) (omega arith)
