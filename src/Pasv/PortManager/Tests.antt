-- ===== src/Pasv/PortManager/Tests.antt =====
-- Sample allocations, and the theorems about the pool at concrete inputs.
use iot_ftp_upload_gateway.Base.{
  ℕ, ◌-◌, ◌^◌, ◌≡◌, ◌≢◌, refl, Bool, true, [], ◌∷◌, none, some, arith, remove,
}
use iot_ftp_upload_gateway.Pasv.PortManager.{
  PortRange, PortManager, new, candidate, reserve, release, allocate, IsValid,
}
use iot_ftp_upload_gateway.Pasv.PortManager.Search.{Outcome, allocate-Outcome}
use iot_ftp_upload_gateway.Pasv.PortManager.Complete.{allocate-ne-none, allocate_wrap_misses}
use iot_ftp_upload_gateway.Pasv.PortManager.Steps.{System}

abbrev always : ℕ → ℕ → Bool
always round port = true

abbrev three : PortRange
three = record { start = 19600; end = 19602 }

abbrev first : PortManager
first = (allocate always (new three)).1

-- The cursor moves on although the first port is free again.
rotates : (allocate always (release 19600 (allocate always first).1)).0 ≡ some 19602
unfolding allocate new remove
rotates = refl

abbrev full : PortManager
full = record {
  in_use = 19600 ∷ [];
  range = record { start = 19600; end = 19600 };
  next_offset = 1;
}

exhausted : (allocate always full).0 ≡ none
unfolding allocate
exhausted = refl

abbrev busy : PortManager
busy = record { in_use = 19600 ∷ []; range = three; next_offset = 7 }

busy-IsValid : IsValid busy
busy-IsValid = omega arith

busy_outcome : Outcome busy (allocate always busy)
busy_outcome = allocate-Outcome always busy busy-IsValid

allocate-ne-none_example : (allocate always busy).0 ≢ none
allocate-ne-none_example =
    allocate-ne-none always busy 19602 busy-IsValid (omega arith) (omega arith) (omega arith) refl
      (λ round. refl)

abbrev wrapping : PortManager
wrapping = record { in_use = 19600 ∷ 19601 ∷ []; range = three; next_offset = 2 ^ 32 - 1 }

-- Port 19602 is free, and is passed over.
allocate_wrap_misses_example : (allocate always wrapping).0 ≡ none
allocate_wrap_misses_example =
    allocate_wrap_misses always wrapping (omega arith) (omega arith) (omega arith)
      (λ port l h. ground arith)

abbrev lone : System
lone = record {
  pool = (reserve 19600 (candidate (new three)).1).1;
  pending = [];
  guards = 19600 ∷ [];
}
