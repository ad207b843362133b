-- ===== src/Backend/Selector.antt =====
-- src/backend/selector.rs: the round robin over the backends. The cursor is a `usize` that wraps.
pub mod Fairness
mod Tests
use iot_ftp_upload_gateway.Base.{
  ℕ, ◌+◌, ◌%◌, ◌^◌, List, Option, none, some, ◌==◌, if◌then◌else◌, length, get_elem?,
}

pub record BackendSelector (A : Type 0) : Type 0 where
  pub backends : List A
  pub next_index : ℕ

-- `BackendSelector::new`, which refuses an empty list.
unfoldable pub new : {A : Type 0} → List A → Option (BackendSelector A)
new backends =
    if length backends == 0 then none else some (record { backends = backends; next_index = 0 })

-- `next`: the backend, none where the index is out of range, and the cursor moved.
unfoldable pub next : {A : Type 0} → BackendSelector A → Option A × BackendSelector A
next s = (
  get_elem? s.backends (s.next_index % length s.backends),
  record s { next_index = (s.next_index + 1) % 2 ^ 64 },
)
