-- ===== src/Pasv/Relay/Transfer.antt =====
-- What a copy of bytes comes to, by how its stream ends.
use iot_ftp_upload_gateway.Base.{
  ℕ, suc, ◌+◌, ◌<◌, ◌≡◌, Bool, true, false, List, [], ◌∷◌, if◌then◌else◌, ◌↔◌,
}
use iot_ftp_upload_gateway.Io.{
  ErrorKind, IoResult, ok, err, timed_out, unexpected_eof, is_unexpected_eof,
}
use iot_ftp_upload_gateway.Run.{CopyEvent, turn, silence}
use iot_ftp_upload_gateway.Pasv.Relay.Copy.{copy, try_join, relay_bidirectional}

-- Reads of so many bytes that were all written.
abbrev pub moved : List ℕ → List CopyEvent → List CopyEvent
moved [] end = end
moved (n ∷ reads) end = turn (ok n) (ok tt) ∷ moved reads end

abbrev pub sum : List ℕ → ℕ
sum [] = 0
sum (n ∷ reads) = n + sum reads

abbrev pub IsRead : ℕ → Type 0
IsRead n = 0 < n

-- The ways a stream can end, and what the copy then gives for a total.
pub data Ending : Type 0 where
  closed cut_off silent : Ending
  read_failed : (kind : ErrorKind) → Ending
  write_failed : (n : ℕ) (kind : ErrorKind) → Ending
  shutdown_failed : (kind : ErrorKind) → Ending

abbrev pub last_event : Ending → CopyEvent
last_event closed = turn (ok 0) (ok tt)
last_event cut_off = turn (err unexpected_eof) (ok tt)
last_event silent = silence
last_event (read_failed kind) = turn (err kind) (ok tt)
last_event (write_failed n kind) = turn (ok (suc n)) (err kind)
last_event (shutdown_failed kind) = turn (ok 0) (err kind)

abbrev pub result : Ending → ℕ → IoResult ℕ
result closed total = ok total
result cut_off total = ok total
result silent total = err timed_out
result (read_failed kind) total = if is_unexpected_eof kind then ok total else err kind
result (write_failed n kind) total = err kind
result (shutdown_failed kind) total = err kind

join_ok :
    (first : Bool) (x y : IoResult ℕ) (a b : ℕ)
    → (try_join first x y ≡ ok (a, b)) ↔ ((x ≡ ok a) × (y ≡ ok b))
join_ok first (ok x) (ok y) a b = (λ e. (cc, cc), λ e. cc (e.0, e.1))
join_ok first (ok x) (err k) a b = (λ e. (cc, cc), λ e. cc (e.1))
join_ok first (err k) (ok y) a b = (λ e. (cc, cc), λ e. cc (e.0))
join_ok true (err k) (err j) a b = (λ e. (cc, cc), λ e. cc (e.0))
join_ok false (err k) (err j) a b = (λ e. (cc, cc), λ e. cc (e.0))

-- A relay succeeds exactly when both of its copies do, with the bytes of each.
pub relay_bidirectional_iff :
    (first : Bool) (upload download : List CopyEvent) (a b : ℕ)
    → (relay_bidirectional first upload download ≡ ok (a, b))
      ↔ ((copy 0 upload ≡ ok a) × (copy 0 download ≡ ok b))
unfolding relay_bidirectional
relay_bidirectional_iff first upload download a b =
    join_ok first (copy 0 upload) (copy 0 download) a b
