-- ===== src/Pasv/Relay/Copy.antt =====
-- The relay of a transfer: `copy_with_idle_timeout` in each direction, and `try_join!` of the two.
use iot_ftp_upload_gateway.Base.{
  ℕ, zero, suc, ◌+◌, ◌%◌, ◌^◌, Bool, true, false, List, [], ◌∷◌, if◌then◌else◌,
}
use iot_ftp_upload_gateway.Io.{IoResult, ok, err, timed_out, is_unexpected_eof}
use iot_ftp_upload_gateway.Run.{CopyEvent, turn, silence}

-- The size of a read. A TLS peer that drops the connection ends the stream too.
abbrev pub read_size : IoResult ℕ → IoResult ℕ
read_size (ok n) = ok n
read_size (err kind) = if is_unexpected_eof kind then ok 0 else err kind

-- The end of a stream: the total, if the writer could be shut down.
abbrev pub finish : ℕ → IoResult (Unit {0}) → IoResult ℕ
finish total (ok _) = ok total
finish total (err kind) = err kind

-- One copy loop. Where no event is left, the timer fires.
unfoldable pub copy : ℕ → List CopyEvent → IoResult ℕ
copy total [] = err timed_out
copy total (silence ∷ events) = err timed_out
copy total (turn read after_read ∷ events) = elim (read_size read) [
  | err kind ↦ err kind
  | ok zero ↦ finish total after_read
  | ok (suc n) ↦ elim after_read [
    | err kind ↦ err kind
    | ok _ ↦ copy ((total + suc n) % 2 ^ 64) events
  ]
]

-- The first failure in time ends both; otherwise both run to their ends.
abbrev pub try_join : Bool → IoResult ℕ → IoResult ℕ → IoResult (ℕ × ℕ)
try_join first (ok a) (ok b) = ok (a, b)
try_join first (ok a) (err k) = err k
try_join first (err k) (ok b) = err k
try_join true (err k) (err j) = err k
try_join false (err k) (err j) = err j

unfoldable pub relay_bidirectional : Bool → List CopyEvent → List CopyEvent → IoResult (ℕ × ℕ)
unfolding copy
relay_bidirectional upload_first upload download =
    try_join upload_first (copy 0 upload) (copy 0 download)
