-- ===== src/Server/IpLimiter/Tests.antt =====
-- The limiter at concrete addresses.
use iot_ftp_upload_gateway.Base.{◌≡◌, refl, true, [], ◌∷◌, none, some, arith, lookup, insert, erase}
use iot_ftp_upload_gateway.Net.{IpAddr, v4}
use iot_ftp_upload_gateway.Server.IpLimiter.{
  IpConnectionLimiter, IpConnectionGuard, new, try_acquire, drop_guard,
}
use iot_ftp_upload_gateway.Server.IpLimiter.Counting.{Inv, Acquired, try_acquire-Acquired}
use iot_ftp_upload_gateway.Server.IpLimiter.History.{
  connects, Reach, here, next, start, Reach-counts,
}

abbrev peer : IpAddr
peer = v4 0x7f000001

abbrev once : IpConnectionLimiter
once = (try_acquire peer (new 1)).1

abbrev guard : IpConnectionGuard
guard = record { counted = true; ip = peer }

refuses_second : (try_acquire peer once).0 ≡ none
unfolding try_acquire new lookup insert
refuses_second = refl

frees_a_slot : (drop_guard guard once).counts ≡ []
unfolding drop_guard try_acquire new lookup insert erase
frees_a_slot = refl

other_address :
    (try_acquire (v4 0x7f000002) once).0 ≡ some (record { counted = true; ip = v4 0x7f000002 })
unfolding try_acquire new lookup insert
other_address = refl

one_connection : Reach (start 1) (record { limiter = once; guards = guard ∷ [] })
unfolding try_acquire new lookup insert
one_connection = next here (connects peer refl)

once-Inv : Inv once (guard ∷ [])
once-Inv =
    Reach-counts 1 (record { limiter = once; guards = guard ∷ [] }) (omega arith) one_connection

second_is_granted : Acquired peer once (guard ∷ []) (try_acquire peer once)
second_is_granted = try_acquire-Acquired peer once (guard ∷ []) once-Inv
