-- ===== src/Server/Session/Accounts/CrowdTests.antt =====
-- Two sessions: one is done with its upload and gone, the other is about to start.
use iot_ftp_upload_gateway.Base.{◌≡◌, refl, arith}
use iot_ftp_upload_gateway.Server.Session.Effects.{pasv_failed}
use iot_ftp_upload_gateway.Server.Session.Accounts.Crowd.{
  Crowd, session_begins, session_ends, attempt_begins, attempt_succeeds, observes, Reach, here,
  next, Counts, Reach-Counts,
}

two : (d : Crowd) × Reach d × (d.sessions ≡ 1) × (d.metrics.uploads_completed_total ≡ 1)
two = (
  _,
  next
      (next
        (next (next (next (next here (session_begins _)) (attempt_begins _)) (session_begins _))
          (attempt_succeeds _ (omega arith)))
        (observes _ pasv_failed))
      (session_ends _ (omega arith)),
  refl,
  refl,
)

Reach-Counts_example : Counts two.0
Reach-Counts_example = Reach-Counts two.0 two.1
