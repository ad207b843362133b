-- ===== src/Server/Session/Accounts/Totals.antt =====
-- The counters of the metrics over a session: none of them ever falls.
use iot_ftp_upload_gateway.Base.{ℕ, ◌≤◌, Bool, true, false, List, [], ◌∷◌, arith, u64_max, All}
use iot_ftp_upload_gateway.Metrics.{
  Metrics, session_started, drop_upload_attempt, upload_attempted, succeeded,
}
use iot_ftp_upload_gateway.Run.{Env, World}
use iot_ftp_upload_gateway.Run.Moves.{Order, Moves}
use iot_ftp_upload_gateway.Server.Session.Config.{SessionConfig}
use iot_ftp_upload_gateway.Server.Session.Channel.{expected_ip}
use iot_ftp_upload_gateway.Server.Session.Loop.{handle, begin_session, serve}
use iot_ftp_upload_gateway.Server.Session.Effects.{
  Closed, OwnCommand, Observation, io_failed, pasv_failed, data_failed, peer_rejected,
  idle_timed_out, bytes_added,
}
use iot_ftp_upload_gateway.Server.Session.Effects.Channel.{IsWelcome}
use iot_ftp_upload_gateway.Server.Session.Effects.Upload.{Attempts, upload-moves}
use iot_ftp_upload_gateway.Server.Session.Effects.Loop.{IsClientLine}
use iot_ftp_upload_gateway.Server.Session.Effects.Whole.{serve-moves}

abbrev pub totals : Metrics → List ℕ
totals m =
    m.sessions_total ∷ m.upload_bytes_total ∷ m.connections_rejected_total ∷ m.uploads_started_total
    ∷ m.uploads_completed_total ∷ m.uploads_failed_total ∷ m.backend_pasv_failures_total
    ∷ m.backend_data_connection_failures_total ∷ m.data_connections_rejected_total
    ∷ m.backend_timeouts_total ∷ m.session_idle_timeouts_total ∷ []

abbrev pub Fits : List ℕ → Type 0
Fits = All (λ counter. counter ≤ u64_max)

abbrev pub NoneFalls : List ℕ → List ℕ → Type 0
NoneFalls [] ys = Unit
NoneFalls (x ∷ xs) [] = ⊥
NoneFalls (x ∷ xs) (y ∷ ys) = (x ≤ y) × NoneFalls xs ys

-- No counter falls, and each stays a 64-bit number.
abbrev pub Grows : Metrics → Metrics → Type 0
Grows u v = Fits (totals u) → Fits (totals v) × NoneFalls (totals u) (totals v)

NoneFalls-same : (xs : List ℕ) → NoneFalls xs xs
NoneFalls-same [] = tt
NoneFalls-same (x ∷ xs) = (omega arith, NoneFalls-same xs)

NoneFalls-both : (xs ys zs : List ℕ) → NoneFalls xs ys → NoneFalls ys zs → NoneFalls xs zs
NoneFalls-both [] ys zs h k = tt
NoneFalls-both (x ∷ xs) [] zs h k = absurd h
NoneFalls-both (x ∷ xs) (y ∷ ys) [] h k = absurd k
NoneFalls-both (x ∷ xs) (y ∷ ys) (z ∷ zs) h k =
    (omega (arith, h.0, k.0), NoneFalls-both xs ys zs h.1 k.1)

same : (m : Metrics) → Grows m m
same m fits = (fits, NoneFalls-same (totals m))

both : (u v w : Metrics) → Grows u v → Grows v w → Grows u w
both u v w h k fits =
    let (fits_then, up) = h fits in
    let (fits_last, more) = k fits_then in
    (fits_last, NoneFalls-both (totals u) (totals v) (totals w) up more)

Observation-Grows : {f : Metrics → Metrics} → Observation f → (m : Metrics) → Grows m (f m)
Observation-Grows (io_failed kind) m fits = ground arith
Observation-Grows pasv_failed m fits = ground arith
Observation-Grows data_failed m fits = ground arith
Observation-Grows peer_rejected m fits = ground arith
Observation-Grows idle_timed_out m fits = ground arith
Observation-Grows (bytes_added n) m fits = ground arith

abbrev Rises : World → World → Type 0
Rises u v = Grows u.metrics v.metrics

order : Order Rises
order = record {
  same = λ w. same w.metrics;
  both = λ {u} {v} {w} h k. both u.metrics v.metrics w.metrics h k;
}

closed : (cfg : SessionConfig) → Closed OwnCommand IsClientLine (IsWelcome (expected_ip cfg)) Rises
closed cfg = record {
  order = order;
  ticked = λ w. same w.metrics;
  told = λ text w. same w.metrics;
  sent = λ own w. same w.metrics;
  forwarded = λ line w. same w.metrics;
  met = λ welcome w. same w.metrics;
  reached = λ addr w. same w.metrics;
  observed = λ o w. Observation-Grows o w.metrics;
  blamed = λ source kind now w. same w.metrics;
  made_secure = λ w. same w.metrics;
}

succeeded-Grows : (m : Metrics) → Grows m (succeeded m)
succeeded-Grows m fits = ground arith

upload_attempted-Grows : (m : Metrics) → Grows m (upload_attempted m)
upload_attempted-Grows m fits = ground arith

drop_upload_attempt-Grows : (b : Bool) (m : Metrics) → Grows m (drop_upload_attempt b m)
drop_upload_attempt-Grows true m fits = ground arith
drop_upload_attempt-Grows false m fits = ground arith

session_started-Grows : (m : Metrics) → Grows m (session_started m)
session_started-Grows m fits = ground arith

attempts : Attempts Rises Rises Rises
attempts = record {
  quiet = λ u v h. h;
  before = λ u v w h k. both u.metrics v.metrics w.metrics h k;
  confirmed = λ u v h. both u.metrics (succeeded u.metrics) v.metrics (succeeded-Grows u.metrics) h;
  uploaded = λ u v h. h;
  attempted = λ u v h.
      both u.metrics v.metrics (drop_upload_attempt v.upload_confirmed v.metrics)
        (both u.metrics (upload_attempted u.metrics) v.metrics (upload_attempted-Grows u.metrics) h)
        (drop_upload_attempt-Grows v.upload_confirmed v.metrics);
  settled = λ u v h. h;
  settled_after = λ u v w h k. both u.metrics v.metrics w.metrics h k;
}

serve-Rises : (cfg : SessionConfig) (n : ℕ) → Moves Rises (serve cfg n)
serve-Rises cfg n =
    serve-moves cfg (closed cfg) order (λ u v h. h) (λ active pool w. same w.metrics)
      (upload-moves cfg (closed cfg) attempts (λ r w. same w.metrics) order) n

-- However a session goes and ends, no counter of the metrics falls, and each stays a 64-bit number:
-- one that has reached the largest keeps it.
pub handle-Grows :
    (cfg : SessionConfig) (n : ℕ) (env : Env) (w : World)
    → Fits (totals w.metrics)
    → Fits (totals (handle cfg n env w).1.metrics)
      × NoneFalls (totals w.metrics) (totals (handle cfg n env w).1.metrics)
unfolding handle
handle-Grows cfg n env w fits =
    both w.metrics (session_started w.metrics) (handle cfg n env w).1.metrics
      (session_started-Grows w.metrics) ((serve-Rises cfg n).from env (begin_session w)) fits
