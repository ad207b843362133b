-- ===== src/Server/Session/Accounts/Uploads.antt =====
-- The books of an attempt, and of a whole session.
use iot_ftp_upload_gateway.Base.{
  ℕ, zero, suc, ◌+◌, ◌^◌, ◌<◌, ◌≡◌, refl, ap, ◌∙◌, Bool, Option, none, some, ◌⊎◌, inl, inr, arith,
}
use iot_ftp_upload_gateway.Metrics.{
  Metrics, saturating_add, fetch_add, fetch_sub, drop_upload_attempt,
}
use iot_ftp_upload_gateway.Run.{Env, World}
use iot_ftp_upload_gateway.Run.Moves.{Order, Moves}
use iot_ftp_upload_gateway.Server.Session.Config.{SessionConfig}
use iot_ftp_upload_gateway.Server.Session.Upload.{
  confirm, begin_upload, end_upload, begin_attempt, end_attempt,
}
use iot_ftp_upload_gateway.Server.Session.Loop.{handle, begin_session, serve, release_active}
use iot_ftp_upload_gateway.Server.Session.Effects.Upload.{Attempts, upload-moves}
use iot_ftp_upload_gateway.Server.Session.Effects.Whole.{serve-moves}
use iot_ftp_upload_gateway.Server.Session.Accounts.{
  Books, books, counted, Same, Within, IsConfirmed, IsUnconfirmed, Balanced, closed,
}

quiet : (u v : World) → Same u v → Within u v
quiet u v h = record {
  gauge = λ _. ap (λ (b : Books). b.uploads_active) h.books_eq;
  sessions_eq = ap (λ (b : Books). b.sessions) h.books_eq;
  active_eq = ap (λ (b : Books). b.sessions_active) h.books_eq;
  started_eq = ap (λ (b : Books). b.started) h.books_eq;
  failed_eq = ap (λ (b : Books). b.failed) h.books_eq;
  outcome = inl (h.confirmed_eq, ap (λ (b : Books). b.completed) h.books_eq);
}

same_completed :
    (u v : World) → Same u v → v.metrics.uploads_completed_total ≡ u.metrics.uploads_completed_total
same_completed u v h = ap (λ (b : Books). b.completed) h.books_eq

outcome_before :
    (u v w : World)
    → Same u v
    → IsUnconfirmed v w ⊎ IsConfirmed v w
    → IsUnconfirmed u w ⊎ IsConfirmed u w
outcome_before u v w h (inl (c, d)) = inl (c ∙ h.confirmed_eq, d ∙ same_completed u v h)
outcome_before u v w h (inr (c, d)) =
    inr (c, d ∙ ap (λ (n : ℕ). saturating_add n 1) (same_completed u v h))

before : (u v w : World) → Same u v → Within v w → Within u w
before u v w h k =
    let g = quiet u v h in
    record {
      gauge = λ b. ground (arith, k.gauge, g.gauge);
      sessions_eq = k.sessions_eq ∙ g.sessions_eq;
      active_eq = k.active_eq ∙ g.active_eq;
      started_eq = k.started_eq ∙ g.started_eq;
      failed_eq = k.failed_eq ∙ g.failed_eq;
      outcome = outcome_before u v w h k.outcome;
    }

confirmed : (u v : World) → Same (confirm u) v → Within u v
confirmed u v h =
    let g = quiet (confirm u) v h in
    record {
      gauge = g.gauge;
      sessions_eq = g.sessions_eq;
      active_eq = g.active_eq;
      started_eq = g.started_eq;
      failed_eq = g.failed_eq;
      outcome = inr (h.confirmed_eq, same_completed (confirm u) v h);
    }

fetch_sub-fetch_add : (g : ℕ) → g < 2 ^ 64 → fetch_sub (fetch_add g) ≡ g
fetch_sub-fetch_add g h = omega arith

fetch_add-lt : (g : ℕ) → fetch_add g < 2 ^ 64
fetch_add-lt g = omega arith

uploaded : (u v : World) → Within (begin_upload u) v → Within u (end_upload v)
uploaded u v h = record {
  gauge = λ b.
      ap fetch_sub (h.gauge (fetch_add-lt u.metrics.uploads_active))
      ∙ fetch_sub-fetch_add u.metrics.uploads_active b;
  sessions_eq = h.sessions_eq;
  active_eq = h.active_eq;
  started_eq = h.started_eq;
  failed_eq = h.failed_eq;
  outcome = h.outcome;
}

-- The end of an attempt, given whether it was confirmed.
ended :
    (u v : World)
    → Within (begin_attempt u) v
    → IsUnconfirmed (begin_attempt u) v ⊎ IsConfirmed (begin_attempt u) v
    → Balanced u (end_attempt v)
ended u v h (inl (c, d)) =
    let e = ap (λ (b : Bool). books (drop_upload_attempt b v.metrics)) c in
    record {
      gauge = λ b. ap (λ (b : Books). b.uploads_active) e ∙ h.gauge b;
      sessions_eq = ap (λ (b : Books). b.sessions) e ∙ h.sessions_eq;
      active_eq = ap (λ (b : Books). b.sessions_active) e ∙ h.active_eq;
      completed = 0;
      failed = 1;
      started_eq = ap (λ (b : Books). b.started) e ∙ h.started_eq;
      completed_eq = ap (λ (b : Books). b.completed) e ∙ d;
      failed_eq = ap (λ (b : Books). b.failed) e ∙ ap (λ (n : ℕ). saturating_add n 1) h.failed_eq;
    }
ended u v h (inr (c, d)) =
    let e = ap (λ (b : Bool). books (drop_upload_attempt b v.metrics)) c in
    record {
      gauge = λ b. ap (λ (b : Books). b.uploads_active) e ∙ h.gauge b;
      sessions_eq = ap (λ (b : Books). b.sessions) e ∙ h.sessions_eq;
      active_eq = ap (λ (b : Books). b.sessions_active) e ∙ h.active_eq;
      completed = 1;
      failed = 0;
      started_eq = ap (λ (b : Books). b.started) e ∙ h.started_eq;
      completed_eq = ap (λ (b : Books). b.completed) e ∙ d;
      failed_eq = ap (λ (b : Books). b.failed) e ∙ h.failed_eq;
    }

settled : (u v : World) → Same u v → Balanced u v
settled u v h =
    let g = quiet u v h in
    record {
      gauge = g.gauge;
      sessions_eq = g.sessions_eq;
      active_eq = g.active_eq;
      completed = 0;
      failed = 0;
      started_eq = g.started_eq;
      completed_eq = same_completed u v h;
      failed_eq = g.failed_eq;
    }

zero_plus : (m : ℕ) → m ≡ 0 + m
zero_plus m = omega arith

suc_plus : (n m : ℕ) → suc (n + m) ≡ suc n + m
suc_plus n m = omega arith

counted-+ : (n m counter : ℕ) → counted m (counted n counter) ≡ counted (n + m) counter
counted-+ zero m counter = ap (λ (k : ℕ). counted k counter) (zero_plus m)
counted-+ (suc n) m counter =
    counted-+ n m (saturating_add counter 1) ∙ ap (λ (k : ℕ). counted k counter) (suc_plus n m)

swap_middle : (a b c d : ℕ) → (a + b) + (c + d) ≡ (a + c) + (b + d)
swap_middle a b c d = omega arith

balanced : {u v w : World} → Balanced u v → Balanced v w → Balanced u w
balanced {u = u} h k = record {
  gauge = λ b. ground (arith, h.gauge, k.gauge);
  sessions_eq = k.sessions_eq ∙ h.sessions_eq;
  active_eq = k.active_eq ∙ h.active_eq;
  completed = h.completed + k.completed;
  failed = h.failed + k.failed;
  started_eq =
      k.started_eq
      ∙ ap (counted (k.completed + k.failed)) h.started_eq
      ∙ counted-+ (h.completed + h.failed) (k.completed + k.failed) _
      ∙ ap (λ (n : ℕ). counted n u.metrics.uploads_started_total)
          (swap_middle h.completed h.failed k.completed k.failed);
  completed_eq =
      k.completed_eq
      ∙ ap (counted k.completed) h.completed_eq
      ∙ counted-+ h.completed k.completed _;
  failed_eq = k.failed_eq ∙ ap (counted k.failed) h.failed_eq ∙ counted-+ h.failed k.failed _;
}

order : Order Balanced
order = record {
  same = λ w. settled w w (record { books_eq = refl; confirmed_eq = refl });
  both = balanced;
}

attempts : Attempts Same Within Balanced
attempts = record {
  quiet = quiet;
  before = before;
  confirmed = confirmed;
  uploaded = uploaded;
  attempted = λ u v h. ended u v h h.outcome;
  settled = settled;
  settled_after = λ u v w h k. balanced h (settled v w k);
}

serve-Balanced : (cfg : SessionConfig) (n : ℕ) → Moves Balanced (serve cfg n)
serve-Balanced cfg n =
    serve-moves cfg (closed cfg) order settled
      (λ active pool w. settled w _ (record { books_eq = refl; confirmed_eq = refl }))
      (upload-moves cfg (closed cfg) attempts
        (λ r w. record { books_eq = refl; confirmed_eq = refl }) order)
      n

release_active-books :
    (active : Option ℕ) (w : World) → (release_active active w).metrics ≡ w.metrics
release_active-books none w = refl
release_active-books (some port) w = refl

-- What a session leaves in the books of the metrics.
pub record Closes (u v : Metrics) : Type 0 where
  pub sessions_counted : v.sessions_total ≡ saturating_add u.sessions_total 1
  pub sessions_gauge : v.sessions_active ≡ u.sessions_active
  pub uploads_gauge : v.uploads_active ≡ u.uploads_active
  pub completed : ℕ
  pub failed : ℕ
  pub started_counted :
      v.uploads_started_total ≡ counted (completed + failed) u.uploads_started_total
  pub completed_counted : v.uploads_completed_total ≡ counted completed u.uploads_completed_total
  pub failed_counted : v.uploads_failed_total ≡ counted failed u.uploads_failed_total

-- However a session goes and ends, the gauges of active sessions and uploads are what they were,
-- the session was counted once, and each upload that was counted as started was then counted once,
-- as completed or as failed.
pub handle-Closes :
    (cfg : SessionConfig) (n : ℕ) (env : Env) (w : World)
    → w.metrics.sessions_active < 2 ^ 64
    → w.metrics.uploads_active < 2 ^ 64
    → Closes w.metrics (handle cfg n env w).1.metrics
unfolding handle
handle-Closes cfg n env w s u =
    let h = (serve-Balanced cfg n).from env (begin_session w) in
    record {
      sessions_counted = h.sessions_eq;
      sessions_gauge = ap fetch_sub h.active_eq ∙ fetch_sub-fetch_add w.metrics.sessions_active s;
      uploads_gauge = h.gauge u;
      completed = h.completed;
      failed = h.failed;
      started_counted = h.started_eq;
      completed_counted = h.completed_eq;
      failed_counted = h.failed_eq;
    }
