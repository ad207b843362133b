-- ===== src/Server/Session/Accounts/Crowd.antt =====
-- The metrics under all sessions at once: each operation is one step, in any order, and a guard may be
-- dropped at any time while it lives.
use iot_ftp_upload_gateway.Base.{
  ℕ, ◌+◌, ◌-◌, ◌%◌, ◌^◌, ◌<◌, ◌≡◌, refl, ap, ◌∙◌, true, false, arith, u64_max, leb, if◌then◌else◌,
}
use iot_ftp_upload_gateway.Metrics.{
  Metrics, new, saturating_add, fetch_add, fetch_sub, session_started, drop_session_guard,
  upload_started, drop_upload_guard, connection_rejected, upload_attempted, succeeded,
  drop_upload_attempt,
}
use iot_ftp_upload_gateway.Server.Session.Effects.{Observation}
use iot_ftp_upload_gateway.Server.Session.Accounts.{Books, books, Observation-books}

-- The metrics; how many guards of each kind live; and how many sessions began, and uploads were
-- completed or failed, in all.
pub record Crowd : Type 0 where
  pub metrics : Metrics
  pub sessions : ℕ
  pub uploads : ℕ
  pub attempts : ℕ
  pub begun : ℕ
  pub completed : ℕ
  pub failed : ℕ

abbrev pub nobody : Crowd
nobody = record {
  metrics = new;
  sessions = 0;
  uploads = 0;
  attempts = 0;
  begun = 0;
  completed = 0;
  failed = 0;
}

pub data Step : Crowd → Crowd → Type 0 where
  session_begins :
      (c : Crowd)
      → Step c (record c {
        metrics = session_started c.metrics;
        sessions = c.sessions + 1;
        begun = c.begun + 1;
      })
  session_ends :
      (c : Crowd)
      → 0 < c.sessions
      → Step c (record c { metrics = drop_session_guard c.metrics; sessions = c.sessions - 1 })
  upload_begins :
      (c : Crowd)
      → Step c (record c { metrics = upload_started c.metrics; uploads = c.uploads + 1 })
  upload_ends :
      (c : Crowd)
      → 0 < c.uploads
      → Step c (record c { metrics = drop_upload_guard c.metrics; uploads = c.uploads - 1 })
  attempt_begins :
      (c : Crowd)
      → Step c (record c { metrics = upload_attempted c.metrics; attempts = c.attempts + 1 })
  -- `succeeded` takes the guard, whose drop then counts nothing
  attempt_succeeds :
      (c : Crowd)
      → 0 < c.attempts
      → Step c (record c {
        metrics = drop_upload_attempt true (succeeded c.metrics);
        attempts = c.attempts - 1;
        completed = c.completed + 1;
      })
  attempt_fails :
      (c : Crowd)
      → 0 < c.attempts
      → Step c (record c {
        metrics = drop_upload_attempt false c.metrics;
        attempts = c.attempts - 1;
        failed = c.failed + 1;
      })
  -- the operations without a guard
  observes :
      (c : Crowd) {f : Metrics → Metrics}
      → Observation f
      → Step c (record c { metrics = f c.metrics })
  rejects : (c : Crowd) → Step c (record c { metrics = connection_rejected c.metrics })

pub data Reach : Crowd → Type 0 where
  here : Reach nobody
  next : {c d : Crowd} → Reach c → Step c d → Reach d

-- A number as a counter shows it.
abbrev pub shown : ℕ → ℕ
shown n = if leb n u64_max then n else u64_max

pub record Counts (c : Crowd) : Type 0 where
  pub sessions_gauge : c.metrics.sessions_active ≡ c.sessions % 2 ^ 64
  pub uploads_gauge : c.metrics.uploads_active ≡ c.uploads % 2 ^ 64
  pub sessions_shown : c.metrics.sessions_total ≡ shown c.begun
  pub started_shown : c.metrics.uploads_started_total ≡ shown (c.completed + c.failed + c.attempts)
  pub completed_shown : c.metrics.uploads_completed_total ≡ shown c.completed
  pub failed_shown : c.metrics.uploads_failed_total ≡ shown c.failed

shown-add : (counter n : ℕ) → counter ≡ shown n → saturating_add counter 1 ≡ shown (n + 1)
shown-add counter n e = ground arith

gauge_up : (gauge n : ℕ) → gauge ≡ n % 2 ^ 64 → fetch_add gauge ≡ (n + 1) % 2 ^ 64
gauge_up gauge n e = omega (arith, e)

gauge_down : (gauge n : ℕ) → 0 < n → gauge ≡ n % 2 ^ 64 → fetch_sub gauge ≡ (n - 1) % 2 ^ 64
gauge_down gauge n h e = omega (arith, e, h)

same_books :
    (c : Crowd) (m : Metrics)
    → books m ≡ books c.metrics
    → Counts c
    → Counts (record c { metrics = m })
same_books c m e v = record {
  sessions_gauge = ap (λ (b : Books). b.sessions_active) e ∙ v.sessions_gauge;
  uploads_gauge = ap (λ (b : Books). b.uploads_active) e ∙ v.uploads_gauge;
  sessions_shown = ap (λ (b : Books). b.sessions) e ∙ v.sessions_shown;
  started_shown = ap (λ (b : Books). b.started) e ∙ v.started_shown;
  completed_shown = ap (λ (b : Books). b.completed) e ∙ v.completed_shown;
  failed_shown = ap (λ (b : Books). b.failed) e ∙ v.failed_shown;
}

Step-Counts : (c d : Crowd) → Step c d → Counts c → Counts d
Step-Counts c _ (session_begins _) v = record {
  sessions_gauge = gauge_up _ c.sessions v.sessions_gauge;
  uploads_gauge = v.uploads_gauge;
  sessions_shown = shown-add _ c.begun v.sessions_shown;
  started_shown = v.started_shown;
  completed_shown = v.completed_shown;
  failed_shown = v.failed_shown;
}
Step-Counts c _ (session_ends _ h) v = record {
  sessions_gauge = gauge_down _ c.sessions h v.sessions_gauge;
  uploads_gauge = v.uploads_gauge;
  sessions_shown = v.sessions_shown;
  started_shown = v.started_shown;
  completed_shown = v.completed_shown;
  failed_shown = v.failed_shown;
}
Step-Counts c _ (upload_begins _) v = record {
  sessions_gauge = v.sessions_gauge;
  uploads_gauge = gauge_up _ c.uploads v.uploads_gauge;
  sessions_shown = v.sessions_shown;
  started_shown = v.started_shown;
  completed_shown = v.completed_shown;
  failed_shown = v.failed_shown;
}
Step-Counts c _ (upload_ends _ h) v = record {
  sessions_gauge = v.sessions_gauge;
  uploads_gauge = gauge_down _ c.uploads h v.uploads_gauge;
  sessions_shown = v.sessions_shown;
  started_shown = v.started_shown;
  completed_shown = v.completed_shown;
  failed_shown = v.failed_shown;
}
Step-Counts c _ (attempt_begins _) v = record {
  sessions_gauge = v.sessions_gauge;
  uploads_gauge = v.uploads_gauge;
  sessions_shown = v.sessions_shown;
  started_shown = ground (arith, shown-add _ (c.completed + c.failed + c.attempts) v.started_shown);
  completed_shown = v.completed_shown;
  failed_shown = v.failed_shown;
}
Step-Counts c _ (attempt_succeeds _ h) v = record {
  sessions_gauge = v.sessions_gauge;
  uploads_gauge = v.uploads_gauge;
  sessions_shown = v.sessions_shown;
  started_shown = ground (arith, v.started_shown, h);
  completed_shown = shown-add _ c.completed v.completed_shown;
  failed_shown = v.failed_shown;
}
Step-Counts c _ (attempt_fails _ h) v = record {
  sessions_gauge = v.sessions_gauge;
  uploads_gauge = v.uploads_gauge;
  sessions_shown = v.sessions_shown;
  started_shown = ground (arith, v.started_shown, h);
  completed_shown = v.completed_shown;
  failed_shown = shown-add _ c.failed v.failed_shown;
}
Step-Counts c _ (observes _ o) v = same_books c _ (Observation-books o c.metrics) v
Step-Counts c _ (rejects _) v = same_books c (connection_rejected c.metrics) refl v

-- Whatever the sessions do, in any order: the two gauges show how many of their guards live, the
-- number of sessions is that of all that began, and the uploads that were started are those that
-- were completed, those that failed and those in flight. A gauge shows its number modulo 2 ^ 64, and
-- a counter the largest 64-bit number where its own is larger.
pub Reach-Counts : (c : Crowd) → Reach c → Counts c
Reach-Counts _ here = record {
  sessions_gauge = refl;
  uploads_gauge = refl;
  sessions_shown = refl;
  started_shown = refl;
  completed_shown = refl;
  failed_shown = refl;
}
Reach-Counts d (next {c} r step) = Step-Counts c d step (Reach-Counts c r)
