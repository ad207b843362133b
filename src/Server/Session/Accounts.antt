-- ===== src/Server/Session/Accounts.antt =====
-- How a session keeps the metrics' books: what it counts of its uploads, and the two gauges.
pub mod Uploads
pub mod Totals
pub mod Crowd
mod CrowdTests
use iot_ftp_upload_gateway.Base.{
  ℕ, zero, suc, ◌+◌, ◌-◌, ◌%◌, ◌^◌, ◌≤◌, ◌<◌, ◌≡◌, refl, sym, ap, ◌∙◌, Bool, true, false, Option,
  none, some, Text, ◌⊎◌, inl, inr, arith, u64_max,
}
use iot_ftp_upload_gateway.Io.{ErrorKind, is_timed_out}
use iot_ftp_upload_gateway.Metrics.{
  Metrics, saturating_add, observe_backend_io_error, fetch_add, fetch_sub,
}
use iot_ftp_upload_gateway.Pasv.PortManager.{PortManager}
use iot_ftp_upload_gateway.Run.{Env, World, Run}
use iot_ftp_upload_gateway.Run.Moves.{Order, Moves}
use iot_ftp_upload_gateway.Server.Session.Config.{SessionConfig}
use iot_ftp_upload_gateway.Server.Session.Channel.{expected_ip}
use iot_ftp_upload_gateway.Server.Session.Upload.{
  confirm, begin_upload, end_upload, begin_attempt, end_attempt,
}
use iot_ftp_upload_gateway.Server.Session.Loop.{
  handle, begin_session, end_session, serve, release_active,
}
use iot_ftp_upload_gateway.Server.Session.Effects.{
  Closed, OwnCommand, Observation, io_failed, pasv_failed, data_failed, peer_rejected,
  idle_timed_out, bytes_added,
}
use iot_ftp_upload_gateway.Server.Session.Effects.Channel.{IsWelcome}
use iot_ftp_upload_gateway.Server.Session.Effects.Upload.{Attempts, with_channel-moves}
use iot_ftp_upload_gateway.Server.Session.Effects.Loop.{IsClientLine}

-- The part of the metrics that the guards move.
pub record Books : Type 0 where
  pub sessions : ℕ
  pub sessions_active : ℕ
  pub uploads_active : ℕ
  pub started : ℕ
  pub completed : ℕ
  pub failed : ℕ

abbrev pub books : Metrics → Books
books m = record {
  sessions = m.sessions_total;
  sessions_active = m.sessions_active;
  uploads_active = m.uploads_active;
  started = m.uploads_started_total;
  completed = m.uploads_completed_total;
  failed = m.uploads_failed_total;
}

-- `n` events on a counter.
abbrev pub counted : ℕ → ℕ → ℕ
counted zero counter = counter
counted (suc n) counter = counted n (saturating_add counter 1)

-- What a change that is on no guard leaves as it was.
pub record Same (u v : World) : Type 0 where
  pub books_eq : books v.metrics ≡ books u.metrics
  pub confirmed_eq : v.upload_confirmed ≡ u.upload_confirmed

timed_out-books :
    (kind : ErrorKind) (m : Metrics) (b : Bool)
    → is_timed_out kind ≡ b
    → books (observe_backend_io_error kind m) ≡ books m
timed_out-books kind m true e = rw (e) refl
timed_out-books kind m false e = rw (e) refl

pub Observation-books :
    {f : Metrics → Metrics} → Observation f → (m : Metrics) → books (f m) ≡ books m
Observation-books (io_failed kind) m = timed_out-books kind m (is_timed_out kind) refl
Observation-books pasv_failed m = refl
Observation-books data_failed m = refl
Observation-books peer_rejected m = refl
Observation-books idle_timed_out m = refl
Observation-books (bytes_added n) m = refl

pub both_same : {u v w : World} → Same u v → Same v w → Same u w
both_same h k = record {
  books_eq = k.books_eq ∙ h.books_eq;
  confirmed_eq = k.confirmed_eq ∙ h.confirmed_eq;
}

pub closed :
    (cfg : SessionConfig) → Closed OwnCommand IsClientLine (IsWelcome (expected_ip cfg)) Same
closed cfg = record {
  order = record { same = λ w. record { books_eq = refl; confirmed_eq = refl }; both = both_same };
  ticked = λ w. record { books_eq = refl; confirmed_eq = refl };
  told = λ text w. record { books_eq = refl; confirmed_eq = refl };
  sent = λ own w. record { books_eq = refl; confirmed_eq = refl };
  forwarded = λ line w. record { books_eq = refl; confirmed_eq = refl };
  met = λ welcome w. record { books_eq = refl; confirmed_eq = refl };
  reached = λ addr w. record { books_eq = refl; confirmed_eq = refl };
  observed = λ o w. record { books_eq = Observation-books o w.metrics; confirmed_eq = refl };
  blamed = λ source kind now w. record { books_eq = refl; confirmed_eq = refl };
  made_secure = λ w. record { books_eq = refl; confirmed_eq = refl };
}

-- A change within an attempt: at most one confirmation, and the uploads' gauge as it was.
abbrev pub IsConfirmed : World → World → Type 0
IsConfirmed u v =
    (v.upload_confirmed ≡ true)
    × (v.metrics.uploads_completed_total ≡ saturating_add u.metrics.uploads_completed_total 1)

abbrev pub IsUnconfirmed : World → World → Type 0
IsUnconfirmed u v =
    (v.upload_confirmed ≡ u.upload_confirmed)
    × (v.metrics.uploads_completed_total ≡ u.metrics.uploads_completed_total)

pub record Within (u v : World) : Type 0 where
  pub gauge :
      u.metrics.uploads_active < 2 ^ 64 → v.metrics.uploads_active ≡ u.metrics.uploads_active
  pub sessions_eq : v.metrics.sessions_total ≡ u.metrics.sessions_total
  pub active_eq : v.metrics.sessions_active ≡ u.metrics.sessions_active
  pub started_eq : v.metrics.uploads_started_total ≡ u.metrics.uploads_started_total
  pub failed_eq : v.metrics.uploads_failed_total ≡ u.metrics.uploads_failed_total
  pub outcome : IsUnconfirmed u v ⊎ IsConfirmed u v

-- Any number of finished attempts: each was counted as started, and then as completed or failed.
pub record Balanced (u v : World) : Type 0 where
  pub gauge :
      u.metrics.uploads_active < 2 ^ 64 → v.metrics.uploads_active ≡ u.metrics.uploads_active
  pub sessions_eq : v.metrics.sessions_total ≡ u.metrics.sessions_total
  pub active_eq : v.metrics.sessions_active ≡ u.metrics.sessions_active
  pub completed : ℕ
  pub failed : ℕ
  pub started_eq :
      v.metrics.uploads_started_total ≡ counted (completed + failed) u.metrics.uploads_started_total
  pub completed_eq :
      v.metrics.uploads_completed_total ≡ counted completed u.metrics.uploads_completed_total
  pub failed_eq : v.metrics.uploads_failed_total ≡ counted failed u.metrics.uploads_failed_total
