-- ===== src/Metrics.antt =====
-- src/metrics.rs: the counters and gauges. A `*_total` counter saturates at `u64::MAX`; a gauge is an
-- atomic that wraps. A guard's drop is an operation of its own.
pub mod Render
mod Tests
pub mod Labels
pub mod Scrape
pub mod Samples
pub mod Reading
pub mod Blocks
pub mod RoundTrip
use iot_ftp_upload_gateway.Base.{
  ℕ, ◌+◌, ◌-◌, ◌%◌, ◌^◌, Bool, true, false, u64_max, leb, if◌then◌else◌,
}
use iot_ftp_upload_gateway.Io.{ErrorKind, is_timed_out}

pub record Metrics : Type 0 where
  pub sessions_active : ℕ
  pub uploads_active : ℕ
  pub sessions_total : ℕ
  pub upload_bytes_total : ℕ
  pub connections_rejected_total : ℕ
  pub uploads_started_total : ℕ
  pub uploads_completed_total : ℕ
  pub uploads_failed_total : ℕ
  pub backend_pasv_failures_total : ℕ
  pub backend_data_connection_failures_total : ℕ
  pub data_connections_rejected_total : ℕ
  pub backend_timeouts_total : ℕ
  pub session_idle_timeouts_total : ℕ

abbrev pub new : Metrics
new = record {
  sessions_active = 0;
  uploads_active = 0;
  sessions_total = 0;
  upload_bytes_total = 0;
  connections_rejected_total = 0;
  uploads_started_total = 0;
  uploads_completed_total = 0;
  uploads_failed_total = 0;
  backend_pasv_failures_total = 0;
  backend_data_connection_failures_total = 0;
  data_connections_rejected_total = 0;
  backend_timeouts_total = 0;
  session_idle_timeouts_total = 0;
}

-- `current.saturating_add(delta)`.
abbrev pub saturating_add : ℕ → ℕ → ℕ
saturating_add counter delta = if leb (counter + delta) u64_max then counter + delta else u64_max

-- `fetch_add(1)` and `fetch_sub(1)` of an `AtomicU64`.
abbrev pub fetch_add : ℕ → ℕ
fetch_add gauge = (gauge + 1) % 2 ^ 64

abbrev pub fetch_sub : ℕ → ℕ
fetch_sub gauge = (gauge + 2 ^ 64 - 1) % 2 ^ 64

abbrev pub session_started : Metrics → Metrics
session_started m = record m {
  sessions_total = saturating_add m.sessions_total 1;
  sessions_active = fetch_add m.sessions_active;
}

abbrev pub drop_session_guard : Metrics → Metrics
drop_session_guard m = record m { sessions_active = fetch_sub m.sessions_active }

abbrev pub upload_started : Metrics → Metrics
upload_started m = record m { uploads_active = fetch_add m.uploads_active }

abbrev pub drop_upload_guard : Metrics → Metrics
drop_upload_guard m = record m { uploads_active = fetch_sub m.uploads_active }

abbrev pub add_upload_bytes : ℕ → Metrics → Metrics
add_upload_bytes bytes m = record m {
  upload_bytes_total = saturating_add m.upload_bytes_total bytes;
}

abbrev pub connection_rejected : Metrics → Metrics
connection_rejected m = record m {
  connections_rejected_total = saturating_add m.connections_rejected_total 1;
}

abbrev pub upload_attempted : Metrics → Metrics
upload_attempted m = record m { uploads_started_total = saturating_add m.uploads_started_total 1 }

-- `UploadAttempt::succeeded`; the drop that follows then counts nothing.
abbrev pub succeeded : Metrics → Metrics
succeeded m = record m { uploads_completed_total = saturating_add m.uploads_completed_total 1 }

-- The drop of an `UploadAttempt`, given whether `succeeded` was called on it.
abbrev pub drop_upload_attempt : Bool → Metrics → Metrics
drop_upload_attempt true m = m
drop_upload_attempt false m = record m {
  uploads_failed_total = saturating_add m.uploads_failed_total 1;
}

abbrev pub backend_pasv_failed : Metrics → Metrics
backend_pasv_failed m = record m {
  backend_pasv_failures_total = saturating_add m.backend_pasv_failures_total 1;
}

abbrev pub backend_data_connection_failed : Metrics → Metrics
backend_data_connection_failed m = record m {
  backend_data_connection_failures_total =
      saturating_add m.backend_data_connection_failures_total 1;
}

abbrev pub data_connection_rejected : Metrics → Metrics
data_connection_rejected m = record m {
  data_connections_rejected_total = saturating_add m.data_connections_rejected_total 1;
}

abbrev pub session_idle_timed_out : Metrics → Metrics
session_idle_timed_out m = record m {
  session_idle_timeouts_total = saturating_add m.session_idle_timeouts_total 1;
}

abbrev pub observe_backend_io_error : ErrorKind → Metrics → Metrics
observe_backend_io_error kind m =
    if is_timed_out kind
    then record m { backend_timeouts_total = saturating_add m.backend_timeouts_total 1 }
    else m
