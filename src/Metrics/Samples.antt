-- ===== src/Metrics/Samples.antt =====
-- What the rendered text tells: one sample for each metric, and for each source address and pair of a
-- backend and an address.
use iot_ftp_upload_gateway.Base.{
  ℕ, ◌≤◌, List, [], ◌∷◌, ◌++◌, Option, none, some, map, Text, codes, u64_max,
}
use iot_ftp_upload_gateway.Metrics.{Metrics}
use iot_ftp_upload_gateway.Metrics.Render.{bit_of, health_id, transfer_id}
use iot_ftp_upload_gateway.Backend.Rotator.Snapshot.{SourceTransferStat, RotatorSnapshot}

abbrev pub gateway_samples : Metrics → ℕ → ℕ → List (Text × ℕ)
gateway_samples m pasv_ports_active pasv_ports_capacity =
    (codes "ftp_gateway_sessions_active", m.sessions_active)
    ∷ (codes "ftp_gateway_uploads_active", m.uploads_active)
    ∷ (codes "ftp_gateway_pasv_ports_active", pasv_ports_active)
    ∷ (codes "ftp_gateway_pasv_ports_capacity", pasv_ports_capacity)
    ∷ (codes "ftp_gateway_sessions_total", m.sessions_total)
    ∷ (codes "ftp_gateway_upload_bytes_total", m.upload_bytes_total)
    ∷ (codes "ftp_gateway_connections_rejected_total", m.connections_rejected_total)
    ∷ (codes "ftp_gateway_uploads_started_total", m.uploads_started_total)
    ∷ (codes "ftp_gateway_uploads_completed_total", m.uploads_completed_total)
    ∷ (codes "ftp_gateway_uploads_failed_total", m.uploads_failed_total)
    ∷ (codes "ftp_gateway_backend_pasv_failures_total", m.backend_pasv_failures_total)
    ∷ (
      codes "ftp_gateway_backend_data_connection_failures_total",
      m.backend_data_connection_failures_total,
    )
    ∷ (codes "ftp_gateway_data_connections_rejected_total", m.data_connections_rejected_total)
    ∷ (codes "ftp_gateway_backend_timeouts_total", m.backend_timeouts_total)
    ∷ (codes "ftp_gateway_session_idle_timeouts_total", m.session_idle_timeouts_total)
    ∷ []

abbrev pub transfer_samples :
    Text → (SourceTransferStat → ℕ) → List SourceTransferStat → List (Text × ℕ)
transfer_samples name value transfers = map (λ stat. (transfer_id name stat, value stat)) transfers

abbrev pub rotation_samples : RotatorSnapshot → List (Text × ℕ)
rotation_samples rotation =
    map (λ health. (health_id health, bit_of health.unhealthy)) rotation.sources
    ++ (transfer_samples (codes "ftp_gateway_backend_source_transfers_active") (λ stat. stat.active)
          rotation.transfers
        ++ (transfer_samples (codes "ftp_gateway_backend_source_transfers_capacity")
              (λ stat. stat.capacity) rotation.transfers
            ++ (transfer_samples (codes "ftp_gateway_backend_source_transfers_total")
                  (λ stat. stat.started_total) rotation.transfers
                ++ (transfer_samples (codes "ftp_gateway_backend_source_slot_timeouts_total")
                      (λ stat. stat.slot_timeouts_total) rotation.transfers
                    ++ []))))

abbrev pub samples_of : Option RotatorSnapshot → List (Text × ℕ)
samples_of none = []
samples_of (some rotation) = rotation_samples rotation

abbrev pub samples : Metrics → ℕ → ℕ → Option RotatorSnapshot → List (Text × ℕ)
samples m pasv_ports_active pasv_ports_capacity rotation =
    gateway_samples m pasv_ports_active pasv_ports_capacity ++ samples_of rotation

abbrev pub IsU64 : Text × ℕ → Type 0
IsU64 (id, value) = value ≤ u64_max
