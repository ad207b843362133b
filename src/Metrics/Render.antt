-- ===== src/Metrics/Render.antt =====
-- `Metrics::render`: the text that a scrape of the metrics is answered with. Every line of it ends in
-- a line feed; a series is its two comments and its samples.
use iot_ftp_upload_gateway.Base.{
  ℕ, Bool, List, [], ◌∷◌, ◌++◌, Option, none, some, map, ◌==◌, if◌then◌else◌, Text, codes, lf, show,
}
use iot_ftp_upload_gateway.Net.{show_ipv4}
use iot_ftp_upload_gateway.Metrics.{Metrics}
use iot_ftp_upload_gateway.Backend.Rotator.Snapshot.{
  SourceHealth, SourceTransferStat, RotatorSnapshot,
}

-- The lines, each with its line feed.
abbrev pub unlines : List Text → Text
unlines [] = []
unlines (line ∷ lines) = line ++ lf ∷ unlines lines

-- The cases of `escape_label_value`.
abbrev pub escape_char : ℕ → Text
escape_char c =
    if c == b'\\'
    then b'\\' ∷ b'\\' ∷ []
    else if c == b'"'
    then b'\\' ∷ b'"' ∷ []
    else if c == lf
    then b'\\' ∷ b'n' ∷ []
    else c ∷ []

unfoldable pub escape_label_value : Text → Text
escape_label_value [] = []
escape_label_value (c ∷ value) = escape_char c ++ escape_label_value value

abbrev pub help_line : Text → Text → Text
help_line name help = codes "# HELP " ++ (name ++ b' ' ∷ help)

abbrev pub type_line : Text → Text → Text
type_line name kind = codes "# TYPE " ++ (name ++ b' ' ∷ kind)

-- A metric with one sample.
pub record Series : Type 0 where
  pub name : Text
  pub kind : Text
  pub help : Text
  pub value : ℕ

abbrev pub series : Text → Text → Text → ℕ → Series
series name kind help value = record { name = name; kind = kind; help = help; value = value }

abbrev pub series_lines : List Series → List Text
series_lines [] = []
series_lines (s ∷ rest) =
    help_line s.name s.help
    ∷ type_line s.name s.kind
    ∷ (s.name ++ b' ' ∷ show s.value)
    ∷ series_lines rest

-- The text of the format string, series by series.
abbrev pub gateway_series : Metrics → ℕ → ℕ → List Series
gateway_series m pasv_ports_active pasv_ports_capacity =
    series (codes "ftp_gateway_sessions_active") (codes "gauge")
      (codes "Number of FTP control connections currently open.") m.sessions_active
    ∷ series (codes "ftp_gateway_uploads_active") (codes "gauge")
        (codes "Number of STOR transfers currently in progress.") m.uploads_active
    ∷ series (codes "ftp_gateway_pasv_ports_active") (codes "gauge")
        (codes "Number of PASV/EPSV data ports currently allocated.") pasv_ports_active
    ∷ series (codes "ftp_gateway_pasv_ports_capacity") (codes "gauge")
        (codes
          "Number of PASV/EPSV data ports in the configured range (capacity minus active is what is left).")
        pasv_ports_capacity
    ∷ series (codes "ftp_gateway_sessions_total") (codes "counter")
        (codes "Total number of FTP control connections accepted.") m.sessions_total
    ∷ series (codes "ftp_gateway_upload_bytes_total") (codes "counter")
        (codes "Total bytes relayed from clients to a Backend across all completed STOR transfers.")
        m.upload_bytes_total
    ∷ series (codes "ftp_gateway_connections_rejected_total") (codes "counter")
        (codes "Total connections rejected by the per-IP connection limit.")
        m.connections_rejected_total
    ∷ series (codes "ftp_gateway_uploads_started_total") (codes "counter")
        (codes "Total STOR transfers that reached the Backend (both data connections up).")
        m.uploads_started_total
    ∷ series (codes "ftp_gateway_uploads_completed_total") (codes "counter")
        (codes "Total STOR transfers the Backend confirmed with a 2xx reply.")
        m.uploads_completed_total
    ∷ series (codes "ftp_gateway_uploads_failed_total") (codes "counter")
        (codes "Total started STOR transfers that did not complete.") m.uploads_failed_total
    ∷ series (codes "ftp_gateway_backend_pasv_failures_total") (codes "counter")
        (codes "Total times the Backend gave no usable reply to PASV.")
        m.backend_pasv_failures_total
    ∷ series (codes "ftp_gateway_backend_data_connection_failures_total") (codes "counter")
        (codes
          "Total failures to establish a data connection to the Backend (TCP connect or TLS handshake).")
        m.backend_data_connection_failures_total
    ∷ series (codes "ftp_gateway_data_connections_rejected_total") (codes "counter")
        (codes
          "Total client data connections closed for coming from a different IP address than the control connection.")
        m.data_connections_rejected_total
    ∷ series (codes "ftp_gateway_backend_timeouts_total") (codes "counter")
        (codes "Total timeouts waiting on or connecting to a Backend.") m.backend_timeouts_total
    ∷ series (codes "ftp_gateway_session_idle_timeouts_total") (codes "counter")
        (codes "Total control sessions closed for being idle too long.")
        m.session_idle_timeouts_total
    ∷ []

unfoldable pub render_gateway_metrics : Metrics → ℕ → ℕ → Text
render_gateway_metrics m pasv_ports_active pasv_ports_capacity =
    unlines (series_lines (gateway_series m pasv_ports_active pasv_ports_capacity))

abbrev pub unhealthy_name : Text
unhealthy_name = codes "ftp_gateway_backend_source_unhealthy"

-- `u8::from`.
abbrev pub bit_of : Bool → ℕ
bit_of flag = if flag then 1 else 0

abbrev pub health_id : SourceHealth → Text
health_id health =
    unhealthy_name ++ (codes "{source=\"" ++ (show_ipv4 health.source ++ codes "\"}"))

abbrev pub health_line : SourceHealth → Text
health_line health = health_id health ++ b' ' ∷ show (bit_of health.unhealthy)

pub record TransferSeries : Type 0 where
  pub name : Text
  pub kind : Text
  pub help : Text
  pub value : SourceTransferStat → ℕ

abbrev pub transfer_id : Text → SourceTransferStat → Text
transfer_id name stat =
    name
    ++ (codes "{backend=\""
        ++ (escape_label_value stat.backend
            ++ (codes "\",source=\"" ++ (show_ipv4 stat.source ++ codes "\"}"))))

abbrev pub transfer_line : TransferSeries → SourceTransferStat → Text
transfer_line s stat = transfer_id s.name stat ++ b' ' ∷ show (s.value stat)

abbrev pub transfer_series : List TransferSeries
transfer_series =
    record {
      name = codes "ftp_gateway_backend_source_transfers_active";
      kind = codes "gauge";
      help = codes "Data transfers in flight from this source address to this backend.";
      value = λ stat. stat.active;
    }
    ∷ record {
      name = codes "ftp_gateway_backend_source_transfers_capacity";
      kind = codes "gauge";
      help =
          codes
            "Most data transfers this source address may have in flight to this backend (its passive_ports size).";
      value = λ stat. stat.capacity;
    }
    ∷ record {
      name = codes "ftp_gateway_backend_source_transfers_total";
      kind = codes "counter";
      help = codes "Total data transfers started from this source address to this backend.";
      value = λ stat. stat.started_total;
    }
    ∷ record {
      name = codes "ftp_gateway_backend_source_slot_timeouts_total";
      kind = codes "counter";
      help =
          codes
            "Total transfers that gave up waiting for a free slot on this source address (answered 425).";
      value = λ stat. stat.slot_timeouts_total;
    }
    ∷ []

abbrev pub transfer_lines : List SourceTransferStat → List TransferSeries → List Text
transfer_lines transfers [] = []
transfer_lines transfers (s ∷ rest) =
    help_line s.name s.help
    ∷ type_line s.name s.kind
    ∷ (map (transfer_line s) transfers ++ transfer_lines transfers rest)

abbrev pub unhealthy_help : Text
unhealthy_help =
    codes "1 if the source address is currently left out of the rotation after failing to connect."

unfoldable pub render_rotation_metrics : RotatorSnapshot → Text
render_rotation_metrics rotation = unlines (
    help_line unhealthy_name unhealthy_help
    ∷ type_line unhealthy_name (codes "gauge")
    ∷ (map health_line rotation.sources ++ transfer_lines rotation.transfers transfer_series))

abbrev pub rotation_text : Option RotatorSnapshot → Text
rotation_text none = []
rotation_text (some rotation) = render_rotation_metrics rotation

unfoldable pub render : Metrics → ℕ → ℕ → Option RotatorSnapshot → Text
render m pasv_ports_active pasv_ports_capacity rotation =
    render_gateway_metrics m pasv_ports_active pasv_ports_capacity ++ rotation_text rotation
