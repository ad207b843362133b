-- ===== src/Metrics/RoundTrip.antt =====
-- The rendered text, read back.
use iot_ftp_upload_gateway.Base.{
  ℕ, ◌≡◌, refl, sym, ap, ◌∙◌, Bool, true, ◌&&◌, List, [], ◌∷◌, ◌++◌, Option, none, some, map, arith,
  append_assoc, append-nil, all, All, All-left, All-right, Text, codes, lf,
}
use iot_ftp_upload_gateway.Metrics.{Metrics}
use iot_ftp_upload_gateway.Metrics.Render.{
  unlines, help_line, type_line, series_lines, gateway_series, render_gateway_metrics,
  unhealthy_name, unhealthy_help, bit_of, health_id, health_line, TransferSeries, transfer_series,
  transfer_lines, render_rotation_metrics, render,
}
use iot_ftp_upload_gateway.Metrics.Scrape.{read_lines, scrape, is_plain, split-unlines}
use iot_ftp_upload_gateway.Backend.Rotator.Snapshot.{
  SourceHealth, SourceTransferStat, RotatorSnapshot,
}
use iot_ftp_upload_gateway.Metrics.Samples.{
  gateway_samples, transfer_samples, rotation_samples, samples, IsU64,
}
use iot_ftp_upload_gateway.Metrics.Reading.{Reads, Reads-nil, Reads-append}
use iot_ftp_upload_gateway.Metrics.Blocks.{
  Reads-gateway, Reads-health, Reads-headers, Reads-transfer_series, lacks_lf, lacks_lf-Lacks,
}

abbrev rotation_lines : RotatorSnapshot → List Text
rotation_lines rotation =
    help_line unhealthy_name unhealthy_help
    ∷ type_line unhealthy_name (codes "gauge")
    ∷ (map health_line rotation.sources ++ transfer_lines rotation.transfers transfer_series)

abbrev is_fine : TransferSeries → Bool
is_fine s = is_plain s.name && lacks_lf s.name && lacks_lf s.kind && lacks_lf s.help

abbrev series_samples : List SourceTransferStat → List TransferSeries → List (Text × ℕ)
series_samples transfers [] = []
series_samples transfers (s ∷ rest) =
    transfer_samples s.name s.value transfers ++ series_samples transfers rest

Reads-transfer_lines :
    (transfers : List SourceTransferStat) (rest : List TransferSeries)
    → all is_fine rest ≡ true
    → All IsU64 (series_samples transfers rest)
    → Reads (transfer_lines transfers rest) (series_samples transfers rest)
Reads-transfer_lines transfers [] fine h = Reads-nil
Reads-transfer_lines transfers (s ∷ rest) fine h =
    let own = transfer_samples s.name s.value transfers in
    Reads-transfer_series s transfers (transfer_lines transfers rest)
      (series_samples transfers rest) (ground (arith, fine))
      (All-left IsU64 own (series_samples transfers rest) h)
      (Reads-transfer_lines transfers rest (ground (arith, fine))
        (All-right IsU64 own (series_samples transfers rest) h))

Reads-rotation :
    (rotation : RotatorSnapshot)
    → All IsU64 (rotation_samples rotation)
    → Reads (rotation_lines rotation) (rotation_samples rotation)
Reads-rotation rotation h =
    let health =
      map (λ (health : SourceHealth). (health_id health, bit_of health.unhealthy))
        rotation.sources in
    let transfers = series_samples rotation.transfers transfer_series in
    Reads-headers unhealthy_name (codes "gauge") unhealthy_help
      (map health_line rotation.sources ++ transfer_lines rotation.transfers transfer_series)
      (rotation_samples rotation) (lacks_lf-Lacks unhealthy_name refl)
      (lacks_lf-Lacks (codes "gauge") refl) (lacks_lf-Lacks unhealthy_help refl)
      (Reads-append (map health_line rotation.sources)
        (transfer_lines rotation.transfers transfer_series) health transfers
        (Reads-health rotation.sources)
        (Reads-transfer_lines rotation.transfers transfer_series refl
          (All-right IsU64 health transfers h)))

scrape-unlines :
    (lines : List Text) (ss : List (Text × ℕ)) → Reads lines ss → scrape (unlines lines) ≡ some ss
unfolding scrape read_lines
scrape-unlines lines ss r =
    ap (λ (text : Text). scrape text) (sym (append-nil (unlines lines)))
    ∙ ap read_lines (split-unlines lines [] r.apart)
    ∙ r.read ([] ∷ []) [] refl
    ∙ ap some (append-nil ss)

unlines-append : (ls ms : List Text) → unlines (ls ++ ms) ≡ unlines ls ++ unlines ms
unlines-append [] ms = refl
unlines-append (line ∷ ls) ms =
    ap (λ (text : Text). line ++ lf ∷ text) (unlines-append ls ms)
    ∙ sym (append_assoc line (lf ∷ unlines ls) (unlines ms))

-- What a scrape is answered with reads as one sample for each counter and gauge, for each source
-- address and, four times, for each pair of a backend and an address, with their values, whatever
-- characters the names of the backends hold, if every value is a 64-bit number.
pub scrape-render :
    (m : Metrics) (pasv_ports_active pasv_ports_capacity : ℕ) (rotation : Option RotatorSnapshot)
    → All IsU64 (samples m pasv_ports_active pasv_ports_capacity rotation)
    → scrape (render m pasv_ports_active pasv_ports_capacity rotation)
      ≡ some (samples m pasv_ports_active pasv_ports_capacity rotation)
unfolding render render_gateway_metrics render_rotation_metrics
scrape-render m active capacity none h =
    let gateway = gateway_samples m active capacity in
    ap scrape (append-nil (unlines (series_lines (gateway_series m active capacity))))
    ∙ scrape-unlines (series_lines (gateway_series m active capacity)) gateway
        (Reads-gateway m active capacity (All-left IsU64 gateway [] h))
    ∙ ap some (sym (append-nil gateway))
scrape-render m active capacity (some rotation) h =
    let gateway = gateway_samples m active capacity in
    let lines = series_lines (gateway_series m active capacity) in
    ap scrape (sym (unlines-append lines (rotation_lines rotation)))
    ∙ scrape-unlines (lines ++ rotation_lines rotation) (gateway ++ rotation_samples rotation) (
        Reads-append lines (rotation_lines rotation) gateway (rotation_samples rotation)
          (Reads-gateway m active capacity (All-left IsU64 gateway (rotation_samples rotation) h))
          (Reads-rotation rotation (All-right IsU64 gateway (rotation_samples rotation) h)))
