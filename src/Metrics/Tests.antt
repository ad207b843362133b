-- ===== src/Metrics/Tests.antt =====
-- A page of metrics for one source address, and a backend whose name has a quote and a line feed.
use iot_ftp_upload_gateway.Base.{◌≡◌, refl, true, false, [], ◌∷◌, ◌++◌, some, arith, Text, codes}
use iot_ftp_upload_gateway.Net.{from_octets}
use iot_ftp_upload_gateway.Metrics.{Metrics, new, session_started}
use iot_ftp_upload_gateway.Metrics.Render.{escape_label_value, render}
use iot_ftp_upload_gateway.Metrics.Labels.{read_label, read_label-escape_label_value}
use iot_ftp_upload_gateway.Metrics.Scrape.{scrape}
use iot_ftp_upload_gateway.Metrics.Samples.{samples}
use iot_ftp_upload_gateway.Metrics.RoundTrip.{scrape-render}
use iot_ftp_upload_gateway.Backend.Rotator.Snapshot.{RotatorSnapshot}

abbrev odd_name : Text
odd_name = codes "ftp\"\n21"

escapes_quote : escape_label_value odd_name ≡ codes "ftp\\\"\\n21"
unfolding escape_label_value
escapes_quote = refl

odd_name_is_read :
    read_label false (escape_label_value odd_name ++ codes "\"} 1") ≡ some (odd_name, codes "} 1")
odd_name_is_read = read_label-escape_label_value odd_name (codes "} 1")

abbrev rotation : RotatorSnapshot
rotation = record {
  sources = record { source = from_octets 10 0 0 5; unhealthy = true } ∷ [];
  transfers =
      record {
        backend = odd_name;
        source = from_octets 10 0 0 5;
        capacity = 9;
        active = 2;
        started_total = 40;
        slot_timeouts_total = 1;
      }
      ∷ [];
}

abbrev busy : Metrics
busy = session_started new

busy_page_is_read :
    scrape (render busy 3 101 (some rotation)) ≡ some (samples busy 3 101 (some rotation))
busy_page_is_read = scrape-render busy 3 101 (some rotation) (omega arith)
