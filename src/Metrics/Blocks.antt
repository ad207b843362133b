-- ===== src/Metrics/Blocks.antt =====
-- How the series of the rendered text read.
use iot_ftp_upload_gateway.Base.{
  show-Lacks, ℕ, ◌≡◌, ◌≢◌, refl, Bool, true, not, ◌&&◌, List, [], ◌∷◌, ◌++◌, map, arith, all, All,
  All-append, Text, codes, lf, Lacks, contains, show, IsDigit,
}
use iot_ftp_upload_gateway.Net.{Ipv4Addr, octet, show_ipv4}
use iot_ftp_upload_gateway.Metrics.{Metrics}
use iot_ftp_upload_gateway.Metrics.Render.{
  escape_label_value, help_line, type_line, Series, series_lines, gateway_series, unhealthy_name,
  bit_of, health_id, health_line, TransferSeries, transfer_id, transfer_line,
}
use iot_ftp_upload_gateway.Metrics.Labels.{escape_label_value-Lacks}
use iot_ftp_upload_gateway.Metrics.Scrape.{is_plain, contains-Lacks}
use iot_ftp_upload_gateway.Backend.Rotator.Snapshot.{SourceHealth, SourceTransferStat}
use iot_ftp_upload_gateway.Metrics.Samples.{gateway_samples, transfer_samples, IsU64}
use iot_ftp_upload_gateway.Metrics.Reading.{
  Reads, Reads-nil, Reads-append, Reads-comment, Reads-sample,
}

header-Lacks :
    (word name text : Text)
    → Lacks lf word
    → Lacks lf name
    → Lacks lf text
    → Lacks lf (word ++ (name ++ b' ' ∷ text))
header-Lacks word name text hw hn ht =
    All-append _ word (name ++ b' ' ∷ text) hw
      (All-append _ name (b' ' ∷ text) hn (λ e. omega arith, ht))

-- The two comments of a series, before its samples.
pub Reads-headers :
    (name kind help : Text) (ls : List Text) (ss : List (Text × ℕ))
    → Lacks lf name
    → Lacks lf kind
    → Lacks lf help
    → Reads ls ss
    → Reads (help_line name help ∷ type_line name kind ∷ ls) ss
Reads-headers name kind help ls ss hn hk hh r =
    Reads-comment _ _ ss (header-Lacks (codes " HELP ") name help (omega arith) hn hh)
      (Reads-comment _ ls ss (header-Lacks (codes " TYPE ") name kind (omega arith) hn hk) r)

abbrev pub lacks_lf : Text → Bool
lacks_lf s = not (contains lf s)

pub lacks_lf-Lacks : (s : Text) → lacks_lf s ≡ true → Lacks lf s
lacks_lf-Lacks s h = contains-Lacks lf s (ground arith)

abbrev is_fine : Series → Bool
is_fine s = lacks_lf s.name && lacks_lf s.kind && lacks_lf s.help && is_plain s.name

abbrev sample_of : Series → Text × ℕ
sample_of s = (s.name, s.value)

Reads-series_lines :
    (ss : List Series)
    → all is_fine ss ≡ true
    → All IsU64 (map sample_of ss)
    → Reads (series_lines ss) (map sample_of ss)
Reads-series_lines [] h k = Reads-nil
Reads-series_lines (s ∷ rest) h k =
    Reads-headers s.name s.kind s.help _ _ (lacks_lf-Lacks s.name (ground (arith, h)))
      (lacks_lf-Lacks s.kind (ground (arith, h))) (lacks_lf-Lacks s.help (ground (arith, h)))
      (Reads-sample s.name s.value _ _ (ground (arith, h))
        (lacks_lf-Lacks s.name (ground (arith, h))) k.0
        (Reads-series_lines rest (ground (arith, h)) k.1))

pub Reads-gateway :
    (m : Metrics) (active capacity : ℕ)
    → All IsU64 (gateway_samples m active capacity)
    → Reads (series_lines (gateway_series m active capacity)) (gateway_samples m active capacity)
Reads-gateway m active capacity h = Reads-series_lines (gateway_series m active capacity) refl h

show_ipv4-Lacks : (c : ℕ) (ip : Ipv4Addr) → ¬ IsDigit c → b'.' ≢ c → Lacks c (show_ipv4 ip)
show_ipv4-Lacks c ip h k = dotted 0 _ (dotted 1 _ (dotted 2 _ (show-Lacks c (octet 3 ip) h)))
  where
    dotted : (i : ℕ) (rest : Text) → Lacks c rest → Lacks c (show (octet i ip) ++ b'.' ∷ rest)
    dotted i rest r =
        All-append _ (show (octet i ip)) (b'.' ∷ rest) (show-Lacks c (octet i ip) h) (k, r)

source-Lacks : (ip : Ipv4Addr) → Lacks lf (show_ipv4 ip ++ codes "\"}")
source-Lacks ip =
    All-append _ (show_ipv4 ip) _ (show_ipv4-Lacks lf ip (λ i. omega arith) (λ e. omega arith))
      (omega arith)

health_id-Lacks : (health : SourceHealth) → Lacks lf (health_id health)
health_id-Lacks health =
    All-append (λ c. c ≢ lf) unhealthy_name
      (codes "{source=\"" ++ (show_ipv4 health.source ++ codes "\"}"))
      (lacks_lf-Lacks unhealthy_name refl)
      (All-append (λ c. c ≢ lf) (codes "{source=\"") (show_ipv4 health.source ++ codes "\"}")
        (omega arith) (source-Lacks health.source))

pub Reads-health :
    (sources : List SourceHealth)
    → Reads
        (map health_line sources)
        (map (λ health. (health_id health, bit_of health.unhealthy)) sources)
Reads-health [] = Reads-nil
Reads-health (health ∷ sources) =
    Reads-sample (health_id health) (bit_of health.unhealthy) _ _ refl (health_id-Lacks health)
      (ground arith) (Reads-health sources)

is_plain_longer : (s t : Text) → is_plain s ≡ true → is_plain (s ++ t) ≡ true
is_plain_longer [] t h = cc
is_plain_longer (c ∷ s) t h = h

module _ (s : TransferSeries) (plain : is_plain s.name ≡ true) (name : Lacks lf s.name) where
  transfer_id-Lacks : (stat : SourceTransferStat) → Lacks lf (transfer_id s.name stat)
  transfer_id-Lacks stat = All-append _ s.name _ name (
      All-append _ (codes "{backend=\"") _ (omega arith) (
        All-append _ (escape_label_value stat.backend) _ (escape_label_value-Lacks stat.backend)
          (All-append _ (codes "\",source=\"") _ (omega arith) (source-Lacks stat.source))))

  transfer_id-plain : (stat : SourceTransferStat) → is_plain (transfer_id s.name stat) ≡ true
  transfer_id-plain stat = is_plain_longer s.name _ plain

  Reads-transfers :
      (transfers : List SourceTransferStat)
      → All IsU64 (transfer_samples s.name s.value transfers)
      → Reads (map (transfer_line s) transfers) (transfer_samples s.name s.value transfers)
  Reads-transfers [] h = Reads-nil
  Reads-transfers (stat ∷ transfers) h =
      Reads-sample (transfer_id s.name stat) (s.value stat) _ _ (transfer_id-plain stat)
        (transfer_id-Lacks stat) h.0 (Reads-transfers transfers h.1)

pub Reads-transfer_series :
    (s : TransferSeries) (transfers : List SourceTransferStat) (ls : List Text)
    (ss : List (Text × ℕ))
    → (is_plain s.name && lacks_lf s.name && lacks_lf s.kind && lacks_lf s.help) ≡ true
    → All IsU64 (transfer_samples s.name s.value transfers)
    → Reads ls ss
    → Reads
        (help_line s.name s.help
          ∷ type_line s.name s.kind
          ∷ (map (transfer_line s) transfers ++ ls))
        (transfer_samples s.name s.value transfers ++ ss)
Reads-transfer_series s transfers ls ss fine h r =
    Reads-headers s.name s.kind s.help _ _ name (lacks_lf-Lacks s.kind (ground (arith, fine)))
      (lacks_lf-Lacks s.help (ground (arith, fine)))
      (Reads-append _ ls _ ss (Reads-transfers s (ground (arith, fine)) name transfers h) r)
  where
    name : Lacks lf s.name
    name = lacks_lf-Lacks s.name (ground (arith, fine))
