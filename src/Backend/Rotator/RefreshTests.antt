-- ===== src/Backend/Rotator/RefreshTests.antt =====
-- A host whose listing fails after the start, and one that gets a second address.
use iot_ftp_upload_gateway.Base.{
  ℕ, ◌<◌, ◌≡◌, refl, true, List, [], ◌∷◌, codes, length, all, contains, Text, ◌+◌, swapped, arith,
}
use iot_ftp_upload_gateway.Io.{IoResult, ok, err, timed_out, other}
use iot_ftp_upload_gateway.Net.{Ipv4Addr, from_octets}
use iot_ftp_upload_gateway.Backend.Rotator.{
  State, SlotState, BackendState, new, sort, insert_sorted, dedup, candidates_at,
  report_connect_failure, is_unhealthy,
}
use iot_ftp_upload_gateway.Backend.Rotator.Refresh.{
  start, started, refresh_once, refresh_once-latest, latest,
}
use iot_ftp_upload_gateway.Backend.Rotator.Offered.{
  begins, next, fails, refreshes, Reach-candidates_at,
}
use iot_ftp_upload_gateway.Backend.Rotator.Snapshot.{snapshot_at, snapshot_at-Shuffle}
use iot_ftp_upload_gateway.Backend.Source.{
  InterfaceAddr, BackendSourceConfig, select_sources, resolve_sources, matches_any, matches_name,
  glob_match, glob_loop,
}

abbrev automatic : BackendSourceConfig
automatic = record { include_interfaces = []; exclude_interfaces = [] }

abbrev named : BackendSourceConfig
named = record { include_interfaces = codes "ens5" ∷ []; exclude_interfaces = [] }

abbrev address : Ipv4Addr
address = from_octets 10 0 0 5

abbrev listing : IoResult (List InterfaceAddr)
listing = ok (record { interface = codes "ens5"; ip = address } ∷ [])

abbrev backend : Text
backend = codes "ftp:21"

abbrev running : State
running = new (address ∷ [])

abbrev failed : State
failed = (report_connect_failure address timed_out 100 running).1

abbrev relisted : State
relisted = refresh_once (err other) named failed

starts : start listing named ≡ started running
unfolding start resolve_sources select_sources matches_any matches_name glob_match glob_loop dedup
    sort insert_sorted
starts = refl

Reach-candidates_at_example :
    (0 < length (candidates_at backend 200 relisted))
    × (all (λ ip. contains ip relisted.sources) (candidates_at backend 200 relisted) ≡ true)
Reach-candidates_at_example = Reach-candidates_at relisted backend 200 (
    next (next (begins listing named starts) (fails address timed_out 100 refl))
      (refreshes (err other) named refl))

refresh_once-latest_example :
    ((refresh_once listing named failed).sources
      ≡ latest (resolve_sources listing named) failed.sources)
    × ((refresh_once listing named failed).backends ≡ failed.backends)
    × ((ip : Ipv4Addr) (now : ℕ)
        → contains ip (refresh_once listing named failed).sources ≡ true
        → is_unhealthy (refresh_once listing named failed) ip now ≡ is_unhealthy failed ip now)
refresh_once-latest_example = refresh_once-latest listing named failed

abbrev slot : SlotState
slot = record { available_permits = 1; capacity = 2; started_total = 5; slot_timeouts_total = 0 }

abbrev serving : List (Text × BackendState)
serving =
    (
      backend,
      record {
        advances = 0;
        started_in_cycle = 1;
        slots = (address, slot) ∷ (address + 1, slot) ∷ [];
      },
    )
    ∷ []

abbrev serving_swapped : List (Text × BackendState)
serving_swapped =
    (
      backend,
      record {
        advances = 0;
        started_in_cycle = 1;
        slots = (address + 1, slot) ∷ (address, slot) ∷ [];
      },
    )
    ∷ []

snapshot_at-Shuffle_example :
    snapshot_at 0 (record running { backends = serving })
    ≡ snapshot_at 0 (record running { backends = serving_swapped })
snapshot_at-Shuffle_example =
    snapshot_at-Shuffle 0 (record running { backends = serving })
      (record running { backends = serving_swapped }) refl (λ ip. unfold is_unhealthy in refl)
      (swapped _ _ []) ((ground arith, tt), (tt, tt))
