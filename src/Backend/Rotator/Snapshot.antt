-- ===== src/Backend/Rotator/Snapshot.antt =====
-- `snapshot_at`: the health of the sources and the accounting of the transfers, for the metrics.
use iot_ftp_upload_gateway.Base.{
  ℕ, ◌-◌, ◌≡◌, refl, ap, ◌∙◌, Bool, true, false, ◌&&◌, ◌||◌, List, [], ◌∷◌, ◌++◌, map, arith, ltb,
  leb, ◌==◌, Text, text_eq, text_eq_iff, sort_by, Shuffle, DistinctBy, IsOrder, sort_by-Shuffle,
}
use mathlib.Core.Path.{ap₂}
use iot_ftp_upload_gateway.Net.{Ipv4Addr}
use iot_ftp_upload_gateway.Backend.Rotator.{State, BackendState, SlotState, is_unhealthy}

pub record SourceHealth : Type 0 where
  pub source : Ipv4Addr
  pub unhealthy : Bool

pub record SourceTransferStat : Type 0 where
  pub backend : Text
  pub source : Ipv4Addr
  pub capacity : ℕ
  pub active : ℕ
  pub started_total : ℕ
  pub slot_timeouts_total : ℕ

pub record RotatorSnapshot : Type 0 where
  pub sources : List SourceHealth
  pub transfers : List SourceTransferStat

abbrev health_of : Ipv4Addr → Bool → SourceHealth
health_of ip unhealthy = record { source = ip; unhealthy = unhealthy }

-- `saturating_sub` is the subtraction of the numbers.
abbrev pub stat_of : Text → Ipv4Addr × SlotState → SourceTransferStat
stat_of backend (source, slot) = record {
  backend = backend;
  source = source;
  capacity = slot.capacity;
  active = slot.capacity - slot.available_permits;
  started_total = slot.started_total;
  slot_timeouts_total = slot.slot_timeouts_total;
}

-- The `flat_map`.
abbrev pub stats_of : List (Text × BackendState) → List SourceTransferStat
stats_of [] = []
stats_of ((backend, b) ∷ backends) = map (stat_of backend) b.slots ++ stats_of backends

-- `cmp` of texts; the order of code points is that of their bytes in UTF-8.
abbrev pub text_lt : Text → Text → Bool
text_lt [] [] = false
text_lt [] (d ∷ t) = true
text_lt (c ∷ s) [] = false
text_lt (c ∷ s) (d ∷ t) = ltb c d || c == d && text_lt s t

-- `(&a.backend, a.source) <= (&b.backend, b.source)`.
abbrev pub stat_le : SourceTransferStat → SourceTransferStat → Bool
stat_le a b = text_lt a.backend b.backend || text_eq a.backend b.backend && leb a.source b.source

unfoldable pub snapshot_at : ℕ → State → RotatorSnapshot
snapshot_at now state = record {
  sources = map (λ ip. health_of ip (is_unhealthy state ip now)) state.sources;
  transfers = sort_by stat_le (stats_of state.backends);
}

text_total : (s t : Text) → (text_lt s t || text_lt t s || text_eq s t) ≡ true
text_total [] [] = refl
text_total [] (d ∷ t) = refl
text_total (c ∷ s) [] = refl
text_total (c ∷ s) (d ∷ t) = ground (arith, text_total s t)

text_lt_trans : (s t u : Text) → text_lt s t ≡ true → text_lt t u ≡ true → text_lt s u ≡ true
text_lt_trans [] [] u h k = cc
text_lt_trans [] (d ∷ t) [] h k = cc
text_lt_trans [] (d ∷ t) (e ∷ u) h k = refl
text_lt_trans (c ∷ s) [] u h k = cc
text_lt_trans (c ∷ s) (d ∷ t) [] h k = cc
text_lt_trans (c ∷ s) (d ∷ t) (e ∷ u) h k = ground (arith, text_lt_trans s t u)

text_eq-sym : (s t : Text) → text_eq s t ≡ text_eq t s
text_eq-sym [] [] = refl
text_eq-sym [] (d ∷ t) = refl
text_eq-sym (c ∷ s) [] = refl
text_eq-sym (c ∷ s) (d ∷ t) = ground (arith, text_eq-sym s t)

stat_le-total : (a b : SourceTransferStat) → (stat_le a b || stat_le b a) ≡ true
stat_le-total a b = ground (arith, text_total a.backend b.backend, text_eq-sym a.backend b.backend)

stat_le_trans :
    (a b c : SourceTransferStat) → stat_le a b ≡ true → stat_le b c ≡ true → stat_le a c ≡ true
stat_le_trans a b c h k = ground (
  arith,
  text_lt_trans a.backend b.backend c.backend,
  text_eq_iff a.backend b.backend,
  text_eq_iff b.backend c.backend,
  text_eq_iff a.backend c.backend,
)

stat_le-IsOrder : IsOrder stat_le
stat_le-IsOrder = record { total = stat_le-total; trans = stat_le_trans }

map-health :
    (now : ℕ) (s t : State) (ips : List Ipv4Addr)
    → ((ip : Ipv4Addr) → is_unhealthy s ip now ≡ is_unhealthy t ip now)
    → map (λ ip. health_of ip (is_unhealthy s ip now)) ips
      ≡ map (λ ip. health_of ip (is_unhealthy t ip now)) ips
map-health now s t [] h = refl
map-health now s t (ip ∷ ips) h = ap₂ ◌∷◌ (ap (health_of ip) (h ip)) (map-health now s t ips h)

-- The tables of the source are hashed, so that their entries come in any order. Two states with the
-- same addresses, the same health of each, and the same entries in whatever order have the same
-- snapshot, if no pair of a backend and an address stands twice.
pub snapshot_at-Shuffle :
    (now : ℕ) (s t : State)
    → s.sources ≡ t.sources
    → ((ip : Ipv4Addr) → is_unhealthy s ip now ≡ is_unhealthy t ip now)
    → Shuffle (stats_of s.backends) (stats_of t.backends)
    → DistinctBy stat_le (stats_of s.backends)
    → snapshot_at now s ≡ snapshot_at now t
unfolding snapshot_at
snapshot_at-Shuffle now s t same_sources same_health shuffled distinct =
    ap₂ (λ sources transfers. record { sources = sources; transfers = transfers })
      (map-health now s t s.sources same_health
        ∙ ap (map (λ ip. health_of ip (is_unhealthy t ip now))) same_sources)
      (sort_by-Shuffle stat_le stat_le-IsOrder shuffled distinct)
