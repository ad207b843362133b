-- ===== src/Backend/Rotator/Refresh.antt =====
-- The addresses of a rotator over its life: `start`, and `refresh_once` on each new listing of the
-- host's interfaces. A listing is an argument.
use iot_ftp_upload_gateway.Base.{
  ℕ, ◌≡◌, refl, sym, ap, ◌∙◌, Bool, true, false, List, [], ◌∷◌, Option, none, some, ltb,
  if◌then◌else◌, contains, text_eq, text_eq_sound, lookup, lookup-retain, number_key, Bool-cases,
  inl, inr,
}
use iot_ftp_upload_gateway.Io.{ErrorKind, IoResult, ok, err}
use iot_ftp_upload_gateway.Net.{Ipv4Addr}
use iot_ftp_upload_gateway.Backend.Rotator.{State, sort, dedup, new, set_sources, is_unhealthy}
use iot_ftp_upload_gateway.Backend.Source.{InterfaceAddr, BackendSourceConfig, resolve_sources}

-- How a start ends: the rotator, or one of the two errors that stop the gateway.
pub data Started : Type 0 where
  started : State → Started
  no_usable_sources : Started
  listing_failed : ErrorKind → Started

abbrev pub start_with : IoResult (List Ipv4Addr) → Started
start_with (err kind) = listing_failed kind
start_with (ok []) = no_usable_sources
start_with (ok (ip ∷ ips)) = started (new (ip ∷ ips))

unfoldable pub start : IoResult (List InterfaceAddr) → BackendSourceConfig → Started
start listing config = start_with (resolve_sources listing config)

abbrev pub refresh_with : IoResult (List Ipv4Addr) → State → State
refresh_with (err kind) state = state
refresh_with (ok []) state = state
refresh_with (ok (ip ∷ ips)) state = (set_sources (ip ∷ ips) state).1

unfoldable pub refresh_once : IoResult (List InterfaceAddr) → BackendSourceConfig → State → State
refresh_once listing config state = refresh_with (resolve_sources listing config) state

-- The addresses that a listing leaves: its own, or the previous ones where it has none.
abbrev pub latest : IoResult (List Ipv4Addr) → List Ipv4Addr → List Ipv4Addr
latest (err kind) previous = previous
latest (ok []) previous = previous
latest (ok (ip ∷ ips)) previous = dedup (sort (ip ∷ ips))

set_sources-sources :
    (given : List Ipv4Addr) (state : State)
    → (set_sources given state).1.sources ≡ dedup (sort given)
unfolding set_sources
set_sources-sources given state = elim (Bool-cases (text_eq state.sources (dedup (sort given)))) [
  | inl same ↦ rw (same) (text_eq_sound state.sources (dedup (sort given)) same)
  | inr changed ↦ rw (changed) refl
]

set_sources-backends :
    (given : List Ipv4Addr) (state : State) → (set_sources given state).1.backends ≡ state.backends
unfolding set_sources
set_sources-backends given state = elim (Bool-cases (text_eq state.sources (dedup (sort given)))) [
  | inl same ↦ rw (same) refl
  | inr changed ↦ rw (changed) refl
]

set_sources-is_unhealthy :
    (given : List Ipv4Addr) (state : State) (ip : Ipv4Addr) (now : ℕ)
    → contains ip (dedup (sort given)) ≡ true
    → is_unhealthy (set_sources given state).1 ip now ≡ is_unhealthy state ip now
unfolding set_sources is_unhealthy
set_sources-is_unhealthy given state ip now listed =
    let sources = dedup (sort given) in
    elim (Bool-cases (text_eq state.sources sources)) [
      | inl same ↦ rw (same) refl
      | inr changed ↦ rw (changed) (
          ap (λ (found : Option ℕ). elim found [ none ↦ false | some until ↦ ltb now until ])
            (lookup-retain (λ j. contains j sources) ip state.unhealthy
              ∙ ap (λ (c : Bool). if c then lookup ip state.unhealthy else none) listed))
    ]

-- A refresh takes over the addresses of its listing, in order and without repetition; where the
-- listing fails or has no usable address, the previous ones stay. What is known of the health of
-- an address that stays or comes is kept, and so is the accounting of the transfers.
pub refresh_once-latest :
    (listing : IoResult (List InterfaceAddr)) (config : BackendSourceConfig) (state : State)
    → ((refresh_once listing config state).sources
        ≡ latest (resolve_sources listing config) state.sources)
      × ((refresh_once listing config state).backends ≡ state.backends)
      × ((ip : Ipv4Addr) (now : ℕ)
          → contains ip (refresh_once listing config state).sources ≡ true
          → is_unhealthy (refresh_once listing config state) ip now ≡ is_unhealthy state ip now)
unfolding refresh_once
refresh_once-latest listing config state = on_listing (resolve_sources listing config)
  where
    on_listing :
        (given : IoResult (List Ipv4Addr))
        → ((refresh_with given state).sources ≡ latest given state.sources)
          × ((refresh_with given state).backends ≡ state.backends)
          × ((ip : Ipv4Addr) (now : ℕ)
              → contains ip (refresh_with given state).sources ≡ true
              → is_unhealthy (refresh_with given state) ip now ≡ is_unhealthy state ip now)
    on_listing (err kind) = (refl, refl, λ ip now h. refl)
    on_listing (ok []) = (refl, refl, λ ip now h. refl)
    on_listing (ok (x ∷ xs)) = (
      set_sources-sources (x ∷ xs) state,
      set_sources-backends (x ∷ xs) state,
      λ ip now h.
          set_sources-is_unhealthy (x ∷ xs) state ip now
            (sym (ap (contains ip) (set_sources-sources (x ∷ xs) state)) ∙ h),
    )
