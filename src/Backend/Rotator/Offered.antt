-- ===== src/Backend/Rotator/Offered.antt =====
-- The operations of a rotator in any order, and what they always leave: a source address to try.
use iot_ftp_upload_gateway.Base.{
  ℕ, zero, suc, ◌%◌, ◌<◌, ◌≡◌, refl, sym, subst, ◌∙◌, Bool, true, not, List, [], ◌∷◌, ◌++◌, Option,
  none, some, arith, length, length-append, all, keep, take, drop, contains, Text, lookup, text_key,
  number_key, Bool-cases, inl, inr,
}
use iot_ftp_upload_gateway.Io.{ErrorKind, IoResult, ok, err}
use iot_ftp_upload_gateway.Net.{Ipv4Addr}
use iot_ftp_upload_gateway.Backend.Rotator.{
  State, sort, dedup, new, Wait, permit, closed, elapsed, SlotState, BackendState, update_backend,
  ensure_slot, count_timeout, count_started, is_source_fault, mark_unhealthy_at, acquire_data_slot,
  drop_data_slot, report_connect_failure, candidates_at, advances_of, is_unhealthy,
}
use iot_ftp_upload_gateway.Backend.Rotator.Candidates.{rotate, preferred, candidates_at-rotate}
use iot_ftp_upload_gateway.Backend.Rotator.Refresh.{
  started, start, start_with, refresh_once, refresh_once-latest, latest,
}
use iot_ftp_upload_gateway.Backend.Source.{InterfaceAddr, BackendSourceConfig, resolve_sources}
use iot_ftp_upload_gateway.Backend.Source.Selection.{contains-dedup, contains-sort}

pub data Step (s t : State) : Type 0 where
  refreshes :
      (listing : IoResult (List InterfaceAddr)) (config : BackendSourceConfig)
      → t ≡ refresh_once listing config s
      → Step s t
  fails :
      (source : Ipv4Addr) (kind : ErrorKind) (now : ℕ)
      → t ≡ (report_connect_failure source kind now s).1
      → Step s t
  claims :
      (backend : Text) (wanted : ℕ) (source : Ipv4Addr) (wait : Wait)
      → t ≡ (acquire_data_slot backend wanted source wait s).1
      → Step s t
  ends : (backend : Text) (source : Ipv4Addr) → t ≡ drop_data_slot backend source s → Step s t

-- What the operations lead to from a start.
pub data Reach : State → Type 0 where
  begins :
      {s : State} (listing : IoResult (List InterfaceAddr)) (config : BackendSourceConfig)
      → start listing config ≡ started s
      → Reach s
  next : {s t : State} → Reach s → Step s t → Reach t

abbrev pub IsNonempty : List Ipv4Addr → Type 0
IsNonempty xs = 0 < length xs

update_backend-sources :
    (backend : Text) (source : Ipv4Addr) (f : SlotState → SlotState) (b : Option BackendState)
    (s : State)
    → (update_backend backend source f b s).sources ≡ s.sources
update_backend-sources backend source f none s = refl
update_backend-sources backend source f (some b) s = refl

acquire_data_slot-sources :
    (backend : Text) (wanted : ℕ) (source : Ipv4Addr) (wait : Wait) (s : State)
    → (acquire_data_slot backend wanted source wait s).1.sources ≡ s.sources
unfolding acquire_data_slot ensure_slot count_started count_timeout
acquire_data_slot-sources backend wanted source permit s = refl
acquire_data_slot-sources backend wanted source closed s = refl
acquire_data_slot-sources backend wanted source elapsed s =
    update_backend-sources backend source _ (lookup backend _) _

drop_data_slot-sources :
    (backend : Text) (source : Ipv4Addr) (s : State)
    → (drop_data_slot backend source s).sources ≡ s.sources
unfolding drop_data_slot
drop_data_slot-sources backend source s =
    update_backend-sources backend source _ (lookup backend s.backends) s

report_connect_failure-sources :
    (source : Ipv4Addr) (kind : ErrorKind) (now : ℕ) (s : State)
    → (report_connect_failure source kind now s).1.sources ≡ s.sources
unfolding report_connect_failure mark_unhealthy_at
report_connect_failure-sources source kind now s = elim (Bool-cases (is_source_fault kind)) [
  | inl fault ↦ rw (fault) refl
  | inr other ↦ rw (other) refl
]

-- A list that holds an element is not empty.
contains-IsNonempty : (x : ℕ) (xs : List ℕ) → contains x xs ≡ true → IsNonempty xs
contains-IsNonempty x [] h = cc
contains-IsNonempty x (y ∷ ys) h = omega arith

sorted-IsNonempty : (x : ℕ) (xs : List ℕ) → IsNonempty (dedup (sort (x ∷ xs)))
sorted-IsNonempty x xs =
    contains-IsNonempty x (dedup (sort (x ∷ xs)))
      (contains-dedup x (sort (x ∷ xs)) ∙ contains-sort x (x ∷ xs) ∙ ground arith)

latest-IsNonempty :
    (given : IoResult (List Ipv4Addr)) (previous : List Ipv4Addr)
    → IsNonempty previous
    → IsNonempty (latest given previous)
latest-IsNonempty (err kind) previous h = h
latest-IsNonempty (ok []) previous h = h
latest-IsNonempty (ok (x ∷ xs)) previous h = sorted-IsNonempty x xs

pub start_with-IsNonempty :
    (given : IoResult (List Ipv4Addr)) (s : State)
    → start_with given ≡ started s
    → IsNonempty s.sources
unfolding new
start_with-IsNonempty (err kind) s h = cc
start_with-IsNonempty (ok []) s h = cc
start_with-IsNonempty (ok (x ∷ xs)) s h =
    let same : new (x ∷ xs) ≡ s = cc in
    subst (λ (r : State). IsNonempty r.sources) same (sorted-IsNonempty x xs)

Step-IsNonempty : (s t : State) → Step s t → IsNonempty s.sources → IsNonempty t.sources
Step-IsNonempty s t (refreshes listing config e) h = rw e (
    subst IsNonempty (sym (refresh_once-latest listing config s).0)
      (latest-IsNonempty (resolve_sources listing config) s.sources h))
Step-IsNonempty s t (fails source kind now e) h =
    rw (e, report_connect_failure-sources source kind now s) h
Step-IsNonempty s t (claims backend wanted source wait e) h =
    rw (e, acquire_data_slot-sources backend wanted source wait s) h
Step-IsNonempty s t (ends backend source e) h = rw (e, drop_data_slot-sources backend source s) h

Reach-IsNonempty : (s : State) → Reach s → IsNonempty s.sources
unfolding start
Reach-IsNonempty s (begins listing config e) =
    start_with-IsNonempty (resolve_sources listing config) s e
Reach-IsNonempty _ (next {s} {t} r step) = Step-IsNonempty s t step (Reach-IsNonempty s r)

module _ (q : ℕ → Bool) where
  all-keep : (p : ℕ → Bool) (xs : List ℕ) → all q xs ≡ true → all q (keep p xs) ≡ true
  all-keep p [] h = h
  all-keep p (x ∷ xs) h = ground (arith, all-keep p xs)

  all-append : (xs ys : List ℕ) → all q xs ≡ true → all q ys ≡ true → all q (xs ++ ys) ≡ true
  all-append [] ys hx hy = hy
  all-append (x ∷ xs) ys hx hy = ground (arith, all-append xs ys)

  all-drop : (k : ℕ) (xs : List ℕ) → all q xs ≡ true → all q (drop k xs) ≡ true
  all-drop zero xs h = h
  all-drop (suc k) [] h = h
  all-drop (suc k) (x ∷ xs) h = ground (arith, all-drop k xs)

  all-take : (k : ℕ) (xs : List ℕ) → all q xs ≡ true → all q (take k xs) ≡ true
  all-take zero xs h = refl
  all-take (suc k) [] h = h
  all-take (suc k) (x ∷ xs) h = ground (arith, all-take k xs)

  all-rotate : (k : ℕ) (xs : List ℕ) → all q xs ≡ true → all q (rotate k xs) ≡ true
  all-rotate k xs h = all-append (drop k xs) (take k xs) (all-drop k xs h) (all-take k xs h)

  all-preferred : (p : ℕ → Bool) (xs : List ℕ) → all q xs ≡ true → all q (preferred p xs) ≡ true
  all-preferred p xs h = ground (arith, all-keep p xs)

length-rotate : (k : ℕ) (xs : List ℕ) → length (rotate k xs) ≡ length xs
length-rotate zero xs = length-append xs [] ∙ omega arith
length-rotate (suc k) [] = refl
length-rotate (suc k) (x ∷ xs) =
    length-append (drop k xs) (x ∷ take k xs)
    ∙ omega (arith, length-append (drop k xs) (take k xs), length-rotate k xs)

preferred-IsNonempty : (p : ℕ → Bool) (xs : List ℕ) → IsNonempty xs → IsNonempty (preferred p xs)
preferred-IsNonempty p xs h = ground (arith, h)

all-weaken :
    (x : ℕ) (xs ys : List ℕ)
    → all (λ y. contains y xs) ys ≡ true
    → all (λ y. contains y (x ∷ xs)) ys ≡ true
all-weaken x xs [] h = h
all-weaken x xs (y ∷ ys) h = ground (arith, all-weaken x xs ys)

all-contains : (xs : List ℕ) → all (λ x. contains x xs) xs ≡ true
all-contains [] = refl
all-contains (x ∷ xs) = ground (arith, all-weaken x xs xs (all-contains xs))

-- After a start that succeeds, whatever the later listings of the interfaces, the failures of
-- connections and the transfers, in any order, a new session always has a source address to try,
-- and each that it is given is one of the current addresses.
pub Reach-candidates_at :
    (s : State) (backend : Text) (now : ℕ)
    → Reach s
    → (0 < length (candidates_at backend now s))
      × (all (λ ip. contains ip s.sources) (candidates_at backend now s) ≡ true)
Reach-candidates_at s backend now r =
    let k = advances_of backend s % length s.sources in
    let healthy = λ (ip : Ipv4Addr). not (is_unhealthy s ip now) in
    let listed = λ (ip : Ipv4Addr). contains ip s.sources in
    let some_source = Reach-IsNonempty s r in
    rw (candidates_at-rotate backend now s some_source) (
      preferred-IsNonempty healthy (rotate k s.sources)
          (subst (λ n. 0 < n) (sym (length-rotate k s.sources)) some_source),
      all-preferred listed healthy (rotate k s.sources)
          (all-rotate listed k s.sources (all-contains s.sources)),
    )
