-- ===== src/Backend/Source/Selection.antt =====
-- Which addresses are selected, and in what order.
use iot_ftp_upload_gateway.Base.{
  ℕ, ◌≤◌, ◌<◌, ◌≡◌, refl, sym, ap, subst, ==_iff, ◌∙◌, Bool, ◌&&◌, List, [], ◌∷◌, arith, ◌==◌, any,
  keep, map, contains, Bool-cases, inl, inr,
}
use iot_ftp_upload_gateway.Net.{Ipv4Addr}
use iot_ftp_upload_gateway.Backend.Rotator.{insert_sorted, sort, dedup}
use iot_ftp_upload_gateway.Backend.Source.{
  InterfaceAddr, BackendSourceConfig, is_selected, select_sources,
}

contains-insert_sorted :
    (x y : ℕ) (ys : List ℕ) → contains x (insert_sorted y ys) ≡ contains x (y ∷ ys)
unfolding insert_sorted
contains-insert_sorted x y [] = refl
contains-insert_sorted x y (z ∷ zs) = ground (arith, contains-insert_sorted x y zs)

pub contains-sort : (x : ℕ) (xs : List ℕ) → contains x (sort xs) ≡ contains x xs
unfolding sort
contains-sort x [] = refl
contains-sort x (y ∷ ys) = ground (arith, contains-insert_sorted x y (sort ys), contains-sort x ys)

pub contains-dedup : (x : ℕ) (xs : List ℕ) → contains x (dedup xs) ≡ contains x xs
unfolding dedup
contains-dedup x [] = refl
contains-dedup x (y ∷ []) = refl
contains-dedup x (y ∷ z ∷ zs) = ground (arith, contains-dedup x (z ∷ zs))

-- Whether an address is that of a selected interface.
abbrev pub offers : BackendSourceConfig → Ipv4Addr → InterfaceAddr → Bool
offers config ip addr = is_selected config addr && addr.ip == ip

contains-keep :
    (p : InterfaceAddr → Bool) (ip : Ipv4Addr) (addrs : List InterfaceAddr)
    → contains ip (map (λ addr. addr.ip) (keep p addrs))
      ≡ any (λ addr. p addr && addr.ip == ip) addrs
contains-keep p ip [] = refl
contains-keep p ip (addr ∷ addrs) = ground (arith, contains-keep p ip addrs)

-- Each element is below all that follow, so that none stands twice.
abbrev pub Ascending : List ℕ → Type 0
Ascending [] = Unit
Ascending (x ∷ []) = Unit
Ascending (x ∷ y ∷ ys) = (x < y) × Ascending (y ∷ ys)

abbrev pub Ordered : List ℕ → Type 0
Ordered [] = Unit
Ordered (x ∷ []) = Unit
Ordered (x ∷ y ∷ ys) = (x ≤ y) × Ordered (y ∷ ys)

insert_sorted-Ordered : (x : ℕ) (ys : List ℕ) → Ordered ys → Ordered (insert_sorted x ys)
unfolding insert_sorted
insert_sorted-Ordered x [] h = tt
insert_sorted-Ordered x (y ∷ []) h = ground (arith)
insert_sorted-Ordered x (y ∷ z ∷ zs) h = ground (arith, h, insert_sorted-Ordered x (z ∷ zs) h.1)

sort-Ordered : (xs : List ℕ) → Ordered (sort xs)
unfolding sort
sort-Ordered [] = tt
sort-Ordered (x ∷ xs) = insert_sorted-Ordered x (sort xs) (sort-Ordered xs)

dedup_head : (y : ℕ) (ys : List ℕ) → (t : List ℕ) × (dedup (y ∷ ys) ≡ y ∷ t)
unfolding dedup
dedup_head y [] = ([], refl)
dedup_head y (z ∷ zs) = elim (Bool-cases (y == z)) [
  | inl same ↦
      let (t, e) = dedup_head z zs in
      (t, rw (same) (e ∙ ap (λ (n : ℕ). n ∷ t) (sym ((==_iff y z).0 same))))
  | inr apart ↦ (dedup (z ∷ zs), rw (apart) refl)
]

dedup-Ascending : (xs : List ℕ) → Ordered xs → Ascending (dedup xs)
unfolding dedup
dedup-Ascending [] h = tt
dedup-Ascending (x ∷ []) h = tt
dedup-Ascending (x ∷ y ∷ ys) h = elim (Bool-cases (x == y)) [
  | inl same ↦ rw (same) (dedup-Ascending (y ∷ ys) h.1)
  | inr apart ↦
      let (t, e) = dedup_head y ys in
      rw (apart, e) (ground (arith, h.0, apart), subst Ascending e (dedup-Ascending (y ∷ ys) h.1))
]

-- The selected addresses are in ascending order, each once, and are just those of the interfaces
-- that the configuration lets pass.
pub select_sources-offers :
    (addrs : List InterfaceAddr) (config : BackendSourceConfig) (ip : Ipv4Addr)
    → Ascending (select_sources addrs config)
      × (contains ip (select_sources addrs config) ≡ any (offers config ip) addrs)
unfolding select_sources
select_sources-offers addrs config ip =
    let given = map (λ (addr : InterfaceAddr). addr.ip) (keep (is_selected config) addrs) in
    (
      dedup-Ascending (sort given) (sort-Ordered given),
      contains-dedup ip (sort given)
          ∙ contains-sort ip given
          ∙ contains-keep (is_selected config) ip addrs,
    )
