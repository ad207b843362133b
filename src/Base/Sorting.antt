-- ===== src/Base/Sorting.antt =====
-- `sort_by` as an insertion sort, which like it is stable, and lists that differ in order only.
use mathlib.Core.Path.{◌≡◌, refl, ap, ◌∙◌}
use mathlib.Core.Bool.{Bool, true, false, ◌&&◌, ◌||◌}
use mathlib.Core.List.{List, [], ◌∷◌}
use native.Mathlib.Omega.{arith}
use iot_ftp_upload_gateway.Base.Tests.{if◌then◌else◌}
use iot_ftp_upload_gateway.Base.Lists.{All}

module _ {A : Type 0} where
  pub data Shuffle : List A → List A → Type 0 where
    unmoved : Shuffle [] []
    behind : (x : A) {xs ys : List A} → Shuffle xs ys → Shuffle (x ∷ xs) (x ∷ ys)
    swapped : (x y : A) (xs : List A) → Shuffle (x ∷ y ∷ xs) (y ∷ x ∷ xs)
    chained : {xs ys zs : List A} → Shuffle xs ys → Shuffle ys zs → Shuffle xs zs

  pub All-Shuffle : (P : A → Type 0) {xs ys : List A} → Shuffle xs ys → All P xs → All P ys
  All-Shuffle P unmoved h = tt
  All-Shuffle P (behind x s) h = (h.0, All-Shuffle P s h.1)
  All-Shuffle P (swapped x y xs) h = (h.1.0, (h.0, h.1.1))
  All-Shuffle P (chained s t) h = All-Shuffle P t (All-Shuffle P s h)

module _ {A : Type 0} (le : A → A → Bool) where
  unfoldable pub insert_by : A → List A → List A
  insert_by x [] = x ∷ []
  insert_by x (y ∷ ys) = let rest = insert_by x ys in if le x y then x ∷ y ∷ ys else y ∷ rest

  unfoldable pub sort_by : List A → List A
  sort_by [] = []
  sort_by (x ∷ xs) = insert_by x (sort_by xs)

  -- Of two elements one comes first.
  abbrev pub Apart : A → A → Type 0
  Apart x y = (le x y && le y x) ≡ false

  abbrev pub DistinctBy : List A → Type 0
  DistinctBy [] = Unit
  DistinctBy (x ∷ xs) = All (Apart x) xs × DistinctBy xs

  Apart-sym : (x y : A) → Apart x y → Apart y x
  Apart-sym x y h = ground arith

  DistinctBy-Shuffle : {xs ys : List A} → Shuffle xs ys → DistinctBy xs → DistinctBy ys
  DistinctBy-Shuffle unmoved h = tt
  DistinctBy-Shuffle (behind x s) h = (All-Shuffle (Apart x) s h.0, DistinctBy-Shuffle s h.1)
  DistinctBy-Shuffle (swapped x y xs) h = ((Apart-sym x y h.0.0, h.1.0), (h.0.1, h.1.1))
  DistinctBy-Shuffle (chained s t) h = DistinctBy-Shuffle t (DistinctBy-Shuffle s h)

  -- What an order of a sort is.
  pub record IsOrder : Type 0 where
    pub total : (x y : A) → (le x y || le y x) ≡ true
    pub trans : (x y z : A) → le x y ≡ true → le y z ≡ true → le x z ≡ true

  module _ (order : IsOrder) where
    insert_by_comm :
        (x y : A) (zs : List A)
        → Apart x y
        → insert_by x (insert_by y zs) ≡ insert_by y (insert_by x zs)
    unfolding insert_by
    insert_by_comm x y [] h = ground (arith, order.total x y)
    insert_by_comm x y (z ∷ zs) h =
        ground
          (arith, insert_by_comm x y zs h, order.total x y, order.trans x y z, order.trans y x z)

    -- Where no two elements have the same place, the order that they come in does not matter.
    pub sort_by-Shuffle : {xs ys : List A} → Shuffle xs ys → DistinctBy xs → sort_by xs ≡ sort_by ys
    unfolding sort_by
    sort_by-Shuffle unmoved d = refl
    sort_by-Shuffle (behind x s) d = ap (insert_by x) (sort_by-Shuffle s d.1)
    sort_by-Shuffle (swapped x y xs) d = insert_by_comm x y (sort_by xs) d.0.0
    sort_by-Shuffle (chained s t) d =
        sort_by-Shuffle s d ∙ sort_by-Shuffle t (DistinctBy-Shuffle s d)
