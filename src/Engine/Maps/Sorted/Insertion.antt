-- ===== src/Engine/Maps/Sorted/Insertion.antt =====
-- A sort by insertion, as a `sort.Slice` that keeps what is documented of it.
use mathlib.Core.List.Perm
use mathlib.Core.List.{Perm}
use autocache.Prelude.{◌≡◌, Bool, false, List, [], ◌∷◌, All, if_keeps, if_keeps_on, if◌then◌else◌}
use autocache.Engine.Maps.Sorted.Order.{IsOrder, IsSorted, IsSort}

module _ {A : Type 0} (less : A → A → Bool) where
  unfoldable pub insert_sorted : A → List A → List A
  insert_sorted x [] = x ∷ []
  insert_sorted x (y ∷ ys) =
      let rest = insert_sorted x ys in if less x y then x ∷ y ∷ ys else y ∷ rest

  unfoldable pub sort : List A → List A
  unfolding insert_sorted
  sort [] = []
  sort (x ∷ xs) = insert_sorted x (sort xs)

  insert_sorted-All :
      (P : A → Type 0) (x : A) (xs : List A) → P x → All P xs → All P (insert_sorted x xs)
  unfolding insert_sorted
  insert_sorted-All P x [] p h = (p, tt)
  insert_sorted-All P x (y ∷ ys) p (q, h) =
      if_keeps (All P) (less x y) (p, (q, h)) (q, insert_sorted-All P x ys p h)

  sort-All : (P : A → Type 0) (xs : List A) → All P xs → All P (sort xs)
  unfolding sort
  sort-All P [] h = tt
  sort-All P (x ∷ xs) (p, h) = insert_sorted-All P x (sort xs) p (sort-All P xs h)

  weaken :
      (P : A → Type 0) (x y : A) (ys : List A)
      → IsOrder P less
      → P x
      → P y
      → All P ys
      → less y x ≡ false
      → All (λ z. less z y ≡ false) ys
      → All (λ z. less z x ≡ false) ys
  weaken P x y [] o px py ps e h = tt
  weaken P x y (z ∷ ys) o px py (pz, ps) e (p, h) =
      (o.through x y z px py pz e p, weaken P x y ys o px py ps e h)

  insert_sorted-IsSorted :
      (P : A → Type 0) (x : A) (xs : List A)
      → IsOrder P less
      → P x
      → All P xs
      → IsSorted less xs
      → IsSorted less (insert_sorted x xs)
  unfolding insert_sorted IsSorted
  insert_sorted-IsSorted P x [] o px ps h = (tt, tt)
  insert_sorted-IsSorted P x (y ∷ ys) o px (py, ps) (p, h) =
      if_keeps_on (IsSorted less) (less x y)
        (λ e. ((o.asym x y px py e, weaken P x y ys o px py ps (o.asym x y px py e) p), (p, h)))
        (λ e. (
          insert_sorted-All (λ z. less z y ≡ false) x ys e p,
          insert_sorted-IsSorted P x ys o px ps h,
        ))

  sort-IsSorted :
      (P : A → Type 0) (xs : List A) → IsOrder P less → All P xs → IsSorted less (sort xs)
  unfolding sort IsSorted
  sort-IsSorted P [] o h = tt
  sort-IsSorted P (x ∷ xs) o (p, h) =
      insert_sorted-IsSorted P x (sort xs) o p (sort-All P xs h) (sort-IsSorted P xs o h)

  insert_sorted-Perm : (x : A) (xs : List A) → Perm (x ∷ xs) (insert_sorted x xs)
  unfolding insert_sorted
  insert_sorted-Perm x [] = Perm.refl (x ∷ [])
  insert_sorted-Perm x (y ∷ ys) =
      if_keeps (Perm (x ∷ y ∷ ys)) (less x y) (Perm.refl (x ∷ y ∷ ys))
        (Perm.trans (Perm.swap y x ys) (Perm.cons y (insert_sorted-Perm x ys)))

  sort-Perm : (xs : List A) → Perm xs (sort xs)
  unfolding sort
  sort-Perm [] = Perm.nil
  sort-Perm (x ∷ xs) = Perm.trans (Perm.cons x (sort-Perm xs)) (insert_sorted-Perm x (sort xs))

pub sort-IsSort : {S : Type 0} → IsSort {S = S} sort
sort-IsSort = record {
  perm = λ less es. sort-Perm less es;
  keeps = λ P less es h. sort-All less P es h;
  in_order = λ P less es o h. sort-IsSorted less P es o h;
}
