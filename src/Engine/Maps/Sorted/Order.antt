-- ===== src/Engine/Maps/Sorted/Order.antt =====
-- internal/engine/memory/zset.go: what is relied on of `sort.Slice` and of the scores, and what it is
-- for the entries of a sorted set to be in order.
use mathlib.Core.List.{Perm}
use autocache.Prelude.{
  ℕ, ◌≤◌, ◌≡◌, refl, sym, ◌∙◌, arith, if◌then◌else◌, String, Bool, true, false, List, [], ◌∷◌, All,
  ltb, ◌==◌,
}
use autocache.Engine.Maps.Sorted.{SortSlice, member_less}

-- What is documented of an order by `<`, of the elements that `P` takes: no two are less than each
-- other, and what is not less goes on.
pub record IsOrder {A : Type 0} (P : A → Type 0) (less : A → A → Bool) : Type 0 where
  pub asym : (x y : A) → P x → P y → less x y ≡ true → less y x ≡ false
  pub through :
      (x y z : A) → P x → P y → P z → less y x ≡ false → less z y ≡ false → less z x ≡ false

-- None is less than one before it.
unfoldable pub IsSorted : {A : Type 0} → (A → A → Bool) → List A → Type 0
IsSorted less [] = Unit
IsSorted less (x ∷ xs) = All (λ y. less y x ≡ false) xs × IsSorted less xs

-- What is documented of `sort.Slice`: it puts the elements in another order, and if the comparison is
-- an order of them then in this one.
pub record IsSort {S : Type 0} (sort_slice : SortSlice S) : Type 1 where
  pub perm :
      (less : (String × S) → (String × S) → Bool) (es : List (String × S))
      → Perm es (sort_slice less es)
  pub keeps :
      (P : (String × S) → Type 0) (less : (String × S) → (String × S) → Bool)
      (es : List (String × S))
      → All P es
      → All P (sort_slice less es)
  pub in_order :
      (P : (String × S) → Type 0) (less : (String × S) → (String × S) → Bool)
      (es : List (String × S))
      → IsOrder P less
      → All P es
      → IsSorted less (sort_slice less es)

-- The scores that `number` takes, float64 without NaN, are compared as their ranks: there are finitely
-- many of them, in an order.
pub record IsRanked {S : Type 0} (number : S → Type 0) (rank : S → ℕ)
    (score_eq score_less : S → S → Bool) : Type 0 where
  pub equal : (v w : S) → number v → number w → score_eq v w ≡ (rank v == rank w)
  pub lower : (v w : S) → number v → number w → score_less v w ≡ ltb (rank v) (rank w)

-- The scores go up, and members of one score go up by `less`.
unfoldable pub GoesUp :
    {S : Type 0} → (String → String → Bool) → (S → ℕ) → List (String × S) → Type 0
GoesUp less rank [] = Unit
GoesUp less rank ((f, v) ∷ es) =
    All (λ (g, w). (rank v ≤ rank w) × (rank v ≡ rank w → less g f ≡ false)) es
    × GoesUp less rank es

module _ {S : Type 0} (less : String → String → Bool) (number : S → Type 0) (rank : S → ℕ)
    (score_eq score_less : S → S → Bool) (o : IsOrder (λ f. Unit) less)
    (r : IsRanked number rank score_eq score_less) where
  -- The comparison of entries, by the ranks of the scores.
  ranked :
      (f g : String) (v w : S)
      → number v
      → number w
      → member_less less score_eq score_less (f, v) (g, w)
        ≡ (if rank v == rank w then less f g else ltb (rank v) (rank w))
  ranked f g v w nv nw = rw (r.equal v w nv nw, r.lower v w nv nw) refl

  pub member_less-IsOrder :
      IsOrder (λ (e : String × S). number e.1) (member_less less score_eq score_less)
  member_less-IsOrder = record {
    asym = λ (f, v) (g, w) nv nw e.
        ranked g f w v nw nv ∙ ground (arith, sym (ranked f g v w nv nw) ∙ e, o.asym f g tt tt);
    through = λ (f, v) (g, w) (h, u) nv nw nu p q.
        ranked h f u v nu nv
        ∙ ground (
          arith,
          sym (ranked g f w v nw nv) ∙ p,
          sym (ranked h g u w nu nw) ∙ q,
          o.through f g h tt tt tt,
        );
  }

  one_after :
      (f g : String) (v w : S)
      → (if rank w == rank v then less g f else ltb (rank w) (rank v)) ≡ false
      → (rank v ≤ rank w) × (rank v ≡ rank w → less g f ≡ false)
  one_after f g v w e = (ground (arith, e), λ same. ground (arith, e, same))

  after_all :
      (f : String) (v : S) (es : List (String × S))
      → number v
      → All (λ (e : String × S). number e.1) es
      → All (λ y. member_less less score_eq score_less y (f, v) ≡ false) es
      → All (λ (g, w). (rank v ≤ rank w) × (rank v ≡ rank w → less g f ≡ false)) es
  after_all f v [] n ns h = tt
  after_all f v ((g, w) ∷ es) n (m, ns) (p, h) =
      (one_after f g v w (sym (ranked g f w v m n) ∙ p), after_all f v es n ns h)

  pub IsSorted-GoesUp :
      (es : List (String × S))
      → All (λ (e : String × S). number e.1) es
      → IsSorted (member_less less score_eq score_less) es
      → GoesUp less rank es
  unfolding IsSorted GoesUp
  IsSorted-GoesUp [] ns h = tt
  IsSorted-GoesUp ((f, v) ∷ es) (n, ns) (p, h) = (after_all f v es n ns p, IsSorted-GoesUp es ns h)
