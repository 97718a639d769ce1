-- ===== src/Engine/Maps/Sorted/Ranks.antt =====
-- internal/engine/memory/zset.go: the ranges and the ranks of a sorted set.
use mathlib.Core.List.{Perm}
use autocache.Prelude.{
  ℕ, suc, ◌+◌, ◌-◌, ◌<◌, ◌≤◌, ◌≡◌, ap, subst, String, str_eq, eq_iff, Bool, Option, none, some,
  List, [], ◌∷◌, map, length, take, drop, arith, pos, if_keeps_on,
}
use autocache.Engine.Objects.{Store, key_not_found, Result, ok, failed}
use autocache.Engine.Lists.{normalize_range, slice}
use autocache.Engine.Maps.Sorted.{
  SortSlice, reverse, part_of, rank_from, rank_of, or_empty, sorted_z_members, z_range, z_rank,
}
use autocache.Engine.Maps.Sorted.Order.{GoesUp}

one_range : (n i : ℕ) → i < n → normalize_range n (pos i) (pos i) ≡ some (i, i)
unfolding normalize_range
one_range n i h = ground (arith, h)

-- The entry at a rank is that of the member.
At : {S : Type 0} → String → ℕ → List (String × S) → Type 0
At member i es = (i < length es) × (map (λ e. e.0) (take 1 (drop i es)) ≡ member ∷ [])

here :
    {S : Type 0} {member : String} (k i : ℕ) (f : String) (v : S) (es : List (String × S))
    → some k ≡ some i
    → f ≡ member
    → (k ≤ i) × At member (i - k) ((f, v) ∷ es)
unfolding At
here {member = member} k i f v es q e =
    let same : k ≡ i = cc q in
    (
      omega (arith, same),
      subst (λ n. At member n ((f, v) ∷ es)) {x = 0} {y = i - k} (omega (arith, same))
          (omega arith, ap (λ g. g ∷ []) e),
    )

rank_from-At :
    {S : Type 0} (member : String) (k i : ℕ) (es : List (String × S))
    → rank_from member k es ≡ some i
    → (k ≤ i) × At member (i - k) es
unfolding rank_from At
rank_from-At member k i [] e = absurd (cc e)
rank_from-At member k i ((f, v) ∷ es) e =
    if_keeps_on (λ o. o ≡ some i → (k ≤ i) × At member (i - k) ((f, v) ∷ es)) (str_eq f member)
      (λ t q. here k i f v es q ((eq_iff f member).0 t))
      (λ _ q.
        let (le, at) = rank_from-At member (k + 1) i es q in
        (
          omega (arith, le),
          subst (λ n. At member n ((f, v) ∷ es)) {x = suc (i - (k + 1))} {y = i - k}
              (omega (arith, le)) (omega (arith, at.0), at.1),
        ))
      e

part_of-one :
    {S : Type 0} (member : String) (i : ℕ) (es : List (String × S))
    → At member i es
    → map (λ e. e.0) (part_of (pos i) (pos i) es) ≡ member ∷ []
unfolding part_of At slice
part_of-one member i es (h, e) =
    rw (part_of, one_range (length es) i h)
      (subst (λ n. map (λ x. x.0) (take n (drop i es)) ≡ member ∷ []) {x = 1} {y = i + 1 - i}
        (omega arith) e)

rank_found :
    (i : ℕ) (o : Option ℕ)
    → (elim o as (λ _. Result ℕ) [ none ↦ failed key_not_found | some j ↦ ok j ]) ≡ ok i
    → o ≡ some i
rank_found i none h = absurd (cc h)
rank_found i (some j) h = cc h

rank_of-part_of :
    {S : Type 0} (member : String) (i : ℕ) (r : Result (List (String × S)))
    → rank_of member r ≡ ok i
    → or_empty (λ (es : List (String × S)). map (λ e. e.0) (part_of (pos i) (pos i) es)) r
      ≡ ok (member ∷ [])
rank_of-part_of member i (failed e) h = absurd (cc h)
rank_of-part_of member i (ok es) h = ap ok (
    part_of-one member i es (
      subst (λ n. At member n es) {x = i - 0} {y = i} (omega arith)
        (rank_from-At member 0 i es (rank_found i (rank_from member 0 es) h)).1))

module _ {S : Type 0} (sort_slice : SortSlice S) (less : String → String → Bool)
    (score_eq score_less : S → S → Bool) where
  -- A member that `ZRank` finds at a rank is what `ZRange` returns from that rank to it.
  pub z_range-z_rank :
      (now i : ℕ) (key member : String) (s : Store S)
      → (z_rank sort_slice less score_eq score_less now key member s).0 ≡ ok i
      → (z_range sort_slice less score_eq score_less now key (pos i) (pos i) s).0 ≡ ok (member ∷ [])
  unfolding z_rank z_range
  z_range-z_rank now i key member s h =
      rank_of-part_of member i (sorted_z_members sort_slice less score_eq score_less now key s).0 h

  -- The whole of a sorted set, as `ZRangeWithScores` and `ZRevRange` return it from 0 to -1.
  pub AllInOrder :
      (S → ℕ) → List (String × S) → Result (List (String × S)) → Result (List String) → Type 0
  AllInOrder rank m forward backward =
      (es : List (String × S)) × (forward ≡ ok es)
      × Perm m es
      × GoesUp less rank es
      × (backward ≡ ok (map (λ e. e.0) (reverse es)))
