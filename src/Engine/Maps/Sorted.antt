-- ===== src/Engine/Maps/Sorted.antt =====
-- internal/engine/memory/{hash,set,zset}.go: what is returned in order. `sort.Strings` and `sort.Slice`
-- of the standard library are the parameters `sort_strings` and `sort_slice`. The order of strings is the
-- parameter `less`; the order, the equality and the sum of scores are those of float64.
pub mod Order
pub mod Insertion
pub mod Ranks
mod Tests
use autocache.Prelude.{
  ℕ, zero, suc, ◌+◌, ◌-◌, String, str_eq, Bool, true, false, ◌&&◌, Option, none, some, List, [],
  ◌∷◌, ◌++◌, map, length, lookup, insert, if◌then◌else◌, ℤ, pos, negsuc,
}
use autocache.Engine.Objects.{Value, Store, Err, key_not_found, Result, ok, failed, assign, create}
use autocache.Engine.Lists.{normalize_range, slice}
use autocache.Engine.Maps.{hashes, sets, zsets, get_map, get_entries, Kind}

unfoldable pub reverse : {A : Type 0} → List A → List A
reverse [] = []
reverse (x ∷ xs) = reverse xs ++ x ∷ []

abbrev pub map_ok : {A B : Type 0} → (A → B) → Result A → Result B
map_ok f (failed e) = failed e
map_ok f (ok a) = ok (f a)

abbrev pub fields_of : {V : Type 0} → (List String → List String) → List (String × V) → List String
fields_of sort_strings m = sort_strings (map (λ e. e.0) m)

module _ {S : Type 0} (sort_strings : List String → List String) where
  -- `HKeys`
  unfoldable pub h_keys : ℕ → String → Store S → Result (List String) × Store S
  h_keys now key s =
      let (r, s') = get_entries hashes now key s in (map_ok (fields_of sort_strings) r, s')

  -- `HVals`
  unfoldable pub h_vals : ℕ → String → Store S → Result (List String) × Store S
  h_vals now key s =
      let (r, s') = get_entries hashes now key s in
      (
        map_ok
            (λ (m : List (String × String)).
              map (λ f. elim (lookup f m) as (λ _. String) [ none ↦ "" | some v ↦ v ])
                (fields_of sort_strings m))
            r,
        s',
      )

  -- `SMembers`
  unfoldable pub s_members : ℕ → String → Store S → Result (List String) × Store S
  s_members now key s =
      let (r, s') = get_entries sets now key s in (map_ok (fields_of sort_strings) r, s')

-- The comparison of `sortedZMembers`, of members with their scores.
abbrev pub member_less :
    {S : Type 0}
    → (String → String → Bool)
    → (S → S → Bool)
    → (S → S → Bool)
    → String × S
    → String × S
    → Bool
member_less less score_eq score_less (f, v) (g, w) =
    if score_eq v w then less f g else score_less v w

-- The part of `sorted` that a range takes.
unfoldable pub part_of : {A : Type 0} → ℤ → ℤ → List A → List A
part_of start stop xs = elim (normalize_range (length xs) start stop) [
  | none ↦ []
  | some (i, j) ↦ slice i j xs
]

abbrev pub or_empty : {A B : Type 0} → (List A → List B) → Result (List A) → Result (List B)
or_empty f (failed key_not_found) = ok []
or_empty f (failed e) = failed e
or_empty f (ok xs) = ok (f xs)

-- Where a member is among the entries, from position `i` on.
unfoldable pub rank_from : {S : Type 0} → String → ℕ → List (String × S) → Option ℕ
rank_from member i [] = none
rank_from member i ((f, v) ∷ es) =
    let rest = rank_from member (i + 1) es in if str_eq f member then some i else rest

abbrev pub rank_of : {S : Type 0} → String → Result (List (String × S)) → Result ℕ
rank_of member (failed e) = failed e
rank_of member (ok es) = elim (rank_from member 0 es) [
  | none ↦ failed key_not_found
  | some i ↦ ok i
]

unfoldable pub count_scores : {S : Type 0} → (S → Bool) → List (String × S) → ℕ
count_scores p [] = 0
count_scores p ((f, v) ∷ es) = let rest = count_scores p es in if p v then rest + 1 else rest

abbrev pub count_of : {S : Type 0} → (S → Bool) → Result (List (String × S)) → Result ℕ
count_of p (failed key_not_found) = ok 0
count_of p (failed e) = failed e
count_of p (ok es) = ok (count_scores p es)

-- The type of `sort.Slice`, by the comparison of two entries.
abbrev pub SortSlice : Type 0 → Type 0
SortSlice S = ((String × S) → (String × S) → Bool) → List (String × S) → List (String × S)

module _ {S : Type 0} (sort_slice : SortSlice S) (less : String → String → Bool)
    (score_eq score_less : S → S → Bool) where
  unfoldable pub sorted_z_members : ℕ → String → Store S → Result (List (String × S)) × Store S
  sorted_z_members now key s =
      let (r, s') = get_map zsets now key s in
      (map_ok (sort_slice (member_less less score_eq score_less)) r, s')

  -- `ZRangeWithScores`
  unfoldable pub z_range_with_scores :
      ℕ → String → ℤ → ℤ → Store S → Result (List (String × S)) × Store S
  z_range_with_scores now key start stop s =
      let (r, s') = sorted_z_members now key s in (or_empty (part_of start stop) r, s')

  -- `ZRange`
  unfoldable pub z_range : ℕ → String → ℤ → ℤ → Store S → Result (List String) × Store S
  z_range now key start stop s =
      let (r, s') = sorted_z_members now key s in
      (or_empty (λ es. map (λ e. e.0) (part_of start stop es)) r, s')

  -- `ZRevRange`
  unfoldable pub z_rev_range : ℕ → String → ℤ → ℤ → Store S → Result (List String) × Store S
  z_rev_range now key start stop s =
      let (r, s') = z_range_with_scores now key (pos 0) (negsuc 0) s in
      (map_ok (λ es. map (λ e. e.0) (part_of start stop (reverse es))) r, s')

  -- `ZRank`
  unfoldable pub z_rank : ℕ → String → String → Store S → Result ℕ × Store S
  z_rank now key member s = let (r, s') = sorted_z_members now key s in (rank_of member r, s')

  -- `ZCount`: `score >= min` is `min <= score`, that is, less or equal.
  unfoldable pub z_count : ℕ → String → S → S → Store S → Result ℕ × Store S
  z_count now key min max s =
      let (r, s') = get_map zsets now key s in
      let at_most = λ (v w : S). if score_eq v w then true else score_less v w in
      (count_of (λ score. at_most min score && at_most score max) r, s')

module _ {S : Type 0} (add : S → S → S) (zero_score : S) where
  -- `zset[member] += delta`, of a member that may be missing.
  abbrev pub raised : String → S → List (String × S) → S
  raised member delta m = add (elim (lookup member m) [ none ↦ zero_score | some v ↦ v ]) delta

  abbrev pub put_score : String → String → S → List (String × S) → Store S → Result S × Store S
  put_score key member delta m s =
      let v = raised member delta m in (ok v, assign key (zsets.wrap (insert member v m)) s)

  pub incr_fetched :
      ℕ → String → String → S → Result (List (String × S)) × Store S → Result S × Store S
  incr_fetched now key member delta (failed key_not_found, s) =
      put_score key member delta [] (create now key (zsets.wrap []) s)
  incr_fetched now key member delta (failed e, s) = (failed e, s)
  incr_fetched now key member delta (ok m, s) = put_score key member delta m s

  -- `ZIncrBy`
  unfoldable pub z_incr_by : ℕ → String → String → S → Store S → Result S × Store S
  unfolding incr_fetched
  z_incr_by now key member delta s = incr_fetched now key member delta (get_map zsets now key s)
