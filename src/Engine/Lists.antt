-- ===== src/Engine/Lists.antt =====
-- internal/engine/memory/list.go: the operations on lists.
pub mod Range
pub mod Spec
pub mod Plain
pub mod Refine
pub mod WrongType
use autocache.Prelude.{
  ℕ, zero, suc, ◌+◌, ◌-◌, String, Bool, true, false, Option, none, some, List, [], ◌∷◌, ◌++◌,
  length, take, drop, get_or, ltb, leb, ◌==◌, if◌then◌else◌, ℤ, pos, negsuc, pos_part, neg_part,
  ◌+ℤ◌, ltb_ℤ, ◌||◌,
}
use autocache.Engine.Objects.{
  Value, list, Store, Err, wrong_type, key_not_found, invalid_args, Result, ok, failed,
  delete_object_key, create, assign, fetch,
}

-- `normalizeIndex`. The length fits an int64, so the sums do not wrap.
unfoldable pub normalize_index : ℕ → ℤ → Option ℕ
normalize_index len index =
    let i = if ltb_ℤ index (pos 0) then pos len +ℤ index else index in
    if len == 0 || ltb_ℤ i (pos 0) || leb len (pos_part i) then none else some (pos_part i)

-- `normalizeRange`
unfoldable pub normalize_range : ℕ → ℤ → ℤ → Option (ℕ × ℕ)
normalize_range len start stop =
    let start₁ = if ltb_ℤ start (pos 0) then pos len +ℤ start else start in
    let stop₁ = if ltb_ℤ stop (pos 0) then pos len +ℤ stop else stop in
    let start₂ = if ltb_ℤ start₁ (pos 0) then pos 0 else start₁ in
    let stop₂ = if ltb_ℤ stop₁ (pos len) then stop₁ else pos (len - 1) in
    if len == 0
    then none
    else if ltb_ℤ stop₂ start₂ || leb len (pos_part start₂)
    then none
    else some (pos_part start₂, pos_part stop₂)

-- `list[start:stop+1]`
unfoldable pub slice {ℓ} : {A : Type ℓ} → ℕ → ℕ → List A → List A
slice start stop xs = take (stop + 1 - start) (drop start xs)

-- `list[idx] = value`
unfoldable pub replace : ℕ → String → List String → List String
replace i v [] = []
replace zero v (x ∷ xs) = v ∷ xs
replace (suc i) v (x ∷ xs) = x ∷ replace i v xs

-- The strings that the arguments are, when each of them is one. Another argument is `none`.
unfoldable pub strings : List (Option String) → Option (List String)
strings [] = some []
strings (none ∷ vs) = none
strings (some v ∷ vs) = elim (strings vs) [ none ↦ none | some xs ↦ some (v ∷ xs) ]

-- One item after the other to the front.
unfoldable pub prepend : List String → List String → List String
prepend [] xs = xs
prepend (v ∷ vs) xs = prepend vs (v ∷ xs)

-- All but the last.
unfoldable pub but_last : List String → List String
but_last xs = take (length xs - 1) xs

-- The rest of `LRange`, `LLen` and `LIndex`, on what was found at the key.
pub range_fetched : ℤ → ℤ → Result (List String) → Result (List String)
range_fetched start stop (ok xs) = elim (normalize_range (length xs) start stop) [
  | none ↦ ok []
  | some (i, j) ↦ ok (slice i j xs)
]
range_fetched start stop (failed key_not_found) = ok []
range_fetched start stop (failed e) = failed e

pub len_fetched : Result (List String) → Result ℕ
len_fetched (ok xs) = ok (length xs)
len_fetched (failed key_not_found) = ok 0
len_fetched (failed e) = failed e

pub index_fetched : ℤ → Result (List String) → Result String
index_fetched index (ok xs) = elim (normalize_index (length xs) index) [
  | none ↦ failed key_not_found
  | some i ↦ ok (get_or xs i "")
]
index_fetched index (failed e) = failed e

module _ {S : Type 0} where
  abbrev pub as_list : Value S → Option (List String)
  as_list (list xs) = some xs
  as_list _ = none

  -- `getListValue`, and `getMutableListValue`
  unfoldable pub get_list_value : ℕ → String → Store S → Result (List String) × Store S
  get_list_value now key s = fetch as_list now key s

  -- `LRange`
  unfoldable pub l_range : ℕ → String → ℤ → ℤ → Store S → Result (List String) × Store S
  l_range now key start stop s =
      let (r, s') = get_list_value now key s in (range_fetched start stop r, s')

  -- `LLen`
  unfoldable pub l_len : ℕ → String → Store S → Result ℕ × Store S
  l_len now key s = let (r, s') = get_list_value now key s in (len_fetched r, s')

  -- `LIndex`
  unfoldable pub l_index : ℕ → String → ℤ → Store S → Result String × Store S
  l_index now key index s = let (r, s') = get_list_value now key s in (index_fetched index r, s')

  pub set_at : String → String → List String → Option ℕ → Store S → Result (Unit {0}) × Store S
  set_at key value xs none s = (failed key_not_found, s)
  set_at key value xs (some i) s = (ok tt, assign key (list (replace i value xs)) s)

  pub l_set_fetched :
      String → ℤ → String → Result (List String) × Store S → Result (Unit {0}) × Store S
  l_set_fetched key index value (failed e, s) = (failed e, s)
  l_set_fetched key index value (ok xs, s) =
      set_at key value xs (normalize_index (length xs) index) s

  -- `LSet`
  unfoldable pub l_set : ℕ → String → ℤ → String → Store S → Result (Unit {0}) × Store S
  l_set now key index value s = l_set_fetched key index value (get_list_value now key s)

  pub trim_to : String → List String → Option (ℕ × ℕ) → Store S → Store S
  trim_to key xs none s = (delete_object_key key s).1
  trim_to key xs (some (i, j)) s = assign key (list (slice i j xs)) s

  pub l_trim_fetched : String → ℤ → ℤ → Result (List String) × Store S → Result (Unit {0}) × Store S
  l_trim_fetched key start stop (failed key_not_found, s) = (ok tt, s)
  l_trim_fetched key start stop (failed e, s) = (failed e, s)
  l_trim_fetched key start stop (ok xs, s) =
      (ok tt, trim_to key xs (normalize_range (length xs) start stop) s)

  -- `LTrim`
  unfoldable pub l_trim : ℕ → String → ℤ → ℤ → Store S → Result (Unit {0}) × Store S
  l_trim now key start stop s = l_trim_fetched key start stop (get_list_value now key s)

  -- The end of `pushList`, on the list that was there or is new. The list of an argument that is not
  -- a string is `none`, and stays as it is.
  unfoldable pub push_items :
      String → Bool → List String → Option (List String) → Store S → Result ℕ × Store S
  push_items key left xs none s = (failed invalid_args, s)
  push_items key left xs (some items) s =
      let ys = if left then prepend items xs else xs ++ items in
      (ok (length ys), assign key (list ys) s)

  unfoldable pub push_fetched :
      ℕ → String → Bool → List (Option String) → Result (List String) × Store S → Result ℕ × Store S
  push_fetched now key left values (failed key_not_found, s) =
      push_items key left [] (strings values) (create now key (list []) s)
  push_fetched now key left values (failed e, s) = (failed e, s)
  push_fetched now key left values (ok xs, s) = push_items key left xs (strings values) s

  -- `pushList`
  unfoldable pub push_list : ℕ → String → Bool → List (Option String) → Store S → Result ℕ × Store S
  push_list now key left [] s = (failed invalid_args, s)
  push_list now key left (v ∷ vs) s = push_fetched now key left (v ∷ vs) (get_list_value now key s)

  abbrev pub l_push : ℕ → String → List (Option String) → Store S → Result ℕ × Store S
  l_push now key values s = push_list now key true values s

  abbrev pub r_push : ℕ → String → List (Option String) → Store S → Result ℕ × Store S
  r_push now key values s = push_list now key false values s

  -- The list that is left is stored, and an empty one is deleted.
  unfoldable pub keep_list : String → List String → Store S → Store S
  keep_list key [] s = (delete_object_key key s).1
  keep_list key (x ∷ xs) s = assign key (list (x ∷ xs)) s

  unfoldable pub pop_fetched :
      String → Bool → Result (List String) × Store S → Result String × Store S
  pop_fetched key left (failed e, s) = (failed e, s)
  pop_fetched key left (ok [], s) = (failed key_not_found, s)
  pop_fetched key left (ok (x ∷ xs), s) =
      if left
      then (ok x, keep_list key xs s)
      else (ok (get_or (x ∷ xs) (length xs) ""), keep_list key (but_last (x ∷ xs)) s)

  -- `popList`
  unfoldable pub pop_list : ℕ → String → Bool → Store S → Result String × Store S
  pop_list now key left s = pop_fetched key left (get_list_value now key s)

  abbrev pub l_pop : ℕ → String → Store S → Result String × Store S
  l_pop now key s = pop_list now key true s

  abbrev pub r_pop : ℕ → String → Store S → Result String × Store S
  r_pop now key s = pop_list now key false s
