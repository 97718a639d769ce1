-- ===== src/Engine/Maps.antt =====
-- internal/engine/memory/{hash,set,zset}.go: hashes, sets and sorted sets are Go maps from a field or
-- member to a string, to nothing, and to a score. Their operations differ in the type of the value
-- and are written once, over a `Kind`. An argument of no Go type that the operation takes is `none`.
pub mod Spec
pub mod Refine
pub mod Counts
pub mod Ops
pub mod Sorted
use autocache.Prelude.{
  ℕ, zero, suc, ◌+◌, ◌≡◌, refl, String, Bool, true, false, Option, none, some, List, [], ◌∷◌, map,
  length, if◌then◌else◌, lookup, insert, erase, is_some,
}
use autocache.Engine.Objects.{
  Value, hash, set_of, zset, Store, Err, key_not_found, invalid_args, Result, ok, failed,
  delete_object_key, create, assign, fetch,
}

-- How the maps of one type are kept as values, and found again.
pub record Kind (S V : Type 0) : Type 0 where
  pub wrap : List (String × V) → Value S
  pub part : Value S → Option (List (String × V))
  pub found : (m : List (String × V)) → part (wrap m) ≡ some m

abbrev as_hash : {S : Type 0} → Value S → Option (List (String × String))
as_hash (hash m) = some m
as_hash _ = none

abbrev as_set : {S : Type 0} → Value S → Option (List (String × Unit {0}))
as_set (set_of m) = some m
as_set _ = none

abbrev as_zset : {S : Type 0} → Value S → Option (List (String × S))
as_zset (zset m) = some m
as_zset _ = none

abbrev pub hashes : {S : Type 0} → Kind S String
hashes = record { wrap = hash; part = as_hash; found = λ m. refl }

abbrev pub sets : {S : Type 0} → Kind S (Unit {0})
sets = record { wrap = set_of; part = as_set; found = λ m. refl }

abbrev pub zsets : {S : Type 0} → Kind S S
zsets = record { wrap = zset; part = as_zset; found = λ m. refl }

module _ {V : Type 0} where
  -- The loops that write fields, with `added`, and that delete them, with `removed`. They end at an
  -- argument of a wrong type, with what they have done.
  pub put_args : List (Option (String × V)) → List (String × V) → ℕ → Result ℕ × List (String × V)
  put_args [] m added = (ok added, m)
  put_args (none ∷ args) m added = (failed invalid_args, m)
  put_args (some (f, v) ∷ args) m added =
      put_args args (insert f v m) (if is_some (lookup f m) then added else added + 1)

  pub remove_args : List (Option String) → List (String × V) → ℕ → Result ℕ × List (String × V)
  remove_args [] m removed = (ok removed, m)
  remove_args (none ∷ args) m removed = (failed invalid_args, m)
  remove_args (some f ∷ args) m removed =
      remove_args args (erase f m) (if is_some (lookup f m) then removed + 1 else removed)

module _ {S V : Type 0} (k : Kind S V) where
  unfoldable pub get_map : ℕ → String → Store S → Result (List (String × V)) × Store S
  get_map now key s = fetch k.part now key s

  pub put_into :
      String → List (Option (String × V)) → List (String × V) → Store S → Result ℕ × Store S
  put_into key args m s = let (r, m') = put_args args m 0 in (r, assign key (k.wrap m') s)

  pub put_fetched :
      ℕ
      → String
      → List (Option (String × V))
      → Result (List (String × V)) × Store S
      → Result ℕ × Store S
  put_fetched now key args (failed key_not_found, s) =
      put_into key args [] (create now key (k.wrap []) s)
  put_fetched now key args (failed e, s) = (failed e, s)
  put_fetched now key args (ok m, s) = put_into key args m s

  -- `SAdd`, `ZAdd`, and `HSet` on the pairs that its arguments make.
  unfoldable pub put_all : ℕ → String → List (Option (String × V)) → Store S → Result ℕ × Store S
  put_all now key [] s = (failed invalid_args, s)
  put_all now key (a ∷ as') s = put_fetched now key (a ∷ as') (get_map now key s)

  -- A map that is empty after the last removal is deleted.
  pub keep_map : String → Result ℕ × List (String × V) → Store S → Store S
  keep_map key (failed e, m) s = assign key (k.wrap m) s
  keep_map key (ok n, []) s = (delete_object_key key s).1
  keep_map key (ok n, e ∷ m) s = assign key (k.wrap (e ∷ m)) s

  pub remove_fetched :
      String → List (Option String) → Result (List (String × V)) × Store S → Result ℕ × Store S
  remove_fetched key args (failed key_not_found, s) = (ok 0, s)
  remove_fetched key args (failed e, s) = (failed e, s)
  remove_fetched key args (ok m, s) =
      ((remove_args args m 0).0, keep_map key (remove_args args m 0) s)

  -- `HDel`, `SRem` and `ZRem`
  unfoldable pub remove_all : ℕ → String → List (Option String) → Store S → Result ℕ × Store S
  remove_all now key args s = remove_fetched key args (get_map now key s)

  pub value_fetched : String → Result (List (String × V)) → Result V
  value_fetched f (failed e) = failed e
  value_fetched f (ok m) = elim (lookup f m) [ none ↦ failed key_not_found | some v ↦ ok v ]

  -- `HGet` and `ZScore`
  unfoldable pub get_value : ℕ → String → String → Store S → Result V × Store S
  get_value now key f s = let (r, s') = get_map now key s in (value_fetched f r, s')

  pub has_fetched : String → Result (List (String × V)) → Result Bool
  has_fetched f (failed key_not_found) = ok false
  has_fetched f (failed e) = failed e
  has_fetched f (ok m) = ok (is_some (lookup f m))

  -- `HExists` and `SIsMember`
  unfoldable pub has_value : ℕ → String → String → Store S → Result Bool × Store S
  has_value now key f s = let (r, s') = get_map now key s in (has_fetched f r, s')

  pub size_fetched : Result (List (String × V)) → Result ℕ
  size_fetched (failed key_not_found) = ok 0
  size_fetched (failed e) = failed e
  size_fetched (ok m) = ok (length m)

  -- `HLen`, `SCard` and `ZCard`
  unfoldable pub get_size : ℕ → String → Store S → Result ℕ × Store S
  get_size now key s = let (r, s') = get_map now key s in (size_fetched r, s')

  pub entries_fetched : Result (List (String × V)) → Result (List (String × V))
  entries_fetched (failed key_not_found) = ok []
  entries_fetched (failed e) = failed e
  entries_fetched (ok m) = ok m

  -- `HGetAll`, and what `SMembers` has before it sorts.
  unfoldable pub get_entries : ℕ → String → Store S → Result (List (String × V)) × Store S
  get_entries now key s = let (r, s') = get_map now key s in (entries_fetched r, s')

-- The pairs that the arguments of `HSet` make: none for an odd number of them, and a pair of which
-- one part is no string is none.
abbrev pair_of : Option String → Option String → Option (String × String)
pair_of (some f) (some v) = some (f, v)
pair_of _ _ = none

unfoldable pub pairs_of : List (Option String) → Option (List (Option (String × String)))
pairs_of [] = some []
pairs_of (a ∷ []) = none
pairs_of (a ∷ b ∷ args) = elim (pairs_of args) [ none ↦ none | some ps ↦ some (pair_of a b ∷ ps) ]

module _ {S : Type 0} where
  -- `HSet`
  unfoldable pub h_set : ℕ → String → List (Option String) → Store S → Result ℕ × Store S
  h_set now key args s = elim (pairs_of args) [
    | none ↦ (failed invalid_args, s)
    | some ps ↦ put_all hashes now key ps s
  ]

  -- `SAdd`
  unfoldable pub s_add : ℕ → String → List (Option String) → Store S → Result ℕ × Store S
  s_add now key args s =
      put_all sets now key (map (λ a. elim a [ none ↦ none | some f ↦ some (f, tt) ]) args) s

  -- `ZAdd`
  unfoldable pub z_add : ℕ → String → List (String × S) → Store S → Result ℕ × Store S
  z_add now key members s = put_all zsets now key (map some members) s

  -- `HDel` and `ZRem`; `SRem` is `remove_all` itself.
  unfoldable pub h_del : ℕ → String → List String → Store S → Result ℕ × Store S
  h_del now key fields s = remove_all hashes now key (map some fields) s

  unfoldable pub z_rem : ℕ → String → List String → Store S → Result ℕ × Store S
  z_rem now key members s = remove_all zsets now key (map some members) s
