-- ===== src/Engine/Objects.antt =====
-- internal/engine/memory/store.go: the keys of a store that hold a collection, and the index of the
-- keys of a slot. What the cache of strings holds is seen only by `Exists`, in `string_key`; `now` is
-- what an operation reads off the clock, once, and the store's lock makes it one step. `maphash` is
-- the hash that the dictionary's seed gives. A score is a float64 of the runtime, the type `S`.
pub mod View
pub mod Writes
use autocache.Prelude.{
  ℕ, zero, suc, String, Bool, true, false, Option, none, some, List, [], ◌∷◌, ltb, ◌==◌,
  if◌then◌else◌, str_eq, update, update_key,
}
use autocache.Engine.Dict.{Entry, Dict, new_dict, find, set, set_entry, del_key, get}

-- `typedValue`: the tag `Type` and the Go value go together.
pub data Value (S : Type 0) : Type 0 where
  list : List String → Value S
  hash : List (String × String) → Value S
  set_of : List (String × Unit {0}) → Value S
  zset : List (String × S) → Value S

pub record Store (S : Type 0) : Type 0 where
  pub string_key : String → Bool
  pub objects : Dict (Value S)
  pub maphash : String → ℕ
  pub slot_func : Option (String → ℕ)
  pub slot_index : ℕ → String → Bool

-- The errors that the operations on collections return.
pub data Err : Type 0 where
  wrong_type key_not_found invalid_args not_supported : Err

pub data Result (A : Type 0) : Type 0 where
  ok : A → Result A
  failed : Err → Result A

module _ {S : Type 0} where
  mark : String → Bool → Option (String → ℕ) → Store S → Store S
  mark key b none s = s
  mark key b (some f) s = record s {
    slot_index = update s.slot_index (f key) (update_key (s.slot_index (f key)) key b);
  }

  -- `trackKey` and `untrackKey`
  pub track_key : String → Store S → Store S
  unfolding mark
  track_key key s = mark key true s.slot_func s

  pub untrack_key : String → Store S → Store S
  unfolding mark
  untrack_key key s = mark key false s.slot_func s

  -- `getObjectValue`
  unfoldable pub get_object_value : ℕ → String → Store S → Option (Value S) × Store S
  get_object_value now key s =
      let (o, d) = get s.maphash now key s.objects in
      ((elim o [ none ↦ none | some e ↦ some e.value ]), record s { objects = d })

  -- `hasObjectKey`
  pub has_object_key : ℕ → String → Store S → Bool × Store S
  unfolding get_object_value
  has_object_key now key s =
      let (o, s') = get_object_value now key s in ((elim o [ none ↦ false | some _ ↦ true ]), s')

  -- `deleteObjectKey`
  unfoldable pub delete_object_key : String → Store S → Bool × Store S
  unfolding untrack_key
  delete_object_key key s =
      let (n, d) = del_key s.maphash key s.objects in
      if ltb 0 n
      then (true, untrack_key key (record s { objects = d }))
      else (false, record s { objects = d })

  -- `s.objects.Set(key, tv, 0)` and `trackKey`, for a collection that is new.
  unfoldable pub create : ℕ → String → Value S → Store S → Store S
  unfolding track_key
  create now key v s = track_key key (record s { objects = set s.maphash now key v 0 s.objects })

  -- `tv.Value = v`, through the pointer that the entry of the key holds.
  unfoldable pub assign : String → Value S → Store S → Store S
  assign key v s = elim (find s.maphash key s.objects) [
    | none ↦ s
    | some e ↦ record s { objects = set_entry s.maphash key (record e { value = v }) s.objects }
  ]

  -- The look at a key that each operation begins with: `getListValue`, `getMutableListValue` and
  -- those of the other types. `part` is the test of the type.
  unfoldable pub fetch :
      {V : Type 0} → (Value S → Option V) → ℕ → String → Store S → Result V × Store S
  unfolding get_object_value
  fetch part now key s =
      if s.string_key key
      then (failed wrong_type, s)
      else let (o, s') = get_object_value now key s in
        (
          (elim o [
            | none ↦ failed key_not_found
            | some v ↦ elim (part v) [ none ↦ failed wrong_type | some x ↦ ok x ]
          ]),
          s',
        )
