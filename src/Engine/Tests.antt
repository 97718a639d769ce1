-- ===== src/Engine/Tests.antt =====
-- internal/engine/memory on concrete keys, lists and maps.
use autocache.Prelude.{
  ℕ, ◌≡◌, ◌<◌, ◌≤◌, refl, String, true, false, not, ◌&&◌, none, some, List, [], ◌∷◌, arith, pos,
  negsuc, ltb_ℤ, OnSome,
}
use autocache.Engine.Dict.{
  Dict, new_dict, find, len, keys, exists, ttl, remaining, is_expired, get, set, set_entry, del_key,
  del, clear,
}
use autocache.Engine.Dict.Refine.{new_dict-IsDict, Call, setting, setting_new, getting, deleting}
use autocache.Engine.Dict.Runs.{Step, run_all, change_all, runs_lem}
use autocache.Engine.Objects.{list, Store, wrong_type, invalid_args, failed, create, fetch, assign}
use autocache.Engine.Objects.View.{value_at, Refines}
use autocache.Engine.Lists.{
  normalize_range, push_list, push_fetched, push_items, strings, get_list_value,
}
use autocache.Engine.Lists.Range.{covers, position, normalize_range_lem}
use autocache.Engine.Lists.Spec.{ListCall, pushing, popping, act, stored, number}
use autocache.Engine.Lists.Spec
use autocache.Engine.Maps.Spec as MapSpec
use autocache.Engine.Lists.Refine.{list_lem}
use autocache.Engine.Lists.WrongType.{list_wrong_type}
use autocache.Engine.Maps.{hashes}
use autocache.Engine.Maps.Spec.{MapCall, putting}
use autocache.Engine.Maps.Refine.{map_lem}

abbrev no_hash : String → ℕ
no_hash k = 7

abbrev a_call : Call ℕ
a_call = setting 5 10

-- A key is set for ten nanoseconds, read, not set again, expires, and is set again.
abbrev steps : List (Step ℕ)
steps =
    record { now = 50; key = "a"; call = setting 5 10 }
    ∷ record { now = 60; key = "a"; call = getting }
    ∷ record { now = 60; key = "a"; call = setting_new 6 0 }
    ∷ record { now = 61; key = "a"; call = getting }
    ∷ record { now = 61; key = "a"; call = setting_new 6 0 }
    ∷ record { now = 62; key = "b"; call = deleting }
    ∷ []

runs_lem_example :
    let r = run_all no_hash steps (new_dict 4) in
    (r.0 ≡ (change_all steps (λ _. none)).0)
    × ((key : String) → find no_hash key r.1 ≡ (change_all steps (λ _. none)).1 key)
runs_lem_example = runs_lem no_hash 4 steps

-- Two keys in one shard, of which one is deleted.
abbrev two_keys : Dict ℕ
two_keys = set no_hash 50 "b" 6 5 (set no_hash 50 "a" 5 0 (new_dict 4))

sizes : (len two_keys ≡ 2) × ((del no_hash ("a" ∷ "c" ∷ []) two_keys).0 ≡ 1)
unfolding len set del del_key set_entry
sizes = (refl, refl)

expiry : (keys 55 (λ k. true) two_keys ≡ "a" ∷ "b" ∷ []) × (keys 56 (λ k. true) two_keys ≡ "a" ∷ [])
unfolding keys set set_entry is_expired
expiry = (refl, refl)

counts : ((exists no_hash 56 ("a" ∷ "b" ∷ []) two_keys).0 ≡ 1) × (len (clear two_keys) ≡ 0)
unfolding exists len clear get set set_entry del_key is_expired
counts = (refl, refl)

time_left_of_b : (ttl no_hash 52 "b" two_keys).0 ≡ remaining 3
unfolding ttl get set set_entry is_expired
time_left_of_b = refl

-- The last two items of three.
normalize_range_lem_example :
    OnSome (λ (r : ℕ × ℕ). (r.0 ≤ r.1) × (r.1 < 3)) (normalize_range 3 (negsuc 1) (negsuc 0))
    × (covers (normalize_range 3 (negsuc 1) (negsuc 0)) 1 ≡ (
        not (ltb_ℤ (pos 1) (position 3 (negsuc 1))) && not (ltb_ℤ (position 3 (negsuc 0)) (pos 1))))
normalize_range_lem_example = normalize_range_lem 3 1 (negsuc 1) (negsuc 0) (omega arith)

last_two : normalize_range 3 (negsuc 1) (negsuc 0) ≡ some (1, 2)
unfolding normalize_range
last_two = refl

abbrev abc : List String
abc = "a" ∷ "b" ∷ "c" ∷ []

-- A store with no key, and one in which "s" is a string.
abbrev new_store : Store ℕ
new_store = record {
  string_key = λ k. false;
  objects = new_dict 16;
  maphash = no_hash;
  slot_func = none;
  slot_index = λ i k. false;
}

abbrev with_strings : Store ℕ
with_strings = record new_store { string_key = λ k. true }

list_lem_example :
    let c = pushing true "a" ("b" ∷ []) in
    Refines 50 "l" new_store (Spec.run 50 "l" c new_store) ((act c []).0, stored (act c []).1)
list_lem_example =
    list_lem 50 "l" (pushing true "a" ("b" ∷ [])) [] new_store (new_dict-IsDict 16) refl refl

list_wrong_type_example :
    Refines 50 "l" with_strings
      (Spec.run 50 "l" (popping true) with_strings)
      (failed wrong_type, value_at 50 "l" with_strings)
list_wrong_type_example =
    list_wrong_type 50 "l" (popping true) with_strings (new_dict-IsDict 16) refl

abbrev a_map_call : MapCall String
a_map_call = putting ("f", "1") (("f", "2") ∷ [])

map_lem_example :
    Refines 50 "h" new_store
      (MapSpec.run hashes 50 "h" a_map_call new_store)
      ((MapSpec.act a_map_call []).0, MapSpec.stored hashes (MapSpec.act a_map_call []).1)
map_lem_example = map_lem hashes 50 "h" a_map_call [] new_store (new_dict-IsDict 16) refl refl

abbrev fields : List (String × ℕ)
fields = ("f", 1) ∷ ("g", 2) ∷ []

-- A push of something that is no string is refused, and leaves an empty list.
empty_list_left :
    let r = push_list 50 "l" true (none ∷ []) new_store in
    (r.0 ≡ failed invalid_args) × (value_at 50 "l" r.1 ≡ some (list []))
unfolding push_list push_fetched push_items strings get_list_value fetch create get set set_entry
    is_expired assign
empty_list_left = (refl, refl)
