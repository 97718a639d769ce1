-- ===== src/Engine/Maps/Ops.antt =====
-- internal/engine/memory/{hash,set,zset}.go: the operations that read a hash, a set or a sorted set,
-- each of them the one of its kind, and those that remove from a set.
use autocache.Prelude.{ℕ, String, Bool, Option, List}
use autocache.Engine.Objects.{Store, Result}
use autocache.Engine.Maps.{
  hashes, sets, zsets, get_map, get_value, has_value, get_size, get_entries, remove_all,
}

module _ {S : Type 0} where
  -- `HGet`
  abbrev pub h_get : ℕ → String → String → Store S → Result String × Store S
  h_get = get_value hashes

  abbrev pub h_exists : ℕ → String → String → Store S → Result Bool × Store S
  h_exists = has_value hashes

  abbrev pub h_get_all : ℕ → String → Store S → Result (List (String × String)) × Store S
  h_get_all = get_entries hashes

  abbrev pub h_len : ℕ → String → Store S → Result ℕ × Store S
  h_len = get_size hashes

  abbrev pub get_set_value : ℕ → String → Store S → Result (List (String × Unit {0})) × Store S
  get_set_value = get_map sets

  abbrev pub s_rem : ℕ → String → List (Option String) → Store S → Result ℕ × Store S
  s_rem = remove_all sets

  abbrev pub s_is_member : ℕ → String → String → Store S → Result Bool × Store S
  s_is_member = has_value sets

  abbrev pub s_card : ℕ → String → Store S → Result ℕ × Store S
  s_card = get_size sets

  abbrev pub get_zset_value : ℕ → String → Store S → Result (List (String × S)) × Store S
  get_zset_value = get_map zsets

  abbrev pub z_score : ℕ → String → String → Store S → Result S × Store S
  z_score = get_value zsets

  abbrev pub z_card : ℕ → String → Store S → Result ℕ × Store S
  z_card = get_size zsets
