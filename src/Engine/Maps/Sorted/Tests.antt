-- ===== src/Engine/Maps/Sorted/Tests.antt =====
-- internal/engine/memory/zset.go on a sorted set of three members.
use autocache.Prelude.{
  ℕ, ◌≡◌, refl, String, str_eq, Bool, false, if◌then◌else◌, none, List, [], ◌∷◌, ltb, ◌==◌,
}
use autocache.Engine.Dict.{new_dict, get, set, set_entry, is_expired}
use autocache.Engine.Objects.{Store, ok, fetch, create, get_object_value}
use autocache.Engine.Maps.{zsets, get_map}
use autocache.Engine.Maps.Sorted.{z_rank, sorted_z_members, rank_from}
use autocache.Engine.Maps.Sorted.Insertion.{insert_sorted, sort}

abbrev members : List (String × ℕ)
members = ("b", 3) ∷ ("a", 3) ∷ ("c", 2) ∷ []

abbrev with_scores : Store ℕ
with_scores = create 50 "z" (zsets.wrap members) (record {
  objects = new_dict 16;
  maphash = λ k. 7;
  string_key = λ k. false;
  slot_func = none;
  slot_index = λ slot k. false;
})

-- Scores are numbers here, and the members come in the order of the test.
abbrev order_of : String → ℕ
order_of f = if str_eq f "a" then 0 else if str_eq f "b" then 1 else 2

abbrev before : String → String → Bool
before f g = ltb (order_of f) (order_of g)

rank_of_c : (z_rank sort before (λ (v w : ℕ). v == w) ltb 50 "z" "c" with_scores).0 ≡ ok 0
unfolding z_rank sorted_z_members sort insert_sorted rank_from get_map fetch create get
    get_object_value set set_entry is_expired
rank_of_c = refl
