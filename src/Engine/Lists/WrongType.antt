-- ===== src/Engine/Lists/WrongType.antt =====
-- internal/engine/memory/{list,hash,set,zset}.go: an operation on a key of another type.
use autocache.Prelude.{ℕ, ◌≡◌, refl, String, some, List, ◌∷◌, map}
use autocache.Engine.Dict.Refine.{IsDict}
use autocache.Engine.Objects.{Store, wrong_type, Result, failed}
use autocache.Engine.Objects.View.{value_at, Refines, looked}
use autocache.Engine.Objects.Writes.{unchanged, fetched-Refines}
use autocache.Engine.Lists.{
  as_list, get_list_value, range_fetched, len_fetched, index_fetched, l_set_fetched, l_trim_fetched,
  push_fetched, pop_fetched, l_range, l_len, l_index, l_set, l_trim, push_list, pop_list,
}
use autocache.Engine.Lists.Spec.{
  ListCall, ranging, trimming, counting, indexing, setting, pushing, popping, Reply, done, items,
  number, item, map_ok, run,
}

module _ {S : Type 0} (now : ℕ) (key : String) where
  refused :
      {R : Type 0} (next : Result (List String) × Store S → Result R × Store S) (f : R → Reply)
      (s : Store S)
      → IsDict s.objects
      → looked as_list (s.string_key key) (value_at now key s) ≡ failed wrong_type
      → ((s' : Store S) → next (failed wrong_type, s') ≡ (failed wrong_type, s'))
      → Refines now key s
          (map_ok f (next (get_list_value now key s)))
          (failed wrong_type, value_at now key s)
  unfolding get_list_value
  refused next f s h e stops =
      fetched-Refines as_list (λ p. map_ok f (next p)) _ now key s (failed wrong_type) h e
        (λ s' same h'.
          rw (stops s') (record { result = refl; store = unchanged now key s' _ same h' }))

  -- On a key that has a string, or a collection of another type, each list operation returns the
  -- error WRONGTYPE and changes no key. Pushes are of at least one item.
  pub list_wrong_type :
      (c : ListCall) (s : Store S)
      → IsDict s.objects
      → looked as_list (s.string_key key) (value_at now key s) ≡ failed wrong_type
      → Refines now key s (run now key c s) (failed wrong_type, value_at now key s)
  unfolding run l_range l_len l_index l_set l_trim push_list pop_list range_fetched len_fetched
      index_fetched l_set_fetched l_trim_fetched push_fetched pop_fetched
  list_wrong_type (ranging a b) s h e =
      refused (λ p. (range_fetched a b p.0, p.1)) items s h e (λ s'. refl)
  list_wrong_type (trimming a b) s h e =
      refused (l_trim_fetched key a b) (λ _. done) s h e (λ s'. refl)
  list_wrong_type counting s h e = refused (λ p. (len_fetched p.0, p.1)) number s h e (λ s'. refl)
  list_wrong_type (indexing i) s h e =
      refused (λ p. (index_fetched i p.0, p.1)) item s h e (λ s'. refl)
  list_wrong_type (setting i w) s h e =
      refused (l_set_fetched key i w) (λ _. done) s h e (λ s'. refl)
  list_wrong_type (pushing left w ws) s h e =
      refused (push_fetched now key left (map some (w ∷ ws))) number s h e (λ s'. refl)
  list_wrong_type (popping left) s h e = refused (pop_fetched key left) item s h e (λ s'. refl)
