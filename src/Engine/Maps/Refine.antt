-- ===== src/Engine/Maps/Refine.antt =====
-- internal/engine/memory/{hash,set,zset}.go: the operations of the store do to a key what a plain map
-- does, with the empty map for a key that is not there.
use text.Mathlib.TextPositions.{eq_refl}
use autocache.Prelude.{
  ℕ, ◌+◌, ◌≡◌, ◌≢◌, refl, sym, ap, ap₂, subst, ◌∙◌, String, true, false, Option, none, some, List,
  [], ◌∷◌, map, length, arith, if◌then◌else◌, lookup, insert, is_some,
}
use autocache.Engine.Dict.Refine.{IsDict}
use autocache.Engine.Objects.{Store, wrong_type, key_not_found, Result, ok, failed, create, assign}
use autocache.Engine.Objects.View.{value_at, Writes, Refines, looked}
use autocache.Engine.Objects.Writes.{
  assign-Writes, create-Writes, delete-Writes, twice-Writes, unchanged, fetched-Refines,
}
use autocache.Engine.Maps.{
  Kind, get_map, put_into, put_fetched, put_all, keep_map, remove_fetched, remove_all,
  value_fetched, get_value, has_fetched, has_value, size_fetched, get_size, entries_fetched,
  get_entries,
}
use autocache.Engine.Maps.Spec.{
  MapCall, putting, removing, getting, asking, counting, listing, Reply, number, value, flag,
  entries, map_result, map_ok, run, puts, added, removes, removed, found_value, act, stored,
  put_args-puts, remove_args-removes,
}

insert_ne_nil : {V : Type 0} (f : String) (v : V) (m : List (String × V)) → insert f v m ≢ []
insert_ne_nil f v [] e = cc e
insert_ne_nil f v ((j, w) ∷ m) e = ground (arith, e)

puts_ne_nil :
    {V : Type 0} (ps : List (String × V)) (m : List (String × V)) → m ≢ [] → puts ps m ≢ []
unfolding puts
puts_ne_nil [] m h = h
puts_ne_nil ((f, v) ∷ ps) m h = puts_ne_nil ps (insert f v m) (insert_ne_nil f v m)

put_ne_nil :
    {V : Type 0} (f : String) (v : V) (ps m : List (String × V)) → puts ((f, v) ∷ ps) m ≢ []
unfolding puts
put_ne_nil f v ps m = puts_ne_nil ps (insert f v m) (insert_ne_nil f v m)

none_removed : (V : Type 0) (fs : List String) → removed {V = V} fs [] ≡ 0
unfolding removed
none_removed V [] = refl
none_removed V (f ∷ fs) = omega (arith, none_removed V fs)

none_left : (V : Type 0) (fs : List String) → removes {V = V} fs [] ≡ []
unfolding removes
none_left V [] = refl
none_left V (f ∷ fs) = none_left V fs

stored_ne_nil :
    {S V : Type 0} (k : Kind S V) (m : List (String × V)) → m ≢ [] → stored k m ≡ some (k.wrap m)
stored_ne_nil k [] h = absurd (h refl)
stored_ne_nil k (e ∷ m) h = refl

module _ {S V : Type 0} (k : Kind S V) (now : ℕ) (key : String) where
  -- What the look at the key finds.
  at_key : List (String × V) → Result (List (String × V))
  at_key [] = failed key_not_found
  at_key (e ∷ m) = ok (e ∷ m)

  looked-at_key : (m : List (String × V)) → looked k.part false (stored k m) ≡ at_key m
  unfolding at_key
  looked-at_key [] = refl
  looked-at_key (e ∷ m) =
      ap
        (λ o. elim o as (λ _. Result (List (String × V))) [
          | none ↦ failed wrong_type
          | some x ↦ ok x
        ])
        (k.found (e ∷ m))

  on_map :
      {R : Type 0} (next : Result (List (String × V)) × Store S → Result R × Store S)
      (f : R → Reply V) (c : MapCall V) (m : List (String × V)) (s : Store S)
      → IsDict s.objects
      → s.string_key key ≡ false
      → value_at now key s ≡ stored k m
      → ((s' : Store S)
          → value_at now key s' ≡ stored k m
          → IsDict s'.objects
          → Refines now key s' (map_ok f (next (at_key m, s'))) ((act c m).0, stored k (act c m).1))
      → Refines now key s
          (map_ok f (next (get_map k now key s)))
          ((act c m).0, stored k (act c m).1)
  unfolding get_map
  on_map next f c m s h free v each =
      fetched-Refines k.part (λ p. map_ok f (next p)) _ now key s (at_key m) h
        (ap₂ (looked k.part) free v ∙ looked-at_key m) (λ s' e h'. each s' (e ∙ v) h')

  -- A map that is not empty is stored in place of the one that is there.
  assigns :
      (m m' : List (String × V)) (s : Store S)
      → m' ≢ []
      → is_some (value_at now key s) ≡ true
      → IsDict s.objects
      → Writes now key s (stored k m') (assign key (k.wrap m') s)
  assigns m m' s ne there h =
      subst (λ c. Writes now key s c (assign key (k.wrap m') s)) (sym (stored_ne_nil k m' ne))
        (assign-Writes now key (k.wrap m') s there h)

  putting-Refines :
      (p : String × V) (ps m : List (String × V)) (s : Store S)
      → value_at now key s ≡ stored k m
      → IsDict s.objects
      → Refines {R = Reply V} now key s
          (map_ok number (put_fetched k now key (map some (p ∷ ps)) (at_key m, s)))
          (ok (number (added (p ∷ ps) m)), stored k (puts (p ∷ ps) m))
  unfolding at_key put_fetched put_into
  putting-Refines (f, v) ps [] s q h =
      subst
        (λ (r : Result ℕ × List (String × V)).
          Refines {R = Reply V} now key s
            (map_result number r.0, assign key (k.wrap r.1) (create now key (k.wrap []) s))
            (ok (number (added ((f, v) ∷ ps) [])), stored k (puts ((f, v) ∷ ps) [])))
        (sym (put_args-puts ((f, v) ∷ ps) [] 0))
        (record {
          result =
              ap (λ (j : ℕ). ok (number j)) {x = 0 + added ((f, v) ∷ ps) []}
                {y = added ((f, v) ∷ ps) []} (omega arith);
          store =
              twice-Writes now key s _ _ (some (k.wrap [])) _ new
                (assigns [] (puts ((f, v) ∷ ps) []) _ filled there new.good);
        })
    where
      new : Writes now key s (some (k.wrap [])) (create now key (k.wrap []) s)
      new = create-Writes now key (k.wrap []) s h

      there : is_some (value_at now key (create now key (k.wrap []) s)) ≡ true
      there = ap is_some (
          new.values key
          ∙ ap (λ b. if b then some (k.wrap []) else value_at now key s) (eq_refl key))

      filled : puts ((f, v) ∷ ps) [] ≢ []
      filled = put_ne_nil f v ps []
  putting-Refines (f, v) ps (e ∷ m) s q h =
      subst
        (λ (r : Result ℕ × List (String × V)).
          Refines {R = Reply V} now key s (map_result number r.0, assign key (k.wrap r.1) s)
            (ok (number (added ((f, v) ∷ ps) (e ∷ m))), stored k (puts ((f, v) ∷ ps) (e ∷ m))))
        (sym (put_args-puts ((f, v) ∷ ps) (e ∷ m) 0))
        (record {
          result =
              ap (λ (j : ℕ). ok (number j)) {x = 0 + added ((f, v) ∷ ps) (e ∷ m)}
                {y = added ((f, v) ∷ ps) (e ∷ m)} (omega arith);
          store =
              assigns (e ∷ m) (puts ((f, v) ∷ ps) (e ∷ m)) s (put_ne_nil f v ps (e ∷ m))
                (ap is_some q) h;
        })

  keeps :
      (n : ℕ) (m' : List (String × V)) (s : Store S)
      → is_some (value_at now key s) ≡ true
      → IsDict s.objects
      → Writes now key s (stored k m') (keep_map k key (ok n, m') s)
  unfolding keep_map
  keeps n [] s there h = delete-Writes now key s h
  keeps n (e ∷ m') s there h = assign-Writes now key (k.wrap (e ∷ m')) s there h

  removing-Refines :
      (fs : List String) (m : List (String × V)) (s : Store S)
      → value_at now key s ≡ stored k m
      → IsDict s.objects
      → Refines {R = Reply V} now key s
          (map_ok number (remove_fetched k key (map some fs) (at_key m, s)))
          (ok (number (removed fs m)), stored k (removes fs m))
  unfolding at_key remove_fetched
  removing-Refines fs [] s q h = record {
    result = ap (λ (j : ℕ). ok (number j)) (sym (none_removed V fs));
    store =
        subst (λ r. Writes now key s (stored k r) s) (sym (none_left V fs))
          (unchanged now key s none q h);
  }
  removing-Refines fs (e ∷ m) s q h =
      subst
        (λ (r : Result ℕ × List (String × V)).
          Refines {R = Reply V} now key s (map_result number r.0, keep_map k key r s)
            (ok (number (removed fs (e ∷ m))), stored k (removes fs (e ∷ m))))
        (sym (remove_args-removes fs (e ∷ m) 0))
        (record {
          result =
              ap (λ (j : ℕ). ok (number j)) {x = 0 + removed fs (e ∷ m)} {y = removed fs (e ∷ m)}
                (omega arith);
          store = keeps _ (removes fs (e ∷ m)) s (ap is_some q) h;
        })

  -- The operations that leave the map.
  reading-Refines :
      {R : Type 0} (next : Result (List (String × V)) → Result R) (f : R → Reply V)
      (r : Result (Reply V)) (m : List (String × V)) (s : Store S)
      → value_at now key s ≡ stored k m
      → IsDict s.objects
      → map_result f (next (at_key m)) ≡ r
      → Refines now key s (map_ok f (next (at_key m), s)) (r, stored k m)
  reading-Refines next f r m s q h e = record {
    result = e;
    store = unchanged now key s (stored k m) q h;
  }

  value_fetched-found :
      (f : String) (m : List (String × V))
      → map_result value (value_fetched k f (at_key m)) ≡ found_value (lookup f m)
  unfolding at_key value_fetched
  value_fetched-found f [] = refl
  value_fetched-found f (e ∷ m) = by (lookup f (e ∷ m))
    where
      by :
          (o : Option V)
          → map_result value
              (elim o as (λ _. Result V) [ none ↦ failed key_not_found | some v ↦ ok v ])
            ≡ found_value o
      by none = refl
      by (some v) = refl

  has_fetched-found :
      (f : String) (m : List (String × V))
      → map_result {B = Reply V} flag (has_fetched k f (at_key m))
        ≡ ok (flag (is_some (lookup f m)))
  unfolding at_key has_fetched
  has_fetched-found f [] = refl
  has_fetched-found f (e ∷ m) = refl

  size_fetched-length :
      (m : List (String × V))
      → map_result {B = Reply V} number (size_fetched k (at_key m)) ≡ ok (number (length m))
  unfolding at_key size_fetched
  size_fetched-length [] = refl
  size_fetched-length (e ∷ m) = refl

  entries_fetched-all :
      (m : List (String × V)) → map_result entries (entries_fetched k (at_key m)) ≡ ok (entries m)
  unfolding at_key entries_fetched
  entries_fetched-all [] = refl
  entries_fetched-all (e ∷ m) = refl

  -- On a key that has a value of the type, or that is not there, and no string, these calls on
  -- a hash, a set or a sorted set (put fields, remove fields, the value of a field, whether it is there,
  -- the number of fields, and all entries) return what they return on the plain map, with the empty map
  -- for a key that is not there; they leave the key with the map that is left, or deleted if that is
  -- empty; and no other key changes. The arguments are of the right types, and there is one to write.
  -- What is returned in order, and `ZIncrBy`, are not among the calls.
  pub map_lem :
      (c : MapCall V) (m : List (String × V)) (s : Store S)
      → IsDict s.objects
      → s.string_key key ≡ false
      → value_at now key s ≡ stored k m
      → Refines now key s (run k now key c s) ((act c m).0, stored k (act c m).1)
  unfolding run put_all remove_all get_value has_value get_size get_entries
  map_lem (putting p ps) m s h free v =
      on_map (put_fetched k now key (map some (p ∷ ps))) number (putting p ps) m s h free v
        (putting-Refines p ps m)
  map_lem (removing fs) m s h free v =
      on_map (remove_fetched k key (map some fs)) number (removing fs) m s h free v
        (removing-Refines fs m)
  map_lem (getting f) m s h free v =
      on_map (λ p. (value_fetched k f p.0, p.1)) value (getting f) m s h free v
        (λ s' v' h'.
          reading-Refines (value_fetched k f) value _ m s' v' h' (value_fetched-found f m))
  map_lem (asking f) m s h free v =
      on_map (λ p. (has_fetched k f p.0, p.1)) flag (asking f) m s h free v
        (λ s' v' h'. reading-Refines (has_fetched k f) flag _ m s' v' h' (has_fetched-found f m))
  map_lem counting m s h free v =
      on_map (λ p. (size_fetched k p.0, p.1)) number counting m s h free v
        (λ s' v' h'. reading-Refines (size_fetched k) number _ m s' v' h' (size_fetched-length m))
  map_lem listing m s h free v =
      on_map (λ p. (entries_fetched k p.0, p.1)) entries listing m s h free v
        (λ s' v' h'.
          reading-Refines (entries_fetched k) entries _ m s' v' h' (entries_fetched-all m))
