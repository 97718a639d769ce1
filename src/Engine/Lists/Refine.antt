-- ===== src/Engine/Lists/Refine.antt =====
-- internal/engine/memory/list.go: the operations of the store do to a key what those on plain lists
-- do to the list.
use text.Mathlib.TextPositions.{eq_refl}
use autocache.Prelude.{
  ℕ, zero, suc, ◌+◌, ◌-◌, ◌≤◌, ◌<◌, ◌≡◌, ◌≢◌, refl, sym, ap, ap₂, subst, ◌∙◌, String, Bool, true,
  false, Option, none, some, List, [], ◌∷◌, map, length, take, drop, get_or, arith, if◌then◌else◌,
  ℤ, OnSome, is_some,
}
use autocache.Engine.Dict.Refine.{IsDict}
use autocache.Engine.Objects.{list, Store, key_not_found, Result, ok, failed, create, assign}
use autocache.Engine.Objects.View.{value_at, Writes, Refines, looked}
use autocache.Engine.Objects.Writes.{
  assign-Writes, create-Writes, delete-Writes, twice-Writes, unchanged, fetched-Refines,
}
use autocache.Engine.Lists.{
  normalize_index, normalize_range, slice, replace, strings, prepend, but_last, as_list,
  get_list_value, l_range, l_len, l_index, l_set, l_trim, push_list, pop_list, range_fetched,
  len_fetched, index_fetched, set_at, l_set_fetched, trim_to, l_trim_fetched, push_items,
  push_fetched, keep_list, pop_fetched,
}
use autocache.Engine.Lists.Range.{normalize_range_lem, ranged}
use autocache.Engine.Lists.Spec.{
  ListCall, ranging, trimming, counting, indexing, setting, pushing, popping, Reply, done, items,
  number, item, map_result, map_ok, run, act, stored,
}
use autocache.Engine.Lists.Plain.{pushed, item_at, with_item, done_by, done_by-act}

strings-some : (vs : List String) → strings (map some vs) ≡ some vs
unfolding strings
strings-some [] = refl
strings-some (v ∷ vs) = rw (strings-some vs) refl

range_nil : (a b : ℤ) → normalize_range 0 a b ≡ none
unfolding normalize_range
range_nil a b = refl

index_nil : (i : ℤ) → normalize_index 0 i ≡ none
unfolding normalize_index
index_nil i = refl

take_ne_nil : (n i : ℕ) (xs : List String) → i < length xs → take (suc n) (drop i xs) ≢ []
take_ne_nil n i [] h = absurd (omega arith)
take_ne_nil n zero (x ∷ xs) h = cc
take_ne_nil n (suc i) (x ∷ xs) h = take_ne_nil n i xs (omega arith)

slice_ne_nil : (i j : ℕ) (xs : List String) → i ≤ j → j < length xs → slice i j xs ≢ []
unfolding slice
slice_ne_nil i j xs h k =
    subst (λ n. take n (drop i xs) ≢ []) {x = suc (j - i)} {y = j + 1 - i} (omega arith)
      (take_ne_nil (j - i) i xs (omega arith))

range_ne_nil :
    (a b : ℤ) (i j : ℕ) (x : String) (xs : List String)
    → normalize_range (suc (length xs)) a b ≡ some (i, j)
    → slice i j (x ∷ xs) ≢ []
range_ne_nil a b i j x xs e =
    let found =
      subst (OnSome (λ (r : ℕ × ℕ). (r.0 ≤ r.1) × (r.1 < suc (length xs)))) e
        (normalize_range_lem (suc (length xs)) 0 a b (omega arith)).0 in
    slice_ne_nil i j (x ∷ xs) found.0 found.1

replace_ne_nil : (n : ℕ) (v x : String) (xs : List String) → replace n v (x ∷ xs) ≢ []
unfolding replace
replace_ne_nil zero v x xs = cc
replace_ne_nil (suc n) v x xs = cc

prepend_ne_nil : (vs : List String) (x : String) (xs : List String) → prepend vs (x ∷ xs) ≢ []
unfolding prepend
prepend_ne_nil [] x xs = cc
prepend_ne_nil (v ∷ vs) x xs = prepend_ne_nil vs v (x ∷ xs)

pushed_ne_nil : (left : Bool) (v : String) (vs xs : List String) → pushed left (v ∷ vs) xs ≢ []
unfolding prepend
pushed_ne_nil true v vs xs = prepend_ne_nil vs v xs
pushed_ne_nil false v vs [] = cc
pushed_ne_nil false v vs (x ∷ xs) = cc

stored_ne_nil : {S : Type 0} (xs : List String) → xs ≢ [] → stored {S = S} xs ≡ some (list xs)
stored_ne_nil [] h = absurd (h refl)
stored_ne_nil (x ∷ xs) h = refl

module _ {S : Type 0} (now : ℕ) (key : String) where
  -- An operation on a list key, from what it does once the list is found, or found missing.
  on_list :
      {R : Type 0} (next : Result (List String) × Store S → Result R × Store S) (f : R → Reply)
      (c : ListCall) (xs : List String) (s : Store S)
      → IsDict s.objects
      → s.string_key key ≡ false
      → value_at now key s ≡ stored xs
      → ((s' : Store S)
          → value_at now key s' ≡ stored xs
          → IsDict s'.objects
          → Refines now key s'
              (map_ok f (next (looked as_list false (stored {S = S} xs), s')))
              ((done_by c xs).0, stored (done_by c xs).1))
      → Refines now key s
          (map_ok f (next (get_list_value now key s)))
          ((done_by c xs).0, stored (done_by c xs).1)
  unfolding get_list_value
  on_list next f c xs s h free v each =
      fetched-Refines as_list (λ p. map_ok f (next p)) _ now key s
        (looked as_list false (stored xs)) h (ap₂ (looked as_list) free v)
        (λ s' e h'. each s' (e ∙ v) h')

  -- A list that is not empty is stored in place of the one that is there.
  assigns :
      (x : String) (xs ys : List String) (s : Store S)
      → ys ≢ []
      → value_at now key s ≡ stored (x ∷ xs)
      → IsDict s.objects
      → Writes now key s (stored ys) (assign key (list ys) s)
  assigns x xs [] s ne v h = absurd (ne refl)
  assigns x xs (y ∷ ys) s ne v h = assign-Writes now key (list (y ∷ ys)) s (ap is_some v) h

  ranging-Refines :
      (a b : ℤ) (xs : List String) (s : Store S)
      → value_at now key s ≡ stored xs
      → IsDict s.objects
      → Refines now key s
          (map_ok items (range_fetched a b (looked as_list false (stored {S = S} xs)), s))
          (ok (items (ranged a b xs)), stored xs)
  unfolding range_fetched
  ranging-Refines a b [] s v h = record {
    result =
        ap
          (λ o.
            ok (items (elim o as (λ _. List String) [ none ↦ [] | some (i, j) ↦ slice i j [] ])))
          (sym (range_nil a b));
    store = unchanged now key s none v h;
  }
  ranging-Refines a b (x ∷ xs) s v h = record {
    result = by (normalize_range (suc (length xs)) a b);
    store = unchanged now key s (stored (x ∷ xs)) v h;
  }
    where
      by :
          (o : Option (ℕ × ℕ))
          → map_result items (elim o as (λ _. Result (List String)) [
            | none ↦ ok []
            | some (i, j) ↦ ok (slice i j (x ∷ xs))
          ])
            ≡ ok (
                items
                  (elim o as (λ _. List String) [ none ↦ [] | some (i, j) ↦ slice i j (x ∷ xs) ]))
      by none = refl
      by (some (i, j)) = refl

  trimming-Refines :
      (a b : ℤ) (xs : List String) (s : Store S)
      → value_at now key s ≡ stored xs
      → IsDict s.objects
      → Refines now key s
          (map_ok
            (λ _. done)
            (l_trim_fetched key a b (looked as_list false (stored {S = S} xs), s)))
          (ok done, stored (ranged a b xs))
  unfolding l_trim_fetched trim_to
  trimming-Refines a b [] s v h = record {
    result = refl;
    store =
        unchanged now key s _
          (v
            ∙ ap
                (λ o.
                  stored (elim o as (λ _. List String) [ none ↦ [] | some (i, j) ↦ slice i j [] ]))
                (sym (range_nil a b)))
          h;
  }
  trimming-Refines a b (x ∷ xs) s v h = record {
    result = refl;
    store = by (normalize_range (suc (length xs)) a b) refl;
  }
    where
      by :
          (o : Option (ℕ × ℕ))
          → normalize_range (suc (length xs)) a b ≡ o
          → Writes now key s
              (stored
                (elim o as (λ _. List String) [ none ↦ [] | some (i, j) ↦ slice i j (x ∷ xs) ]))
              (trim_to key (x ∷ xs) o s)
      by none e = delete-Writes now key s h
      by (some (i, j)) e = assigns x xs (slice i j (x ∷ xs)) s (range_ne_nil a b i j x xs e) v h

  counting-Refines :
      (xs : List String) (s : Store S)
      → value_at now key s ≡ stored xs
      → IsDict s.objects
      → Refines now key s
          (map_ok number (len_fetched (looked as_list false (stored {S = S} xs)), s))
          (ok (number (length xs)), stored xs)
  unfolding len_fetched
  counting-Refines [] s v h = record { result = refl; store = unchanged now key s none v h }
  counting-Refines (x ∷ xs) s v h = record {
    result = refl;
    store = unchanged now key s (stored (x ∷ xs)) v h;
  }

  indexing-Refines :
      (i : ℤ) (xs : List String) (s : Store S)
      → value_at now key s ≡ stored xs
      → IsDict s.objects
      → let spec = done_by (indexing i) xs in
        Refines now key s
          (map_ok item (index_fetched i (looked as_list false (stored {S = S} xs)), s))
          (spec.0, stored spec.1)
  unfolding index_fetched
  indexing-Refines i [] s v h =
      subst
        (λ o.
          Refines now key s (failed key_not_found, s) ((item_at [] o).0, stored (item_at [] o).1))
        (sym (index_nil i)) (record { result = refl; store = unchanged now key s none v h })
  indexing-Refines i (x ∷ xs) s v h = by (normalize_index (suc (length xs)) i)
    where
      by :
          (o : Option ℕ)
          → Refines now key s
              (
                map_result item (elim o as (λ _. Result String) [
                  | none ↦ failed key_not_found
                  | some n ↦ ok (get_or (x ∷ xs) n "")
                ]),
                s,
              )
              ((item_at (x ∷ xs) o).0, stored (item_at (x ∷ xs) o).1)
      by none = record { result = refl; store = unchanged now key s (stored (x ∷ xs)) v h }
      by (some n) = record { result = refl; store = unchanged now key s (stored (x ∷ xs)) v h }

  setting-Refines :
      (i : ℤ) (w : String) (xs : List String) (s : Store S)
      → value_at now key s ≡ stored xs
      → IsDict s.objects
      → let spec = done_by (setting i w) xs in
        Refines now key s
          (map_ok (λ _. done) (l_set_fetched key i w (looked as_list false (stored {S = S} xs), s)))
          (spec.0, stored spec.1)
  unfolding l_set_fetched set_at
  setting-Refines i w [] s v h =
      subst
        (λ o.
          Refines now key s (failed key_not_found, s)
            ((with_item w [] o).0, stored (with_item w [] o).1))
        (sym (index_nil i)) (record { result = refl; store = unchanged now key s none v h })
  setting-Refines i w (x ∷ xs) s v h = by (normalize_index (suc (length xs)) i)
    where
      by :
          (o : Option ℕ)
          → Refines now key s
              (map_ok (λ _. done) (set_at key w (x ∷ xs) o s))
              ((with_item w (x ∷ xs) o).0, stored (with_item w (x ∷ xs) o).1)
      by none = record { result = refl; store = unchanged now key s (stored (x ∷ xs)) v h }
      by (some n) = record {
        result = refl;
        store = assigns x xs (replace n w (x ∷ xs)) s (replace_ne_nil n w x xs) v h;
      }

  pushing-Refines :
      (left : Bool) (w : String) (ws xs : List String) (s : Store S)
      → value_at now key s ≡ stored xs
      → IsDict s.objects
      → let spec = done_by (pushing left w ws) xs in
        Refines now key s
          (map_ok number (
            push_fetched now key left
              (map some (w ∷ ws))
              (looked as_list false (stored {S = S} xs), s)))
          (spec.0, stored spec.1)
  unfolding push_fetched push_items
  pushing-Refines left w ws [] s v h =
      subst
        (λ o.
          Refines now key s (map_ok number (push_items key left [] o (create now key (list []) s)))
            (ok (number (length ys)), stored ys))
        (sym (strings-some (w ∷ ws)))
        (record {
          result = refl;
          store = twice-Writes now key s _ _ (some (list [])) _ new (
              subst
                (λ c.
                  Writes now key (create now key (list []) s) c
                    (assign key (list ys) (create now key (list []) s)))
                (sym (stored_ne_nil ys (pushed_ne_nil left w ws [])))
                (assign-Writes now key (list ys) _ there new.good));
        })
    where
      ys : List String
      ys = pushed left (w ∷ ws) []

      new : Writes now key s (some (list [])) (create now key (list []) s)
      new = create-Writes now key (list []) s h

      there : is_some (value_at now key (create now key (list []) s)) ≡ true
      there = ap is_some (
          new.values key ∙ ap (λ b. if b then some (list []) else value_at now key s) (eq_refl key))
  pushing-Refines left w ws (x ∷ xs) s v h =
      subst
        (λ o.
          Refines now key s (map_ok number (push_items key left (x ∷ xs) o s))
            (ok (number (length ys)), stored ys))
        (sym (strings-some (w ∷ ws)))
        (record { result = refl; store = assigns x xs ys s (pushed_ne_nil left w ws (x ∷ xs)) v h })
    where
      ys : List String
      ys = pushed left (w ∷ ws) (x ∷ xs)

  keeps :
      (x : String) (xs ys : List String) (s : Store S)
      → value_at now key s ≡ stored (x ∷ xs)
      → IsDict s.objects
      → Writes now key s (stored ys) (keep_list key ys s)
  unfolding keep_list
  keeps x xs [] s v h = delete-Writes now key s h
  keeps x xs (y ∷ ys) s v h = assign-Writes now key (list (y ∷ ys)) s (ap is_some v) h

  popping-Refines :
      (left : Bool) (xs : List String) (s : Store S)
      → value_at now key s ≡ stored xs
      → IsDict s.objects
      → let spec = done_by (popping left) xs in
        Refines now key s
          (map_ok item (pop_fetched key left (looked as_list false (stored {S = S} xs), s)))
          (spec.0, stored spec.1)
  unfolding pop_fetched
  popping-Refines left [] s v h = record { result = refl; store = unchanged now key s none v h }
  popping-Refines true (x ∷ xs) s v h = record { result = refl; store = keeps x xs xs s v h }
  popping-Refines false (x ∷ xs) s v h = record {
    result = refl;
    store = keeps x xs (but_last (x ∷ xs)) s v h;
  }

  list_done_by :
      (c : ListCall) (xs : List String) (s : Store S)
      → IsDict s.objects
      → s.string_key key ≡ false
      → value_at now key s ≡ stored xs
      → Refines now key s (run now key c s) ((done_by c xs).0, stored (done_by c xs).1)
  unfolding run l_range l_len l_index l_set l_trim push_list pop_list
  list_done_by (ranging a b) xs s h free v =
      on_list (λ p. (range_fetched a b p.0, p.1)) items (ranging a b) xs s h free v
        (ranging-Refines a b xs)
  list_done_by (trimming a b) xs s h free v =
      on_list (l_trim_fetched key a b) (λ _. done) (trimming a b) xs s h free v
        (trimming-Refines a b xs)
  list_done_by counting xs s h free v =
      on_list (λ p. (len_fetched p.0, p.1)) number counting xs s h free v (counting-Refines xs)
  list_done_by (indexing i) xs s h free v =
      on_list (λ p. (index_fetched i p.0, p.1)) item (indexing i) xs s h free v
        (indexing-Refines i xs)
  list_done_by (setting i w) xs s h free v =
      on_list (l_set_fetched key i w) (λ _. done) (setting i w) xs s h free v
        (setting-Refines i w xs)
  list_done_by (pushing left w ws) xs s h free v =
      on_list (push_fetched now key left (map some (w ∷ ws))) number (pushing left w ws) xs s h free
        v (pushing-Refines left w ws xs)
  list_done_by (popping left) xs s h free v =
      on_list (pop_fetched key left) item (popping left) xs s h free v (popping-Refines left xs)

  -- On a key that has a list, or that is not there, and no string, each list operation returns what
  -- it returns on the plain list, with the empty list for a key that is not there; it leaves the key
  -- with the list that is left, or deleted if that is empty; and no other key changes. Pushes are of
  -- at least one item.
  pub list_lem :
      (c : ListCall) (xs : List String) (s : Store S)
      → IsDict s.objects
      → s.string_key key ≡ false
      → value_at now key s ≡ stored xs
      → Refines now key s (run now key c s) ((act c xs).0, stored (act c xs).1)
  list_lem c xs s h free v =
      subst
        (λ (r : Result Reply × List String). Refines now key s (run now key c s) (r.0, stored r.1))
        (done_by-act c xs) (list_done_by c xs s h free v)
