-- ===== src/Engine/Lists/Spec.antt =====
-- internal/engine/memory/list.go against plain lists: a key that is not there is the empty list.
use mathlib.Core.Option
use autocache.Prelude.{
  ℕ, zero, suc, String, Bool, true, false, not, ◌&&◌, Option, none, some, List, [], ◌∷◌, ◌++◌, map,
  length, ℤ, pos, negsuc, ltb_ℤ,
}
use autocache.Engine.Objects.{Value, list, Store, key_not_found, Result, ok, failed}
use autocache.Engine.Lists.{l_range, l_len, l_index, l_set, l_trim, push_list, pop_list}
use autocache.Engine.Lists.Range.{position, pick}

-- The operations on one key; `pushing` has at least one item.
pub data ListCall : Type 0 where
  ranging trimming : ℤ → ℤ → ListCall
  counting : ListCall
  indexing : ℤ → ListCall
  setting : ℤ → String → ListCall
  pushing : Bool → String → List String → ListCall
  popping : Bool → ListCall

-- What they return.
pub data Reply : Type 0 where
  done : Reply
  items : List String → Reply
  number : ℕ → Reply
  item : String → Reply

abbrev pub map_result : {A B : Type 0} → (A → B) → Result A → Result B
map_result f (ok a) = ok (f a)
map_result f (failed e) = failed e

abbrev pub map_ok : {A B X : Type 0} → (A → B) → Result A × X → Result B × X
map_ok f p = (map_result f p.0, p.1)

-- The operations of the store.
unfoldable pub run : {S : Type 0} → ℕ → String → ListCall → Store S → Result Reply × Store S
run now key (ranging a b) s = map_ok items (l_range now key a b s)
run now key (trimming a b) s = map_ok (λ _. done) (l_trim now key a b s)
run now key counting s = map_ok number (l_len now key s)
run now key (indexing i) s = map_ok item (l_index now key i s)
run now key (setting i v) s = map_ok (λ _. done) (l_set now key i v s)
run now key (pushing left v vs) s = map_ok number (push_list now key left (map some (v ∷ vs)) s)
run now key (popping left) s = map_ok item (pop_list now key left s)

-- The same on a list, with nothing of the store's code. One item after the other to the front, or all
-- of them at the end.
unfoldable pub turned : List String → List String
turned [] = []
turned (v ∷ vs) = turned vs ++ v ∷ []

abbrev pub joined : Bool → List String → List String → List String
joined true vs xs = turned vs ++ xs
joined false vs xs = xs ++ vs

-- The last item, and those before it.
unfoldable pub last_of : String → List String → String
last_of x [] = x
last_of x (y ∷ ys) = last_of y ys

unfoldable pub before_last : String → List String → List String
before_last x [] = []
before_last x (y ∷ ys) = x ∷ before_last y ys

abbrev pub taken : Bool → List String → Result Reply × List String
taken left [] = (failed key_not_found, [])
taken true (x ∷ xs) = (ok (item x), xs)
taken false (x ∷ xs) = (ok (item (last_of x xs)), before_last x xs)

-- The item at a position, and the list with another one there; `none` where there is none.
unfoldable pub item_of : ℤ → List String → Option String
item_of (negsuc n) xs = none
item_of (pos n) [] = none
item_of (pos zero) (x ∷ xs) = some x
item_of (pos (suc n)) (x ∷ xs) = item_of (pos n) xs

unfoldable pub with_at : ℤ → String → List String → Option (List String)
with_at (negsuc n) v xs = none
with_at (pos n) v [] = none
with_at (pos zero) v (x ∷ xs) = some (v ∷ xs)
with_at (pos (suc n)) v (x ∷ xs) = Option.map (λ ys. x ∷ ys) (with_at (pos n) v xs)

abbrev pub read_item : List String → Option String → Result Reply × List String
read_item xs none = (failed key_not_found, xs)
read_item xs (some x) = (ok (item x), xs)

abbrev pub written : List String → Option (List String) → Result Reply × List String
written xs none = (failed key_not_found, xs)
written xs (some ys) = (ok done, ys)

-- The items from the position that `a` stands for to the one that `b` stands for.
abbrev pub between : ℤ → ℤ → List String → List String
between a b xs =
    pick
      (λ i.
        not (ltb_ℤ (pos i) (position (length xs) a))
        && not (ltb_ℤ (position (length xs) b) (pos i)))
      0 xs

abbrev pub act : ListCall → List String → Result Reply × List String
act (ranging a b) xs = (ok (items (between a b xs)), xs)
act (trimming a b) xs = (ok done, between a b xs)
act counting xs = (ok (number (length xs)), xs)
act (indexing i) xs = read_item xs (item_of (position (length xs) i) xs)
act (setting i v) xs = written xs (with_at (position (length xs) i) v xs)
act (pushing left v vs) xs = let ys = joined left (v ∷ vs) xs in (ok (number (length ys)), ys)
act (popping left) xs = taken left xs

-- How a list is stored.
abbrev pub stored : {S : Type 0} → List String → Option (Value S)
stored [] = none
stored (x ∷ xs) = some (list (x ∷ xs))
