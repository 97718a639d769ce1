-- ===== src/Engine/Maps/Spec.antt =====
-- internal/engine/memory/{hash,set,zset}.go: the operations of the store as calls, and what each of
-- them does to a plain map.
use autocache.Prelude.{
  ℕ, ◌+◌, ◌≡◌, ap, ◌∙◌, String, Bool, Option, none, some, List, [], ◌∷◌, map, length, arith,
  if◌then◌else◌, lookup, insert, erase, is_some,
}
use autocache.Engine.Objects.{Value, Store, key_not_found, Result, ok, failed}
use autocache.Engine.Maps.{
  Kind, put_args, remove_args, put_all, remove_all, get_value, has_value, get_size, get_entries,
}

-- The operations on one key; `putting` has at least one field.
pub data MapCall (V : Type 0) : Type 0 where
  putting : String × V → List (String × V) → MapCall V
  removing : List String → MapCall V
  getting asking : String → MapCall V
  counting listing : MapCall V

-- What they return.
pub data Reply (V : Type 0) : Type 0 where
  number : ℕ → Reply V
  value : V → Reply V
  flag : Bool → Reply V
  entries : List (String × V) → Reply V

abbrev pub map_result : {A B : Type 0} → (A → B) → Result A → Result B
map_result f (ok a) = ok (f a)
map_result f (failed e) = failed e

abbrev pub map_ok : {A B X : Type 0} → (A → B) → Result A × X → Result B × X
map_ok f p = (map_result f p.0, p.1)

-- The operations of the store.
unfoldable pub run :
    {S V : Type 0} → Kind S V → ℕ → String → MapCall V → Store S → Result (Reply V) × Store S
run k now key (putting p ps) s = map_ok number (put_all k now key (map some (p ∷ ps)) s)
run k now key (removing fs) s = map_ok number (remove_all k now key (map some fs) s)
run k now key (getting f) s = map_ok value (get_value k now key f s)
run k now key (asking f) s = map_ok flag (has_value k now key f s)
run k now key counting s = map_ok number (get_size k now key s)
run k now key listing s = map_ok entries (get_entries k now key s)

-- The same on a map: fields are written, or deleted, one after the other.
module _ {V : Type 0} where
  unfoldable pub puts : List (String × V) → List (String × V) → List (String × V)
  puts [] m = m
  puts ((f, v) ∷ ps) m = puts ps (insert f v m)

  -- How many of them are new when it is their turn.
  unfoldable pub added : List (String × V) → List (String × V) → ℕ
  added [] m = 0
  added ((f, v) ∷ ps) m = (if is_some (lookup f m) then 0 else 1) + added ps (insert f v m)

  unfoldable pub removes : List String → List (String × V) → List (String × V)
  removes [] m = m
  removes (f ∷ fs) m = removes fs (erase f m)

  unfoldable pub removed : List String → List (String × V) → ℕ
  removed [] m = 0
  removed (f ∷ fs) m = (if is_some (lookup f m) then 1 else 0) + removed fs (erase f m)

abbrev pub found_value : {V : Type 0} → Option V → Result (Reply V)
found_value none = failed key_not_found
found_value (some v) = ok (value v)

abbrev pub act : {V : Type 0} → MapCall V → List (String × V) → Result (Reply V) × List (String × V)
act (putting p ps) m = (ok (number (added (p ∷ ps) m)), puts (p ∷ ps) m)
act (removing fs) m = (ok (number (removed fs m)), removes fs m)
act (getting f) m = (found_value (lookup f m), m)
act (asking f) m = (ok (flag (is_some (lookup f m))), m)
act counting m = (ok (number (length m)), m)
act listing m = (ok (entries m), m)

-- How a map is stored.
abbrev pub stored : {S V : Type 0} → Kind S V → List (String × V) → Option (Value S)
stored k [] = none
stored k (e ∷ m) = some (k.wrap (e ∷ m))

pub put_args-puts :
    {V : Type 0} (ps : List (String × V)) (m : List (String × V)) (n : ℕ)
    → put_args (map some ps) m n ≡ (ok (n + added ps m), puts ps m)
unfolding put_args puts added
put_args-puts [] m n = ap (λ (j : ℕ). (ok j, m)) {x = n} {y = n + 0} (omega arith)
put_args-puts ((f, v) ∷ ps) m n =
    put_args-puts ps (insert f v m) (if is_some (lookup f m) then n else n + 1)
    ∙ ap (λ (j : ℕ). (ok j, puts ps (insert f v m))) (ground arith)

pub remove_args-removes :
    {V : Type 0} (fs : List String) (m : List (String × V)) (n : ℕ)
    → remove_args (map some fs) m n ≡ (ok (n + removed fs m), removes fs m)
unfolding remove_args removes removed
remove_args-removes [] m n = ap (λ (j : ℕ). (ok j, m)) {x = n} {y = n + 0} (omega arith)
remove_args-removes (f ∷ fs) m n =
    remove_args-removes fs (erase f m) (if is_some (lookup f m) then n + 1 else n)
    ∙ ap (λ (j : ℕ). (ok j, removes fs (erase f m))) (ground arith)
