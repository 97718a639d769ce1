-- ===== src/Engine/Maps/Counts.antt =====
-- internal/engine/memory/{hash,set,zset}.go: what the loops over the arguments count, and what they
-- leave in the map.
use autocache.Prelude.{
  ℕ, ◌+◌, ◌≡◌, refl, sym, ap, ◌∙◌, String, Bool, Option, none, some, List, [], ◌∷◌, map, length,
  arith, str_eq, if◌then◌else◌, ◌||◌, lookup, insert, erase, IsMap, insert-IsMap, erase-IsMap,
  lookup-insert, lookup-erase, length-insert, length-erase, subst, false,
}
use autocache.Engine.Objects.{ok}
use autocache.Engine.Maps.{put_args, remove_args}
use autocache.Engine.Maps.Spec.{puts, added, removes, removed, put_args-puts, remove_args-removes}

-- The value that was written to the field last, or the one from before.
abbrev pub latest : {V : Type 0} → String → List (String × V) → Option V → Option V
latest g [] o = o
latest g ((f, v) ∷ ps) o = latest g ps (if str_eq f g then some v else o)

abbrev pub named : String → List String → Bool
named g [] = false
named g (f ∷ fs) = str_eq f g || named g fs

-- A map, the map that a loop makes of it, and what the loop counts.
pub record Puts {V : Type 0} (ps m : List (String × V)) (n : ℕ) (m' : List (String × V))
    : Type 0 where
  pub good : IsMap m'
  pub count : length m' ≡ length m + n
  pub values : (g : String) → lookup g m' ≡ latest g ps (lookup g m)

pub record Removes {V : Type 0} (fs : List String) (m : List (String × V)) (n : ℕ)
    (m' : List (String × V)) : Type 0 where
  pub good : IsMap m'
  pub count : length m' + n ≡ length m
  pub values : (g : String) → lookup g m' ≡ (if named g fs then none else lookup g m)

puts-Puts : {V : Type 0} (ps m : List (String × V)) → IsMap m → Puts ps m (added ps m) (puts ps m)
unfolding puts added
puts-Puts [] m h = record { good = h; count = omega arith; values = λ g. refl }
puts-Puts ((f, v) ∷ ps) m h =
    let r = puts-Puts ps (insert f v m) (insert-IsMap f v m h) in
    record {
      good = r.good;
      count = omega (arith, r.count, length-insert f v m);
      values = λ g. r.values g ∙ ap (latest g ps) (lookup-insert f g v m);
    }

removes-Removes :
    {V : Type 0} (fs : List String) (m : List (String × V))
    → IsMap m
    → Removes fs m (removed fs m) (removes fs m)
unfolding removes removed
removes-Removes [] m h = record { good = h; count = omega arith; values = λ g. refl }
removes-Removes (f ∷ fs) m h =
    let r = removes-Removes fs (erase f m) (erase-IsMap f m h) in
    record {
      good = r.good;
      count = omega (arith, r.count, length-erase f m);
      values = λ g. ground (arith, r.values g, lookup-erase f g m h);
    }

-- Writing fields one after the other returns the number of fields that the map gains; afterwards a
-- field has the value that was written to it last, or else its old one, and is listed once.
pub put_args_lem :
    {V : Type 0} (ps m : List (String × V))
    → IsMap m
    → (n : ℕ) × ((put_args (map some ps) m 0).0 ≡ ok n) × Puts ps m n (put_args (map some ps) m 0).1
put_args_lem ps m h =
    let e = put_args-puts ps m 0 in
    (
      added ps m,
      ap (λ r. r.0) e ∙ ap (λ (j : ℕ). ok j) {x = 0 + added ps m} {y = added ps m} (omega arith),
      subst (λ m'. Puts ps m (added ps m) m') (sym (ap (λ r. r.1) e)) (puts-Puts ps m h),
    )

-- Deleting fields one after the other returns the number of fields that the map loses; afterwards
-- none of them is there, the others are as they were, and a field is listed once.
pub remove_args_lem :
    {V : Type 0} (fs : List String) (m : List (String × V))
    → IsMap m
    → (n : ℕ) × ((remove_args (map some fs) m 0).0 ≡ ok n)
      × Removes fs m n (remove_args (map some fs) m 0).1
remove_args_lem fs m h =
    let e = remove_args-removes fs m 0 in
    (
      removed fs m,
      ap (λ r. r.0) e
          ∙ ap (λ (j : ℕ). ok j) {x = 0 + removed fs m} {y = removed fs m} (omega arith),
      subst (λ m'. Removes fs m (removed fs m) m') (sym (ap (λ r. r.1) e)) (removes-Removes fs m h),
    )
