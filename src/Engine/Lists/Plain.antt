-- ===== src/Engine/Lists/Plain.antt =====
-- internal/engine/memory/list.go: what the store's code does to a list that it found is what is meant.
use mathlib.Core.Option
use autocache.Prelude.{
  ℕ, zero, suc, ◌-◌, ◌≡◌, refl, sym, ap, ap₂, ◌∙◌, String, Bool, true, false, Option, none, some,
  List, [], ◌∷◌, ◌++◌, length, take, get_or, leb, arith, if◌then◌else◌, ℤ, pos, negsuc,
}
use autocache.Engine.Objects.{key_not_found, Result, ok, failed}
use autocache.Engine.Lists.{normalize_index, replace, prepend, but_last}
use autocache.Engine.Lists.Range.{position, ranged, ranged-pick}
use autocache.Engine.Lists.Spec.{
  ListCall, ranging, trimming, counting, indexing, setting, pushing, popping, Reply, done, items,
  number, item, turned, joined, last_of, before_last, taken, item_of, with_at, read_item, written,
  act,
}

-- What the store's code does to the list.
abbrev pub pushed : Bool → List String → List String → List String
pushed left vs xs = if left then prepend vs xs else xs ++ vs

abbrev pub popped : Bool → List String → Result Reply × List String
popped left [] = (failed key_not_found, [])
popped left (x ∷ xs) =
    if left
    then (ok (item x), xs)
    else (ok (item (get_or (x ∷ xs) (length xs) "")), but_last (x ∷ xs))

abbrev pub item_at : List String → Option ℕ → Result Reply × List String
item_at xs none = (failed key_not_found, xs)
item_at xs (some n) = (ok (item (get_or xs n "")), xs)

abbrev pub with_item : String → List String → Option ℕ → Result Reply × List String
with_item v xs none = (failed key_not_found, xs)
with_item v xs (some n) = (ok done, replace n v xs)

abbrev pub done_by : ListCall → List String → Result Reply × List String
done_by (ranging a b) xs = (ok (items (ranged a b xs)), xs)
done_by (trimming a b) xs = (ok done, ranged a b xs)
done_by counting xs = (ok (number (length xs)), xs)
done_by (indexing i) xs = item_at xs (normalize_index (length xs) i)
done_by (setting i v) xs = with_item v xs (normalize_index (length xs) i)
done_by (pushing left v vs) xs = let ys = pushed left (v ∷ vs) xs in (ok (number (length ys)), ys)
done_by (popping left) xs = popped left xs

prepend-turned : (vs xs : List String) → prepend vs xs ≡ turned vs ++ xs
unfolding prepend turned
prepend-turned [] xs = refl
prepend-turned (v ∷ vs) xs = prepend-turned vs (v ∷ xs) ∙ onto (turned vs) v xs
  where
    onto : (us : List String) (v : String) (xs : List String) → us ++ v ∷ xs ≡ (us ++ v ∷ []) ++ xs
    onto [] v xs = refl
    onto (u ∷ us) v xs = ap (λ r. u ∷ r) (onto us v xs)

pushed-joined : (left : Bool) (vs xs : List String) → pushed left vs xs ≡ joined left vs xs
pushed-joined true vs xs = prepend-turned vs xs
pushed-joined false vs xs = refl

get_or-last_of : (x : String) (xs : List String) → get_or (x ∷ xs) (length xs) "" ≡ last_of x xs
unfolding last_of
get_or-last_of x [] = refl
get_or-last_of x (y ∷ ys) = get_or-last_of y ys

but_last-before_last :
    (x : String) (xs : List String) → take (length xs) (x ∷ xs) ≡ before_last x xs
unfolding before_last
but_last-before_last x [] = refl
but_last-before_last x (y ∷ ys) = ap (λ r. x ∷ r) (but_last-before_last y ys)

popped-taken : (left : Bool) (xs : List String) → popped left xs ≡ taken left xs
unfolding but_last
popped-taken left [] = refl
popped-taken true (x ∷ xs) = refl
popped-taken false (x ∷ xs) =
    ap₂ (λ l r. (ok (item l), r)) (get_or-last_of x xs)
      (ap (λ (n : ℕ). take n (x ∷ xs)) {x = suc (length xs) - 1} {y = length xs} (omega arith)
        ∙ but_last-before_last x xs)

-- The index that a position stands for, and `none` outside the list.
abbrev index_of : ℕ → ℤ → Option ℕ
index_of len (negsuc n) = none
index_of len (pos n) = if leb len n then none else some n

normalize_index-index_of : (len : ℕ) (i : ℤ) → normalize_index len i ≡ index_of len (position len i)
unfolding normalize_index
normalize_index-index_of len (pos n) = ground arith
normalize_index-index_of len (negsuc n) = ground arith

item_of-get_or :
    (n : ℕ) (xs : List String)
    → item_of (pos n) xs ≡ (if leb (length xs) n then none else some (get_or xs n ""))
unfolding item_of
item_of-get_or n [] = ground arith
item_of-get_or zero (x ∷ xs) = ground arith
item_of-get_or (suc n) (x ∷ xs) = item_of-get_or n xs ∙ ground arith

item_at-item_of :
    (q : ℤ) (xs : List String) → item_at xs (index_of (length xs) q) ≡ read_item xs (item_of q xs)
unfolding item_of
item_at-item_of (negsuc n) xs = refl
item_at-item_of (pos n) xs = by (leb (length xs) n) ∙ ap (read_item xs) (sym (item_of-get_or n xs))
  where
    by :
        (b : Bool)
        → item_at xs (if b then none else some n)
          ≡ read_item xs (if b then none else some (get_or xs n ""))
    by true = refl
    by false = refl

with_at-replace :
    (n : ℕ) (v : String) (xs : List String)
    → with_at (pos n) v xs ≡ (if leb (length xs) n then none else some (replace n v xs))
unfolding with_at replace
with_at-replace n v [] = ground arith
with_at-replace zero v (x ∷ xs) = ground arith
with_at-replace (suc n) v (x ∷ xs) =
    ap (Option.map (λ ys. x ∷ ys)) (with_at-replace n v xs) ∙ ground arith

with_item-with_at :
    (q : ℤ) (v : String) (xs : List String)
    → with_item v xs (index_of (length xs) q) ≡ written xs (with_at q v xs)
unfolding with_at
with_item-with_at (negsuc n) v xs = refl
with_item-with_at (pos n) v xs =
    by (leb (length xs) n) ∙ ap (written xs) (sym (with_at-replace n v xs))
  where
    by :
        (b : Bool)
        → with_item v xs (if b then none else some n)
          ≡ written xs (if b then none else some (replace n v xs))
    by true = refl
    by false = refl

pub done_by-act : (c : ListCall) (xs : List String) → done_by c xs ≡ act c xs
done_by-act (ranging a b) xs = ap (λ ys. (ok (items ys), xs)) (ranged-pick a b xs)
done_by-act (trimming a b) xs = ap (λ ys. (ok done, ys)) (ranged-pick a b xs)
done_by-act counting xs = refl
done_by-act (indexing i) xs =
    ap (item_at xs) (normalize_index-index_of (length xs) i)
    ∙ item_at-item_of (position (length xs) i) xs
done_by-act (setting i v) xs =
    ap (with_item v xs) (normalize_index-index_of (length xs) i)
    ∙ with_item-with_at (position (length xs) i) v xs
done_by-act (pushing left v vs) xs =
    ap (λ ys. (ok (number (length ys)), ys)) (pushed-joined left (v ∷ vs) xs)
done_by-act (popping left) xs = popped-taken left xs
