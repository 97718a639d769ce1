-- ===== src/Engine/Lists/Range.antt =====
-- internal/engine/memory/list.go: which items a range with negative positions stands for.
use autocache.Prelude.{
  ℕ, zero, suc, ◌+◌, ◌-◌, ◌≤◌, ◌<◌, ◌≡◌, ◌≢◌, refl, sym, ap, subst, ◌∙◌, String, Bool, false, not,
  ◌&&◌, Option, none, some, List, [], ◌∷◌, arith, length, take, drop, leb, if◌then◌else◌, ℤ, pos,
  negsuc, ◌+ℤ◌, ltb_ℤ, OnSome,
}
use autocache.Engine.Lists.{normalize_range, slice}

-- The position that `p` stands for in a list of `len` items: a negative one counts from the end.
abbrev pub position : ℕ → ℤ → ℤ
position len p = if ltb_ℤ p (pos 0) then pos len +ℤ p else p

-- Whether the range that was found has item `i`.
abbrev pub covers : Option (ℕ × ℕ) → ℕ → Bool
covers none i = false
covers (some (a, b)) i = leb a i && leb i b

-- The range that `normalizeRange` finds is not empty and lies in the list, and it has exactly the
-- items of the list from the one that `start` stands for to the one that `stop` stands for; when it
-- finds none, there are no such items.
pub normalize_range_lem :
    (len i : ℕ) (start stop : ℤ)
    → i < len
    → OnSome (λ (r : ℕ × ℕ). (r.0 ≤ r.1) × (r.1 < len)) (normalize_range len start stop)
      × (covers (normalize_range len start stop) i
          ≡ (not (ltb_ℤ (pos i) (position len start)) && not (ltb_ℤ (position len stop) (pos i))))
unfolding normalize_range
normalize_range_lem len i (pos a) (pos b) h = (ground arith, ground arith)
normalize_range_lem len i (pos a) (negsuc b) h = (ground arith, ground arith)
normalize_range_lem len i (negsuc a) (pos b) h = (ground arith, ground arith)
normalize_range_lem len i (negsuc a) (negsuc b) h = (ground arith, ground arith)

-- The items at the positions that a test takes, from position `i` on.
unfoldable pub pick : {A : Type 0} → (ℕ → Bool) → ℕ → List A → List A
pick p i [] = []
pick p i (x ∷ xs) = let rest = pick p (i + 1) xs in if p i then x ∷ rest else rest

pick_same :
    {A : Type 0} (p q : ℕ → Bool) (i : ℕ) (xs : List A)
    → ((j : ℕ) → j < i + length xs → p j ≡ q j)
    → pick p i xs ≡ pick q i xs
unfolding pick
pick_same p q i [] h = refl
pick_same p q i (x ∷ xs) h =
    cc (h i (omega arith), pick_same p q (i + 1) xs (λ j l. h j (omega (arith, l))))

pick_none :
    {A : Type 0} (p : ℕ → Bool) (i : ℕ) (xs : List A)
    → ((j : ℕ) → i ≤ j → p j ≡ false)
    → pick p i xs ≡ []
unfolding pick
pick_none p i [] h = refl
pick_none p i (x ∷ xs) h =
    rw (h i (omega arith)) (pick_none p (i + 1) xs (λ j l. h j (omega (arith, l))))

-- From a position of the range on, the items are the next ones up to its end.
pick_within :
    {A : Type 0} (a b n i : ℕ) (xs : List A)
    → a ≤ i
    → n + i ≡ b + 1
    → pick (λ j. leb a j && leb j b) i xs ≡ take n xs
unfolding pick
pick_within a b zero i xs h e = pick_none _ i xs (λ j l. ground (arith, l))
pick_within a b (suc n) i [] h e = refl
pick_within a b (suc n) i (x ∷ xs) h e =
    ground (arith, pick_within a b n (i + 1) xs (omega arith) (omega arith))

pick_before :
    {A : Type 0} (a b m i : ℕ) (xs : List A)
    → m + i ≡ a
    → a ≤ b
    → pick (λ j. leb a j && leb j b) i xs ≡ take (b + 1 - a) (drop m xs)
unfolding pick
pick_before a b zero i xs e h = pick_within a b (b + 1 - a) i xs (omega arith) (omega arith)
pick_before a b (suc m) i [] e h = sym (take-nil (b + 1 - a))
  where
    take-nil : {A : Type 0} (n : ℕ) → take {A = A} n [] ≡ []
    take-nil zero = refl
    take-nil (suc n) = refl
pick_before a b (suc m) i (x ∷ xs) e h =
    ground (arith, pick_before a b m (i + 1) xs (omega arith) h)

-- The items that `LRange` takes of a list.
abbrev pub ranged : ℤ → ℤ → List String → List String
ranged start stop xs = elim (normalize_range (length xs) start stop) [
  | none ↦ []
  | some (i, j) ↦ slice i j xs
]

range_of_none : (start stop : ℤ) (i j : ℕ) → normalize_range 0 start stop ≢ some (i, j)
unfolding normalize_range
range_of_none start stop i j q = cc q

-- They are those at the positions from the one that `start` stands for to the one that `stop` stands
-- for, in order.
pub ranged-pick :
    (start stop : ℤ) (xs : List String)
    → ranged start stop xs
      ≡ pick
          (λ i.
            not (ltb_ℤ (pos i) (position (length xs) start))
            && not (ltb_ℤ (position (length xs) stop) (pos i)))
          0
          xs
unfolding slice
ranged-pick start stop xs = by (normalize_range (length xs) start stop) refl
  where
    by :
        (o : Option (ℕ × ℕ))
        → normalize_range (length xs) start stop ≡ o
        → (elim o as (λ _. List String) [ none ↦ [] | some (i, j) ↦ slice i j xs ])
          ≡ pick
              (λ i.
                not (ltb_ℤ (pos i) (position (length xs) start))
                && not (ltb_ℤ (position (length xs) stop) (pos i)))
              0
              xs
    by none e =
        sym (pick_none (λ i. false) 0 xs (λ j l. refl))
        ∙ pick_same (λ i. false) _ 0 xs
            (λ j l.
              ap (λ o. covers o j) (sym e)
              ∙ (normalize_range_lem (length xs) j start stop (omega (arith, l))).1)
    by (some (a, b)) e =
        sym (pick_before a b a 0 xs (omega arith) (bound xs a b e))
        ∙ pick_same (λ j. leb a j && leb j b) _ 0 xs
            (λ j l.
              ap (λ o. covers o j) (sym e)
              ∙ (normalize_range_lem (length xs) j start stop (omega (arith, l))).1)
      where
        bound :
            (ys : List String) (i j : ℕ)
            → normalize_range (length ys) start stop ≡ some (i, j)
            → i ≤ j
        bound [] i j q = absurd (range_of_none start stop i j q)
        bound (y ∷ ys) i j q =
            (subst (OnSome (λ (r : ℕ × ℕ). (r.0 ≤ r.1) × (r.1 < suc (length ys)))) q
              (normalize_range_lem (suc (length ys)) 0 start stop (omega arith)).0).0
