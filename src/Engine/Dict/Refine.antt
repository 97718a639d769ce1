-- ===== src/Engine/Dict/Refine.antt =====
-- internal/engine/memory/dict.go against one map from keys to entries: neither the shards nor the
-- hash of a key can be seen.
use autocache.Prelude.{
  ◌<◌, Bool-cases, Option-cases, inl, inr, ℕ, ◌+◌, ◌≡◌, refl, sym, ap, subst, ◌∙◌, String, Bool,
  true, false, Option, none, some, List, arith, ◌==◌, if◌then◌else◌, str_eq, eq_iff, erase, IsMap,
  lookup-insert, lookup-erase, insert-IsMap, erase-IsMap,
}
use autocache.Engine.Dict.{
  Entry, is_expired, update_access_stats, deadline, new_entry, Dict, new_dict, get_shard, put_shard,
  find, is_live, set_entry, set, del_key, get, set_nx, set_xx, expire, shard_of, len,
}
use autocache.Engine.Dict.Len.{present, len-set_entry, len-del_key}

-- There is a shard, and each shard lists a key once.
pub record IsDict {A : Type 0} (d : Dict A) : Type 0 where
  pub has_shard : 0 < d.shard_count
  pub shard : (i : ℕ) → IsMap (d.shards i)

pub new_dict-IsDict : {A : Type 0} (count : ℕ) → IsDict (new_dict {A = A} count)
new_dict-IsDict count = record { has_shard = ground arith; shard = λ i. tt }

module _ (maphash : String → ℕ) {A : Type 0} where
  put_shard-IsDict :
      (key : String) (items : List (String × Entry A)) (d : Dict A)
      → IsMap items
      → IsDict d
      → IsDict (put_shard maphash key items d)
  put_shard-IsDict key items d hi h = record {
    has_shard = h.has_shard;
    shard = λ i. at i (shard_of maphash key d == i);
  }
    where
      at : (i : ℕ) (b : Bool) → IsMap (if b then items else d.shards i)
      at i true = hi
      at i false = h.shard i

  pub find-set_entry :
      (key j : String) (e : Entry A) (d : Dict A)
      → find maphash j (set_entry maphash key e d)
        ≡ (if str_eq key j then some e else find maphash j d)
  unfolding set_entry
  find-set_entry key j e d = ground (
    arith,
    eq_iff key j,
    lookup-insert key j e (get_shard maphash key d),
    ap (λ (k : String). shard_of maphash k d) {x = key} {y = j},
    ap d.shards {x = shard_of maphash key d} {y = shard_of maphash j d},
  )

  pub set_entry-IsDict :
      (key : String) (e : Entry A) (d : Dict A) → IsDict d → IsDict (set_entry maphash key e d)
  unfolding set_entry
  set_entry-IsDict key e d h =
      put_shard-IsDict key _ d (insert-IsMap key e _ (h.shard (shard_of maphash key d))) h

  find-erase :
      (key j : String) (d : Dict A)
      → IsDict d
      → find maphash j (put_shard maphash key (erase key (get_shard maphash key d)) d)
        ≡ (if str_eq key j then none else find maphash j d)
  find-erase key j d h = ground (
    arith,
    eq_iff key j,
    lookup-erase key j (get_shard maphash key d) (h.shard (shard_of maphash key d)),
    ap (λ (k : String). shard_of maphash k d) {x = key} {y = j},
    ap d.shards {x = shard_of maphash key d} {y = shard_of maphash j d},
  )

  pub find-del_key :
      (key j : String) (d : Dict A)
      → IsDict d
      → find maphash j (del_key maphash key d).1 ≡ (if str_eq key j then none else find maphash j d)
  unfolding del_key
  find-del_key key j d h = by (find maphash key d) refl
    where
      by :
          (o : Option (Entry A))
          → find maphash key d ≡ o
          → find maphash j
              (elim o as (λ _. ℕ × Dict A) [
                | none ↦ (0, d)
                | some _ ↦ (1, put_shard maphash key (erase key (get_shard maphash key d)) d)
              ]).1
            ≡ (if str_eq key j then none else find maphash j d)
      by none e =
          ground (arith, eq_iff key j, e, ap (λ (k : String). find maphash k d) {x = key} {y = j})
      by (some x) e = find-erase key j d h

  pub del_key-IsDict : (key : String) (d : Dict A) → IsDict d → IsDict (del_key maphash key d).1
  unfolding del_key
  del_key-IsDict key d h = by (find maphash key d)
    where
      by :
          (o : Option (Entry A))
          → IsDict
              (elim o as (λ _. ℕ × Dict A) [
                | none ↦ (0, d)
                | some _ ↦ (1, put_shard maphash key (erase key (get_shard maphash key d)) d)
              ]).1
      by none = h
      by (some x) =
          put_shard-IsDict key _ d (erase-IsMap key _ (h.shard (shard_of maphash key d))) h

-- One method on one key.
pub data Call (A : Type 0) : Type 0 where
  setting setting_new setting_old : A → ℕ → Call A
  storing : Entry A → Call A
  deleting getting : Call A
  expiring : ℕ → Call A

-- What it returns.
pub data Answer (A : Type 0) : Type 0 where
  nothing : Answer A
  number : ℕ → Answer A
  flag : Bool → Answer A
  entry : Option (Entry A) → Answer A

-- The methods of the dictionary.
unfoldable pub run : (String → ℕ) → {A : Type 0} → ℕ → String → Call A → Dict A → Answer A × Dict A
run maphash now key (setting v t) d = (nothing, set maphash now key v t d)
run maphash now key (setting_new v t) d = let (b, d') = set_nx maphash now key v t d in (flag b, d')
run maphash now key (setting_old v t) d = let (b, d') = set_xx maphash now key v t d in (flag b, d')
run maphash now key (storing e) d = (nothing, set_entry maphash key e d)
run maphash now key deleting d = let (n, d') = del_key maphash key d in (number n, d')
run maphash now key getting d = let (o, d') = get maphash now key d in (entry o, d')
run maphash now key (expiring t) d = let (b, d') = expire maphash now key t d in (flag b, d')

-- What they do to the entry of the key, as an answer and the entry that is there afterwards.
abbrev pub change : {A : Type 0} → ℕ → Call A → Option (Entry A) → Answer A × Option (Entry A)
change now (setting v t) o = (nothing, some (new_entry now v t))
change now (setting_new v t) o =
    if is_live now o then (flag false, o) else (flag true, some (new_entry now v t))
change now (setting_old v t) o =
    if is_live now o then (flag true, some (new_entry now v t)) else (flag false, o)
change now (storing e) o = (nothing, some e)
change now deleting none = (number 0, none)
change now deleting (some e) = (number 1, none)
change now getting none = (entry none, none)
change now getting (some e) =
    if is_expired now e
    then (entry none, none)
    else (entry (some (update_access_stats now e)), some (update_access_stats now e))
change now (expiring t) none = (flag false, none)
change now (expiring t) (some e) =
    if is_expired now e
    then (flag false, some e)
    else (flag true, some (record e { expire_at = deadline now t }))

-- A method is right: it answers as the entry of its key says, changes that entry alone, and keeps
-- the shards good.
pub record Acts {A : Type 0} (maphash : String → ℕ) (now : ℕ) (key : String) (c : Call A)
    (d : Dict A) : Type 0 where
  pub answer : (run maphash now key c d).0 ≡ (change now c (find maphash key d)).0
  pub found :
      (j : String)
      → find maphash j (run maphash now key c d).1
        ≡ (if str_eq key j then (change now c (find maphash key d)).1 else find maphash j d)
  pub good : IsDict (run maphash now key c d).1
  pub size :
      len (run maphash now key c d).1 + present (find maphash key d)
      ≡ len d + present (change now c (find maphash key d)).1

module _ (maphash : String → ℕ) {A : Type 0} where
  -- From what the method does to the dictionary, given the entry `o` that is there.
  Acts-of :
      (now : ℕ) (key : String) (c : Call A) (d d' : Dict A) (o : Option (Entry A))
      → find maphash key d ≡ o
      → run maphash now key c d ≡ ((change now c o).0, d')
      → ((j : String)
          → find maphash j d' ≡ (if str_eq key j then (change now c o).1 else find maphash j d))
      → IsDict d'
      → len d' + present o ≡ len d + present (change now c o).1
      → Acts maphash now key c d
  Acts-of now key c d d' o e eq f h n = record {
    answer = ap (λ r. r.0) eq ∙ ap (λ p. (change now c p).0) (sym e);
    found = λ j.
        ap (λ r. find maphash j r.1) eq
        ∙ f j
        ∙ ap (λ p. if str_eq key j then (change now c p).1 else find maphash j d) (sym e);
    good = subst IsDict (sym (ap (λ r. r.1) eq)) h;
    size = rw (eq, e) n;
  }

  set_entry-Acts :
      (now : ℕ) (key : String) (c : Call A) (d : Dict A) (x : Entry A) (o : Option (Entry A))
      → find maphash key d ≡ o
      → IsDict d
      → run maphash now key c d ≡ ((change now c o).0, set_entry maphash key x d)
      → (change now c o).1 ≡ some x
      → Acts maphash now key c d
  set_entry-Acts now key c d x o e h eq stored =
      Acts-of now key c d _ o e eq
        (λ j.
          find-set_entry maphash key j x d
          ∙ ap (λ (p : Option (Entry A)). if str_eq key j then p else find maphash j d)
              (sym stored))
        (set_entry-IsDict maphash key x d h)
        (ap (λ p. len (set_entry maphash key x d) + present p) (sym e)
          ∙ len-set_entry maphash key x d h.has_shard
          ∙ ap (λ (p : Option (Entry A)). len d + present p) (sym stored))

  same-Acts :
      (now : ℕ) (key : String) (c : Call A) (d : Dict A) (o : Option (Entry A))
      → find maphash key d ≡ o
      → IsDict d
      → run maphash now key c d ≡ ((change now c o).0, d)
      → (change now c o).1 ≡ o
      → Acts maphash now key c d
  same-Acts now key c d o e h eq kept =
      Acts-of now key c d d o e eq
        (λ j.
          ground
            (arith, eq_iff key j, kept, e, ap (λ (k : String). find maphash k d) {x = key} {y = j}))
        h (ap (λ (p : Option (Entry A)). len d + present p) (sym kept))

  del_key-Acts :
      (now : ℕ) (key : String) (c : Call A) (d : Dict A) (o : Option (Entry A))
      → find maphash key d ≡ o
      → IsDict d
      → run maphash now key c d ≡ ((change now c o).0, (del_key maphash key d).1)
      → (change now c o).1 ≡ none
      → Acts maphash now key c d
  del_key-Acts now key c d o e h eq gone =
      Acts-of now key c d _ o e eq
        (λ j.
          find-del_key maphash key j d h
          ∙ ap (λ (p : Option (Entry A)). if str_eq key j then p else find maphash j d) (sym gone))
        (del_key-IsDict maphash key d h)
        (ap (λ p. len (del_key maphash key d).1 + present p) (sym e)
          ∙ len-del_key maphash key d h.has_shard
          ∙ add-zero
          ∙ ap (λ (p : Option (Entry A)). len d + present p) (sym gone))
    where
      add-zero : len d ≡ len d + 0
      add-zero = omega arith

  get_missing :
      (now : ℕ) (key : String) (d : Dict A)
      → find maphash key d ≡ none
      → get maphash now key d ≡ (none, d)
  unfolding get
  get_missing now key d e = rw (get, e) refl

  get_expired :
      (now : ℕ) (key : String) (d : Dict A) (x : Entry A)
      → find maphash key d ≡ some x
      → is_expired now x ≡ true
      → get maphash now key d ≡ (none, (del_key maphash key d).1)
  unfolding get
  get_expired now key d x e old = rw (get, e, old) refl

  get_live :
      (now : ℕ) (key : String) (d : Dict A) (x : Entry A)
      → find maphash key d ≡ some x
      → is_expired now x ≡ false
      → get maphash now key d
        ≡ (some (update_access_stats now x), set_entry maphash key (update_access_stats now x) d)
  unfolding get
  get_live now key d x e new = rw (get, e, new) refl

  del_key_missing :
      (key : String) (d : Dict A) → find maphash key d ≡ none → del_key maphash key d ≡ (0, d)
  unfolding del_key
  del_key_missing key d e = rw (del_key, e) refl

  del_key_found :
      (key : String) (d : Dict A) (x : Entry A)
      → find maphash key d ≡ some x
      → (del_key maphash key d).0 ≡ 1
  unfolding del_key
  del_key_found key d x e = rw (del_key, e) refl

  expire_missing :
      (now : ℕ) (key : String) (t : ℕ) (d : Dict A)
      → find maphash key d ≡ none
      → expire maphash now key t d ≡ (false, d)
  unfolding expire
  expire_missing now key t d e = rw (expire, e) refl

  expire_expired :
      (now : ℕ) (key : String) (t : ℕ) (d : Dict A) (x : Entry A)
      → find maphash key d ≡ some x
      → is_expired now x ≡ true
      → expire maphash now key t d ≡ (false, d)
  unfolding expire
  expire_expired now key t d x e old = rw (expire, e, old) refl

  expire_live :
      (now : ℕ) (key : String) (t : ℕ) (d : Dict A) (x : Entry A)
      → find maphash key d ≡ some x
      → is_expired now x ≡ false
      → expire maphash now key t d
        ≡ (true, set_entry maphash key (record x { expire_at = deadline now t }) d)
  unfolding expire
  expire_live now key t d x e new = rw (expire, e, new) refl

  -- The methods `Set`, `SetNX`, `SetXX`, `SetEntry`, `Del`, `Get` and `Expire` on one key answer, and
  -- change the entry of that key, as `change` says of the entry alone; the entry of every other key
  -- stays, whichever shards the keys are in, each shard still lists a key once, and `Len` counts one
  -- more or one less when the key is new or gone.
  pub run-Acts :
      (now : ℕ) (key : String) (c : Call A) (d : Dict A) → IsDict d → Acts maphash now key c d
  unfolding run set set_nx set_xx
  run-Acts now key (setting v t) d h =
      set_entry-Acts now key _ d (new_entry now v t) _ refl h refl refl
  run-Acts now key (setting_new v t) d h = elim (Bool-cases (is_live now (find maphash key d))) [
    | inl e ↦ same-Acts now key _ d _ refl h (rw e refl) (rw e refl)
    | inr e ↦ set_entry-Acts now key _ d (new_entry now v t) _ refl h (rw e refl) (rw e refl)
  ]
  run-Acts now key (setting_old v t) d h = elim (Bool-cases (is_live now (find maphash key d))) [
    | inl e ↦ set_entry-Acts now key _ d (new_entry now v t) _ refl h (rw e refl) (rw e refl)
    | inr e ↦ same-Acts now key _ d _ refl h (rw e refl) (rw e refl)
  ]
  run-Acts now key (storing x) d h = set_entry-Acts now key _ d x _ refl h refl refl
  run-Acts now key deleting d h = elim (Option-cases (find maphash key d)) [
    | inl e ↦
        del_key-Acts now key _ d none e h
          (ap (λ n. (number n, (del_key maphash key d).1))
            (ap (λ r. r.0) (del_key_missing key d e)))
          refl
    | inr (x, e) ↦
        del_key-Acts now key _ d (some x) e h
          (ap (λ n. (number n, (del_key maphash key d).1)) (del_key_found key d x e)) refl
  ]
  run-Acts now key getting d h = elim (Option-cases (find maphash key d)) [
    | inl e ↦ same-Acts now key _ d none e h (ap pair_entry (get_missing now key d e)) refl
    | inr (x, e) ↦ elim (Bool-cases (is_expired now x)) [
      | inl old ↦
          del_key-Acts now key _ d (some x) e h
            (ap pair_entry (get_expired now key d x e old) ∙ rw old refl) (rw old refl)
      | inr new ↦
          set_entry-Acts now key _ d (update_access_stats now x) (some x) e h
            (ap pair_entry (get_live now key d x e new) ∙ rw new refl) (rw new refl)
    ]
  ]
    where
      pair_entry : Option (Entry A) × Dict A → Answer A × Dict A
      pair_entry r = (entry r.0, r.1)
  run-Acts now key (expiring t) d h = elim (Option-cases (find maphash key d)) [
    | inl e ↦ same-Acts now key _ d none e h (ap pair_flag (expire_missing now key t d e)) refl
    | inr (x, e) ↦ elim (Bool-cases (is_expired now x)) [
      | inl old ↦
          same-Acts now key _ d (some x) e h
            (ap pair_flag (expire_expired now key t d x e old) ∙ rw old refl) (rw old refl)
      | inr new ↦
          set_entry-Acts now key _ d (record x { expire_at = deadline now t }) (some x) e h
            (ap pair_flag (expire_live now key t d x e new) ∙ rw new refl) (rw new refl)
    ]
  ]
    where
      pair_flag : Bool × Dict A → Answer A × Dict A
      pair_flag r = (flag r.0, r.1)
