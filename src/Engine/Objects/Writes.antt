-- ===== src/Engine/Objects/Writes.antt =====
-- internal/engine/memory/store.go: what the operations on a collection write, as changes of one value.
use autocache.Prelude.{
  ℕ, ◌≡◌, ◌≢◌, if_keeps, refl, sym, ap, subst, ◌∙◌, String, Bool, true, false, Option, none, some,
  arith, eq_iff, str_eq, if◌then◌else◌, is_some, ltb, Bool-cases, inl, inr,
}
use autocache.Engine.Dict.{Entry, is_expired, new_entry, find, set, set_entry, del_key}
use autocache.Engine.Dict.Refine.{
  IsDict, find-set_entry, set_entry-IsDict, find-del_key, del_key-IsDict,
}
use autocache.Engine.Objects.{
  Value, Store, Result, delete_object_key, create, assign, fetch, track_key, untrack_key, mark,
}
use autocache.Engine.Objects.View.{
  fresh, value_at, Writes, Refines, looked, Fetches, fetch-Fetches, fresh-new, fresh-assigned,
}

module _ {S : Type 0} where
  -- A write of an entry, whose value is `c`.
  put_entry-Writes :
      (now : ℕ) (key : String) (s : Store S) (e : Entry (Value S)) (c : Option (Value S))
      → IsDict s.objects
      → fresh now (some e) ≡ c
      → Writes now key s c (record s { objects = set_entry s.maphash key e s.objects })
  put_entry-Writes now key s e c h q = record {
    values = λ j.
        ap (λ o. fresh now o) (find-set_entry s.maphash key j e s.objects) ∙ by j (str_eq key j);
    good = set_entry-IsDict s.maphash key e s.objects h;
    string_keys = refl;
  }
    where
      by :
          (j : String) (b : Bool)
          → fresh now (if b then some e else find s.maphash j s.objects)
            ≡ (if b then c else value_at now j s)
      by j true = q
      by j false = refl

  pub assign-Writes :
      (now : ℕ) (key : String) (v : Value S) (s : Store S)
      → is_some (value_at now key s) ≡ true
      → IsDict s.objects
      → Writes now key s (some v) (assign key v s)
  unfolding assign
  assign-Writes now key v s there h = by (find s.maphash key s.objects) there
    where
      by :
          (o : Option (Entry (Value S)))
          → is_some (fresh now o) ≡ true
          → Writes now key s (some v) (elim o as (λ _. Store S) [
            | none ↦ s
            | some e ↦ record s {
              objects = set_entry s.maphash key (record e { value = v }) s.objects;
            }
          ])
      by none p = cc p
      by (some e) p =
          put_entry-Writes now key s (record e { value = v }) (some v) h
            (fresh-assigned now e v (not_expired e p))
        where
          not_expired :
              (x : Entry (Value S)) → is_some (fresh now (some x)) ≡ true → is_expired now x ≡ false
          not_expired x q = elim (Bool-cases (is_expired now x)) [
            | inl old ↦ absurd (expired x old q)
            | inr new ↦ new
          ]
            where
              expired :
                  (y : Entry (Value S))
                  → is_expired now y ≡ true
                  → is_some (fresh now (some y)) ≢ true
              expired y old r = ground (arith, old, r)

  -- The slot index is no part of the values.
  index-Writes :
      (now : ℕ) (key : String) (s s' : Store S) (c : Option (Value S)) (b : Bool)
      (f : Option (String → ℕ))
      → Writes now key s c s'
      → Writes now key s c (mark key b f s')
  unfolding mark
  index-Writes now key s s' c b none w = w
  index-Writes now key s s' c b (some f) w = record {
    values = w.values;
    good = w.good;
    string_keys = w.string_keys;
  }

  pub create-Writes :
      (now : ℕ) (key : String) (v : Value S) (s : Store S)
      → IsDict s.objects
      → Writes now key s (some v) (create now key v s)
  unfolding create track_key set
  create-Writes now key v s h =
      index-Writes now key s _ (some v) true s.slot_func
        (put_entry-Writes now key s (new_entry now v 0) (some v) h (fresh-new now v))

  pub same-Writes :
      (now : ℕ) (key : String) (s : Store S)
      → IsDict s.objects
      → Writes now key s (value_at now key s) s
  same-Writes now key s h = record {
    values = λ j. by j (str_eq key j) (eq_iff key j).0;
    good = h;
    string_keys = refl;
  }
    where
      by :
          (j : String) (b : Bool)
          → (b ≡ true → key ≡ j)
          → value_at now j s ≡ (if b then value_at now key s else value_at now j s)
      by j true e = ap (λ k. value_at now k s) (sym (e refl))
      by j false e = refl

  pub delete-Writes :
      (now : ℕ) (key : String) (s : Store S)
      → IsDict s.objects
      → Writes now key s none (delete_object_key key s).1
  unfolding delete_object_key untrack_key
  delete-Writes now key s h =
      if_keeps (λ (r : Bool × Store S). Writes now key s none r.1)
        (ltb 0 (del_key s.maphash key s.objects).0)
        (index-Writes now key s (record s { objects = (del_key s.maphash key s.objects).1 }) none
          false s.slot_func deleted)
        deleted
    where
      deleted : Writes now key s none (record s { objects = (del_key s.maphash key s.objects).1 })
      deleted = record {
        values = λ j.
            ap (λ o. fresh now o) (find-del_key s.maphash key j s.objects h) ∙ by j (str_eq key j);
        good = del_key-IsDict s.maphash key s.objects h;
        string_keys = refl;
      }
        where
          by :
              (j : String) (b : Bool)
              → fresh now (if b then none else find s.maphash j s.objects)
                ≡ (if b then none else value_at now j s)
          by j true = refl
          by j false = refl

  -- A write and another one of the same key.
  pub twice-Writes :
      (now : ℕ) (key : String) (s s' s'' : Store S) (c c' : Option (Value S))
      → Writes now key s c s'
      → Writes now key s' c' s''
      → Writes now key s c' s''
  twice-Writes now key s s' s'' c c' w w' = record {
    values = λ j. w'.values j ∙ by j (str_eq key j) (w.values j);
    good = w'.good;
    string_keys = w'.string_keys ∙ w.string_keys;
  }
    where
      by :
          (j : String) (b : Bool)
          → value_at now j s' ≡ (if b then c else value_at now j s)
          → (if b then c' else value_at now j s') ≡ (if b then c' else value_at now j s)
      by j true e = refl
      by j false e = e

-- An operation that looks at a key, finds `r`, and goes on with that.
pub fetched-Refines :
    {S T R : Type 0} (part : Value S → Option T) (next : Result T × Store S → Result R × Store S)
    (spec : Result R × Option (Value S)) (now : ℕ) (key : String) (s : Store S) (r : Result T)
    → IsDict s.objects
    → looked part (s.string_key key) (value_at now key s) ≡ r
    → ((s' : Store S)
        → value_at now key s' ≡ value_at now key s
        → IsDict s'.objects
        → Refines now key s' (next (r, s')) spec)
    → Refines now key s (next (fetch part now key s)) spec
fetched-Refines {S = S} part next spec now key s r h found each = record {
  result = ap (λ q. (next (q, s₁)).0) (f.result ∙ found) ∙ e.result;
  store =
      subst (λ q. Writes now key s spec.1 (next (q, s₁)).1) (sym (f.result ∙ found))
        (record {
          values =
              λ j. e.store.values j ∙ ap (λ v. if str_eq key j then spec.1 else v) (f.values j);
          good = e.store.good;
          string_keys = e.store.string_keys ∙ f.string_keys;
        });
}
  where
    f : Fetches part now key s
    f = fetch-Fetches part now key s h

    s₁ : Store S
    s₁ = (fetch part now key s).1

    e : Refines now key s₁ (next (r, s₁)) spec
    e = each s₁ (f.values key) f.good

-- An operation that writes nothing.
pub unchanged :
    {S : Type 0} (now : ℕ) (key : String) (s : Store S) (c : Option (Value S))
    → value_at now key s ≡ c
    → IsDict s.objects
    → Writes now key s c s
unchanged now key s c e h = subst (λ c. Writes now key s c s) e (same-Writes now key s h)
