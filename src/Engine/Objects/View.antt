-- ===== src/Engine/Objects/View.antt =====
-- internal/engine/memory/store.go: the collections of a store as a map from keys to values, which
-- forgets shards, statistics, times of expiry and what has expired but is still there.
use autocache.Prelude.{
  ℕ, ◌≡◌, refl, ap, ◌∙◌, String, Bool, true, false, Option, none, some, arith, eq_iff, str_eq,
  if◌then◌else◌, Bool-cases, inl, inr,
}
use autocache.Engine.Dict.{Entry, is_expired, new_entry, find, get, update_access_stats}
use autocache.Engine.Dict.Refine.{IsDict, Answer, entry, run-Acts, getting, change, run}
use autocache.Engine.Objects.{
  Value, Store, wrong_type, key_not_found, Result, ok, failed, get_object_value, fetch,
}

-- The value of an entry that has not expired.
abbrev pub fresh : {S : Type 0} → ℕ → Option (Entry (Value S)) → Option (Value S)
fresh now none = none
fresh now (some e) = if is_expired now e then none else some e.value

abbrev pub value_at : {S : Type 0} → ℕ → String → Store S → Option (Value S)
value_at now key s = fresh now (find s.maphash key s.objects)

-- `s'` has the values of `s`, but for that of the key, which is `c`.
pub record Writes {S : Type 0} (now : ℕ) (key : String) (s : Store S) (c : Option (Value S))
    (s' : Store S) : Type 0 where
  pub values : (j : String) → value_at now j s' ≡ (if str_eq key j then c else value_at now j s)
  pub good : IsDict s'.objects
  pub string_keys : s'.string_key ≡ s.string_key

-- An operation on one key of a store, against the result and the value `spec` of that key alone: it
-- returns the result, and of all values changes that one, or none.
pub record Refines {S R : Type 0} (now : ℕ) (key : String) (s : Store S) (r : Result R × Store S)
    (spec : Result R × Option (Value S)) : Type 0 where
  pub result : r.0 ≡ spec.0
  pub store : Writes now key s spec.1 r.1

-- What the look at a key finds, from whether it is a string's and its value.
abbrev pub looked : {S T : Type 0} → (Value S → Option T) → Bool → Option (Value S) → Result T
looked part true c = failed wrong_type
looked part false none = failed key_not_found
looked part false (some v) = elim (part v) [ none ↦ failed wrong_type | some x ↦ ok x ]

module _ {S : Type 0} where
  fresh-touched :
      (now : ℕ) (e : Entry (Value S))
      → fresh now (some (update_access_stats now e)) ≡ fresh now (some e)
  unfolding is_expired
  fresh-touched now e = refl

  pub fresh-assigned :
      (now : ℕ) (e : Entry (Value S)) (v : Value S)
      → is_expired now e ≡ false
      → fresh now (some (record e { value = v })) ≡ some v
  unfolding is_expired
  fresh-assigned now e v h = ground (arith, h)

  pub fresh-new : (now : ℕ) (v : Value S) → fresh now (some (new_entry now v 0)) ≡ some v
  unfolding is_expired
  fresh-new now v = refl

  -- What `Get` leaves of an entry.
  fresh-getting :
      (now : ℕ) (o : Option (Entry (Value S))) → fresh now (change now getting o).1 ≡ fresh now o
  fresh-getting now none = refl
  fresh-getting now (some e) = elim (Bool-cases (is_expired now e)) [
    | inl old ↦ rw old refl
    | inr new ↦ rw new (fresh-touched now e ∙ rw new refl)
  ]

  -- After a `Get` of the dictionary every value is what it was.
  value-get :
      (now : ℕ) (key j : String) (s : Store S)
      → IsDict s.objects
      → fresh now (find s.maphash j (get s.maphash now key s.objects).1) ≡ value_at now j s
  unfolding run
  value-get now key j s h =
      ap (λ o. fresh now o) ((run-Acts s.maphash now key getting s.objects h).found j)
      ∙ by (str_eq key j) ((eq_iff key j).0)
    where
      by :
          (b : Bool)
          → (b ≡ true → key ≡ j)
          → fresh now (
              if b
              then (change now getting (find s.maphash key s.objects)).1
              else find s.maphash j s.objects)
            ≡ value_at now j s
      by true e =
          fresh-getting now (find s.maphash key s.objects) ∙ ap (λ k. value_at now k s) (e refl)
      by false e = refl

  -- And it returns the value, if there is one.
  object-value :
      (now : ℕ) (key : String) (s : Store S)
      → IsDict s.objects
      → (get_object_value now key s).0 ≡ value_at now key s
  unfolding get_object_value run
  object-value now key s h =
      ap answer_value (run-Acts s.maphash now key getting s.objects h).answer
      ∙ by (find s.maphash key s.objects)
    where
      answer_value : Answer (Value S) → Option (Value S)
      answer_value (entry none) = none
      answer_value (entry (some e)) = some e.value
      answer_value _ = none

      by : (o : Option (Entry (Value S))) → answer_value (change now getting o).0 ≡ fresh now o
      by none = refl
      by (some e) = elim (Bool-cases (is_expired now e)) [
        | inl old ↦ rw old refl
        | inr new ↦ rw new refl
      ]

  get-IsDict :
      (now : ℕ) (key : String) (s : Store S)
      → IsDict s.objects
      → IsDict (get s.maphash now key s.objects).1
  unfolding run
  get-IsDict now key s h = (run-Acts s.maphash now key getting s.objects h).good

-- The look at a key, as an operation that changes no value.
pub record Fetches {S T : Type 0} (part : Value S → Option T) (now : ℕ) (key : String) (s : Store S)
    : Type 0 where
  pub result : (fetch part now key s).0 ≡ looked part (s.string_key key) (value_at now key s)
  pub values : (j : String) → value_at now j (fetch part now key s).1 ≡ value_at now j s
  pub good : IsDict (fetch part now key s).1.objects
  pub string_keys : (fetch part now key s).1.string_key ≡ s.string_key

pub fetch-Fetches :
    {S T : Type 0} (part : Value S → Option T) (now : ℕ) (key : String) (s : Store S)
    → IsDict s.objects
    → Fetches part now key s
unfolding fetch
fetch-Fetches {S = S} {T = T} part now key s h = elim (Bool-cases (s.string_key key)) [
  | inl e ↦ record {
    result = rw e refl;
    values = λ j. rw e refl;
    good = rw e h;
    string_keys = rw e refl;
  }
  | inr e ↦ record {
    result = rw e (ap found_value (object-value now key s h) ∙ by (value_at now key s));
    values = λ j. rw e (value-get now key j s h);
    good = rw e (get-IsDict now key s h);
    string_keys = rw e refl;
  }
]
  where
    found_value : Option (Value S) → Result T
    found_value o = elim o [
      | none ↦ failed key_not_found
      | some v ↦ elim (part v) [ none ↦ failed wrong_type | some x ↦ ok x ]
    ]

    by : (c : Option (Value S)) → found_value c ≡ looked part false c
    by none = refl
    by (some v) = refl
