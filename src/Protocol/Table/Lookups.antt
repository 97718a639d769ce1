-- ===== src/Protocol/Table/Lookups.antt =====
-- internal/protocol/cmdmap.go: the hashed table against the list of its commands.
use autocache.Prelude.{
  ℕ, ◌+◌, ◌%◌, ◌<◌, ◌≡◌, refl, sym, ap, subst, ◌∙◌, inl, inr, true, false, Option, none, some, List,
  [], ◌∷◌, ◌==◌, if◌then◌else◌, Bool-cases, Option-cases, update,
}
use autocache.Protocol.Execute.{Bytes}
use autocache.Protocol.Table.{bytes_equal, hash_bytes, CmdEntry, Buckets, register, lookup}
use autocache.Protocol.Table.Probes.{
  bytes_equal_refl, bytes_equal_same, seek-kept, seek-stored, place_lem, place-seek,
}
use autocache.Protocol.Table.Room.{taken_below, taken_below-update, register-room}

module _ {ℓ} {C : Type ℓ} where
  -- The handler of the first command of a name.
  abbrev pub handler_of : Bytes → List (CmdEntry C) → Option C
  handler_of name [] = none
  handler_of name (e ∷ es) = if bytes_equal e.name name then some e.handler else handler_of name es

  -- No name is listed twice.
  abbrev pub AreDistinct : List (CmdEntry C) → Type ℓ
  AreDistinct [] = Unit
  AreDistinct (e ∷ es) = (handler_of e.name es ≡ none) × AreDistinct es

  abbrev pub empty_table : Buckets C
  empty_table = λ p. none

  -- Every entry is found under its name.
  abbrev pub IsFound : Buckets C → Type ℓ
  IsFound t =
      (p : ℕ) (name : Bytes) (h : C)
      → t p ≡ some (record { name = name; handler = h })
      → lookup name t ≡ some h

  -- A table after one more command.
  pub record Registered (e : CmdEntry C) (t t' : Buckets C) : Type ℓ where
    pub is_found : IsFound t'
    pub count : taken_below 128 t' ≡ taken_below 128 t + 1
    pub finds :
        (name : Bytes)
        → lookup name t' ≡ (if bytes_equal e.name name then some e.handler else lookup name t)

  place-found :
      (e : CmdEntry C) (t t' : Buckets C)
      → register e t ≡ some t'
      → lookup e.name t ≡ none
      → lookup e.name t' ≡ some e.handler
  unfolding register lookup
  place-found e t t' placed new = place-seek 128 (hash_bytes e.name % 128) e t t' placed new

  register_place :
      (e : CmdEntry C) (t t' : Buckets C)
      → register e t ≡ some t'
      → (q : ℕ) × (q < 128) × (t q ≡ none) × (t' ≡ update t q (some e))
  unfolding register
  register_place e t t' placed = place_lem 128 (hash_bytes e.name % 128) e t t' placed

  lookup-kept :
      (name : Bytes) (h : C) (t : Buckets C) (q : ℕ) (e : CmdEntry C)
      → t q ≡ none
      → lookup name t ≡ some h
      → lookup name (update t q (some e)) ≡ some h
  unfolding lookup
  lookup-kept name h t q e free found =
      seek-kept 128 (hash_bytes name % 128) name h t q e free found

  lookup-stored :
      (name : Bytes) (h : C) (t : Buckets C)
      → lookup name t ≡ some h
      → (p : ℕ) × (p < 128) × (t p ≡ some (record { name = name; handler = h }))
  unfolding lookup
  lookup-stored name h t found = seek-stored 128 (hash_bytes name % 128) name h t found

  written :
      (e : CmdEntry C) (t : Buckets C) (q p : ℕ) → (q == p) ≡ true → update t q (some e) p ≡ some e
  written e t q p same = rw (same) refl

  unwritten :
      (t : Buckets C) (q : ℕ) (e : CmdEntry C) (p : ℕ)
      → (q == p) ≡ false
      → update t q (some e) p ≡ t p
  unwritten t q e p other = rw (other) refl

  module _ (e : CmdEntry C) (t : Buckets C) (q : ℕ) (free : t q ≡ none) (found : IsFound t)
      (here : lookup e.name (update t q (some e)) ≡ some e.handler) where
    entry_at : (p : ℕ) {f : CmdEntry C} → (q == p) ≡ true → update t q (some e) p ≡ some f → e ≡ f
    entry_at p same stored = cc (written e t q p same, stored)

    -- An entry of the new table is the new one, or was there.
    update-IsFound : IsFound (update t q (some e))
    update-IsFound p name h stored = elim (Bool-cases (q == p)) [
      | inl same ↦
          subst (λ (f : CmdEntry C). lookup f.name (update t q (some e)) ≡ some f.handler)
            (entry_at p same stored) here
      | inr other ↦
          lookup-kept name h t q e free (found p name h (sym (unwritten t q e p other) ∙ stored))
    ]

    others :
        (name : Bytes)
        → bytes_equal e.name name ≡ false
        → lookup name (update t q (some e)) ≡ lookup name t
    others name differs = elim (Option-cases (lookup name t)) [
      | inr (h, was) ↦ lookup-kept name h t q e free was ∙ sym was
      | inl missing ↦ elim (Option-cases (lookup name (update t q (some e)))) [
        | inl still ↦ still ∙ sym missing
        | inr (h, now) ↦
            let (p, _, stored) = lookup-stored name h (update t q (some e)) now in
            elim (Bool-cases (q == p)) [
              | inl same ↦
                  let same_name = ap (λ (f : CmdEntry C). f.name) (entry_at p same stored) in
                  absurd (cc (differs, same_name, bytes_equal_refl name))
              | inr other ↦
                  absurd (cc (missing, found p name h (sym (unwritten t q e p other) ∙ stored)))
            ]
      ]
    ]

    finds_each :
        (name : Bytes)
        → lookup name (update t q (some e))
          ≡ (if bytes_equal e.name name then some e.handler else lookup name t)
    finds_each name = elim (Bool-cases (bytes_equal e.name name)) [
      | inl hit ↦ rw (hit) (
          subst (λ m. lookup m (update t q (some e)) ≡ some e.handler)
            (bytes_equal_same e.name name hit) here)
      | inr miss ↦ rw (miss) (others name miss)
    ]

  pub register_lem :
      (e : CmdEntry C) (t : Buckets C)
      → IsFound t
      → lookup e.name t ≡ none
      → taken_below 128 t < 128
      → (t' : Buckets C) × (register e t ≡ some t') × Registered e t t'
  register_lem e t found new room = elim (Option-cases (register e t)) [
    | inl panics ↦ absurd (register-room e t room panics)
    | inr (t', placed) ↦
        let (q, lt, free, t≡) = register_place e t t' placed in
        let here =
          subst (λ u. lookup e.name u ≡ some e.handler) t≡ (place-found e t t' placed new) in
        (
          t',
          placed,
          subst (λ u. Registered e t u) (sym t≡)
              (record {
                is_found = update-IsFound e t q free found here;
                count = taken_below-update 128 q t e lt free;
                finds = finds_each e t q free found here;
              }),
        )
  ]
