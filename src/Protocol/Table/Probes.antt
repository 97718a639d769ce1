-- ===== src/Protocol/Table/Probes.antt =====
-- internal/protocol/cmdmap.go: what the two loops over the buckets find.
use autocache.Prelude.{
  ℕ, zero, suc, ◌+◌, ◌%◌, ◌<◌, ◌≡◌, refl, sym, ap₂, subst, ◌∙◌, inl, inr, true, false, none, some,
  [], ◌∷◌, arith, ◌==◌, ==_iff, Bool-cases, Option-cases, update,
}
use autocache.Protocol.Execute.{Bytes}
use autocache.Protocol.Table.{bytes_equal, CmdEntry, Buckets, place, seek}

pub bytes_equal_refl : (a : Bytes) → bytes_equal a a ≡ true
unfolding bytes_equal
bytes_equal_refl [] = refl
bytes_equal_refl (c ∷ a) = ground (arith, bytes_equal_refl a)

pub bytes_equal_same : (a b : Bytes) → bytes_equal a b ≡ true → a ≡ b
unfolding bytes_equal
bytes_equal_same [] [] e = refl
bytes_equal_same [] (_ ∷ _) e = absurd (cc e)
bytes_equal_same (_ ∷ _) [] e = absurd (cc e)
bytes_equal_same (c ∷ a) (d ∷ b) e = ground (arith, e, bytes_equal_same a b, ==_iff c d)

module _ {ℓ} {C : Type ℓ} where
  -- A bucket that is taken is not the one that was free.
  pub update_free :
      (t : Buckets C) (q p : ℕ) (e f : CmdEntry C)
      → t q ≡ none
      → t p ≡ some f
      → update t q (some e) p ≡ some f
  update_free t q p e f free taken = elim (Bool-cases (q == p)) [
    | inl same ↦ absurd (cc (free, taken, (==_iff q p).0 same))
    | inr other ↦ rw (other) taken
  ]

  update_same : (t : Buckets C) (q : ℕ) (e : CmdEntry C) → update t q (some e) q ≡ some e
  update_same t q e = rw ((==_iff q q).1 refl) refl

  pub seek_hole :
      (n at : ℕ) (name : Bytes) (t : Buckets C)
      → t (at % 128) ≡ none
      → seek (suc n) at name t ≡ none
  unfolding seek
  seek_hole n at name t hole = rw (seek, hole) refl

  pub seek_hit :
      (n at : ℕ) (name : Bytes) (t : Buckets C) (f : CmdEntry C)
      → t (at % 128) ≡ some f
      → bytes_equal f.name name ≡ true
      → seek (suc n) at name t ≡ some f.handler
  unfolding seek
  seek_hit n at name t f taken hit = rw (seek, taken, hit) refl

  pub seek_miss :
      (n at : ℕ) (name : Bytes) (t : Buckets C) (f : CmdEntry C)
      → t (at % 128) ≡ some f
      → bytes_equal f.name name ≡ false
      → seek (suc n) at name t ≡ seek n (at + 1) name t
  unfolding seek
  seek_miss n at name t f taken miss = rw (seek, taken, miss) refl

  pub place_hole :
      (n at : ℕ) (e : CmdEntry C) (t : Buckets C)
      → t (at % 128) ≡ none
      → place (suc n) at e t ≡ some (update t (at % 128) (some e))
  unfolding place
  place_hole n at e t hole = rw (place, hole) refl

  pub place_taken :
      (n at : ℕ) (e : CmdEntry C) (t : Buckets C) (f : CmdEntry C)
      → t (at % 128) ≡ some f
      → place (suc n) at e t ≡ place n (at + 1) e t
  unfolding place
  place_taken n at e t f taken = rw (place, taken) refl

  -- What is found stays found when a free bucket is filled.
  pub seek-kept :
      (n at : ℕ) (name : Bytes) (h : C) (t : Buckets C) (q : ℕ) (e : CmdEntry C)
      → t q ≡ none
      → seek n at name t ≡ some h
      → seek n at name (update t q (some e)) ≡ some h
  unfolding seek
  seek-kept zero at name h t q e free found = found
  seek-kept (suc n) at name h t q e free found = elim (Option-cases (t (at % 128))) [
    | inl hole ↦ absurd (cc (seek_hole n at name t hole, found))
    | inr (f, taken) ↦
        let taken' = update_free t q (at % 128) e f free taken in
        elim (Bool-cases (bytes_equal f.name name)) [
          | inl hit ↦
              seek_hit n at name (update t q (some e)) f taken' hit
              ∙ sym (seek_hit n at name t f taken hit)
              ∙ found
          | inr miss ↦
              seek_miss n at name (update t q (some e)) f taken' miss
              ∙ seek-kept n (at + 1) name h t q e free
                  (sym (seek_miss n at name t f taken miss) ∙ found)
        ]
  ]

  pub seek-stored :
      (n at : ℕ) (name : Bytes) (h : C) (t : Buckets C)
      → seek n at name t ≡ some h
      → (p : ℕ) × (p < 128) × (t p ≡ some (record { name = name; handler = h }))
  unfolding seek
  seek-stored zero at name h t found = absurd (cc found)
  seek-stored (suc n) at name h t found = elim (Option-cases (t (at % 128))) [
    | inl hole ↦ absurd (cc (seek_hole n at name t hole, found))
    | inr (f, taken) ↦ elim (Bool-cases (bytes_equal f.name name)) [
      | inl hit ↦
          let same = bytes_equal_same f.name name hit in
          let handler : f.handler ≡ h = cc (seek_hit n at name t f taken hit, found) in
          (
            at % 128,
            omega arith,
            taken ∙ ap₂ (λ m g. some (record { name = m; handler = g })) same handler,
          )
      | inr miss ↦
          seek-stored n (at + 1) name h t (sym (seek_miss n at name t f taken miss) ∙ found)
    ]
  ]

  pub place_lem :
      (n at : ℕ) (e : CmdEntry C) (t t' : Buckets C)
      → place n at e t ≡ some t'
      → (q : ℕ) × (q < 128) × (t q ≡ none) × (t' ≡ update t q (some e))
  unfolding place
  place_lem zero at e t t' placed = absurd (cc placed)
  place_lem (suc n) at e t t' placed = elim (Option-cases (t (at % 128))) [
    | inl hole ↦ (at % 128, omega arith, hole, cc (place_hole n at e t hole, placed))
    | inr (f, taken) ↦ place_lem n (at + 1) e t t' (sym (place_taken n at e t f taken) ∙ placed)
  ]

  -- The new entry is found, if its name was not.
  pub place-seek :
      (n at : ℕ) (e : CmdEntry C) (t t' : Buckets C)
      → place n at e t ≡ some t'
      → seek n at e.name t ≡ none
      → seek n at e.name t' ≡ some e.handler
  unfolding place
  place-seek zero at e t t' placed new = absurd (cc placed)
  place-seek (suc n) at e t t' placed new = elim (Option-cases (t (at % 128))) [
    | inl hole ↦
        let t≡ : update t (at % 128) (some e) ≡ t' = cc (place_hole n at e t hole, placed) in
        subst (λ u. seek (suc n) at e.name u ≡ some e.handler) t≡
          (seek_hit n at e.name (update t (at % 128) (some e)) e (update_same t (at % 128) e)
            (bytes_equal_refl e.name))
    | inr (f, taken) ↦ elim (Bool-cases (bytes_equal f.name e.name)) [
      | inl hit ↦ absurd (cc (seek_hit n at e.name t f taken hit, new))
      | inr miss ↦
          let placed' = sym (place_taken n at e t f taken) ∙ placed in
          let (q, _, free, t≡) = place_lem n (at + 1) e t t' placed' in
          seek_miss n at e.name t' f (cc (t≡, update_free t q (at % 128) e f free taken)) miss
          ∙ place-seek n (at + 1) e t t' placed' (sym (seek_miss n at e.name t f taken miss) ∙ new)
    ]
  ]
