-- ===== src/Protocol/Table/Room.antt =====
-- internal/protocol/cmdmap.go: the buckets that are taken, and the room for another command.
use autocache.Prelude.{
  ℕ, zero, suc, ◌+◌, ◌-◌, ◌%◌, ◌≤◌, ◌<◌, ◌≡◌, refl, sym, subst, ◌∙◌, ◌≢◌, inl, inr, true, false,
  none, some, arith, ◌==◌, if◌then◌else◌, ==_iff, Bool-cases, Option-cases, update, is_some,
}
use autocache.Protocol.Table.{CmdEntry, Buckets, hash_bytes, place, register}
use autocache.Protocol.Table.Probes.{place_hole, place_taken}

below : {n q : ℕ} → (q == n) ≡ false → q < suc n → q < n
below other lt = ground (arith, other, lt)

at_zero : (at : ℕ) → at ≡ at + 0
at_zero at = omega arith

at_suc : (at i : ℕ) → at + 1 + i ≡ at + suc i
at_suc at i = omega arith

-- The step at which a bucket is looked at.
around : (at p : ℕ) → at < 128 → p < 128 → (at + (p + 128 - at) % 128) % 128 ≡ p
around at p l r = omega (arith, l, r)

module _ {ℓ} {C : Type ℓ} where
  -- The number of buckets below n that are taken.
  abbrev pub taken_below : ℕ → Buckets C → ℕ
  taken_below zero t = 0
  taken_below (suc n) t = taken_below n t + (if is_some (t n) then 1 else 0)

  beyond :
      (n q : ℕ) (t : Buckets C) (e : CmdEntry C)
      → n ≤ q
      → taken_below n (update t q (some e)) ≡ taken_below n t
  beyond zero q t e le = refl
  beyond (suc n) q t e le = rw (beyond n q t e (omega (arith, le)), differs) refl
    where
      differs : (q == n) ≡ false
      differs = ground (arith, le)

  pub taken_below-update :
      (n q : ℕ) (t : Buckets C) (e : CmdEntry C)
      → q < n
      → t q ≡ none
      → taken_below n (update t q (some e)) ≡ taken_below n t + 1
  taken_below-update zero q t e lt free = omega (arith, lt)
  taken_below-update (suc n) q t e lt free = elim (Bool-cases (q == n)) [
    | inl same ↦
        let n≡ = (==_iff q n).0 same in
        rw (beyond n q t e (omega (arith, n≡)), same, subst (λ p. t p ≡ none) n≡ free) (omega arith)
    | inr other ↦ rw (taken_below-update n q t e (below other lt) free, other) (omega arith)
  ]

  -- Where every bucket is taken.
  full : (n : ℕ) (t : Buckets C) → ((p : ℕ) → p < n → is_some (t p) ≡ true) → taken_below n t ≡ n
  full zero t all = refl
  full (suc n) t all =
      rw (full n t (λ p lt. all p (omega (arith, lt))), all n (omega arith)) (omega arith)

  passed :
      (n at : ℕ) (e : CmdEntry C) (t : Buckets C)
      → place n at e t ≡ none
      → (i : ℕ) → i < n
      → is_some (t ((at + i) % 128)) ≡ true
  passed zero at e t none_left i lt = absurd (omega (arith, lt))
  passed (suc n) at e t none_left zero lt = elim (Option-cases (t (at % 128))) [
    | inl hole ↦ absurd (cc (place_hole n at e t hole, none_left))
    | inr (f, taken) ↦ rw (subst (λ p. t (p % 128) ≡ some f) (at_zero at) taken) refl
  ]
  passed (suc n) at e t none_left (suc i) lt = elim (Option-cases (t (at % 128))) [
    | inl hole ↦ absurd (cc (place_hole n at e t hole, none_left))
    | inr (f, taken) ↦
        subst (λ p. is_some (t (p % 128)) ≡ true) (at_suc at i)
          (passed n (at + 1) e t (sym (place_taken n at e t f taken) ∙ none_left) i
            (omega (arith, lt)))
  ]

  -- A table with a free bucket takes another command.
  pub register-room :
      (e : CmdEntry C) (t : Buckets C) → taken_below 128 t < 128 → register e t ≢ none
  unfolding register
  register-room e t room panics =
      let at = hash_bytes e.name % 128 in
      let all = λ (p : ℕ) (lt : p < 128).
        subst (λ (q : ℕ). is_some (t q) ≡ true) (around at p (omega arith) lt)
          (passed 128 at e t panics ((p + 128 - at) % 128) (omega arith)) in
      omega (arith, room, full 128 t all)
