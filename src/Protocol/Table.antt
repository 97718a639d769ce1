-- ===== src/Protocol/Table.antt =====
-- internal/protocol/cmdmap.go and zerocopy.go: the table of the commands, hashed by name, with linear
-- probing. `x & 127` is `x % 128`; the handlers are of any type; the panic of a full table is `none`.
use autocache.Prelude.{
  ℕ, zero, suc, ◌+◌, ◌-◌, ◌*◌, ◌/◌, ◌%◌, ◌^◌, ◌≤◌, ◌<◌, String, ◌≡◌, refl, sym, ap, ap₂, subst, ◌∙◌,
  ◌≢◌, ◌↔◌, ◌⊎◌, inl, inr, Bool, true, false, not, ◌&&◌, ◌||◌, Option, none, some, List, [], ◌∷◌,
  ◌++◌, map, arith, str_eq, eq_iff, ltb, leb, ◌==◌, if◌then◌else◌, ltb→lt, lt→ltb, leb→le, ==_iff,
  Bool-cases, Option-cases, if_keeps, if_keeps_on, OnSome, length, get_or, take, drop,
  length-append, length-drop, All, Among, update, update_key, is_some, bit_xor,
}
pub mod Probes
pub mod Room
pub mod Lookups
pub mod Filled
pub mod Names
mod Tests
use autocache.Protocol.Execute.{Bytes}

-- `upperTable`
unfoldable pub upper : ℕ → ℕ
upper c = if leb 97 c && leb c 122 then c - 32 else c

-- `ToUpperInPlace`
unfoldable pub to_upper_in_place : Bytes → Bytes
unfolding upper
to_upper_in_place [] = []
to_upper_in_place (c ∷ b) = upper c ∷ to_upper_in_place b

-- `BytesEqual`
unfoldable pub bytes_equal : Bytes → Bytes → Bool
bytes_equal [] [] = true
bytes_equal [] (_ ∷ _) = false
bytes_equal (_ ∷ _) [] = false
bytes_equal (c ∷ a) (d ∷ b) = (c == d) && bytes_equal a b

-- `EqualFold`
unfoldable pub equal_fold : Bytes → Bytes → Bool
unfolding upper
equal_fold [] [] = true
equal_fold [] (_ ∷ _) = false
equal_fold (_ ∷ _) [] = false
equal_fold (c ∷ a) (d ∷ b) = (upper c == upper d) && equal_fold a b

-- The loop of `HashBytes`.
unfoldable pub hash_from : ℕ → Bytes → ℕ
unfolding upper
hash_from h [] = h
hash_from h (c ∷ b) = hash_from (bit_xor h (upper c) * 16777619 % 2 ^ 32) b

-- `HashBytes`
unfoldable pub hash_bytes : Bytes → ℕ
unfolding hash_from
hash_bytes b = hash_from 2166136261 b

module _ {ℓ} where
  pub record CmdEntry (C : Type ℓ) : Type ℓ where
    pub name : Bytes
    pub handler : C

  abbrev pub Buckets : Type ℓ → Type ℓ
  Buckets C = ℕ → Option (CmdEntry C)

module _ {ℓ} {C : Type ℓ} where
  -- The loop of `register`, with the steps that are left and the bucket it looks at.
  unfoldable pub place : ℕ → ℕ → CmdEntry C → Buckets C → Option (Buckets C)
  place zero at e t = none
  place (suc n) at e t = elim (t (at % 128)) [
    | none ↦ some (update t (at % 128) (some e))
    | some _ ↦ place n (at + 1) e t
  ]

  -- `register`
  unfoldable pub register : CmdEntry C → Buckets C → Option (Buckets C)
  unfolding place
  register e t = place 128 (hash_bytes e.name % 128) e t

  -- The loop of `Lookup`.
  unfoldable pub seek : ℕ → ℕ → Bytes → Buckets C → Option C
  unfolding bytes_equal
  seek zero at name t = none
  seek (suc n) at name t = elim (t (at % 128)) [
    | none ↦ none
    | some e ↦ if bytes_equal e.name name then some e.handler else seek n (at + 1) name t
  ]

  -- `Lookup`
  unfoldable pub lookup : Bytes → Buckets C → Option C
  unfolding seek
  lookup name t = seek 128 (hash_bytes name % 128) name t

  -- `registerAll`, of any commands.
  unfoldable pub register_all : List (CmdEntry C) → Buckets C → Option (Buckets C)
  unfolding register
  register_all [] t = some t
  register_all (e ∷ es) t = elim (register e t) [ none ↦ none | some t' ↦ register_all es t' ]
