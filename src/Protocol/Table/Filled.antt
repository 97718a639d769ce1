-- ===== src/Protocol/Table/Filled.antt =====
-- internal/protocol/cmdmap.go: commands that are registered one after another.
use autocache.Prelude.{
  ℕ, suc, ◌+◌, ◌≤◌, ◌<◌, ◌≡◌, refl, ap, subst, ◌∙◌, inl, inr, Bool, true, false, Option, none, some,
  List, [], ◌∷◌, arith, if◌then◌else◌, Bool-cases, length,
}
use autocache.Protocol.Execute.{Bytes}
use autocache.Protocol.Table.{bytes_equal, CmdEntry, Buckets, register, register_all, lookup}
use autocache.Protocol.Table.Probes.{bytes_equal_refl, bytes_equal_same}
use autocache.Protocol.Table.Room.{taken_below}
use autocache.Protocol.Table.Lookups.{handler_of, AreDistinct, IsFound, Registered, register_lem}

left : (n m k : ℕ) → m ≡ n + 1 → n + suc k ≤ 128 → m + k ≤ 128
left n m k count room = omega (arith, count, room)

fewer : (n k : ℕ) → n + suc k ≤ 128 → n < 128
fewer n k room = omega (arith, room)

module _ {ℓ} {C : Type ℓ} where
  abbrev pub or_else : Option C → Option C → Option C
  or_else (some h) o = some h
  or_else none o = o

  or_none : (o : Option C) → o ≡ or_else o none
  or_none none = refl
  or_none (some h) = refl

  shifted :
      (x : Bool) (o : Option C) (h : C) (rest : Option C)
      → (x ≡ true → o ≡ none)
      → or_else (if x then some h else o) rest ≡ or_else o (if x then some h else rest)
  shifted true o h rest first = rw (first refl) refl
  shifted false o h rest first = refl

  -- The commands that are left are not in the table after the first of them is.
  still_new :
      (e : CmdEntry C) (es : List (CmdEntry C)) (t t' : Buckets C)
      → handler_of e.name es ≡ none
      → ((name : Bytes) (h : C) → handler_of name (e ∷ es) ≡ some h → lookup name t ≡ none)
      → ((name : Bytes)
          → lookup name t' ≡ (if bytes_equal e.name name then some e.handler else lookup name t))
      → (name : Bytes) (h : C) → handler_of name es ≡ some h
      → lookup name t' ≡ none
  still_new e es t t' once new finds name h listed = elim (Bool-cases (bytes_equal e.name name)) [
    | inl hit ↦ absurd (cc (bytes_equal_same e.name name hit, once, listed))
    | inr miss ↦ finds name ∙ (rw (miss) (new name h (rw (miss) listed)))
  ]

  register_all_cons :
      (e : CmdEntry C) (es : List (CmdEntry C)) (t t' : Buckets C)
      → register e t ≡ some t'
      → register_all (e ∷ es) t ≡ register_all es t'
  unfolding register_all
  register_all_cons e es t t' placed = rw (register_all, placed) refl

  -- All commands are in the table, and what was in it before.
  abbrev pub AllIn : List (CmdEntry C) → Buckets C → Type ℓ
  AllIn es t =
      (t' : Buckets C) × (register_all es t ≡ some t')
      × ((name : Bytes) → lookup name t' ≡ or_else (lookup name t) (handler_of name es))

  one_more :
      (e : CmdEntry C) (es : List (CmdEntry C)) (t t' : Buckets C)
      → register e t ≡ some t'
      → lookup e.name t ≡ none
      → ((name : Bytes)
          → lookup name t' ≡ (if bytes_equal e.name name then some e.handler else lookup name t))
      → AllIn es t'
      → AllIn (e ∷ es) t
  one_more e es t t' placed unknown finds (t₂, all, later) = (
    t₂,
    register_all_cons e es t t' placed ∙ all,
    λ name.
        later name
        ∙ ap (λ o. or_else o (handler_of name es)) (finds name)
        ∙ shifted (bytes_equal e.name name) (lookup name t) e.handler (handler_of name es)
            (λ hit. subst (λ m. lookup m t ≡ none) (bytes_equal_same e.name name hit) unknown),
  )

  abbrev pub AreNew : List (CmdEntry C) → Buckets C → Type ℓ
  AreNew es t = (name : Bytes) (h : C) → handler_of name es ≡ some h → lookup name t ≡ none

  first_new :
      (e : CmdEntry C) (es : List (CmdEntry C)) (t : Buckets C)
      → AreNew (e ∷ es) t
      → lookup e.name t ≡ none
  first_new e es t new = new e.name e.handler (rw (bytes_equal_refl e.name) refl)

  from_first :
      (e : CmdEntry C) (es : List (CmdEntry C)) (t : Buckets C)
      → handler_of e.name es ≡ none
      → AreNew (e ∷ es) t
      → taken_below 128 t + suc (length es) ≤ 128
      → lookup e.name t ≡ none
      → (t' : Buckets C) × (register e t ≡ some t') × Registered e t t'
      → ((t' : Buckets C)
          → IsFound t'
          → AreNew es t'
          → taken_below 128 t' + length es ≤ 128
          → AllIn es t')
      → AllIn (e ∷ es) t
  from_first e es t once new room unknown (t', placed, reg) rest =
      one_more e es t t' placed unknown reg.finds
        (rest t' reg.is_found (still_new e es t t' once new reg.finds) (left _ _ _ reg.count room))

  pub all_lem :
      (es : List (CmdEntry C)) (t : Buckets C)
      → IsFound t
      → AreDistinct es
      → AreNew es t
      → taken_below 128 t + length es ≤ 128
      → AllIn es t
  unfolding register_all
  all_lem [] t found distinct new room = (t, refl, λ name. or_none (lookup name t))
  all_lem (e ∷ es) t found distinct new room =
      let unknown = first_new e es t new in
      from_first e es t distinct.0 new room unknown
        (register_lem e t found unknown (fewer _ (length es) room))
        (λ t' found' new' room'. all_lem es t' found' distinct.1 new' room')
