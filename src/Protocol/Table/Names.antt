-- ===== src/Protocol/Table/Names.antt =====
-- internal/protocol/cmdmap.go and zerocopy.go: the commands by their names, in upper or lower case.
use autocache.Prelude.{
  ◌≤◌, ◌≡◌, refl, sym, ap, ap₂, ◌∙◌, Option, none, some, List, [], ◌∷◌, arith, if◌then◌else◌,
  length, All,
}
use autocache.Protocol.Execute.{Bytes}
use autocache.Protocol.Table.{
  to_upper_in_place, bytes_equal, equal_fold, CmdEntry, Buckets, register_all, seek, lookup,
}
use autocache.Protocol.Table.Room.{taken_below}
use autocache.Protocol.Table.Lookups.{handler_of, AreDistinct, empty_table}
use autocache.Protocol.Table.Filled.{or_else, all_lem}

equal_fold_lem :
    (a b : Bytes) → equal_fold a b ≡ bytes_equal (to_upper_in_place a) (to_upper_in_place b)
unfolding equal_fold bytes_equal to_upper_in_place
equal_fold_lem [] [] = refl
equal_fold_lem [] (_ ∷ _) = refl
equal_fold_lem (_ ∷ _) [] = refl
equal_fold_lem (c ∷ a) (d ∷ b) = rw (equal_fold_lem a b) refl

nothing_taken {ℓ} : (C : Type ℓ) → taken_below 128 (empty_table {C = C}) ≡ 0
nothing_taken C = refl

module _ {ℓ} {C : Type ℓ} where
  -- The handler of the first command of a name, in upper or lower case.
  abbrev pub handler_for : Bytes → List (CmdEntry C) → Option C
  handler_for name [] = none
  handler_for name (e ∷ es) = if equal_fold e.name name then some e.handler else handler_for name es

  -- The names are in upper case.
  abbrev pub AreUpper : List (CmdEntry C) → Type 0
  AreUpper = All (λ (e : CmdEntry C). to_upper_in_place e.name ≡ e.name)

  handler_for-upper :
      (name : Bytes) (es : List (CmdEntry C))
      → AreUpper es
      → handler_of (to_upper_in_place name) es ≡ handler_for name es
  handler_for-upper name [] h = refl
  handler_for-upper name (e ∷ es) (u, h) =
      ap₂ (λ x o. if x then some e.handler else o)
        (ap (λ a. bytes_equal a (to_upper_in_place name)) (sym u)
          ∙ sym (equal_fold_lem e.name name))
        (handler_for-upper name es h)

  nothing_found : (name : Bytes) → lookup name (empty_table {C = C}) ≡ none
  unfolding lookup seek
  nothing_found name = refl

  -- Up to 128 commands with different names in upper case fit into the table, and a command that is
  -- received in upper or lower case gets the handler that is registered for its name, and no other.
  pub register_all_lem :
      (es : List (CmdEntry C))
      → AreDistinct es
      → AreUpper es
      → length es ≤ 128
      → (t : Buckets C) × (register_all es empty_table ≡ some t)
        × ((cmd : Bytes) → lookup (to_upper_in_place cmd) t ≡ handler_for cmd es)
  register_all_lem es distinct uppers room =
      let (t, all, finds) =
        all_lem es empty_table (λ p name h e. absurd (cc e)) distinct
          (λ name h e. nothing_found name) (omega (arith, room, nothing_taken C)) in
      (
        t,
        all,
        λ cmd.
            finds (to_upper_in_place cmd)
            ∙ ap (λ o. or_else o (handler_of (to_upper_in_place cmd) es))
                (nothing_found (to_upper_in_place cmd))
            ∙ handler_for-upper cmd es uppers,
      )
