-- ===== src/Protocol/Table/Tests.antt =====
-- internal/protocol/cmdmap.go on three commands.
use autocache.Prelude.{ℕ, ◌≡◌, refl, some, List, [], ◌∷◌, arith}
use autocache.Protocol.Execute.{Bytes}
use autocache.Protocol.Table.{
  to_upper_in_place, bytes_equal, equal_fold, CmdEntry, Buckets, register_all, lookup,
}
use autocache.Protocol.Table.Lookups.{AreDistinct, empty_table}
use autocache.Protocol.Table.Names.{AreUpper, handler_for, register_all_lem}

abbrev entry : Bytes → ℕ → CmdEntry ℕ
entry n h = record { name = n; handler = h }

-- "GET", "SET" and "DEL".
abbrev three : List (CmdEntry ℕ)
three = entry (71 ∷ 69 ∷ 84 ∷ []) 1 ∷ entry (83 ∷ 69 ∷ 84 ∷ []) 2 ∷ entry (68 ∷ 69 ∷ 76 ∷ []) 3 ∷ []

three-AreDistinct : AreDistinct three
unfolding bytes_equal
three-AreDistinct = (refl, (refl, (refl, tt)))

three-AreUpper : AreUpper three
unfolding to_upper_in_place
three-AreUpper = (refl, (refl, (refl, tt)))

-- "gEt"
finds_get : handler_for (103 ∷ 69 ∷ 116 ∷ []) three ≡ some 1
unfolding equal_fold
finds_get = refl

register_all_lem_example :
    (t : Buckets ℕ) × (register_all three empty_table ≡ some t)
    × ((cmd : Bytes) → lookup (to_upper_in_place cmd) t ≡ handler_for cmd three)
register_all_lem_example = register_all_lem three three-AreDistinct three-AreUpper (omega arith)
