-- ===== src/Prelude/Maps.antt =====
-- Go arrays and maps as functions: a write changes the value at one place.
use Prim.Native.Nat.{ℕ}
use Prim.Native.String.{String}
use text.Mathlib.Text.{◌==◌ as str_eq}
use autocache.Prelude.Tests.{◌==◌, if◌then◌else◌}

module _ {ℓ} {A : Type ℓ} where
  abbrev pub update : (ℕ → A) → ℕ → A → ℕ → A
  update f i v j = if i == j then v else f j

  abbrev pub update_key : (String → A) → String → A → String → A
  update_key f k v j = if str_eq k j then v else f j
