-- ===== src/Cluster/Gossip/Bitmap.antt =====
-- internal/cluster/gossip/message.go: the slots of a node as a bitmap.
mod Bytes
pub mod Bits
use autocache.Prelude.{
  ℕ, zero, suc, ◌+◌, ◌-◌, ◌*◌, ◌/◌, ◌%◌, ◌^◌, Bool, true, false, ◌||◌, Option, none, some, List, [],
  ◌∷◌, length, get_or, ltb, ◌==◌, if◌then◌else◌,
}
use autocache.Cluster.Hash.{slot_count}

-- `word & (1 << bit) != 0`
abbrev pub has_bit : ℕ → ℕ → Bool
has_bit word bit = (word / 2 ^ bit) % 2 == 1

-- `word | (1 << bit)`
abbrev pub set_bit : ℕ → ℕ → ℕ
set_bit word bit = if has_bit word bit then word else word + 2 ^ bit

-- An assignment to an element of a slice; an index out of range is a panic, `none`.
unfoldable pub set_bit_at : ℕ → ℕ → List ℕ → Option (List ℕ)
set_bit_at i bit [] = none
set_bit_at zero bit (b ∷ bs) = some (set_bit b bit ∷ bs)
set_bit_at (suc i) bit (b ∷ bs) = elim (set_bit_at i bit bs) [
  | none ↦ none
  | some bs' ↦ some (b ∷ bs')
]

-- The loop of `SlotsToBytes`.
unfoldable pub set_slots : List ℕ → List ℕ → Option (List ℕ)
unfolding set_bit_at
set_slots [] bitmap = some bitmap
set_slots (slot ∷ slots) bitmap = elim (set_bit_at (slot / 8) (slot % 8) bitmap) [
  | none ↦ none
  | some bitmap' ↦ set_slots slots bitmap'
]

unfoldable pub zeros : ℕ → List ℕ
zeros zero = []
zeros (suc n) = 0 ∷ zeros n

-- `SlotsToBytes`
unfoldable pub slots_to_bytes : List ℕ → Option (List ℕ)
unfolding set_slots zeros
slots_to_bytes slots = set_slots slots (zeros (slot_count / 8))

-- `bitmap[i/8] & (1 << (i % 8)) != 0`
unfoldable pub bit_at : ℕ → List ℕ → Bool
bit_at i bitmap = has_bit (get_or bitmap (i / 8) 0) (i % 8)

-- The rounds that are left of the loop of `BytesToSlots`, from `i` on.
unfoldable pub slots_from : ℕ → ℕ → List ℕ → List ℕ
unfolding bit_at
slots_from zero i bitmap = []
slots_from (suc n) i bitmap =
    let rest = slots_from n (i + 1) bitmap in if bit_at i bitmap then i ∷ rest else rest

-- `BytesToSlots`
unfoldable pub bytes_to_slots : List ℕ → List ℕ
unfolding slots_from
bytes_to_slots bitmap =
    let bits = length bitmap * 8 in
    slots_from (if ltb bits slot_count then bits else slot_count) 0 bitmap

-- `hasSlot`
unfoldable pub has_slot : ℕ → List ℕ → Bool
has_slot target [] = false
has_slot target (slot ∷ slots) = slot == target || has_slot target slots
