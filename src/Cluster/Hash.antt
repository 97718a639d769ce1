-- ===== src/Cluster/Hash.antt =====
-- internal/cluster/hash/crc16.go: the checksum of a key, hash tags, and the slot of a key. A Go
-- string or byte slice is the list of its bytes.
mod Table
pub mod Xmodem
pub mod Tags
mod Tests
use autocache.Prelude.{
  ℕ, ◌+◌, ◌-◌, ◌*◌, ◌/◌, ◌%◌, bit_xor, Option, none, some, List, [], ◌∷◌, get_or, take, drop, ◌==◌,
  if◌then◌else◌,
}
unfoldable use Table.{crc16_table}

-- `SlotCount`
abbrev pub slot_count : ℕ
slot_count = 16384

-- One round of `CRC16`: `(crc << 8) ^ crc16Table[byte(crc>>8)^b]` on a uint16. The index is a byte,
-- so the read is in range.
crc16_round : ℕ → ℕ → ℕ
crc16_round crc b = bit_xor (crc * 256 % 65536) (get_or crc16_table (bit_xor (crc / 256 % 256) b) 0)

crc16_from : ℕ → List ℕ → ℕ
crc16_from crc [] = crc
crc16_from crc (b ∷ data_rest) = crc16_from (crc16_round crc b) data_rest

-- `CRC16`
unfoldable pub crc16 : List ℕ → ℕ
unfolding crc16_from crc16_round crc16_table
crc16 bytes = crc16_from 0 bytes

-- `indexByte`, with `none` for -1.
unfoldable pub index_byte : List ℕ → ℕ → Option ℕ
index_byte [] c = none
index_byte (b ∷ s) c =
    let later = index_byte s c in
    if b == c then some 0 else elim later [ none ↦ none | some i ↦ some (i + 1) ]

tag_upto : List ℕ → List ℕ → Option ℕ → List ℕ
tag_upto key rest none = key
tag_upto key rest (some stop) = take stop rest

tag_after : List ℕ → Option ℕ → List ℕ
tag_after key none = key
tag_after key (some start) =
    let rest = drop (start + 1) key in tag_upto key rest (index_byte rest b'}')

-- The bytes that `KeySlot` hashes: what stands between the first `{` and the next `}`.
hash_tag : List ℕ → List ℕ
unfolding tag_after tag_upto
hash_tag key = tag_after key (index_byte key b'{')

-- `KeySlot`
unfoldable pub key_slot : List ℕ → ℕ
unfolding crc16 hash_tag index_byte
key_slot key = crc16 (hash_tag key) % slot_count
