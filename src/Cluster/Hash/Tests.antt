-- ===== src/Cluster/Hash/Tests.antt =====
-- internal/cluster/hash/crc16.go at concrete keys.
use autocache.Prelude.{ℕ, ◌<◌, ◌≡◌, refl, List, [], ◌∷◌, arith}
use autocache.Cluster.Hash.{crc16, key_slot}
use autocache.Cluster.Hash.Xmodem.{xmodem, crc16-eq-xmodem}
use autocache.Cluster.Hash.Tags.{key_slot_tagged}

-- "123456789", the check value of CRC-16/XMODEM
abbrev digits : List ℕ
digits = 0x31 ∷ 0x32 ∷ 0x33 ∷ 0x34 ∷ 0x35 ∷ 0x36 ∷ 0x37 ∷ 0x38 ∷ 0x39 ∷ []

crc16_check : crc16 digits ≡ 0x31c3
unfolding crc16
crc16_check = refl

-- "foo"
key_slot_foo : key_slot (0x66 ∷ 0x6f ∷ 0x6f ∷ []) ≡ 12182
unfolding key_slot
key_slot_foo = refl

crc16-eq-xmodem_example : (crc16 digits ≡ xmodem digits) × (crc16 digits < 65536)
crc16-eq-xmodem_example = crc16-eq-xmodem digits (omega arith)

-- "{foo}.a" has the slot of "foo".
key_slot_tagged_example :
    key_slot (0x7b ∷ 0x66 ∷ 0x6f ∷ 0x6f ∷ 0x7d ∷ 0x2e ∷ 0x61 ∷ [])
    ≡ key_slot (0x66 ∷ 0x6f ∷ 0x6f ∷ [])
key_slot_tagged_example =
    key_slot_tagged [] (0x66 ∷ 0x6f ∷ 0x6f ∷ []) (0x2e ∷ 0x61 ∷ []) tt (omega arith)
