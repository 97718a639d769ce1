-- ===== src/Cluster/Hash/Xmodem.antt =====
-- The table-driven checksum of internal/cluster/hash/crc16.go against the definition of
-- CRC-16/XMODEM: a shift register of 16 bits with the polynomial 0x1021, fed bit by bit.
use autocache.Prelude.{
  ℕ, zero, suc, ◌+◌, ◌*◌, ◌/◌, ◌%◌, ◌^◌, ◌≤◌, ◌<◌, bit_xor, ◌≡◌, refl, ap, ap₂, ◌∙◌, Bool, true,
  ◌&&◌, List, [], ◌∷◌, arith, leb, ◌==◌, ==_iff, if◌then◌else◌, get_or, All,
}
use autocache.Prelude.Xor.{
  bit_xor_step, bit_xor_comm, bit_xor_exchange, bit_xor_fields, bit_xor-lt, bit_xor-zero,
  zero-bit_xor,
}
use autocache.Cluster.Hash.{crc16_round, crc16_from, crc16}
use autocache.Cluster.Hash.Table.{crc16_table}

-- One bit: shift left, and subtract the polynomial if a one falls out.
unfoldable pub shift_bit : ℕ → ℕ
shift_bit r = if leb 32768 r then bit_xor (r * 2 % 65536) 0x1021 else r * 2

unfoldable pub shift_bits : ℕ → ℕ → ℕ
unfolding shift_bit
shift_bits zero r = r
shift_bits (suc n) r = shift_bits n (shift_bit r)

-- A byte enters at the top of the register.
unfoldable pub xmodem_from : ℕ → List ℕ → ℕ
unfolding shift_bits
xmodem_from r [] = r
xmodem_from r (b ∷ bytes) = xmodem_from (shift_bits 8 (bit_xor r (b * 256))) bytes

unfoldable pub xmodem : List ℕ → ℕ
unfolding xmodem_from
xmodem bytes = xmodem_from 0 bytes

-- The shift, as a xor of the low bits and of what the top bit brings.
shift_bit_split : (r : ℕ) → r < 65536 → shift_bit r ≡ bit_xor (2 * (r % 32768)) (r / 32768 * 0x1021)
unfolding shift_bit
shift_bit_split r h = ground (arith, top, low)
  where
    top :
        32768 ≤ r → bit_xor (r * 2 % 65536) 0x1021 ≡ bit_xor (2 * (r % 32768)) (r / 32768 * 0x1021)
    top p = ap₂-xor (omega arith) (omega arith)
      where
        ap₂-xor : {a b c d : ℕ} → a ≡ c → b ≡ d → bit_xor a b ≡ bit_xor c d
        ap₂-xor p q = cc

    low : suc r ≤ 32768 → r * 2 ≡ bit_xor (2 * (r % 32768)) (r / 32768 * 0x1021)
    low p = omega (
      arith,
      bit_xor-zero (2 * (r % 32768)),
      ap (λ (t : ℕ). bit_xor (2 * (r % 32768)) (t * 0x1021)) zero_top,
    )
      where
        zero_top : r / 32768 ≡ 0
        zero_top = omega arith

shift_bit-lt : (r : ℕ) → r < 65536 → shift_bit r < 65536
unfolding shift_bit
shift_bit-lt r h = ground (arith, bit_xor-lt 16 (r * 2 % 65536) 0x1021)

shift_bits-lt : (n r : ℕ) → r < 65536 → shift_bits n r < 65536
unfolding shift_bits
shift_bits-lt zero r h = h
shift_bits-lt (suc n) r h = shift_bits-lt n (shift_bit r) (shift_bit-lt r h)

-- Xor goes through every part of the split.
xor_parts :
    (x y : ℕ)
    → (bit_xor x y / 32768 ≡ bit_xor (x / 32768) (y / 32768))
      × (bit_xor x y % 32768 ≡ bit_xor (x % 32768) (y % 32768))
xor_parts x y = omega (
  arith,
  bit_xor_fields 15 (x / 32768) (x % 32768) (y / 32768) (y % 32768),
  bit_xor-lt 15 (x % 32768) (y % 32768),
  ap₂ bit_xor (split x) (split y),
)
  where
    split : (n : ℕ) → n ≡ n / 32768 * 2 ^ 15 + n % 32768
    split n = omega arith

bit_xor_double : (x y : ℕ) → bit_xor (2 * x) (2 * y) ≡ 2 * bit_xor x y
bit_xor_double x y = omega (arith, bit_xor_step (2 * x) (2 * y), ap₂ bit_xor (half x) (half y))
  where
    half : (n : ℕ) → 2 * n / 2 ≡ n
    half n = omega arith

top_bits : (h h' : ℕ) → h < 2 → h' < 2 → bit_xor h h' * 0x1021 ≡ bit_xor (h * 0x1021) (h' * 0x1021)
top_bits zero zero p q = refl
top_bits zero (suc zero) p q = refl
top_bits (suc zero) zero p q = refl
top_bits (suc zero) (suc zero) p q = refl
top_bits zero (suc (suc h')) p q = absurd (omega arith)
top_bits (suc zero) (suc (suc h')) p q = absurd (omega arith)
top_bits (suc (suc h)) h' p q = absurd (omega arith)

shift_bit_linear :
    (x y : ℕ)
    → x < 65536
    → y < 65536
    → shift_bit (bit_xor x y) ≡ bit_xor (shift_bit x) (shift_bit y)
shift_bit_linear x y hx hy = cc (
  shift_bit_split (bit_xor x y) (bit_xor-lt 16 x y hx hy),
  shift_bit_split x hx,
  shift_bit_split y hy,
  (xor_parts x y).0,
  (xor_parts x y).1,
  bit_xor_double (x % 32768) (y % 32768),
  top_bits (x / 32768) (y / 32768) (omega arith) (omega arith),
  bit_xor_exchange (2 * (x % 32768)) (x / 32768 * 0x1021) (2 * (y % 32768)) (y / 32768 * 0x1021),
)

shift_bits_linear :
    (n x y : ℕ)
    → x < 65536
    → y < 65536
    → shift_bits n (bit_xor x y) ≡ bit_xor (shift_bits n x) (shift_bits n y)
unfolding shift_bits
shift_bits_linear zero x y hx hy = refl
shift_bits_linear (suc n) x y hx hy =
    ap (shift_bits n) (shift_bit_linear x y hx hy)
    ∙ shift_bits_linear n (shift_bit x) (shift_bit y) (shift_bit-lt x hx) (shift_bit-lt y hy)

-- The test `p` holds at each byte below `n`, which evaluation decides.
holds_below : (ℕ → Bool) → ℕ → Bool
holds_below p zero = true
holds_below p (suc n) = holds_below p n && p n

holds_at : (p : ℕ → Bool) (n b : ℕ) → b < n → holds_below p n ≡ true → p b ≡ true
unfolding holds_below
holds_at p zero b lt e = absurd (omega arith)
holds_at p (suc n) b lt e = ground (arith, holds_at p n b)

table_entries : holds_below (λ b. shift_bits 8 (b * 256) == get_or crc16_table b 0) 256 ≡ true
unfolding holds_below shift_bits crc16_table
table_entries = refl

-- A low byte reaches the top after eight shifts, and nothing falls out.
low_bytes : holds_below (λ b. shift_bits 8 b == b * 256) 256 ≡ true
unfolding holds_below shift_bits
low_bytes = refl

shift_high : (b : ℕ) → b < 256 → shift_bits 8 (b * 256) ≡ get_or crc16_table b 0
shift_high b h = (==_iff _ _).0 (holds_at _ 256 b h table_entries)

shift_low : (b : ℕ) → b < 256 → shift_bits 8 b ≡ b * 256
shift_low b h = (==_iff _ _).0 (holds_at _ 256 b h low_bytes)

-- What enters the register, split into its high and its low byte.
enter_byte : (h l b : ℕ) → l < 256 → bit_xor (h * 256 + l) (b * 256) ≡ bit_xor (bit_xor h b * 256) l
enter_byte h l b hl = cc (
  bit_xor_fields 8 h l b 0 hl (omega arith),
  bit_xor_fields 8 (bit_xor h b) 0 0 l (omega arith) hl,
  bit_xor-zero l,
  zero-bit_xor l,
  bit_xor-zero (bit_xor h b),
  no_low b,
  no_low (bit_xor h b),
  no_high,
)
  where
    no_low : (n : ℕ) → n * 2 ^ 8 + 0 ≡ n * 256
    no_low n = omega arith

    no_high : 0 * 2 ^ 8 + l ≡ l
    no_high = omega arith

round_bytes :
    (h l b : ℕ)
    → h < 256
    → l < 256
    → b < 256
    → bit_xor (l * 256) (get_or crc16_table (bit_xor h b) 0)
      ≡ shift_bits 8 (bit_xor (h * 256 + l) (b * 256))
round_bytes h l b hh hl hb = cc (
  enter_byte h l b hl,
  shift_bits_linear 8 (bit_xor h b * 256) l (omega (arith, byte)) (omega arith),
  shift_high (bit_xor h b) byte,
  shift_low l hl,
  bit_xor_comm (l * 256) (get_or crc16_table (bit_xor h b) 0),
)
  where
    byte : bit_xor h b < 256
    byte = bit_xor-lt 8 h b hh hb

crc16_round-eq-shift_bits :
    (crc b : ℕ) → crc < 65536 → b < 256 → crc16_round crc b ≡ shift_bits 8 (bit_xor crc (b * 256))
unfolding crc16_round
crc16_round-eq-shift_bits crc b hc hb =
    cc (round_bytes (crc / 256) (crc % 256) b (omega arith) (omega arith) hb, high, low, whole)
  where
    high : crc / 256 % 256 ≡ crc / 256
    high = omega arith

    low : crc * 256 % 65536 ≡ crc % 256 * 256
    low = omega arith

    whole : crc / 256 * 256 + crc % 256 ≡ crc
    whole = omega arith

register-lt : (r b : ℕ) → r < 65536 → b < 256 → shift_bits 8 (bit_xor r (b * 256)) < 65536
register-lt r b hr hb =
    shift_bits-lt 8 (bit_xor r (b * 256)) (bit_xor-lt 16 r (b * 256) hr (omega arith))

crc16_from-eq-xmodem_from :
    (crc : ℕ) (bytes : List ℕ)
    → crc < 65536
    → All (λ b. b < 256) bytes
    → (crc16_from crc bytes ≡ xmodem_from crc bytes) × (crc16_from crc bytes < 65536)
unfolding crc16_from xmodem_from
crc16_from-eq-xmodem_from crc [] hc h = (refl, hc)
crc16_from-eq-xmodem_from crc (b ∷ bytes) hc h = rw (crc16_round-eq-shift_bits crc b hc h.0) (
    crc16_from-eq-xmodem_from (shift_bits 8 (bit_xor crc (b * 256))) bytes
      (register-lt crc b hc h.0) h.1)

-- On every list of bytes the table-driven checksum is the CRC of the bit-by-bit definition with
-- polynomial 0x1021 and initial value 0, and it fits 16 bits.
pub crc16-eq-xmodem :
    (bytes : List ℕ)
    → All (λ b. b < 256) bytes
    → (crc16 bytes ≡ xmodem bytes) × (crc16 bytes < 65536)
unfolding crc16 xmodem
crc16-eq-xmodem bytes h = crc16_from-eq-xmodem_from 0 bytes (omega arith) h
