-- ===== src/Prelude/Xor.antt =====
-- Laws of `bit_xor` at variables, from the digit recursion that the native operation stands for:
-- the step on the lowest bit, the group laws, and xor of numbers split into fields.
use Prim.Native.Nat.{
  ℕ, zero, suc, ◌+◌, ◌*◌, ◌/◌, ◌%◌, ◌^◌, ◌≤◌, ◌<◌, bit_xor, digits, differ, bit_xor-bitwise,
}
use mathlib.Core.Path.{◌≡◌, refl, ap, ap₂, ◌∙◌}
use native.Mathlib.Nat.{pow-suc, mul-one, add-zero}
use native.Mathlib.Omega.{arith}

abbrev xor_digits : ℕ → ℕ → ℕ → ℕ
xor_digits n a b = digits (λ y. y) differ n a b

-- The fuel of the digit recursion does not matter once it reaches the first number.
settled : (a b n m : ℕ) → a ≤ n → a ≤ m → xor_digits n a b ≡ xor_digits m a b
settled zero b zero zero hn hm = refl
settled zero b zero (suc m) hn hm = refl
settled zero b (suc n) zero hn hm = refl
settled zero b (suc n) (suc m) hn hm = refl
settled (suc a) b zero m hn hm = absurd (omega arith)
settled (suc a) b (suc n) zero hn hm = absurd (omega arith)
settled (suc a) b (suc n) (suc m) hn hm =
    let half = settled (suc a / 2) (b / 2) n m (omega arith) (omega arith) in omega (arith, half)

differ_bits : (x y : ℕ) → x < 2 → y < 2 → differ x y ≡ (x + y) % 2
differ_bits zero y p q = omega arith
differ_bits (suc zero) zero p q = refl
differ_bits (suc zero) (suc zero) p q = refl
differ_bits (suc zero) (suc (suc y)) p q = absurd (omega arith)
differ_bits (suc (suc x)) y p q = absurd (omega arith)

-- The lowest bit, and the rest.
pub bit_xor_step : (a b : ℕ) → bit_xor a b ≡ bit_xor (a / 2) (b / 2) * 2 + (a + b) % 2
bit_xor_step zero b = omega (arith, bit_xor-bitwise 0 b, bit_xor-bitwise 0 (b / 2))
bit_xor_step (suc a) b = omega (
  arith,
  bit_xor-bitwise (suc a) b,
  bit_xor-bitwise (suc a / 2) (b / 2),
  settled (suc a / 2) (b / 2) a (suc a / 2) (omega arith) (omega arith),
  differ_bits (suc a % 2) (b % 2) (omega arith) (omega arith),
)

pub zero-bit_xor : (b : ℕ) → bit_xor 0 b ≡ b
zero-bit_xor b = bit_xor-bitwise 0 b

-- The laws below go from the halves to the numbers, with a bound `n` to recur on.
comm_below : (n a b : ℕ) → a ≤ n → b ≤ n → bit_xor a b ≡ bit_xor b a
comm_below zero zero zero p q = refl
comm_below zero zero (suc b) p q = absurd (omega arith)
comm_below zero (suc a) b p q = absurd (omega arith)
comm_below (suc n) a b p q = omega (
  arith,
  bit_xor_step a b,
  bit_xor_step b a,
  comm_below n (a / 2) (b / 2) (omega arith) (omega arith),
)

pub bit_xor_comm : (a b : ℕ) → bit_xor a b ≡ bit_xor b a
bit_xor_comm a b = comm_below (a + b) a b (omega arith) (omega arith)

pub bit_xor-zero : (a : ℕ) → bit_xor a 0 ≡ a
bit_xor-zero a = bit_xor_comm a 0 ∙ zero-bit_xor a

assoc_below :
    (n a b c : ℕ) → a ≤ n → b ≤ n → c ≤ n → bit_xor (bit_xor a b) c ≡ bit_xor a (bit_xor b c)
assoc_below zero zero zero zero p q r = refl
assoc_below zero zero zero (suc c) p q r = absurd (omega arith)
assoc_below zero zero (suc b) c p q r = absurd (omega arith)
assoc_below zero (suc a) b c p q r = absurd (omega arith)
assoc_below (suc n) a b c p q r =
    step (bit_xor a b) (bit_xor b c) (halves a b) (halves b c)
      (assoc_below n (a / 2) (b / 2) (c / 2) (omega arith) (omega arith) (omega arith))
  where
    halves :
        (x y : ℕ) → (bit_xor x y / 2 ≡ bit_xor (x / 2) (y / 2)) × (bit_xor x y % 2 ≡ (x + y) % 2)
    halves x y = omega (arith, bit_xor_step x y)

    step :
        (d e : ℕ)
        → (d / 2 ≡ bit_xor (a / 2) (b / 2)) × (d % 2 ≡ (a + b) % 2)
        → (e / 2 ≡ bit_xor (b / 2) (c / 2)) × (e % 2 ≡ (b + c) % 2)
        → bit_xor (bit_xor (a / 2) (b / 2)) (c / 2) ≡ bit_xor (a / 2) (bit_xor (b / 2) (c / 2))
        → bit_xor d c ≡ bit_xor a e
    step d e hd he ih = omega (
      arith,
      bit_xor_step d c,
      bit_xor_step a e,
      ih,
      ap (λ (t : ℕ). bit_xor t (c / 2)) hd.0,
      ap (λ (t : ℕ). bit_xor (a / 2) t) he.0,
    )

pub bit_xor_assoc : (a b c : ℕ) → bit_xor (bit_xor a b) c ≡ bit_xor a (bit_xor b c)
bit_xor_assoc a b c = assoc_below (a + b + c) a b c (omega arith) (omega arith) (omega arith)

-- Exchanging the middle two of four.
pub bit_xor_exchange :
    (a b c d : ℕ) → bit_xor (bit_xor a b) (bit_xor c d) ≡ bit_xor (bit_xor a c) (bit_xor b d)
bit_xor_exchange a b c d = cc (
  bit_xor_assoc a b (bit_xor c d),
  bit_xor_assoc b c d,
  bit_xor_comm b c,
  bit_xor_assoc c b d,
  bit_xor_assoc a c (bit_xor b d),
)

two-pow-suc : (h k : ℕ) → h * 2 ^ suc k ≡ 2 * (h * 2 ^ k)
two-pow-suc h k = omega (arith, ap (λ (t : ℕ). h * t) (pow-suc 2 k))

halve : (h l k : ℕ) → (h * 2 ^ suc k + l) / 2 ≡ h * 2 ^ k + l / 2
halve h l k = omega (arith, two-pow-suc h k)

-- Numbers split at bit `k` are combined field by field.
pub bit_xor_fields :
    (k h l h' l' : ℕ)
    → l < 2 ^ k
    → l' < 2 ^ k
    → bit_xor (h * 2 ^ k + l) (h' * 2 ^ k + l') ≡ bit_xor h h' * 2 ^ k + bit_xor l l'
bit_xor_fields zero h zero h' zero p q = omega (
  arith,
  zero-bit_xor 0,
  ap (λ (t : ℕ). bit_xor t h') (mul-one h),
  ap (λ (t : ℕ). bit_xor (h * 1 + 0) t) (add-zero (h' * 1) ∙ mul-one h'),
  ap (λ (t : ℕ). bit_xor t h') (add-zero (h * 1)),
)
bit_xor_fields zero h zero h' (suc l') p q = absurd (omega arith)
bit_xor_fields zero h (suc l) h' l' p q = absurd (omega arith)
bit_xor_fields (suc k) h l h' l' p q = omega (
  arith,
  bit_xor_step (h * 2 ^ suc k + l) (h' * 2 ^ suc k + l'),
  bit_xor_step l l',
  two-pow-suc (bit_xor h h') k,
  two-pow-suc h k,
  two-pow-suc h' k,
  ap₂ bit_xor (halve h l k) (halve h' l' k),
  bit_xor_fields k h (l / 2) h' (l' / 2) (omega (arith, pow-suc 2 k)) (omega (arith, pow-suc 2 k)),
)

pub bit_xor-lt : (k a b : ℕ) → a < 2 ^ k → b < 2 ^ k → bit_xor a b < 2 ^ k
bit_xor-lt zero zero zero p q = omega arith
bit_xor-lt zero zero (suc b) p q = absurd (omega arith)
bit_xor-lt zero (suc a) b p q = absurd (omega arith)
bit_xor-lt (suc k) a b p q = omega (
  arith,
  pow-suc 2 k,
  bit_xor_step a b,
  bit_xor-lt k (a / 2) (b / 2) (omega (arith, pow-suc 2 k)) (omega (arith, pow-suc 2 k)),
)
