-- ===== src/Cluster/Gossip/Bitmap/Bytes.antt =====
-- internal/cluster/gossip/message.go: the bits of a byte.
use autocache.Prelude.{
  ℕ, zero, suc, ◌<◌, ◌≡◌, refl, sym, Bool, true, false, ◌&&◌, ◌||◌, List, arith, ltb, ◌==◌, ltb→lt,
  All,
}
use autocache.Cluster.Gossip.Bitmap.{has_bit, set_bit}

-- Over a small range, every value is checked by evaluation.
unfoldable pub all_below : ℕ → (ℕ → Bool) → Bool
all_below zero p = true
all_below (suc n) p = p n && all_below n p

pub all_below_lem : (n : ℕ) (p : ℕ → Bool) (x : ℕ) → all_below n p ≡ true → x < n → p x ≡ true
unfolding all_below
all_below_lem zero p x h lt = absurd (omega arith)
all_below_lem (suc n) p x h lt = ground (arith, all_below_lem n p x)

unfoldable pub same : Bool → Bool → Bool
same true b = b
same false true = false
same false false = true

pub same_lem : (a b : Bool) → same a b ≡ true → a ≡ b
unfolding same
same_lem true b h = sym h
same_lem false true h = absurd (cc h)
same_lem false false h = refl

-- Setting a bit of a byte sets that one and no other, and the result is a byte.
abbrev sets_one : ℕ → ℕ → ℕ → Bool
sets_one b i j = same (has_bit (set_bit b i) j) (i == j || has_bit b j) && ltb (set_bit b i) 256

sets_one_table : all_below 256 (λ b. all_below 8 (λ i. all_below 8 (sets_one b i))) ≡ true
unfolding all_below same
sets_one_table = refl

sets_one_lem : (b i j : ℕ) → b < 256 → i < 8 → j < 8 → sets_one b i j ≡ true
sets_one_lem b i j hb hi hj =
    all_below_lem 8 (sets_one b i) j
      (all_below_lem 8 (λ i. all_below 8 (sets_one b i)) i
        (all_below_lem 256 (λ b. all_below 8 (λ i. all_below 8 (sets_one b i))) b sets_one_table hb)
        hi)
      hj

both : (a b : Bool) → (a && b) ≡ true → (a ≡ true) × (b ≡ true)
both true b h = (refl, h)
both false b h = absurd (cc h)

pub bits_of :
    (b i j : ℕ) → b < 256 → i < 8 → j < 8 → has_bit (set_bit b i) j ≡ (i == j || has_bit b j)
bits_of b i j hb hi hj = same_lem _ _ (both _ _ (sets_one_lem b i j hb hi hj)).0

pub set_bit-byte : (b i : ℕ) → b < 256 → i < 8 → set_bit b i < 256
set_bit-byte b i hb hi = ltb→lt _ _ (both _ _ (sets_one_lem b i 0 hb hi (omega arith))).1

abbrev pub AreBytes : List ℕ → Type 0
AreBytes = All (λ b. b < 256)
