-- ===== src/Cluster/Gossip/Bitmap/Bits.antt =====
-- internal/cluster/gossip/message.go: a bitmap says of each slot whether it was listed.
use autocache.Prelude.{
  ℕ, zero, suc, ◌+◌, ◌*◌, ◌/◌, ◌%◌, ◌<◌, ◌≡◌, refl, sym, ap, subst, ◌∙◌, Bool, true, false, ◌&&◌,
  ◌||◌, some, List, [], ◌∷◌, arith, ltb, leb, ◌==◌, if◌then◌else◌, if_keeps_on, length, get_or, All,
}
use autocache.Cluster.Hash.{slot_count}
use autocache.Cluster.Gossip.Bitmap.{
  has_bit, set_bit, set_bit_at, set_slots, zeros, slots_to_bytes, bit_at, slots_from,
  bytes_to_slots, has_slot,
}
use autocache.Cluster.Gossip.Bitmap.Bytes.{
  all_below, all_below_lem, same, same_lem, bits_of, set_bit-byte, AreBytes,
}

-- `bs'` is `bs` with the bit set.
record Sets (i bit : ℕ) (bs bs' : List ℕ) : Type 0 where
  same_length : length bs' ≡ length bs
  bytes : AreBytes bs'
  bits :
      (j k : ℕ)
      → k < 8
      → has_bit (get_or bs' j 0) k ≡ ((i == j && bit == k) || has_bit (get_or bs j 0) k)

zero_suc : (j : ℕ) → (0 == suc j) ≡ false
zero_suc j = ground arith

suc_zero : (i : ℕ) → (suc i == 0) ≡ false
suc_zero i = ground arith

suc_eq : (i j : ℕ) → (suc i == suc j) ≡ (i == j)
suc_eq i j = ground arith

same_place : (s i : ℕ) → (s / 8 == i / 8 && s % 8 == i % 8) ≡ (s == i)
same_place s i = ground arith

either : (a b c d : Bool) → d ≡ (a || c) → (b || d) ≡ ((a || b) || c)
either true true c d e = refl
either true false c d e = e
either false true c d e = refl
either false false c d e = e

set_bit_at-Sets :
    (i bit : ℕ) (bs : List ℕ)
    → i < length bs
    → bit < 8
    → AreBytes bs
    → (bs' : List ℕ) × (set_bit_at i bit bs ≡ some bs') × Sets i bit bs bs'
unfolding set_bit_at
set_bit_at-Sets i bit [] h hb bytes = absurd (omega (arith, h))
set_bit_at-Sets zero bit (b ∷ bs) h hb (byte, bytes) = (
  set_bit b bit ∷ bs,
  refl,
  record { same_length = refl; bytes = (set_bit-byte b bit byte hb, bytes); bits = head_bits },
)
  where
    head_bits :
        (j k : ℕ)
        → k < 8
        → has_bit (get_or (set_bit b bit ∷ bs) j 0) k
          ≡ ((0 == j && bit == k) || has_bit (get_or (b ∷ bs) j 0) k)
    head_bits zero k hk = bits_of b bit k byte hb hk
    head_bits (suc j) k hk = rw (zero_suc j) refl
set_bit_at-Sets (suc i) bit (b ∷ bs) h hb (byte, bytes) =
    let (bs', e, s) = set_bit_at-Sets i bit bs (omega (arith, h)) hb bytes in
    (
      b ∷ bs',
      rw (set_bit_at, e) refl,
      record { same_length = ap suc s.same_length; bytes = (byte, s.bytes); bits = tail_bits s },
    )
  where
    tail_bits :
        {bs' : List ℕ}
        → Sets i bit bs bs'
        → (j k : ℕ) → k < 8
        → has_bit (get_or (b ∷ bs') j 0) k
          ≡ ((suc i == j && bit == k) || has_bit (get_or (b ∷ bs) j 0) k)
    tail_bits s zero k hk = rw (suc_zero i) refl
    tail_bits s (suc j) k hk = rw (suc_eq i j) (s.bits j k hk)

-- The bits that the loop of `SlotsToBytes` sets are those of the slots.
record Shows (slots bs bs' : List ℕ) : Type 0 where
  same_length : length bs' ≡ length bs
  bits : (i : ℕ) → bit_at i bs' ≡ (has_slot i slots || bit_at i bs)

set_slots-Shows :
    (slots bs : List ℕ)
    → All (λ s. s < length bs * 8) slots
    → AreBytes bs
    → (bs' : List ℕ) × (set_slots slots bs ≡ some bs') × Shows slots bs bs'
unfolding set_slots has_slot bit_at
set_slots-Shows [] bs h bytes = (bs, refl, record { same_length = refl; bits = λ i. refl })
set_slots-Shows (s ∷ slots) bs (lt, h) bytes =
    let (bs₁, e, one) =
      set_bit_at-Sets (s / 8) (s % 8) bs (omega (arith, lt)) (omega arith) bytes in
    let (bs', f, more) =
      set_slots-Shows slots bs₁ (subst (λ n. All (λ s. s < n * 8) slots) (sym one.same_length) h)
        one.bytes in
    (
      bs',
      rw (set_slots, e) f,
      record {
        same_length = more.same_length ∙ one.same_length;
        bits = λ i.
            more.bits i
            ∙ either (s == i) (has_slot i slots) (bit_at i bs) (bit_at i bs₁) (set_at i one);
      },
    )
  where
    set_at :
        (i : ℕ) {bs₁ : List ℕ}
        → Sets (s / 8) (s % 8) bs bs₁
        → bit_at i bs₁ ≡ (s == i || bit_at i bs)
    set_at i one = one.bits (i / 8) (i % 8) (omega arith) ∙ rw (same_place s i) refl

slots_from_lem :
    (n j i : ℕ) (bs : List ℕ)
    → has_slot i (slots_from n j bs) ≡ (leb j i && ltb i (j + n) && bit_at i bs)
unfolding slots_from has_slot
slots_from_lem zero j i bs = ground arith
slots_from_lem (suc n) j i bs =
    if_keeps_on (λ l. has_slot i l ≡ (leb j i && ltb i (j + suc n) && bit_at i bs)) (bit_at j bs)
      (λ e. rw (slots_from_lem n (j + 1) i bs) (with_bit e))
      (λ e. rw (slots_from_lem n (j + 1) i bs) (without_bit e))
  where
    with_bit :
        bit_at j bs ≡ true
        → (j == i || (leb (j + 1) i && ltb i (j + 1 + n) && bit_at i bs))
          ≡ (leb j i && ltb i (j + suc n) && bit_at i bs)
    with_bit e = ground (arith, e)

    without_bit :
        bit_at j bs ≡ false
        → (leb (j + 1) i && ltb i (j + 1 + n) && bit_at i bs)
          ≡ (leb j i && ltb i (j + suc n) && bit_at i bs)
    without_bit e = ground (arith, e)

zeros-AreBytes : (n : ℕ) → AreBytes (zeros n)
unfolding zeros
zeros-AreBytes zero = tt
zeros-AreBytes (suc n) = (omega arith, zeros-AreBytes n)

length-zeros : (n : ℕ) → length (zeros n) ≡ n
unfolding zeros
length-zeros zero = refl
length-zeros (suc n) = ap suc (length-zeros n)

get_or-zeros : (n i : ℕ) → get_or (zeros n) i 0 ≡ 0
unfolding zeros
get_or-zeros zero i = refl
get_or-zeros (suc n) zero = refl
get_or-zeros (suc n) (suc i) = get_or-zeros n i

abbrev pub AreSlots : List ℕ → Type 0
AreSlots = All (λ s. s < slot_count)

no_bit : (k : ℕ) → k < 8 → has_bit 0 k ≡ false
unfolding all_below same
no_bit k h = same_lem _ _ (all_below_lem 8 (λ k. same (has_bit 0 k) false) k refl h)

bit_at-zeros : (i n : ℕ) → bit_at i (zeros n) ≡ false
unfolding bit_at
bit_at-zeros i n = rw (get_or-zeros n (i / 8)) (no_bit (i % 8) (omega arith))

has_slot-below :
    (slot : ℕ) (slots : List ℕ) → AreSlots slots → has_slot slot slots ≡ true → slot < slot_count
unfolding has_slot
has_slot-below slot [] h e = absurd (cc e)
has_slot-below slot (s ∷ slots) (lt, h) e = ground (arith, lt, e, has_slot-below slot slots h)

read_back :
    (slot n : ℕ) (bit listed : Bool)
    → (listed ≡ true → slot < n)
    → bit ≡ (listed || false)
    → (leb 0 slot && ltb slot (0 + n) && bit) ≡ listed
read_back slot n bit listed h e = ground (arith, h, e)

-- A list of slots can be written as a bitmap, and what is read back has the same slots.
pub bytes_to_slots-slots_to_bytes :
    (slots : List ℕ)
    → AreSlots slots
    → (bitmap : List ℕ) × (slots_to_bytes slots ≡ some bitmap)
      × (length bitmap ≡ 2048)
      × ((slot : ℕ) → has_slot slot (bytes_to_slots bitmap) ≡ has_slot slot slots)
unfolding slots_to_bytes bytes_to_slots
bytes_to_slots-slots_to_bytes slots h =
    let (bs, e, s) =
      set_slots-Shows slots (zeros 2048)
        (subst (λ n. All (λ s. s < n * 8) slots) (sym (length-zeros 2048)) h)
        (zeros-AreBytes 2048) in
    (
      bs,
      e,
      s.same_length ∙ length-zeros 2048,
      λ slot.
          (slots_from_lem (if ltb (length bs * 8) slot_count then length bs * 8 else slot_count) 0
            slot bs)
          ∙ subst (λ n. (leb 0 slot && ltb slot (0 + n) && bit_at slot bs) ≡ has_slot slot slots)
              (sym (whole (length bs) s.same_length))
              (read_back slot slot_count (bit_at slot bs) (has_slot slot slots)
                (has_slot-below slot slots h)
                (s.bits slot ∙ ap (λ b. has_slot slot slots || b) (bit_at-zeros slot 2048))),
    )
  where
    whole :
        (n : ℕ)
        → n ≡ length (zeros 2048)
        → (if ltb (n * 8) slot_count then n * 8 else slot_count) ≡ slot_count
    whole n e = ground (arith, e, length-zeros 2048)
