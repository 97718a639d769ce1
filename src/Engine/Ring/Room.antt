-- ===== src/Engine/Ring/Room.antt =====
-- internal/engine/memory/ringbuf.go: the two loops of `WriteWithEvict` end, and leave room for the
-- entry.
use autocache.Prelude.{
  ℕ, zero, suc, ◌+◌, ◌-◌, ◌<◌, ◌≤◌, ◌≡◌, refl, false, Option, none, some, arith, ltb, leb,
  if◌then◌else◌, pos_part, neg_part, sub_ℕ, if_keeps, if_keeps_on,
}
use autocache.Engine.Ring.{
  EntryHeader, RingBuffer, read_header_at, header_entry_size, Sweep, start_over, evict, evict_head,
  is_short, make_room, is_blocked, free_front, sweep_of, wrap, swept,
}

-- A round ends the loop, or evicts the entry at the head.
module _ (R : Sweep → Type 0) (ended : Sweep) (go_on : Sweep → Sweep) where
  abbrev outcome : Option Sweep → Sweep
  outcome o = elim o [ none ↦ ended | some s' ↦ go_on s' ]

  round :
      (rb : RingBuffer) (s : Sweep)
      → R ended
      → ((h : EntryHeader) → R (go_on (evict rb.capacity h s)))
      → R (outcome (evict_head rb s))
  unfolding evict_head
  round rb s e each =
      elim (read_header_at rb s.head)
        as (λ o. R (
          outcome (elim o as (λ _. Option Sweep) [
            | none ↦ none
            | some h ↦
                if ltb rb.capacity (header_entry_size h) then none else some (evict rb.capacity h s)
          ]))) [
            | none ↦ e
            | some h ↦
                if_keeps (λ o. R (outcome o)) (ltb rb.capacity (header_entry_size h)) e (each h)
          ]

pos_part-sub_ℕ : (a b : ℕ) → pos_part (sub_ℕ a b) ≡ a - b
pos_part-sub_ℕ a b =
    if_keeps_on (λ x. pos_part x ≡ a - b) (leb b a) (λ _. refl) (λ e. ground (arith, e))

-- A round takes the 24 bytes of a header, at least, from what is used.
shrinks :
    (n cap : ℕ) (h : EntryHeader) (s : Sweep)
    → pos_part s.used ≤ suc n
    → pos_part (evict cap h s).used ≤ n
shrinks n cap h s p =
    omega (arith, p, pos_part-sub_ℕ (pos_part s.used) (neg_part s.used + header_entry_size h))

make_room-ends :
    (n : ℕ) (rb : RingBuffer) (size : ℕ) (s : Sweep)
    → size ≤ rb.capacity
    → pos_part s.used ≤ n
    → is_short rb size (make_room n rb size s) ≡ false
unfolding make_room
make_room-ends zero rb size s fits h = ground (arith, fits, h)
make_room-ends (suc n) rb size s fits h =
    if_keeps_on (λ r. is_short rb size r ≡ false) (is_short rb size s)
      (λ _.
        round (λ r. is_short rb size r ≡ false) (start_over s) (make_room n rb size) rb s
          (ground (arith, fits))
          (λ e.
            make_room-ends n rb size (evict rb.capacity e s) fits (shrinks n rb.capacity e s h)))
      (λ e. e)

free_front-ends :
    (n : ℕ) (rb : RingBuffer) (size : ℕ) (s : Sweep)
    → pos_part s.used ≤ n
    → is_blocked size (free_front n rb size s) ≡ false
unfolding free_front
free_front-ends zero rb size s h = ground (arith, h)
free_front-ends (suc n) rb size s h =
    if_keeps_on (λ r. is_blocked size r ≡ false) (is_blocked size s)
      (λ _.
        round (λ r. is_blocked size r ≡ false) (start_over s) (free_front n rb size) rb s refl
          (λ e. free_front-ends n rb size (evict rb.capacity e s) (shrinks n rb.capacity e s h)))
      (λ e. e)

-- What every round keeps, the loop keeps.
free_front-keeps :
    (P : Sweep → Type 0) (rb : RingBuffer)
    → ((s : Sweep) → P s → P (start_over s))
    → ((s : Sweep) (h : EntryHeader) → P s → P (evict rb.capacity h s))
    → (n size : ℕ) (s : Sweep) → P s
    → P (free_front n rb size s)
unfolding free_front
free_front-keeps P rb over each zero size s p = p
free_front-keeps P rb over each (suc n) size s p =
    if_keeps P (is_blocked size s)
      (round P (start_over s) (free_front n rb size) rb s (over s p)
        (λ h. free_front-keeps P rb over each n size (evict rb.capacity h s) (each s h p)))
      p

neg_part-sub_ℕ : (a b : ℕ) → neg_part (sub_ℕ a b) ≡ b - a
neg_part-sub_ℕ a b =
    if_keeps_on (λ x. neg_part x ≡ b - a) (leb b a) (λ e. ground (arith, e))
      (λ e. ground (arith, e))

-- Room for the entry among the bytes that are not used.
abbrev HasRoom : RingBuffer → ℕ → Sweep → Type 0
HasRoom rb size s = size + pos_part s.used ≤ rb.capacity + neg_part s.used

evict-HasRoom :
    (rb : RingBuffer) (size : ℕ) (h : EntryHeader) (s : Sweep)
    → HasRoom rb size s
    → HasRoom rb size (evict rb.capacity h s)
evict-HasRoom rb size h s p = omega (
  arith,
  p,
  pos_part-sub_ℕ (pos_part s.used) (neg_part s.used + header_entry_size h),
  neg_part-sub_ℕ (pos_part s.used) (neg_part s.used + header_entry_size h),
)

is_short-HasRoom :
    (rb : RingBuffer) (size : ℕ) (s : Sweep) → is_short rb size s ≡ false → HasRoom rb size s
is_short-HasRoom rb size s e = ground (arith, e)

room-HasRoom :
    (rb : RingBuffer) (size : ℕ)
    → size ≤ rb.capacity
    → HasRoom rb size (make_room (pos_part rb.used) rb size (sweep_of rb))
room-HasRoom rb size fits =
    is_short-HasRoom rb size (make_room (pos_part rb.used) rb size (sweep_of rb))
      (make_room-ends (pos_part rb.used) rb size (sweep_of rb) fits (omega arith))

wrap-HasRoom :
    (rb : RingBuffer) (size : ℕ) (s : Sweep)
    → size ≤ rb.capacity
    → HasRoom rb size s
    → HasRoom rb size (wrap rb size s)
unfolding wrap
wrap-HasRoom rb size s fits p =
    if_keeps (HasRoom rb size) (ltb rb.capacity (s.tail + size))
      (free_front-keeps (HasRoom rb size) rb (λ _ _. omega (arith, fits))
        (λ r h. evict-HasRoom rb size h r) (pos_part s.used) size (record s { tail = 0 }) p)
      p

wrap-tail :
    (rb : RingBuffer) (size : ℕ) (s : Sweep)
    → size ≤ rb.capacity
    → (wrap rb size s).tail + size ≤ rb.capacity
unfolding wrap
wrap-tail rb size s fits =
    if_keeps_on (λ (r : Sweep). r.tail + size ≤ rb.capacity) (ltb rb.capacity (s.tail + size))
      (λ _. omega (
        arith,
        fits,
        free_front-keeps (λ (r : Sweep). r.tail ≡ 0) rb (λ _ _. refl) (λ r h e. e) (pos_part s.used)
            size (record s { tail = 0 }) refl,
      ))
      (λ e. ground (arith, e))

wrap-ends :
    (rb : RingBuffer) (size : ℕ) (s : Sweep)
    → rb.capacity < s.tail + size
    → is_blocked size (wrap rb size s) ≡ false
unfolding wrap
wrap-ends rb size s h =
    if_keeps_on (λ r. is_blocked size r ≡ false) (ltb rb.capacity (s.tail + size))
      (λ _. free_front-ends (pos_part s.used) rb size (record s { tail = 0 }) (omega arith))
      (λ e. ground (arith, e, h))

-- For an entry that the buffer can hold at all, both loops of `WriteWithEvict` end at their own
-- conditions, within the rounds they are given: the first with room for the entry, the second, when the
-- entry does not fit behind the tail, with the front of the buffer free or nothing used. After both the
-- entry fits behind the tail, and with it no more bytes are used than the buffer has.
pub swept_lem :
    (rb : RingBuffer) (size : ℕ)
    → size ≤ rb.capacity
    → let room = make_room (pos_part rb.used) rb size (sweep_of rb) in
      (is_short rb size room ≡ false)
      × (rb.capacity < room.tail + size → is_blocked size (swept rb size) ≡ false)
      × ((swept rb size).tail + size ≤ rb.capacity)
      × (size + pos_part (swept rb size).used ≤ rb.capacity + neg_part (swept rb size).used)
unfolding swept
swept_lem rb size fits =
    let room = make_room (pos_part rb.used) rb size (sweep_of rb) in
    (
      make_room-ends (pos_part rb.used) rb size (sweep_of rb) fits (omega arith),
      wrap-ends rb size room,
      wrap-tail rb size room fits,
      wrap-HasRoom rb size room fits (room-HasRoom rb size fits),
    )
