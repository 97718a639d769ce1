-- ===== src/Engine/Ring/Tests.antt =====
-- internal/engine/memory/ringbuf.go on small buffers.
use autocache.Prelude.{
  ℕ, ◌+◌, ◌<◌, ◌≤◌, ◌≡◌, refl, false, some, List, [], ◌∷◌, arith, pos, pos_part, neg_part,
}
use autocache.Engine.Ring.{
  EntryHeader, RingBuffer, marshal, unmarshal, is_short, is_blocked, make_room, sweep_of, swept,
  write_with_evict, write_at, put_entry, read_at, wrap, free_front, evict_head, read_header_at,
  header_at, slice_of, copy_to, put_uint, get_uint,
}
use autocache.Engine.Ring.Codec.{Fits}
use autocache.Engine.Ring.Room.{swept_lem}
use autocache.Engine.Ring.Stored.{Stores, write_with_evict_lem}

-- An entry of 27 bytes, and one of 50.
abbrev small : EntryHeader
small = record { expire_at = 0; hash64 = 300; key_len = 1; val_len = 2; val_cap = 2; flags = 0 }

abbrev big : EntryHeader
big = record { expire_at = 0; hash64 = 70000; key_len = 1; val_len = 25; val_cap = 25; flags = 0 }

abbrev long_value : List ℕ
long_value =
    1 ∷ 2 ∷ 3 ∷ 4 ∷ 5 ∷ 6 ∷ 7 ∷ 8 ∷ 9 ∷ 10 ∷ 11 ∷ 12 ∷ 13 ∷ 14 ∷ 15 ∷ 16 ∷ 17 ∷ 18 ∷ 19 ∷ 20 ∷ 21
    ∷ 22 ∷ 23 ∷ 24 ∷ 25 ∷ []

abbrev empty : RingBuffer
empty = record {
  bytes = λ i. 0;
  capacity = 100;
  tail = 0;
  head = 0;
  used = pos 0;
  write_count = 0;
  evict_count = 0;
}

abbrev written : EntryHeader → ℕ → List ℕ → RingBuffer → RingBuffer
written h key value rb = (write_with_evict h (key ∷ []) value rb).1

-- 27 bytes, 50 bytes, 27 bytes: the third evicts the first and is at the front.
abbrev full : RingBuffer
full = written big 8 long_value (written small 7 (1 ∷ 2 ∷ []) empty)

small-Fits : Fits small
small-Fits = record {
  expire_at = omega arith;
  hash64 = omega arith;
  key_len = omega arith;
  val_len = omega arith;
  val_cap = omega arith;
  flags = omega arith;
}

abbrev small_key : List ℕ
small_key = 9 ∷ []

abbrev small_value : List ℕ
small_value = 5 ∷ 6 ∷ []

full_holds : 27 ≤ full.capacity
unfolding write_with_evict write_at put_entry swept wrap make_room free_front evict_head
    read_header_at header_at slice_of copy_to
full_holds = omega arith

swept_lem_example :
    let room = make_room (pos_part full.used) full 27 (sweep_of full) in
    (is_short full 27 room ≡ false)
    × (full.capacity < room.tail + 27 → is_blocked 27 (swept full 27) ≡ false)
    × ((swept full 27).tail + 27 ≤ full.capacity)
    × (27 + pos_part (swept full 27).used ≤ full.capacity + neg_part (swept full 27).used)
swept_lem_example = swept_lem full 27 full_holds

write_with_evict_lem_example :
    Stores small small_key small_value full (write_with_evict small small_key small_value full)
write_with_evict_lem_example =
    write_with_evict_lem small small_key small_value full
      (record { fits = small-Fits; key_len = refl; val_len = refl }) full_holds

-- The first two entries are evicted from the front, and the third is read back.
front_freed : (swept full 27).evicted ≡ record { hash = 300; offset = 0 } ∷ []
unfolding swept write_with_evict write_at make_room wrap free_front evict_head read_header_at
    header_at slice_of copy_to put_entry marshal unmarshal put_uint get_uint
front_freed = refl

-- Three entries of 27, 50 and 50 bytes in 106: the third is at the front and evicts the others, and the
-- head is left behind the entries. To make room for 60 bytes more, what is evicted is no entry, and the
-- third entry is written over without being evicted.
abbrev left_behind : RingBuffer
left_behind =
    written big 9 long_value
      (written big 8 long_value (written small 7 (1 ∷ 2 ∷ []) (record empty { capacity = 106 })))

evicts_no_entry :
    let s = swept left_behind 60 in
    (s.evicted ≡ record { hash = 0; offset = 77 } ∷ [])
    × (s.tail ≡ 0)
    × (read_at (pos 0) left_behind ≡ some (9 ∷ [], long_value, big))
unfolding swept write_with_evict write_at make_room wrap free_front evict_head read_at
    read_header_at header_at slice_of copy_to put_entry marshal unmarshal put_uint get_uint
evicts_no_entry = (refl, refl, refl)
