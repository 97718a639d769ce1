-- ===== src/Engine/Ring.antt =====
-- internal/engine/memory/ringbuf.go: the ring buffer that holds the entries of a shard as bytes. A
-- byte is a number, the buffer a function from positions to bytes of which the first `capacity` count,
-- and a word the uint with its bits. The lock makes a write one step.
pub mod Codec
pub mod Bytes
pub mod Write
pub mod Room
pub mod Stored
mod Tests
use autocache.Prelude.{
  ℕ, zero, suc, ◌+◌, ◌-◌, ◌*◌, ◌/◌, ◌%◌, ◌^◌, String, Bool, true, false, not, ◌&&◌, ◌||◌, Option,
  none, some, List, [], ◌∷◌, ◌++◌, length, take, drop, ltb, leb, ◌==◌, if◌then◌else◌, update, ℤ,
  pos, negsuc, pos_part, neg_part, ◌+ℤ◌, sub_ℕ,
}

abbrev pub header_size : ℕ
header_size = 24

-- `EntryHeader`. `expire_at` is the uint64 with the bits of the int64.
pub record EntryHeader : Type 0 where
  pub expire_at : ℕ
  pub hash64 : ℕ
  pub key_len : ℕ
  pub val_len : ℕ
  pub val_cap : ℕ
  pub flags : ℕ

-- `binary.LittleEndian`: the lowest byte is the first.
unfoldable pub put_uint : ℕ → ℕ → List ℕ
put_uint zero v = []
put_uint (suc n) v = v % 256 ∷ put_uint n (v / 256)

unfoldable pub get_uint : List ℕ → ℕ
get_uint [] = 0
get_uint (b ∷ bs) = b + 256 * get_uint bs

-- The bytes that `MarshalTo` writes.
unfoldable pub marshal : EntryHeader → List ℕ
marshal h =
    put_uint 8 h.expire_at
    ++ put_uint 8 h.hash64
    ++ put_uint 2 h.key_len
    ++ put_uint 2 h.val_len
    ++ put_uint 2 h.val_cap
    ++ put_uint 2 h.flags

-- `UnmarshalFrom`, of 24 bytes.
unfoldable pub unmarshal : List ℕ → EntryHeader
unmarshal bs = record {
  expire_at = get_uint (take 8 bs);
  hash64 = get_uint (take 8 (drop 8 bs));
  key_len = get_uint (take 2 (drop 16 bs));
  val_len = get_uint (take 2 (drop 18 bs));
  val_cap = get_uint (take 2 (drop 20 bs));
  flags = get_uint (take 2 (drop 22 bs));
}

pub record RingBuffer : Type 0 where
  pub bytes : ℕ → ℕ
  pub capacity : ℕ
  pub tail : ℕ
  pub head : ℕ
  pub used : ℤ
  pub write_count : ℕ
  pub evict_count : ℕ

-- `NewRingBuffer`. A negative capacity is treated as 0 is.
abbrev pub new_ring_buffer : ℕ → RingBuffer
new_ring_buffer capacity = record {
  bytes = λ i. 0;
  capacity = if ltb capacity (2 ^ 20) then 2 ^ 20 else capacity;
  tail = 0;
  head = 0;
  used = pos 0;
  write_count = 0;
  evict_count = 0;
}

-- `copy` to the part of the buffer from `at` on, which ends at its capacity.
unfoldable pub copy_to : ℕ → ℕ → List ℕ → (ℕ → ℕ) → ℕ → ℕ
copy_to capacity at [] bytes = bytes
copy_to capacity at (b ∷ bs) bytes =
    if ltb at capacity then copy_to capacity (at + 1) bs (update bytes at b) else bytes

unfoldable pub slice_of : (ℕ → ℕ) → ℕ → ℕ → List ℕ
slice_of bytes at zero = []
slice_of bytes at (suc n) = bytes at ∷ slice_of bytes (at + 1) n

-- `headerEntrySize`
abbrev pub header_entry_size : EntryHeader → ℕ
header_entry_size h = header_size + h.key_len + h.val_len

unfoldable pub header_at : RingBuffer → ℕ → EntryHeader
header_at rb offset = unmarshal (slice_of rb.bytes offset header_size)

-- `readHeaderAt`
unfoldable pub read_header_at : RingBuffer → ℕ → Option EntryHeader
read_header_at rb offset =
    if ltb rb.capacity (offset + header_size) then none else some (header_at rb offset)

-- The bytes of an entry, written at an offset.
unfoldable pub put_entry : ℕ → EntryHeader → List ℕ → List ℕ → RingBuffer → RingBuffer
put_entry offset h key value rb = record rb {
  bytes = copy_to rb.capacity (offset + header_size + length key) value (
      copy_to rb.capacity (offset + header_size) key
        (copy_to rb.capacity offset (marshal h) rb.bytes));
}

-- `UpdateInPlace`
unfoldable pub update_in_place : ℤ → EntryHeader → List ℕ → List ℕ → RingBuffer → Bool × RingBuffer
update_in_place (negsuc _) h key value rb = (false, rb)
update_in_place (pos offset) h key value rb =
    if ltb rb.capacity (offset + header_size)
      || ltb (header_entry_size (header_at rb offset)) (header_size + length key + length value)
    then (false, rb)
    else (
      true,
      record (put_entry offset h key value rb) { write_count = (rb.write_count + 1) % 2 ^ 64 },
    )

-- `EvictedEntry`
pub record EvictedEntry : Type 0 where
  pub hash : ℕ
  pub offset : ℕ

-- The local variables of `WriteWithEvict`, with the counter of evictions.
pub record Sweep : Type 0 where
  pub head : ℕ
  pub tail : ℕ
  pub used : ℤ
  pub evicted : List EvictedEntry
  pub evict_count : ℕ

-- Where the head is at no entry, the buffer is taken as empty.
abbrev pub start_over : Sweep → Sweep
start_over s = record s { head = 0; tail = 0; used = pos 0; evicted = [] }

abbrev pub evict : ℕ → EntryHeader → Sweep → Sweep
evict capacity h s =
    let next = s.head + header_entry_size h in
    record s {
      head = if leb capacity next then 0 else next;
      used = sub_ℕ (pos_part s.used) (neg_part s.used + header_entry_size h);
      evicted = s.evicted ++ record { hash = h.hash64; offset = s.head } ∷ [];
      evict_count = (s.evict_count + 1) % 2 ^ 64;
    }

-- One round of both loops: none when the loop breaks off. An item is never empty.
unfoldable pub evict_head : RingBuffer → Sweep → Option Sweep
evict_head rb s = elim (read_header_at rb s.head) [
  | none ↦ none
  | some h ↦ if ltb rb.capacity (header_entry_size h) then none else some (evict rb.capacity h s)
]

-- `size > capacity - used`
abbrev pub is_short : RingBuffer → ℕ → Sweep → Bool
is_short rb size s = ltb (rb.capacity + neg_part s.used) (size + pos_part s.used)

-- The first loop, of at most `n` rounds.
unfoldable pub make_room : ℕ → RingBuffer → ℕ → Sweep → Sweep
make_room zero rb size s = s
make_room (suc n) rb size s =
    if is_short rb size s
    then elim (evict_head rb s) [ none ↦ start_over s | some s' ↦ make_room n rb size s' ]
    else s

-- `used > 0 && size > head`
abbrev pub is_blocked : ℕ → Sweep → Bool
is_blocked size s = ltb 0 (pos_part s.used) && ltb s.head size

-- The second loop, which frees the front of the buffer.
unfoldable pub free_front : ℕ → RingBuffer → ℕ → Sweep → Sweep
free_front zero rb size s = s
free_front (suc n) rb size s =
    if is_blocked size s
    then elim (evict_head rb s) [ none ↦ start_over s | some s' ↦ free_front n rb size s' ]
    else s

abbrev pub sweep_of : RingBuffer → Sweep
sweep_of rb = record {
  head = rb.head;
  tail = rb.tail;
  used = rb.used;
  evicted = [];
  evict_count = rb.evict_count;
}

-- The wrap to the front, when the entry does not fit behind the tail.
unfoldable pub wrap : RingBuffer → ℕ → Sweep → Sweep
wrap rb size s =
    if ltb rb.capacity (s.tail + size)
    then free_front (pos_part s.used) rb size (record s { tail = 0 })
    else s

-- Both loops. Each round lowers `used` by at least 24, and a loop ends where it is not positive.
unfoldable pub swept : RingBuffer → ℕ → Sweep
swept rb size = wrap rb size (make_room (pos_part rb.used) rb size (sweep_of rb))

unfoldable pub write_at : Sweep → ℕ → EntryHeader → List ℕ → List ℕ → RingBuffer → RingBuffer
write_at s size h key value rb = record (put_entry s.tail h key value rb) {
  head = s.head;
  tail = s.tail + size;
  used = s.used +ℤ pos size;
  write_count = (rb.write_count + 1) % 2 ^ 64;
  evict_count = s.evict_count;
}

-- `WriteWithEvict`, with none for `ErrEntryTooLarge`. `Write` drops what was evicted.
unfoldable pub write_with_evict :
    EntryHeader → List ℕ → List ℕ → RingBuffer → Option (ℕ × List EvictedEntry) × RingBuffer
write_with_evict h key value rb =
    let size = header_size + length key + length value in
    if ltb rb.capacity size
    then (none, rb)
    else let s = swept rb size in (some (s.tail, s.evicted), write_at s size h key value rb)

-- `ReadAt`, with none for `ErrInvalidOffset`. `ReadAtCopy` copies what it returns.
unfoldable pub read_at : ℤ → RingBuffer → Option (List ℕ × List ℕ × EntryHeader)
read_at (negsuc _) rb = none
read_at (pos offset) rb = elim (read_header_at rb offset) [
  | none ↦ none
  | some h ↦
      if ltb rb.capacity (offset + header_size + h.key_len + h.val_len)
      then none
      else some (
        slice_of rb.bytes (offset + header_size) h.key_len,
        slice_of rb.bytes (offset + header_size + h.key_len) h.val_len,
        h,
      )
]

-- `Reset`
unfoldable pub reset : RingBuffer → RingBuffer
reset rb = record rb { tail = 0; head = 0; used = pos 0; write_count = 0; evict_count = 0 }
