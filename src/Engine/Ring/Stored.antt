-- ===== src/Engine/Ring/Stored.antt =====
-- internal/engine/memory/ringbuf.go: `WriteWithEvict` and `ReadAt` together.
use autocache.Prelude.{
  ℕ, ◌+◌, ◌<◌, ◌≤◌, ◌≡◌, ◌⊎◌, refl, Option, some, List, arith, length, ltb, pos, if_keeps_on,
}
use autocache.Engine.Ring.{
  header_size, EntryHeader, RingBuffer, EvictedEntry, swept, write_at, write_with_evict, read_at,
  read_header_at, header_at,
}
use autocache.Engine.Ring.Write.{IsHeaderOf, read_at-put_entry, put_entry-bytes}
use autocache.Engine.Ring.Room.{swept_lem}

-- What a write of an entry promises: that it says where the entry is, that the entry is inside of the
-- buffer and read back from there, and that no byte outside of it changes.
abbrev pub Stores :
    EntryHeader
    → List ℕ
    → List ℕ
    → RingBuffer
    → Option (ℕ × List EvictedEntry) × RingBuffer
    → Type 0
Stores h key value rb w =
    (at : ℕ) × (ev : List EvictedEntry) × (w.0 ≡ some (at, ev))
    × (at + header_size + length key + length value ≤ rb.capacity)
    × (read_at (pos at) w.1 ≡ some (key, value, h))
    × ((i : ℕ)
        → (i < at) ⊎ (at + header_size + length key + length value ≤ i)
        → w.1.bytes i ≡ rb.bytes i)

write_at-Stores :
    (h : EntryHeader) (key value : List ℕ) (rb : RingBuffer)
    → IsHeaderOf h key value
    → header_size + length key + length value ≤ rb.capacity
    → let size = header_size + length key + length value in
      let s = swept rb size in
      Stores h key value rb (some (s.tail, s.evicted), write_at s size h key value rb)
unfolding write_at read_at read_header_at header_at
write_at-Stores h key value rb ok fits =
    let size = header_size + length key + length value in
    let s = swept rb size in
    let room : s.tail + header_size + length key + length value ≤ rb.capacity =
      omega (arith, (swept_lem rb size fits).2) in
    (
      s.tail,
      s.evicted,
      refl,
      room,
      read_at-put_entry rb s.tail h key value ok room,
      λ i. put_entry-bytes rb s.tail h key value i,
    )

-- An entry that the buffer can hold, under a header that states the lengths of its key and its value,
-- is always written, inside of the buffer; `ReadAt` at the returned offset gives the key, the value and
-- the header back, and every byte outside of the entry is as it was.
pub write_with_evict_lem :
    (h : EntryHeader) (key value : List ℕ) (rb : RingBuffer)
    → IsHeaderOf h key value
    → header_size + length key + length value ≤ rb.capacity
    → Stores h key value rb (write_with_evict h key value rb)
unfolding write_with_evict
write_with_evict_lem h key value rb ok fits =
    if_keeps_on (Stores h key value rb) (ltb rb.capacity (header_size + length key + length value))
      (λ e. ground (arith, e, fits)) (λ _. write_at-Stores h key value rb ok fits)
