-- ===== src/Engine/Cache.antt =====
-- internal/engine/memory/shard.go: the sharded cache of the keys that hold strings, an index of hashes
-- over a ring buffer per shard. A key and a value are lists of bytes; an int64 is the uint64 with its
-- bits; `now` is what a call reads off the clock, not negative, and a ttl that is not positive is 0.
-- `maphash` is the runtime's hash of a key. A call is one step that no other
-- call overlaps; `Get`, `IncrBy` and others of the source let go of the lock of the shard in between.
use autocache.Prelude.{
  ℕ, zero, suc, ◌+◌, ◌-◌, ◌*◌, ◌/◌, ◌%◌, ◌^◌, Bool, true, false, not, ◌&&◌, ◌||◌, Option, none,
  some, List, [], ◌∷◌, ◌++◌, length, ltb, leb, ◌==◌, if◌then◌else◌, update, ℤ, pos, negsuc,
}
use autocache.Engine.Ring.{
  EntryHeader, RingBuffer, EvictedEntry, write_with_evict, update_in_place, read_at, reset,
}
use autocache.Engine.Cache.Decimal.{format_int, parse_int}
pub mod Decimal
pub mod Writes
pub mod Numbers
pub mod Holds
pub mod Roundtrip
pub mod Sums
mod Tests

abbrev pub Bytes : Type 0
Bytes = List ℕ

unfoldable pub bytes_eq : Bytes → Bytes → Bool
bytes_eq [] [] = true
bytes_eq [] (b ∷ bs) = false
bytes_eq (a ∷ as') [] = false
bytes_eq (a ∷ as') (b ∷ bs) = (a == b) && bytes_eq as' bs

-- `ZeroGCShard`, without the frequencies: nothing but `recordAccess` adds to them.
pub record ZeroGcShard : Type 0 where
  pub index : ℕ → Option ℕ
  pub ring : RingBuffer

pub record ShardedCache : Type 0 where
  pub shards : ℕ → ZeroGcShard
  pub shard_count : ℕ
  pub skip_lfu : Bool
  pub maphash : Bytes → ℕ
  pub slot_func : Option (Bytes → ℕ)
  pub slot_index : ℕ → Bytes → Bool

-- `recordAccess`, before a call returns its result: it calls itself without end, and the program dies,
-- unless the cache was made to skip it.
abbrev pub record_access : {A : Type 0} → ShardedCache → A → Option A
record_access sc a = if sc.skip_lfu then some a else none

abbrev pub get_shard : ShardedCache → ℕ → ZeroGcShard
get_shard sc hash = sc.shards (hash % sc.shard_count)

abbrev pub put_shard : ℕ → ZeroGcShard → ShardedCache → ShardedCache
put_shard hash sh sc = record sc { shards = update sc.shards (hash % sc.shard_count) sh }

-- The change to the index of the slots that `Set`, `SetNX` and `IncrBy` make, and that of `Delete`.
abbrev pub mark_key : Bytes → Bool → ShardedCache → ShardedCache
mark_key key b sc = record sc {
  slot_index = elim sc.slot_func [
    | none ↦ sc.slot_index
    | some f ↦ λ slot k. if (slot == f key) && bytes_eq k key then b else sc.slot_index slot k
  ];
}

abbrev pub encode_inline_int : ℕ → ℕ
encode_inline_int v = 2 ^ 63 + v % 2 ^ 63

abbrev pub decode_inline_int : ℕ → ℕ
decode_inline_int raw = raw % 2 ^ 63

abbrev pub is_inline_int : ℕ → Bool
is_inline_int raw = leb (2 ^ 63) raw

-- `int64(raw)`
abbrev pub offset_of : ℕ → ℤ
offset_of raw = if ltb raw (2 ^ 63) then pos raw else negsuc (2 ^ 64 - raw - 1)

-- `header.ExpireAt > 0 && time.Now().UnixNano() > header.ExpireAt`
abbrev pub is_over : ℕ → EntryHeader → Bool
is_over now h = ltb 0 h.expire_at && ltb h.expire_at (2 ^ 63) && ltb h.expire_at now

-- What a call finds at an offset: nothing that is its key's, its key past the time, or its key.
pub data Look : Type 0 where
  nothing : Look
  past : Look
  found : Bytes → EntryHeader → Look

unfoldable pub look : ℕ → Bytes → ℕ → RingBuffer → Look
look now key raw ring = elim (read_at (offset_of raw) ring) [
  | none ↦ nothing
  | some (k, value, h) ↦
      if bytes_eq k key then if is_over now h then past else found value h else nothing
]

-- `Get` on the shard. The value is none when there is none.
unfoldable pub get_in : ℕ → Bytes → ℕ → ZeroGcShard → Option Bytes × ZeroGcShard
get_in now key hash sh = elim (sh.index hash) [
  | none ↦ (none, sh)
  | some raw ↦
      if is_inline_int raw
      then (some (format_int (decode_inline_int raw)), sh)
      else elim (look now key raw sh.ring) [
        | nothing ↦ (none, sh)
        | past ↦ (none, record sh { index = update sh.index hash none })
        | found value h ↦ (some value, sh)
      ]
]

-- `Get`, and `GetCopy`, of which the result is a copy. `Exists` is whether there is a value.
unfoldable pub get : ℕ → Bytes → ShardedCache → Option (Option Bytes × ShardedCache)
get now key sc =
    let hash = sc.maphash key in
    let (o, sh) = get_in now key hash (get_shard sc hash) in
    let sc' = put_shard hash sh sc in
    elim o [ none ↦ some (none, sc') | some v ↦ record_access sc' (some v, sc') ]

abbrev pub expire_time : ℕ → ℕ → ℕ
expire_time now ttl = if ltb 0 ttl then (now + ttl) % 2 ^ 64 else 0

-- The header of `Set`, `SetNX` and `SetXX`: a length is cut to 16 bits.
abbrev pub new_header : ℕ → ℕ → Bytes → Bytes → EntryHeader
new_header hash expire_at key value = record {
  expire_at = expire_at;
  hash64 = hash;
  key_len = length key % 2 ^ 16;
  val_len = length value % 2 ^ 16;
  val_cap = 0;
  flags = 0;
}

-- What was evicted leaves the index, where the index still points at it.
unfoldable pub drop_evicted : List EvictedEntry → (ℕ → Option ℕ) → ℕ → Option ℕ
drop_evicted [] index = index
drop_evicted (ev ∷ evs) index = drop_evicted evs (elim (index ev.hash) [
  | none ↦ index
  | some existing ↦ if existing == ev.offset then update index ev.hash none else index
])

-- The write of an entry behind the last one, and its place in the index. False is `ErrEntryTooLarge`.
unfoldable pub append_in : ℕ → EntryHeader → Bytes → Bytes → ZeroGcShard → Bool × ZeroGcShard
append_in hash h key value sh =
    let (o, ring') = write_with_evict h key value sh.ring in
    elim o [
      | none ↦ (false, record sh { ring = ring' })
      | some (at, evicted) ↦ (
        true,
        record { index = update (drop_evicted evicted sh.index) hash (some at); ring = ring' },
      )
    ]

pub data Kept : Type 0 where
  too_large in_place appended : Kept

abbrev pub kept_of : Bool × ZeroGcShard → Kept × ZeroGcShard
kept_of (b, sh) = ((if b then appended else too_large), sh)

-- `Set` on the shard.
unfoldable pub set_in : ℕ → EntryHeader → Bytes → Bytes → ZeroGcShard → Kept × ZeroGcShard
set_in hash h key value sh = elim (sh.index hash) [
  | none ↦ kept_of (append_in hash h key value sh)
  | some raw ↦
      if is_inline_int raw
      then kept_of (append_in hash h key value (record sh { index = update sh.index hash none }))
      else let (b, ring') = update_in_place (offset_of raw) h key value sh.ring in
        if b
        then (in_place, record sh { ring = ring' })
        else kept_of (append_in hash h key value (record sh { ring = ring' }))
]

-- The end of `Set`. False is `ErrEntryTooLarge`.
unfoldable pub finish_set : Bytes → Kept → ShardedCache → Option (Bool × ShardedCache)
finish_set key too_large sc = some (false, sc)
finish_set key in_place sc = record_access sc (true, sc)
finish_set key appended sc = record_access sc (true, mark_key key true sc)

-- `Set`
unfoldable pub set : ℕ → Bytes → Bytes → ℕ → ShardedCache → Option (Bool × ShardedCache)
set now key value ttl sc =
    let hash = sc.maphash key in
    let (r, sh) =
      set_in hash (new_header hash (expire_time now ttl) key value) key value (get_shard sc hash) in
    finish_set key r (put_shard hash sh sc)
