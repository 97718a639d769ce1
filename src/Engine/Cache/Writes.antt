-- ===== src/Engine/Cache/Writes.antt =====
-- internal/engine/memory/shard.go: the other calls of the sharded cache that change it, and `TTL`.
use autocache.Prelude.{
  ℕ, ◌+◌, ◌-◌, ◌%◌, ◌^◌, Bool, true, false, ◌&&◌, ◌||◌, Option, none, some, length, ltb, leb, ◌==◌,
  if◌then◌else◌, update,
}
use autocache.Engine.Ring.{read_at, reset}
use autocache.Engine.Cache.{
  Bytes, bytes_eq, ZeroGcShard, ShardedCache, record_access, get_shard, put_shard, mark_key,
  encode_inline_int, decode_inline_int, is_inline_int, offset_of, Look, nothing, past, found, look,
  expire_time, new_header, append_in,
}
use autocache.Engine.Cache.Decimal.{parse_int}

-- What `IncrBy` finds: a number kept in the index, no key, an entry that is not the key's or is past
-- its time, or the bytes of an entry.
pub data Counter : Type 0 where
  inline : ℕ → Counter
  missing : Counter
  stale : Counter
  stored : Bytes → Counter

unfoldable pub counter_of : ℕ → Bytes → ℕ → ZeroGcShard → Counter
counter_of now key hash sh = elim (sh.index hash) [
  | none ↦ missing
  | some raw ↦
      if is_inline_int raw
      then inline (decode_inline_int raw)
      else elim (look now key raw sh.ring) [
        | nothing ↦ stale
        | past ↦ stale
        | found value h ↦ stored value
      ]
]

-- The sum, and what the index gets; none for `ErrNotInteger`.
unfoldable pub incremented : Counter → ℕ → Option ℕ
incremented (inline v) delta = some ((v + delta) % 2 ^ 64)
incremented missing delta = some delta
incremented stale delta = some delta
incremented (stored value) delta = elim (parse_int value) [
  | none ↦ none
  | some v ↦ some ((v + delta) % 2 ^ 64)
]

abbrev pub put_counter : ℕ → ℕ → ZeroGcShard → ZeroGcShard
put_counter hash v sh = record sh { index = update sh.index hash (some (encode_inline_int v)) }

abbrev pub is_missing : Counter → Bool
is_missing missing = true
is_missing _ = false

-- The rest of `IncrBy`, on what it found.
unfoldable pub count_with : Bytes → Counter → ℕ → ShardedCache → Option (Option ℕ × ShardedCache)
count_with key c delta sc = elim (incremented c delta) [
  | none ↦ some (none, sc)
  | some v ↦
      let hash = sc.maphash key in
      let sc' = put_shard hash (put_counter hash v (get_shard sc hash)) sc in
      record_access sc (some v, if is_missing c then mark_key key true sc' else sc')
]

-- `IncrBy`: the new value, or none for `ErrNotInteger`.
unfoldable pub incr_by : ℕ → Bytes → ℕ → ShardedCache → Option (Option ℕ × ShardedCache)
incr_by now key delta sc =
    let hash = sc.maphash key in
    count_with key (counter_of now key hash (get_shard sc hash)) delta sc

-- The test of `SetNX` on the entry at the offset: one that is the key's and not past its time.
unfoldable pub is_taken : ℕ → Bytes → ℕ → ZeroGcShard → Bool
is_taken now key hash sh = elim (sh.index hash) [
  | none ↦ false
  | some raw ↦ elim (read_at (offset_of raw) sh.ring) [
    | none ↦ false
    | some (k, _, h) ↦
        bytes_eq k key && ((h.expire_at == 0) || (ltb h.expire_at (2 ^ 63) && leb now h.expire_at))
  ]
]

-- What `SetNX` and `SetXX` return: whether the key was set, or `ErrEntryTooLarge`.
pub data Outcome : Type 0 where
  not_set done failed : Outcome

-- `SetNX`
unfoldable pub set_nx : ℕ → Bytes → Bytes → ℕ → ShardedCache → Option (Outcome × ShardedCache)
set_nx now key value ttl sc =
    let hash = sc.maphash key in
    let sh = get_shard sc hash in
    if is_taken now key hash sh
    then some (not_set, sc)
    else let (b, sh') =
        append_in hash (new_header hash (expire_time now ttl) key value) key value sh in
      let sc' = put_shard hash sh' sc in
      if b then record_access sc (done, mark_key key true sc') else some (failed, sc')

-- The entry at the offset that is the key's and not past its time, in `SetXX` and `Expire`. A number
-- in the index is at no offset.
unfoldable pub entry_of : ℕ → Bytes → ℕ → ZeroGcShard → Look
entry_of now key hash sh = elim (sh.index hash) [
  | none ↦ nothing
  | some raw ↦ look now key raw sh.ring
]

-- `SetXX`
unfoldable pub set_xx : ℕ → Bytes → Bytes → ℕ → ShardedCache → Option (Outcome × ShardedCache)
set_xx now key value ttl sc =
    let hash = sc.maphash key in
    let sh = get_shard sc hash in
    elim (entry_of now key hash sh) [
      | nothing ↦ some (not_set, sc)
      | past ↦ some (not_set, sc)
      | found _ _ ↦
          let (b, sh') =
            append_in hash (new_header hash (expire_time now ttl) key value) key value sh in
          let sc' = put_shard hash sh' sc in
          if b then record_access sc (done, sc') else some (failed, sc')
    ]

-- `Expire`
unfoldable pub expire : ℕ → Bytes → ℕ → ShardedCache → Bool × ShardedCache
expire now key ttl sc =
    let hash = sc.maphash key in
    let sh = get_shard sc hash in
    elim (entry_of now key hash sh) [
      | nothing ↦ (false, sc)
      | past ↦ (false, sc)
      | found value h ↦
          let h' = record h {
            expire_at = expire_time now ttl;
            key_len = length key % 2 ^ 16;
            val_len = length value % 2 ^ 16;
          } in
          let (b, sh') = append_in hash h' key value sh in
          if b then (true, put_shard hash sh' sc) else (false, put_shard hash sh' sc)
    ]

-- `Delete`
unfoldable pub delete : Bytes → ShardedCache → Bool × ShardedCache
delete key sc =
    let hash = sc.maphash key in
    let sh = get_shard sc hash in
    elim (sh.index hash) [
      | none ↦ (false, sc)
      | some _ ↦ (
        true,
        mark_key key false (put_shard hash (record sh { index = update sh.index hash none }) sc),
      )
    ]

-- `TTL`: `gone` for -2, `forever` for -1.
pub data Ttl : Type 0 where
  gone forever : Ttl
  left : ℕ → Ttl

unfoldable pub ttl : ℕ → Bytes → ShardedCache → Ttl
ttl now key sc = elim ((get_shard sc (sc.maphash key)).index (sc.maphash key)) [
  | none ↦ gone
  | some raw ↦
      if is_inline_int raw
      then forever
      else elim (read_at (offset_of raw) (get_shard sc (sc.maphash key)).ring) [
        | none ↦ gone
        | some (_, _, h) ↦
            if h.expire_at == 0
            then forever
            else let remaining = (h.expire_at + 2 ^ 64 - now) % 2 ^ 64 in
              if ltb remaining (2 ^ 63) then left remaining else gone
      ]
]

-- `Clear`, of every shard.
unfoldable pub clear : ShardedCache → ShardedCache
clear sc = record sc {
  shards = λ i. record { index = λ h. none; ring = reset (sc.shards i).ring };
  slot_index = λ slot k. false;
}
