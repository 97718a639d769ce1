-- ===== src/Engine/Cache/Roundtrip.antt =====
-- internal/engine/memory/shard.go: `Get` after `Set`, and after `Delete`.
use autocache.Prelude.{
  ℕ, ◌+◌, ◌%◌, ◌^◌, ◌<◌, ◌≤◌, ◌≡◌, ◌≢◌, ◌↔◌, ◌⊎◌, inl, inr, refl, ap, subst, ◌∙◌, Bool, true, false,
  Option, none, some, arith, length, ◌==◌, if◌then◌else◌, update, if_keeps_on, Option-cases,
}
use autocache.Engine.Ring.{header_size}
use autocache.Engine.Ring.Write.{IsHeaderOf}
use autocache.Engine.Cache.{
  Bytes, ZeroGcShard, ShardedCache, get_shard, put_shard, mark_key, get_in, get, set_in, set,
  finish_set, expire_time, new_header, Kept, too_large, in_place, appended, is_over, record_access,
}
use autocache.Engine.Cache.Holds.{get_in-Holds, IsWithin, set_in-Sets}
use autocache.Engine.Cache.Writes.{delete}

-- What `Set` needs to store a key and a value whole.
pub record CanStore (sc : ShardedCache) (k v : Bytes) : Type 0 where
  pub hash : sc.maphash k < 2 ^ 64
  pub key : length k < 2 ^ 16
  pub value : length v < 2 ^ 16
  pub fits : header_size + length k + length v ≤ (get_shard sc (sc.maphash k)).ring.capacity
  pub capacity : (get_shard sc (sc.maphash k)).ring.capacity ≤ 2 ^ 63
  pub within : IsWithin (sc.maphash k) (get_shard sc (sc.maphash k))

new_header-IsHeaderOf :
    (hash t : ℕ) (key value : Bytes)
    → hash < 2 ^ 64
    → t < 2 ^ 64
    → length key < 2 ^ 16
    → length value < 2 ^ 16
    → IsHeaderOf (new_header hash t key value) key value
new_header-IsHeaderOf hash t key value hh ht hk hv = record {
  fits = record {
    expire_at = ht;
    hash64 = hh;
    key_len = omega arith;
    val_len = omega arith;
    val_cap = omega arith;
    flags = omega arith;
  };
  key_len = omega (arith, hk);
  val_len = omega (arith, hv);
}

-- What a call of `Get` returns of the value.
abbrev pub Gets : ℕ → Bytes → Option Bytes → ShardedCache → Type 0
Gets now key o sc = (sc' : ShardedCache) × (get now key sc ≡ some (o, sc'))

pub get-in_shard :
    (now : ℕ) (key value : Bytes) (sc : ShardedCache)
    → sc.skip_lfu ≡ true
    → (get_in now key (sc.maphash key) (get_shard sc (sc.maphash key))).0 ≡ some value
    → Gets now key (some value) sc
unfolding get
get-in_shard now key value sc skip e = (
  put_shard (sc.maphash key) (get_in now key (sc.maphash key) (get_shard sc (sc.maphash key))).1 sc,
  rw (get, e, skip) refl,
)

expire_time-lt : (now ttl : ℕ) → expire_time now ttl < 2 ^ 64
expire_time-lt now ttl = ground arith

put_shard-same :
    (hash : ℕ) (sh : ZeroGcShard) (sc : ShardedCache) → get_shard (put_shard hash sh sc) hash ≡ sh
put_shard-same hash sh sc = ground arith

is_over-within :
    (now later ttl hash : ℕ) (key value : Bytes)
    → now + ttl < 2 ^ 63
    → (ttl ≡ 0) ⊎ (later ≤ now + ttl)
    → is_over later (new_header hash (expire_time now ttl) key value) ≡ false
is_over-within now later ttl hash key value small (inl z) = ground (arith, z)
is_over-within now later ttl hash key value small (inr h) = ground (arith, small, h)

pub accessed :
    {A : Type 0} (sc : ShardedCache) (a : A) → sc.skip_lfu ≡ true → record_access sc a ≡ some a
accessed sc a skip = ap (λ b. if b then some a else none) skip

finished :
    (later : ℕ) (key value : Bytes) (k : Kept) (sc : ShardedCache)
    → sc.skip_lfu ≡ true
    → k ≢ too_large
    → (get_in later key (sc.maphash key) (get_shard sc (sc.maphash key))).0 ≡ some value
    → (sc' : ShardedCache) × (finish_set key k sc ≡ some (true, sc'))
      × Gets later key (some value) sc'
unfolding finish_set
finished later key value too_large sc skip ne e = elim (ne refl) [ ]
finished later key value in_place sc skip ne e =
    (sc, rw skip refl, get-in_shard later key value sc skip e)
finished later key value appended sc skip ne e =
    (mark_key key true sc, rw skip refl, get-in_shard later key value (mark_key key true sc) skip e)

-- Where the frequencies are skipped, a key and a value whose lengths fit 16 bits, in a shard whose
-- buffer can hold them, are stored by `Set`, and until the time that the ttl gives, or for ever without
-- one, `Get` returns the value. The index has nothing under the hash, a number, or the offset of an
-- entry that lies in the buffer; hashes have 64 bits, and the capacity and the time fit an int64.
pub set-get :
    (now later : ℕ) (key value : Bytes) (ttl : ℕ) (sc : ShardedCache)
    → sc.skip_lfu ≡ true
    → CanStore sc key value
    → now + ttl < 2 ^ 63
    → (ttl ≡ 0) ⊎ (later ≤ now + ttl)
    → (sc' : ShardedCache) × (set now key value ttl sc ≡ some (true, sc'))
      × Gets later key (some value) sc'
unfolding set
set-get now later key value ttl sc skip can small fresh =
    let hash = sc.maphash key in
    let h = new_header hash (expire_time now ttl) key value in
    let r = set_in hash h key value (get_shard sc hash) in
    let (ne, holds) =
      set_in-Sets hash h key value (get_shard sc hash)
        (new_header-IsHeaderOf hash (expire_time now ttl) key value can.hash
          (expire_time-lt now ttl) can.key can.value)
        can.fits can.capacity can.within in
    finished later key value r.0 (put_shard hash r.1 sc) skip ne (
      ap (λ (sh : ZeroGcShard). (get_in later key hash sh).0) (put_shard-same hash r.1 sc)
      ∙ ap (λ (o : Option Bytes × ZeroGcShard). o.0)
          (get_in-Holds later hash key value h r.1 holds
            (is_over-within now later ttl hash key value small fresh)))

get_in-missing :
    (now : ℕ) (key : Bytes) (hash : ℕ) (sh : ZeroGcShard)
    → sh.index hash ≡ none
    → (get_in now key hash sh).0 ≡ none
unfolding get_in
get_in-missing now key hash sh e = rw (get_in, e) refl

get-missing :
    (now : ℕ) (key : Bytes) (sc : ShardedCache)
    → (get_shard sc (sc.maphash key)).index (sc.maphash key) ≡ none
    → Gets now key none sc
unfolding get
get-missing now key sc e =
    let hash = sc.maphash key in
    (
      put_shard hash (get_in now key hash (get_shard sc hash)).1 sc,
      rw (get, get_in-missing now key hash (get_shard sc hash) e) refl,
    )

abbrev without : ℕ → ShardedCache → ShardedCache
without hash sc =
    put_shard hash
      (record (get_shard sc hash) { index = update (get_shard sc hash).index hash none }) sc

without-other :
    (hash other : ℕ) (sc : ShardedCache)
    → other ≢ hash
    → (get_shard (without hash sc) other).index other ≡ (get_shard sc other).index other
without-other hash other sc ne =
    if_keeps_on (λ (sh : ZeroGcShard). sh.index other ≡ (get_shard sc other).index other)
      ((hash % sc.shard_count) == (other % sc.shard_count)) (λ e. ground (arith, e, ne)) (λ _. refl)

-- What a deletion of a key leaves.
abbrev pub Deletes : ℕ → Bytes → ShardedCache → Bool × ShardedCache → Type 0
Deletes now key sc r =
    Gets now key none r.1
    × ((r.0 ≡ false) ↔ ((get_shard sc (sc.maphash key)).index (sc.maphash key) ≡ none))
    × ((other : ℕ)
        → other ≢ sc.maphash key
        → (get_shard r.1 other).index other ≡ (get_shard sc other).index other)

-- After `Delete`, `Get` finds nothing under the key; `Delete` returns false just where the index had
-- nothing under its hash, and what the index has under any other hash stays.
pub delete-Deletes :
    (now : ℕ) (key : Bytes) (sc : ShardedCache) → Deletes now key sc (delete key sc)
unfolding delete
delete-Deletes now key sc =
    elim (Option-cases ((get_shard sc (sc.maphash key)).index (sc.maphash key))) [
      | inl e ↦ rw (delete, e) (get-missing now key sc e, ((λ _. refl), (λ _. refl)), (λ _ _. refl))
      | inr (raw, e) ↦
          let sc' = mark_key key false (without (sc.maphash key) sc) in
          subst (Deletes now key sc) {x = (true, sc')} {y = delete key sc} (rw (delete, e) refl) (
            get-missing now key sc' (ground arith),
            ((λ q. ground (arith, q)), (λ q. ground (arith, q, e))),
            λ other ne. without-other (sc.maphash key) other sc ne,
          )
    ]
