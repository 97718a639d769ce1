-- ===== src/Engine/Dict.antt =====
-- internal/engine/memory/dict.go: the sharded dictionary of the keys that hold a collection. A shard's
-- map is an association list, in the order that a loop walks it, and a method
-- is one step that no other overlaps; `Get` lets go of the lock before it deletes an expired entry. A time is in nanoseconds since 1970 and not negative; `now` is what a method
-- reads off the clock. `expire_at` is the uint64 with the bits of the int64. A duration that is not
-- positive is 0, as the methods treat all of these alike. `maphash` is the runtime's hash of a key.
pub mod Len
pub mod Refine
pub mod Runs
use autocache.Prelude.{
  ℕ, zero, suc, ◌+◌, ◌-◌, ◌%◌, ◌^◌, String, Bool, true, false, not, ◌&&◌, ◌||◌, Option, none, some,
  List, [], ◌∷◌, ◌++◌, length, ltb, leb, ◌==◌, if◌then◌else◌, update, lookup, insert, erase,
}

-- `Entry`
pub record Entry (A : Type 0) : Type 0 where
  pub value : A
  pub expire_at : ℕ
  pub created_at : ℕ
  pub updated_at : ℕ
  pub last_access : ℕ
  pub access_freq : ℕ

-- `IsExpired`. A time that an int64 holds as negative is in the past.
unfoldable pub is_expired : {A : Type 0} → ℕ → Entry A → Bool
is_expired now e = not (e.expire_at == 0) && (leb (2 ^ 63) e.expire_at || ltb e.expire_at now)

-- `UpdateAccessStats`
abbrev pub update_access_stats : {A : Type 0} → ℕ → Entry A → Entry A
update_access_stats now e = record e {
  last_access = now;
  access_freq = (e.access_freq + 1) % 2 ^ 32;
}

abbrev pub deadline : ℕ → ℕ → ℕ
deadline now ttl = if ltb 0 ttl then (now + ttl) % 2 ^ 64 else 0

-- The entry that `Set`, `SetNX` and `SetXX` store.
abbrev pub new_entry : {A : Type 0} → ℕ → A → ℕ → Entry A
new_entry now value ttl = record {
  value = value;
  expire_at = deadline now ttl;
  created_at = now;
  updated_at = now;
  last_access = now;
  access_freq = 1;
}

abbrev pub Shard : Type 0 → Type 0
Shard A = List (String × Entry A)

pub record Dict (A : Type 0) : Type 0 where
  pub shard_count : ℕ
  pub shards : ℕ → Shard A

-- `NewDict`. A count that is not positive is 0 here.
abbrev pub new_dict : {A : Type 0} → ℕ → Dict A
new_dict count = record { shard_count = if count == 0 then 256 else count; shards = λ _. [] }

-- Whether there is an entry that has not expired, in the test of `SetNX`, `SetXX` and `Expire`.
abbrev pub is_live : {A : Type 0} → ℕ → Option (Entry A) → Bool
is_live now none = false
is_live now (some e) = not (is_expired now e)

module _ (maphash : String → ℕ) {A : Type 0} where
  abbrev pub shard_of : String → Dict A → ℕ
  shard_of key d = maphash key % 2 ^ 64 % d.shard_count

  -- `getShard`
  abbrev pub get_shard : String → Dict A → Shard A
  get_shard key d = d.shards (shard_of key d)

  abbrev pub put_shard : String → Shard A → Dict A → Dict A
  put_shard key items d = record d { shards = update d.shards (shard_of key d) items }

  -- What the map of the key's shard has for it.
  abbrev pub find : String → Dict A → Option (Entry A)
  find key d = lookup key (get_shard key d)

  -- `SetEntry`
  unfoldable pub set_entry : String → Entry A → Dict A → Dict A
  set_entry key entry d = put_shard key (insert key entry (get_shard key d)) d

  -- `Set`
  unfoldable pub set : ℕ → String → A → ℕ → Dict A → Dict A
  set now key value ttl d = set_entry key (new_entry now value ttl) d

  -- The round of the loop of `Del` on one key.
  unfoldable pub del_key : String → Dict A → ℕ × Dict A
  del_key key d = elim (find key d) [
    | none ↦ (0, d)
    | some _ ↦ (1, put_shard key (erase key (get_shard key d)) d)
  ]

  -- `Del`
  unfoldable pub del : List String → Dict A → ℕ × Dict A
  del [] d = (0, d)
  del (key ∷ keys) d = let (n, d') = del_key key d in let (m, d'') = del keys d' in (n + m, d'')

  -- `Get`: an expired entry is deleted, and the statistics of another one are updated in place.
  unfoldable pub get : ℕ → String → Dict A → Option (Entry A) × Dict A
  get now key d = elim (find key d) [
    | none ↦ (none, d)
    | some e ↦
        if is_expired now e
        then (none, (del_key key d).1)
        else (some (update_access_stats now e), set_entry key (update_access_stats now e) d)
  ]

  -- `SetNX`
  unfoldable pub set_nx : ℕ → String → A → ℕ → Dict A → Bool × Dict A
  set_nx now key value ttl d =
      if is_live now (find key d) then (false, d) else (true, set now key value ttl d)

  -- `SetXX`
  unfoldable pub set_xx : ℕ → String → A → ℕ → Dict A → Bool × Dict A
  set_xx now key value ttl d =
      if is_live now (find key d) then (true, set now key value ttl d) else (false, d)

  -- `Exists`
  unfoldable pub exists : ℕ → List String → Dict A → ℕ × Dict A
  exists now [] d = (0, d)
  exists now (key ∷ keys) d =
      let (e, d') = get now key d in
      let (n, d'') = exists now keys d' in ((elim e [ none ↦ n | some _ ↦ n + 1 ]), d'')

  -- `Expire`: the entry is changed in place.
  unfoldable pub expire : ℕ → String → ℕ → Dict A → Bool × Dict A
  expire now key ttl d = elim (find key d) [
    | none ↦ (false, d)
    | some e ↦
        if is_expired now e
        then (false, d)
        else (true, set_entry key (record e { expire_at = deadline now ttl }) d)
  ]

-- `Len`: the sizes of the shards from `i` on, `n` of them, added up.
len_from : {A : Type 0} → ℕ → ℕ → Dict A → ℕ
len_from zero i d = 0
len_from (suc n) i d = length (d.shards i) + len_from n (i + 1) d

unfoldable pub len : {A : Type 0} → Dict A → ℕ
unfolding len_from
len d = len_from d.shard_count 0 d

-- The keys of one shard that have not expired and match, in the order of the map. `matches` is
-- `matchPattern` at the pattern, which asks the library's `path.Match`.
keys_of : {A : Type 0} → ℕ → (String → Bool) → Shard A → List String
unfolding is_expired
keys_of now matches [] = []
keys_of now matches ((key, e) ∷ items) =
    let rest = keys_of now matches items in
    if not (is_expired now e) && matches key then key ∷ rest else rest

keys_from : {A : Type 0} → ℕ → (String → Bool) → ℕ → ℕ → Dict A → List String
unfolding keys_of
keys_from now matches zero i d = []
keys_from now matches (suc n) i d =
    keys_of now matches (d.shards i) ++ keys_from now matches n (i + 1) d

-- `Keys`
unfoldable pub keys : {A : Type 0} → ℕ → (String → Bool) → Dict A → List String
unfolding keys_from
keys now matches d = keys_from now matches d.shard_count 0 d

-- `Clear`
unfoldable pub clear : {A : Type 0} → Dict A → Dict A
clear d = record d { shards = λ _. [] }

-- `TTL`, of what `Get` returned: none for -2, the entry not being there or past its time.
pub data Ttl : Type 0 where
  missing forever : Ttl
  remaining : ℕ → Ttl

unfoldable pub ttl : {A : Type 0} → (String → ℕ) → ℕ → String → Dict A → Ttl × Dict A
unfolding get
ttl maphash now key d =
    let (e, d') = get maphash now key d in
    (
      (elim e [
        | none ↦ missing
        | some e ↦ if e.expire_at == 0 then forever else remaining (e.expire_at - now)
      ]),
      d',
    )
