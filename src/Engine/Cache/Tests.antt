-- ===== src/Engine/Cache/Tests.antt =====
-- internal/engine/memory/shard.go on a small cache.
use autocache.Prelude.{
  ℕ, ◌+◌, ◌-◌, ◌^◌, ◌≡◌, inr, refl, true, false, none, some, List, [], ◌∷◌, arith, length, pos,
}
use autocache.Engine.Ring.{RingBuffer, read_at, write_with_evict}
use autocache.Engine.Cache.{
  Bytes, ShardedCache, get, get_in, set, look, append_in, encode_inline_int,
}
use autocache.Engine.Cache.Decimal.{format_int, parse_int}
use autocache.Engine.Cache.Numbers.{parse_int-format_int}
use autocache.Engine.Cache.Writes.{
  incr_by, count_with, counter_of, incremented, set_nx, is_taken, done, not_set, expire, entry_of,
}
use autocache.Engine.Cache.Roundtrip.{CanStore, Gets, set-get}
use autocache.Engine.Cache.Sums.{incrs, sums, total, Starts, StayAbove, incrs_lem}

abbrev small_ring : RingBuffer
small_ring = record {
  bytes = λ i. 0;
  capacity = 200;
  tail = 0;
  head = 0;
  used = pos 0;
  write_count = 0;
  evict_count = 0;
}

-- Two shards; the hash of a key is its length and 5.
abbrev cache : ShardedCache
cache = record {
  shards = λ i. record { index = λ h. none; ring = small_ring };
  shard_count = 2;
  skip_lfu = true;
  maphash = λ k. length k + 5;
  slot_func = some length;
  slot_index = λ slot k. false;
}

abbrev a_key : Bytes
a_key = 97 ∷ []

abbrev a_value : Bytes
a_value = 1 ∷ 2 ∷ 3 ∷ []

-- The key holds the number 5.
abbrev counted : ShardedCache
counted = record cache {
  shards = λ i. record { index = λ h. some (encode_inline_int 5); ring = small_ring };
}

can_store : CanStore counted a_key a_value
can_store = record {
  hash = omega arith;
  key = omega arith;
  value = omega arith;
  fits = omega arith;
  capacity = omega arith;
  within = λ raw e lt. ground (arith, e, lt);
}

set-get_example :
    (sc' : ShardedCache) × (set 100 a_key a_value 10 counted ≡ some (true, sc'))
    × Gets 110 a_key (some a_value) sc'
set-get_example =
    set-get 100 110 a_key a_value 10 counted refl can_store (omega arith) (inr (omega arith))

parse_int-format_int_example : parse_int (format_int 1234) ≡ some 1234
parse_int-format_int_example = parse_int-format_int 1234 (omega arith)

-- From nothing up by 7, and down by 2.
abbrev differences : List (ℕ × ℕ)
differences = (100, 7) ∷ (101, 2 ^ 64 - 2) ∷ []

starts : Starts a_key 0 cache
starts = inr (refl, refl)

stays : StayAbove 0 differences
unfolding StayAbove
stays = (omega arith, omega arith, (omega arith, omega arith, tt))

incrs_lem_example :
    (sc' : ShardedCache) × (incrs a_key differences cache ≡ some (sums 0 differences, sc'))
    × Gets 200 a_key (some (format_int (total 0 differences))) sc'
incrs_lem_example = incrs_lem 200 a_key 0 100 7 ((101, 2 ^ 64 - 2) ∷ []) cache refl starts stays

-- From nothing down by 1, to a negative number, which the index keeps without its sign.
below_zero :
    elim (incrs a_key ((100, 2 ^ 64 - 1) ∷ (101, 0) ∷ []) cache) [ none ↦ [] | some (rs, _) ↦ rs ]
    ≡ some (2 ^ 64 - 1) ∷ some (2 ^ 63 - 1) ∷ []
unfolding incrs incr_by count_with counter_of incremented
below_zero = refl

-- `SetNX` writes over a number, and `Expire` does not find it.
number_overwritten :
    elim (set_nx 100 a_key a_value 0 counted) [ none ↦ not_set | some (o, _) ↦ o ] ≡ done
unfolding set_nx is_taken append_in read_at write_with_evict
number_overwritten = refl

number_not_found : (expire 100 a_key 10 counted).0 ≡ false
unfolding expire entry_of look read_at
number_not_found = refl

-- With the frequencies kept, a call that finds its key never returns.
no_return : get 100 a_key (record counted { skip_lfu = false }) ≡ none
unfolding get get_in
no_return = refl
