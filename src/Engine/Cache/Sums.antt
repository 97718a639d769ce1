-- ===== src/Engine/Cache/Sums.antt =====
-- internal/engine/memory/shard.go: a key that is counted up and down by `IncrBy`.
use autocache.Prelude.{
  ℕ, ◌+◌, ◌%◌, ◌^◌, ◌<◌, ◌≡◌, ◌⊎◌, inl, inr, refl, ap, subst, ◌∙◌, true, Option, none, some, List,
  [], ◌∷◌, arith,
}
use autocache.Engine.Cache.{
  Bytes, ZeroGcShard, ShardedCache, get_shard, put_shard, mark_key, encode_inline_int,
  decode_inline_int, is_inline_int, get_in,
}
use autocache.Engine.Cache.Decimal.{format_int}
use autocache.Engine.Cache.Writes.{
  inline, missing, counter_of, incremented, put_counter, incr_by, count_with,
}
use autocache.Engine.Cache.Roundtrip.{Gets, get-in_shard, accessed}

-- The calls one after the other, each with its time and its difference, and what they return.
unfoldable pub incrs : Bytes → List (ℕ × ℕ) → ShardedCache → Option (List (Option ℕ) × ShardedCache)
incrs key [] sc = some ([], sc)
incrs key ((now, d) ∷ ds) sc = elim (incr_by now key d sc) [
  | none ↦ none
  | some (r, sc') ↦ elim (incrs key ds sc') [ none ↦ none | some (rs, sc'') ↦ some (r ∷ rs, sc'') ]
]

-- The sums of the differences, as int64.
unfoldable pub sums : ℕ → List (ℕ × ℕ) → List (Option ℕ)
sums v [] = []
sums v ((_, d) ∷ ds) = some ((v + d) % 2 ^ 64) ∷ sums ((v + d) % 2 ^ 64) ds

unfoldable pub total : ℕ → List (ℕ × ℕ) → ℕ
total v [] = v
total v ((_, d) ∷ ds) = total ((v + d) % 2 ^ 64) ds

-- No sum is negative, and no difference has more than 64 bits.
unfoldable pub StayAbove : ℕ → List (ℕ × ℕ) → Type 0
StayAbove v [] = Unit
StayAbove v ((_, d) ∷ ds) =
    (d < 2 ^ 64) × ((v + d) % 2 ^ 64 < 2 ^ 63) × StayAbove ((v + d) % 2 ^ 64) ds

-- The index has the number under the hash of the key.
abbrev pub Counts : Bytes → ℕ → ShardedCache → Type 0
Counts key v sc =
    (v < 2 ^ 63)
    × ((get_shard sc (sc.maphash key)).index (sc.maphash key) ≡ some (encode_inline_int v))

-- That, or the index has nothing, and the number is 0.
abbrev pub Starts : Bytes → ℕ → ShardedCache → Type 0
Starts key v sc =
    Counts key v sc ⊎ ((v ≡ 0) × ((get_shard sc (sc.maphash key)).index (sc.maphash key) ≡ none))

decode-encode :
    (v : ℕ)
    → v < 2 ^ 63
    → (is_inline_int (encode_inline_int v) ≡ true) × (decode_inline_int (encode_inline_int v) ≡ v)
decode-encode v h = (ground arith, omega (arith, h))

put-Counts :
    (key : Bytes) (v : ℕ) (sh : ZeroGcShard) (sc : ShardedCache)
    → v < 2 ^ 63
    → Counts key v (put_shard (sc.maphash key) (put_counter (sc.maphash key) v sh) sc)
put-Counts key v sh sc h = (h, ground arith)

counter_of-inline :
    (now : ℕ) (key : Bytes) (v hash : ℕ) (sh : ZeroGcShard)
    → sh.index hash ≡ some (encode_inline_int v)
    → v < 2 ^ 63
    → counter_of now key hash sh ≡ inline v
unfolding counter_of
counter_of-inline now key v hash sh e small =
    rw (counter_of, e, (decode-encode v small).0, (decode-encode v small).1) refl

counter_of-missing :
    (now : ℕ) (key : Bytes) (hash : ℕ) (sh : ZeroGcShard)
    → sh.index hash ≡ none
    → counter_of now key hash sh ≡ missing
unfolding counter_of
counter_of-missing now key hash sh e = rw (counter_of, e) refl

incr_by-Counts :
    (now : ℕ) (key : Bytes) (v d : ℕ) (sc : ShardedCache)
    → sc.skip_lfu ≡ true
    → Starts key v sc
    → d < 2 ^ 64
    → (v + d) % 2 ^ 64 < 2 ^ 63
    → (sc' : ShardedCache) × (incr_by now key d sc ≡ some (some ((v + d) % 2 ^ 64), sc'))
      × Counts key ((v + d) % 2 ^ 64) sc'
      × (sc'.skip_lfu ≡ true)
unfolding incr_by counter_of incremented count_with
incr_by-Counts now key v d sc skip (inl (small, e)) hd hs =
    let hash = sc.maphash key in
    let next = (v + d) % 2 ^ 64 in
    let sc' = put_shard hash (put_counter hash next (get_shard sc hash)) sc in
    (
      sc',
      ap (λ c. count_with key c d sc) (counter_of-inline now key v hash (get_shard sc hash) e small)
          ∙ accessed sc (some next, sc') skip,
      put-Counts key next (get_shard sc hash) sc hs,
      skip,
    )
incr_by-Counts now key v d sc skip (inr (z, e)) hd hs =
    let hash = sc.maphash key in
    let sc' = mark_key key true (put_shard hash (put_counter hash d (get_shard sc hash)) sc) in
    subst
      (λ next.
        (sc' : ShardedCache) × (incr_by now key d sc ≡ some (some next, sc'))
        × Counts key next sc'
        × (sc'.skip_lfu ≡ true))
      {x = d} {y = (v + d) % 2 ^ 64} (omega (arith, z, hd))
      (
        sc',
        ap (λ c. count_with key c d sc) (counter_of-missing now key hash (get_shard sc hash) e)
            ∙ accessed sc (some d, sc') skip,
        put-Counts key d (get_shard sc hash) sc (omega (arith, z, hs, hd)),
        skip,
      )

Counts-Gets :
    (later : ℕ) (key : Bytes) (v : ℕ) (sc : ShardedCache)
    → sc.skip_lfu ≡ true
    → Counts key v sc
    → Gets later key (some (format_int v)) sc
unfolding get_in
Counts-Gets later key v sc skip (small, e) =
    get-in_shard later key (format_int v) sc skip
      (rw (get_in, e, (decode-encode v small).0, (decode-encode v small).1) refl)

-- In a cache that keeps no frequencies (`skip_lfu`), a key that is counted from nothing, or on from the
-- number that the index has, through sums that are not negative: each call returns the sum so far, and
-- then `Get` returns the last sum in decimal digits.
pub incrs_lem :
    (later : ℕ) (key : Bytes) (v now d : ℕ) (ds : List (ℕ × ℕ)) (sc : ShardedCache)
    → sc.skip_lfu ≡ true
    → Starts key v sc
    → StayAbove v ((now, d) ∷ ds)
    → (sc' : ShardedCache) × (incrs key ((now, d) ∷ ds) sc ≡ some (sums v ((now, d) ∷ ds), sc'))
      × Gets later key (some (format_int (total v ((now, d) ∷ ds)))) sc'
unfolding incrs sums total StayAbove
incrs_lem later key v now d [] sc skip start (hd, hs, _) =
    let (sc', e, c, skip') = incr_by-Counts now key v d sc skip start hd hs in
    (sc', rw (incrs, e) refl, Counts-Gets later key ((v + d) % 2 ^ 64) sc' skip' c)
incrs_lem later key v now d ((now', d') ∷ ds) sc skip start (hd, hs, rest) =
    let (sc', e, c, skip') = incr_by-Counts now key v d sc skip start hd hs in
    let (sc'', es, g) = incrs_lem later key ((v + d) % 2 ^ 64) now' d' ds sc' skip' (inl c) rest in
    (sc'', rw (incrs, e) (rw es refl), g)
