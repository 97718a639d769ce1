-- ===== src/Engine/Dict/Len.antt =====
-- internal/engine/memory/dict.go: the number of keys under the writes that change one shard.
use autocache.Prelude.{
  ℕ, zero, suc, ◌+◌, ◌%◌, ◌<◌, ◌≡◌, refl, ap, sym, ◌∙◌, ◌^◌, String, Option, none, some, arith,
  length, leb, ltb, ◌&&◌, if◌then◌else◌, update, insert, erase, is_some, length-insert,
  length-erase,
}
use autocache.Engine.Dict.{
  Entry, Dict, Shard, shard_of, get_shard, put_shard, find, set_entry, del_key, len_from, len,
}

-- The keys of the loop's range, when shard `i` is replaced.
len_from-update :
    {A : Type 0} (n i j : ℕ) (items : Shard A) (d : Dict A)
    → len_from n j (record d { shards = update d.shards i items })
        + (if leb j i && ltb i (j + n) then length (d.shards i) else 0)
      ≡ len_from n j d + (if leb j i && ltb i (j + n) then length items else 0)
unfolding len_from
len_from-update zero i j items d = ground arith
len_from-update (suc n) i j items d = ground (
  arith,
  len_from-update n i (j + 1) items d,
  ap (λ (k : ℕ). length (d.shards k)) {x = i} {y = j},
)

-- How many keys an entry, or none, stands for.
abbrev pub present : {A : Type 0} → Option (Entry A) → ℕ
present none = 0
present (some _) = 1

module _ (maphash : String → ℕ) {A : Type 0} where
  len-put_shard :
      (key : String) (items : Shard A) (d : Dict A)
      → 0 < d.shard_count
      → len (put_shard maphash key items d) + length (get_shard maphash key d)
        ≡ len d + length items
  unfolding len
  len-put_shard key items d h =
      in_range (shard_of maphash key d) (mod-lt (maphash key % 2 ^ 64) d.shard_count h)
    where
      in_range :
          (i : ℕ)
          → i < d.shard_count
          → len_from d.shard_count 0 (record d { shards = update d.shards i items })
              + length (d.shards i)
            ≡ len_from d.shard_count 0 d + length items
      in_range i lt = ground (arith, len_from-update d.shard_count i 0 items d, lt)

      mod-lt : (a n : ℕ) → 0 < n → a % n < n
      mod-lt a n p = grind arith

  pub len-set_entry :
      (key : String) (e : Entry A) (d : Dict A)
      → 0 < d.shard_count
      → len (set_entry maphash key e d) + present (find maphash key d) ≡ len d + 1
  unfolding set_entry
  len-set_entry key e d h = by (find maphash key d) refl
    where
      size :
          (o : Option (Entry A))
          → find maphash key d ≡ o
          → length (insert key e (get_shard maphash key d))
            ≡ length (get_shard maphash key d) + (if is_some o then 0 else 1)
      size o q =
          length-insert key e (get_shard maphash key d)
          ∙ ap (λ p. length (get_shard maphash key d) + (if is_some p then 0 else 1)) q

      by :
          (o : Option (Entry A))
          → find maphash key d ≡ o
          → len (put_shard maphash key (insert key e (get_shard maphash key d)) d) + present o
            ≡ len d + 1
      by none q =
          omega (arith, len-put_shard key (insert key e (get_shard maphash key d)) d h, size none q)
      by (some x) q =
          omega
            (arith, len-put_shard key (insert key e (get_shard maphash key d)) d h, size (some x) q)

  pub len-del_key :
      (key : String) (d : Dict A)
      → 0 < d.shard_count
      → len (del_key maphash key d).1 + present (find maphash key d) ≡ len d
  unfolding del_key
  len-del_key key d h = by (find maphash key d) refl
    where
      by :
          (o : Option (Entry A))
          → find maphash key d ≡ o
          → len
                (elim o as (λ _. ℕ × Dict A) [
                  | none ↦ (0, d)
                  | some _ ↦ (1, put_shard maphash key (erase key (get_shard maphash key d)) d)
                ]).1
              + present o
            ≡ len d
      by none q = omega arith
      by (some x) q =
          omega (arith, len-put_shard key (erase key (get_shard maphash key d)) d h, size)
        where
          size : length (erase key (get_shard maphash key d)) + 1 ≡ length (get_shard maphash key d)
          size =
              ap (λ p. length (erase key (get_shard maphash key d)) + (if is_some p then 1 else 0))
                (sym q)
              ∙ length-erase key (get_shard maphash key d)
