-- ===== src/Engine/Cache/Holds.antt =====
-- internal/engine/memory/shard.go: what `Get` finds after `Set`.
use autocache.Prelude.{
  ℕ, ◌+◌, ◌^◌, ◌<◌, ◌≤◌, ◌≡◌, ◌≢◌, ◌⊎◌, inl, inr, refl, sym, subst, Bool, true, false, ◌||◌, none,
  some, [], ◌∷◌, arith, length, ltb, if◌then◌else◌, update, pos, if_keeps_on, Option-cases,
}
use autocache.Engine.Ring.{
  header_size, EntryHeader, RingBuffer, header_at, header_entry_size, read_at, update_in_place,
  read_header_at,
}
use autocache.Engine.Ring.Write.{IsHeaderOf, read_at-put_entry}
use autocache.Engine.Ring.Stored.{write_with_evict_lem}
use autocache.Engine.Cache.{
  Bytes, bytes_eq, ZeroGcShard, offset_of, is_inline_int, is_over, look, found, get_in,
  drop_evicted, append_in, set_in, kept_of, too_large, in_place, Kept,
}

bytes_eq_refl : (k : Bytes) → bytes_eq k k ≡ true
unfolding bytes_eq
bytes_eq_refl [] = refl
bytes_eq_refl (b ∷ bs) = ground (arith, bytes_eq_refl bs)

offset_of-small : (raw : ℕ) → raw < 2 ^ 63 → offset_of raw ≡ pos raw
offset_of-small raw h = ground (arith, h)

is_inline_int-small : (raw : ℕ) → raw < 2 ^ 63 → is_inline_int raw ≡ false
is_inline_int-small raw h = ground (arith, h)

-- The index has an offset at which the entry lies.
pub Holds : ℕ → Bytes → Bytes → EntryHeader → ZeroGcShard → Type 0
Holds hash key value h sh =
    (raw : ℕ) × (sh.index hash ≡ some raw)
    × (raw < 2 ^ 63)
    × (read_at (pos raw) sh.ring ≡ some (key, value, h))

look-found :
    (now : ℕ) (key value : Bytes) (h : EntryHeader) (raw : ℕ) (ring : RingBuffer)
    → raw < 2 ^ 63
    → read_at (pos raw) ring ≡ some (key, value, h)
    → is_over now h ≡ false
    → look now key raw ring ≡ found value h
unfolding look
look-found now key value h raw ring small e fresh =
    rw (look, offset_of-small raw small, e, bytes_eq_refl key, fresh)

pub get_in-Holds :
    (now hash : ℕ) (key value : Bytes) (h : EntryHeader) (sh : ZeroGcShard)
    → Holds hash key value h sh
    → is_over now h ≡ false
    → get_in now key hash sh ≡ (some value, sh)
unfolding get_in Holds
get_in-Holds now hash key value h sh (raw, e, small, r) fresh =
    rw (
      get_in,
      e,
      is_inline_int-small raw small,
      look-found now key value h raw sh.ring small r fresh,
    )

update-same : {A : Type 0} (f : ℕ → A) (i : ℕ) (v : A) → update f i v i ≡ v
update-same f i v = ground arith

pub append_in-Holds :
    (hash : ℕ) (h : EntryHeader) (key value : Bytes) (sh : ZeroGcShard)
    → IsHeaderOf h key value
    → header_size + length key + length value ≤ sh.ring.capacity
    → sh.ring.capacity ≤ 2 ^ 63
    → ((append_in hash h key value sh).0 ≡ true)
      × Holds hash key value h (append_in hash h key value sh).1
unfolding append_in Holds
append_in-Holds hash h key value sh ok fits small =
    let (at, ev, e, room, back, frame) = write_with_evict_lem h key value sh.ring ok fits in
    rw (append_in, e)
      (refl, (at, update-same (drop_evicted ev sh.index) hash (some at), omega (arith, room), back))

-- What the index has under the hash is a number, or an entry that lies in the buffer.
abbrev pub IsWithin : ℕ → ZeroGcShard → Type 0
IsWithin hash sh =
    (raw : ℕ)
    → sh.index hash ≡ some raw
    → raw < 2 ^ 63
    → raw + header_entry_size (header_at sh.ring raw) ≤ sh.ring.capacity

-- An entry that is written in the place of a larger one is read back, and one that is not leaves the
-- buffer as it was.
Updates : ℕ → EntryHeader → Bytes → Bytes → RingBuffer → Bool × RingBuffer → Type 0
Updates raw h key value ring r =
    ((r.0 ≡ true) × (read_at (pos raw) r.1 ≡ some (key, value, h))) ⊎ ((r.0 ≡ false) × (r.1 ≡ ring))

update_in_place-Updates :
    (raw : ℕ) (h : EntryHeader) (key value : Bytes) (ring : RingBuffer)
    → IsHeaderOf h key value
    → raw + header_entry_size (header_at ring raw) ≤ ring.capacity
    → Updates raw h key value ring (update_in_place (pos raw) h key value ring)
unfolding update_in_place Updates read_at read_header_at header_at
update_in_place-Updates raw h key value ring ok within =
    if_keeps_on (Updates raw h key value ring)
      (ltb ring.capacity (raw + header_size)
        || ltb (header_entry_size (header_at ring raw)) (header_size + length key + length value))
      (λ _. inr (refl, refl))
      (λ e. inl (refl, read_at-put_entry ring raw h key value ok (ground (arith, e, within))))

module _ (hash : ℕ) (h : EntryHeader) (key value : Bytes) (sh : ZeroGcShard)
    (ok : IsHeaderOf h key value)
    (fits : header_size + length key + length value ≤ sh.ring.capacity)
    (small : sh.ring.capacity ≤ 2 ^ 63) where
  abbrev pub Sets : Kept × ZeroGcShard → Type 0
  Sets (k, sh') = (k ≢ too_large) × Holds hash key value h sh'

  appended-Sets :
      (sh' : ZeroGcShard) → sh'.ring ≡ sh.ring → Sets (kept_of (append_in hash h key value sh'))
  appended-Sets sh' e =
      let (b, holds) =
        append_in-Holds hash h key value sh' ok
          (subst (λ (r : RingBuffer). header_size + length key + length value ≤ r.capacity) (sym e)
            fits)
          (subst (λ (r : RingBuffer). r.capacity ≤ 2 ^ 63) (sym e) small) in
      ((λ q. ground (arith, b, q)), holds)

  in_place-Sets :
      (raw : ℕ)
      → sh.index hash ≡ some raw
      → raw < 2 ^ 63
      → (r : Bool × RingBuffer) → Updates raw h key value sh.ring r
      → Sets (
          if r.0
          then (in_place, record sh { ring = r.1 })
          else kept_of (append_in hash h key value (record sh { ring = r.1 })))
  unfolding Updates Holds
  in_place-Sets raw e lt r (inl (b, back)) = rw b ((λ q. ground (arith, q)), (raw, e, lt, back))
  in_place-Sets raw e lt r (inr (b, same)) = rw b (appended-Sets (record sh { ring = r.1 }) same)

  pub set_in-Sets : IsWithin hash sh → Sets (set_in hash h key value sh)
  unfolding set_in
  set_in-Sets within = elim (Option-cases (sh.index hash)) [
    | inl e ↦ rw (set_in, e) (appended-Sets sh refl)
    | inr (raw, e) ↦
        rw (set_in, e)
          (if_keeps_on Sets (is_inline_int raw)
            (λ _. appended-Sets (record sh { index = update sh.index hash none }) refl)
            (λ q. rw (offset_of-small raw (ground (arith, q))) (
              in_place-Sets raw e (ground (arith, q))
                (update_in_place (pos raw) h key value sh.ring)
                (update_in_place-Updates raw h key value sh.ring ok
                  (within raw e (ground (arith, q)))))))
  ]
