-- ===== src/Engine/Ring/Write.antt =====
-- internal/engine/memory/ringbuf.go: an entry that was written is read back, and every other byte is
-- as it was.
use autocache.Prelude.{
  ℕ, ◌+◌, ◌<◌, ◌≤◌, ◌≡◌, ◌⊎◌, inl, inr, sym, ap, subst, ◌∙◌, some, List, arith, length, pos,
}
use autocache.Engine.Ring.{
  header_size, EntryHeader, put_uint, marshal, unmarshal, RingBuffer, slice_of, header_at,
  read_header_at, put_entry, read_at,
}
use autocache.Engine.Ring.Codec.{Fits, unmarshal-marshal}
use autocache.Engine.Ring.Bytes.{
  slice_of-copy_to, slice_of-copy_to_apart, copy_to-before, copy_to-after,
}

-- The lengths that the header states are those of the key and the value.
pub record IsHeaderOf (h : EntryHeader) (key value : List ℕ) : Type 0 where
  pub fits : Fits h
  pub key_len : h.key_len ≡ length key
  pub val_len : h.val_len ≡ length value

-- What `ReadAt` returns where the entry lies in the buffer.
read_at_within :
    (rb : RingBuffer) (at : ℕ)
    → at + header_size + (header_at rb at).key_len + (header_at rb at).val_len ≤ rb.capacity
    → read_at (pos at) rb
      ≡ some (
        slice_of rb.bytes (at + header_size) (header_at rb at).key_len,
        slice_of rb.bytes (at + header_size + (header_at rb at).key_len) (header_at rb at).val_len,
        header_at rb at,
      )
unfolding read_at read_header_at
read_at_within rb at room = ground (arith, room)

module _ (rb : RingBuffer) (at : ℕ) (h : EntryHeader) (key value : List ℕ)
    (ok : IsHeaderOf h key value)
    (room : at + header_size + length key + length value ≤ rb.capacity) where
  header_at-put_entry : header_at (put_entry at h key value rb) at ≡ h
  unfolding header_at put_entry marshal put_uint
  header_at-put_entry =
      ap unmarshal (
        slice_of-copy_to_apart rb.capacity (at + header_size + length key) value _ at header_size
          (inl (omega arith))
        ∙ slice_of-copy_to_apart rb.capacity (at + header_size) key _ at header_size
            (inl (omega arith))
        ∙ slice_of-copy_to rb.capacity at (marshal h) rb.bytes (omega arith))
      ∙ (unmarshal-marshal h ok.fits).0

  key-put_entry : slice_of (put_entry at h key value rb).bytes (at + header_size) (length key) ≡ key
  unfolding put_entry
  key-put_entry =
      slice_of-copy_to_apart rb.capacity (at + header_size + length key) value _ (at + header_size)
        (length key) (inl (omega arith))
      ∙ slice_of-copy_to rb.capacity (at + header_size) key _ (omega arith)

  value-put_entry :
      slice_of (put_entry at h key value rb).bytes (at + header_size + length key) (length value)
      ≡ value
  unfolding put_entry
  value-put_entry =
      slice_of-copy_to rb.capacity (at + header_size + length key) value _ (omega arith)

  pub read_at-put_entry : read_at (pos at) (put_entry at h key value rb) ≡ some (key, value, h)
  unfolding put_entry
  read_at-put_entry =
      read_at_within (put_entry at h key value rb) at (
        subst (λ (e : EntryHeader). at + header_size + e.key_len + e.val_len ≤ rb.capacity)
          (sym header_at-put_entry) (omega (arith, ok.key_len, ok.val_len)))
      ∙ cc (header_at-put_entry, key-put_entry, value-put_entry, ok.key_len, ok.val_len)

-- A byte before the entry or after it is as it was.
pub put_entry-bytes :
    (rb : RingBuffer) (at : ℕ) (h : EntryHeader) (key value : List ℕ) (i : ℕ)
    → (i < at) ⊎ (at + header_size + length key + length value ≤ i)
    → (put_entry at h key value rb).bytes i ≡ rb.bytes i
unfolding put_entry marshal put_uint
put_entry-bytes rb at h key value i (inl p) =
    copy_to-before rb.capacity (at + header_size + length key) i value _ (omega arith)
    ∙ copy_to-before rb.capacity (at + header_size) i key _ (omega arith)
    ∙ copy_to-before rb.capacity at i (marshal h) rb.bytes p
put_entry-bytes rb at h key value i (inr p) =
    copy_to-after rb.capacity (at + header_size + length key) i value _ (omega arith)
    ∙ copy_to-after rb.capacity (at + header_size) i key _ (omega arith)
    ∙ copy_to-after rb.capacity at i (marshal h) rb.bytes (omega arith)
