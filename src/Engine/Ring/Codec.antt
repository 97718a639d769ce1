-- ===== src/Engine/Ring/Codec.antt =====
-- internal/engine/memory/ringbuf.go: the bytes of a header and of an entry, written and read back.
use native.Mathlib.Nat.{pow-suc}
use autocache.Prelude.{ℕ, zero, suc, ◌/◌, ◌^◌, ◌<◌, ◌≡◌, refl, arith, length}
use autocache.Engine.Ring.{header_size, EntryHeader, put_uint, get_uint, marshal, unmarshal}

get_uint-put_uint : (n v : ℕ) → v < 256 ^ n → get_uint (put_uint n v) ≡ v
unfolding get_uint put_uint
get_uint-put_uint zero v h = omega arith
get_uint-put_uint (suc n) v h =
    omega (arith, get_uint-put_uint n (v / 256) (omega (arith, pow-suc 256 n)))

-- Every field fits its width.
pub record Fits (h : EntryHeader) : Type 0 where
  pub expire_at : h.expire_at < 2 ^ 64
  pub hash64 : h.hash64 < 2 ^ 64
  pub key_len : h.key_len < 2 ^ 16
  pub val_len : h.val_len < 2 ^ 16
  pub val_cap : h.val_cap < 2 ^ 16
  pub flags : h.flags < 2 ^ 16

-- A header whose fields fit their widths is read back as it was written, and takes 24 bytes.
pub unmarshal-marshal :
    (h : EntryHeader) → Fits h → (unmarshal (marshal h) ≡ h) × (length (marshal h) ≡ header_size)
unfolding unmarshal marshal put_uint
unmarshal-marshal h f = (
  cc (
    get_uint-put_uint 8 h.expire_at f.expire_at,
    get_uint-put_uint 8 h.hash64 f.hash64,
    get_uint-put_uint 2 h.key_len f.key_len,
    get_uint-put_uint 2 h.val_len f.val_len,
    get_uint-put_uint 2 h.val_cap f.val_cap,
    get_uint-put_uint 2 h.flags f.flags,
  ),
  refl,
)
