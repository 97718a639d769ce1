-- ===== src/Cluster/Hash/Tags.antt =====
-- Hash tags in internal/cluster/hash/crc16.go: which bytes decide the slot of a key.
use autocache.Prelude.{
  ℕ, zero, suc, ◌+◌, ◌%◌, ◌≡◌, ◌≢◌, refl, ap, sym, ◌∙◌, Option-cases, none, some, List, [], ◌∷◌,
  ◌++◌, arith, length, take, drop, All, inl, inr,
}
use autocache.Cluster.Hash.{index_byte, hash_tag, crc16, key_slot, slot_count}

-- No byte of the list is `c`.
abbrev pub Lacks : ℕ → List ℕ → Type 0
Lacks c = All (λ b. b ≢ c)

index_byte-Lacks : (s : List ℕ) (c : ℕ) → Lacks c s → index_byte s c ≡ none
unfolding index_byte
index_byte-Lacks [] c h = refl
index_byte-Lacks (b ∷ s) c h = ground (arith, index_byte-Lacks s c h.1, h.0)

index_byte_first : (s t : List ℕ) (c : ℕ) → Lacks c s → index_byte (s ++ c ∷ t) c ≡ some (length s)
unfolding index_byte
index_byte_first [] t c h = ground arith
index_byte_first (b ∷ s) t c h = ground (arith, index_byte_first s t c h.1, h.0)

drop-length : (s t : List ℕ) (c : ℕ) → drop (length s + 1) (s ++ c ∷ t) ≡ t
drop-length [] t c = refl
drop-length (b ∷ s) t c = ground (arith, drop-length s t c)

take-length : (s t : List ℕ) → take (length s) (s ++ t) ≡ s
take-length [] t = refl
take-length (b ∷ s) t = ap (λ r. b ∷ r) (take-length s t)

hash_tag_found :
    (before tag after : List ℕ)
    → Lacks b'{' before
    → Lacks b'}' tag
    → hash_tag (before ++ b'{' ∷ (tag ++ b'}' ∷ after)) ≡ tag
unfolding hash_tag
hash_tag_found before tag after hb ht = rw (
  index_byte_first before (tag ++ b'}' ∷ after) b'{' hb,
  drop-length before (tag ++ b'}' ∷ after) b'{',
  index_byte_first tag after b'}' ht,
  take-length tag (b'}' ∷ after),
)

Lacks-drop : (n d : ℕ) (s : List ℕ) → Lacks d s → Lacks d (drop n s)
Lacks-drop zero d s h = h
Lacks-drop (suc n) d [] h = tt
Lacks-drop (suc n) d (b ∷ s) h = Lacks-drop n d s h.1

hash_tag_open : (key : List ℕ) → Lacks b'}' key → hash_tag key ≡ key
unfolding hash_tag
hash_tag_open key h = elim (Option-cases (index_byte key b'{')) [
  | inl e ↦ rw e
  | inr (i, e) ↦ rw (e, index_byte-Lacks (drop (i + 1) key) b'}' (Lacks-drop (i + 1) b'}' key h))
]

-- A key whose first `{` is followed by a `}` has the slot of the bytes between that `{` and the
-- next `}`, whatever stands before and after them. This is so for the empty tag `{}` too: its keys
-- have the slot of no bytes, where the comments of the tests ask for that of the whole key.
pub key_slot_tagged :
    (before tag after : List ℕ)
    → Lacks b'{' before
    → Lacks b'}' tag
    → key_slot (before ++ b'{' ∷ (tag ++ b'}' ∷ after)) ≡ key_slot tag
unfolding key_slot
key_slot_tagged before tag after hb ht =
    ap (λ t. crc16 t % slot_count)
      (hash_tag_found before tag after hb ht ∙ sym (hash_tag_open tag ht))
