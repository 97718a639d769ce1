-- ===== src/Protocol/Payload.antt =====
-- internal/protocol/handler.go: the arguments of a command as the payload of a replicated operation.
use autocache.Prelude.{
  ℕ, ◌<◌, ◌≡◌, refl, ap, ◌∙◌, false, List, [], ◌∷◌, ◌++◌, arith, ◌==◌, if◌then◌else◌, All,
}
use autocache.Protocol.Execute.{Bytes}

-- `strings.Join(parts, "\x00")`
unfoldable pub join : List Bytes → Bytes
join [] = []
join (a ∷ []) = a
join (a ∷ b ∷ rest) = a ++ 0 ∷ join (b ∷ rest)

-- `encodeReplicationPayload`
unfoldable pub encode_replication_payload : List Bytes → Bytes
unfolding join
encode_replication_payload args = join args

abbrev pub extend : ℕ → List Bytes → List Bytes
extend b [] = (b ∷ []) ∷ []
extend b (part ∷ parts) = (b ∷ part) ∷ parts

-- `bytes.Split(payload, []byte{0})`
unfoldable pub split_zero : Bytes → List Bytes
split_zero [] = [] ∷ []
split_zero (b ∷ bs) = let rest = split_zero bs in if b == 0 then [] ∷ rest else extend b rest

-- `decodeReplicationPayload`
unfoldable pub decode_replication_payload : Bytes → List Bytes
unfolding split_zero
decode_replication_payload [] = []
decode_replication_payload (b ∷ bs) = split_zero (b ∷ bs)

-- No byte is 0.
abbrev pub IsText : Bytes → Type 0
IsText = All (λ b. 0 < b)

split_zero-text : (a : Bytes) → IsText a → split_zero a ≡ a ∷ []
unfolding split_zero
split_zero-text [] h = refl
split_zero-text (b ∷ bs) (p, h) = rw (not_zero p, split_zero-text bs h) refl
  where
    not_zero : 0 < b → (b == 0) ≡ false
    not_zero p = ground (arith, p)

split_zero-append : (a rest : Bytes) → IsText a → split_zero (a ++ 0 ∷ rest) ≡ a ∷ split_zero rest
unfolding split_zero
split_zero-append [] rest h = refl
split_zero-append (b ∷ bs) rest (p, h) = rw (not_zero p, split_zero-append bs rest h) refl
  where
    not_zero : 0 < b → (b == 0) ≡ false
    not_zero p = ground (arith, p)

split_zero-join :
    (a : Bytes) (args : List Bytes)
    → All IsText (a ∷ args)
    → split_zero (join (a ∷ args)) ≡ a ∷ args
unfolding join
split_zero-join a [] (h, _) = split_zero-text a h
split_zero-join a (b ∷ rest) (h, hs) =
    split_zero-append a (join (b ∷ rest)) h ∙ ap (λ parts. a ∷ parts) (split_zero-join b rest hs)

-- Arguments without a zero byte, of which the first is not empty, are read back from the payload.
pub decode-encode :
    (b : ℕ) (a : Bytes) (args : List Bytes)
    → All IsText ((b ∷ a) ∷ args)
    → decode_replication_payload (encode_replication_payload ((b ∷ a) ∷ args)) ≡ (b ∷ a) ∷ args
unfolding decode_replication_payload encode_replication_payload join
decode-encode b a [] h = split_zero-join (b ∷ a) [] h
decode-encode b a (c ∷ rest) h = split_zero-join (b ∷ a) (c ∷ rest) h
