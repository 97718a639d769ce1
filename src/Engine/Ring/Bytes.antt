-- ===== src/Engine/Ring/Bytes.antt =====
-- internal/engine/memory/ringbuf.go: `copy` to a part of the buffer, and what a part of it holds.
use autocache.Prelude.{
  ℕ, zero, suc, ◌+◌, ◌<◌, ◌≤◌, ◌≡◌, ◌⊎◌, inl, inr, refl, ap, ap₂, ◌∙◌, List, [], ◌∷◌, arith, length,
  update,
}
use autocache.Engine.Ring.{copy_to, slice_of}

pub copy_to-before :
    (limit at i : ℕ) (bs : List ℕ) (d : ℕ → ℕ) → i < at → copy_to limit at bs d i ≡ d i
unfolding copy_to
copy_to-before limit at i [] d h = refl
copy_to-before limit at i (b ∷ bs) d h =
    ground (arith, copy_to-before limit (at + 1) i bs (update d at b) (omega arith))

pub copy_to-after :
    (limit at i : ℕ) (bs : List ℕ) (d : ℕ → ℕ) → at + length bs ≤ i → copy_to limit at bs d i ≡ d i
unfolding copy_to
copy_to-after limit at i [] d h = refl
copy_to-after limit at i (b ∷ bs) d h =
    ground (arith, copy_to-after limit (at + 1) i bs (update d at b) (omega arith))

pub slice_of-ext :
    (f g : ℕ → ℕ) (at n : ℕ)
    → ((i : ℕ) → at ≤ i → i < at + n → f i ≡ g i)
    → slice_of f at n ≡ slice_of g at n
unfolding slice_of
slice_of-ext f g at zero h = refl
slice_of-ext f g at (suc n) h =
    ap₂ (λ b bs. b ∷ bs) (h at (omega arith) (omega arith))
      (slice_of-ext f g (at + 1) n (λ i p q. h i (omega arith) (omega arith)))

copy_to_step :
    (limit at b : ℕ) (bs : List ℕ) (d : ℕ → ℕ)
    → at < limit
    → copy_to limit at (b ∷ bs) d ≡ copy_to limit (at + 1) bs (update d at b)
unfolding copy_to
copy_to_step limit at b bs d h = ground (arith, h)

pub slice_of-copy_to :
    (limit at : ℕ) (bs : List ℕ) (d : ℕ → ℕ)
    → at + length bs ≤ limit
    → slice_of (copy_to limit at bs d) at (length bs) ≡ bs
unfolding slice_of
slice_of-copy_to limit at [] d h = refl
slice_of-copy_to limit at (b ∷ bs) d h =
    ap (λ f. slice_of f at (length (b ∷ bs))) (copy_to_step limit at b bs d (omega arith))
    ∙ ap₂ (λ c cs. c ∷ cs)
        (copy_to-before limit (at + 1) at bs (update d at b) (omega arith) ∙ ground arith)
        (slice_of-copy_to limit (at + 1) bs (update d at b) (omega arith))

-- What is written where the part does not reach leaves the part.
pub slice_of-copy_to_apart :
    (limit at : ℕ) (bs : List ℕ) (d : ℕ → ℕ) (from n : ℕ)
    → (from + n ≤ at) ⊎ (at + length bs ≤ from)
    → slice_of (copy_to limit at bs d) from n ≡ slice_of d from n
slice_of-copy_to_apart limit at bs d from n (inl h) =
    slice_of-ext (copy_to limit at bs d) d from n
      (λ i p q. copy_to-before limit at i bs d (omega arith))
slice_of-copy_to_apart limit at bs d from n (inr h) =
    slice_of-ext (copy_to limit at bs d) d from n
      (λ i p q. copy_to-after limit at i bs d (omega arith))
