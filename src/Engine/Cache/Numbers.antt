-- ===== src/Engine/Cache/Numbers.antt =====
-- internal/engine/memory/shard.go: the numbers that `IncrBy` and `Get` read and print.
use native.Mathlib.Nat.{pow-suc}
use autocache.Prelude.{
  ℕ, zero, suc, ◌+◌, ◌-◌, ◌*◌, ◌/◌, ◌%◌, ◌^◌, ◌<◌, ◌≤◌, ◌≡◌, refl, sym, ap, subst, ◌∙◌, false, some,
  List, [], ◌∷◌, ◌++◌, ltb, ◌==◌, arith, if_keeps_on, ltb→lt, lt→ltb,
}
use autocache.Engine.Cache.Decimal.{digits, format_int, parse_digits, parse_nat, parse_int}

-- A digit more at the end.
parse_digits-snoc :
    (acc : ℕ) (xs : List ℕ) (m d : ℕ)
    → d < 10
    → parse_digits acc xs ≡ some m
    → parse_digits acc (xs ++ (48 + d) ∷ []) ≡ some (m * 10 + d)
unfolding parse_digits
parse_digits-snoc acc [] m d h e = ground (arith, h, e)
parse_digits-snoc acc (b ∷ bs) m d h e =
    ground (arith, h, e, parse_digits-snoc (acc * 10 + (b - 48)) bs m d h)

parse_digit : (v : ℕ) → v < 10 → parse_digits 0 ((48 + v) ∷ []) ≡ some v
unfolding parse_digits
parse_digit v h = ground (arith, h)

digits-parse : (n v : ℕ) → v < 10 ^ suc n → parse_digits 0 (digits n v) ≡ some v
unfolding digits
digits-parse zero v h = parse_digit v h
digits-parse (suc n) v h =
    if_keeps_on (λ xs. parse_digits 0 xs ≡ some v) (ltb v 10) (λ e. parse_digit v (ltb→lt v 10 e))
      (λ e.
        parse_digits-snoc 0 (digits n (v / 10)) (v / 10) (v % 10) (omega arith)
          (digits-parse n (v / 10) (omega (arith, pow-suc 10 (suc n))))
        ∙ ap some (omega arith))

-- What starts with a digit.
IsNumeral : List ℕ → Type 0
IsNumeral xs = (b : ℕ) × (bs : List ℕ) × (xs ≡ b ∷ bs) × (48 ≤ b)

snoc-IsNumeral : (xs : List ℕ) (d : ℕ) → IsNumeral xs → IsNumeral (xs ++ d ∷ [])
unfolding IsNumeral
snoc-IsNumeral xs d (b, bs, e, h) = (b, bs ++ d ∷ [], ap (λ ys. ys ++ d ∷ []) e, h)

digits-IsNumeral : (n v : ℕ) → IsNumeral (digits n v)
unfolding digits IsNumeral
digits-IsNumeral zero v = (48 + v, [], refl, omega arith)
digits-IsNumeral (suc n) v =
    if_keeps_on IsNumeral (ltb v 10) (λ _. (48 + v, [], refl, omega arith))
      (λ _. snoc-IsNumeral (digits n (v / 10)) (48 + v % 10) (digits-IsNumeral n (v / 10)))

not_sign : (b s : ℕ) → s < b → (b == s) ≡ false
not_sign b s h = ground (arith, h)

parse_int-numeral :
    (xs : List ℕ) (v : ℕ)
    → IsNumeral xs
    → parse_digits 0 xs ≡ some v
    → v < 2 ^ 63
    → parse_int xs ≡ some v
unfolding parse_int parse_nat IsNumeral
parse_int-numeral xs v (b, bs, e, h) p lt =
    subst (λ ys. parse_int ys ≡ some v) (sym e) rw
      (
        not_sign b 43 (omega (arith, h)),
        not_sign b 45 (omega (arith, h)),
        subst (λ ys. parse_digits 0 ys ≡ some v) e p,
        lt→ltb v (2 ^ 63) lt,
      )

-- A number that is not negative is read back from its decimal digits.
pub parse_int-format_int : (v : ℕ) → v < 2 ^ 63 → parse_int (format_int v) ≡ some v
unfolding format_int
parse_int-format_int v h =
    if_keeps_on (λ xs. parse_int xs ≡ some v) (ltb v (2 ^ 63))
      (λ _.
        parse_int-numeral (digits 18 v) v (digits-IsNumeral 18 v) (digits-parse 18 v (omega arith))
          h)
      (λ e. ground (arith, e, h))
