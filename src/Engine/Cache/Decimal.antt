-- ===== src/Engine/Cache/Decimal.antt =====
-- internal/engine/memory/shard.go, internal/engine/memory/store.go: `strconv.FormatInt` and
-- `strconv.ParseInt` of the standard library in base 10 and 64 bits, as the cache uses them. An int64
-- is the uint64 with its bits.
use autocache.Prelude.{
  ℕ, zero, suc, ◌+◌, ◌-◌, ◌*◌, ◌/◌, ◌%◌, ◌^◌, ◌&&◌, Option, none, some, List, [], ◌∷◌, ◌++◌, ltb,
  leb, ◌==◌, if◌then◌else◌,
}

-- The digits of a number, of which there are at most `n` and one.
unfoldable pub digits : ℕ → ℕ → List ℕ
digits zero v = (48 + v) ∷ []
digits (suc n) v =
    let rest = digits n (v / 10) in if ltb v 10 then (48 + v) ∷ [] else rest ++ ((48 + v % 10) ∷ [])

-- An int64 has at most 19 digits. 45 is the minus sign.
unfoldable pub format_int : ℕ → List ℕ
format_int v = if ltb v (2 ^ 63) then digits 18 v else 45 ∷ digits 18 (2 ^ 64 - v)

unfoldable pub parse_digits : ℕ → List ℕ → Option ℕ
parse_digits acc [] = some acc
parse_digits acc (b ∷ bs) =
    let rest = parse_digits (acc * 10 + (b - 48)) bs in if leb 48 b && leb b 57 then rest else none

-- A number of one digit or more.
unfoldable pub parse_nat : List ℕ → Option ℕ
parse_nat [] = none
parse_nat (b ∷ bs) = parse_digits 0 (b ∷ bs)

abbrev pub below : ℕ → Option ℕ → Option ℕ
below n none = none
below n (some v) = if ltb v n then some v else none

abbrev negated : Option ℕ → Option ℕ
negated none = none
negated (some v) = if v == 0 then some 0 else some (2 ^ 64 - v)

-- A sign and digits: from -2 ^ 63 to 2 ^ 63 - 1. 43 is the plus sign.
unfoldable pub parse_int : List ℕ → Option ℕ
parse_int [] = none
parse_int (b ∷ bs) =
    if b == 43
    then below (2 ^ 63) (parse_nat bs)
    else if b == 45
    then negated (below (2 ^ 63 + 1) (parse_nat bs))
    else below (2 ^ 63) (parse_nat (b ∷ bs))
