-- ===== src/Money.antt =====
-- util.cpp: FormatMoney and ParseMoney, on strings of character codes. The amounts COIN and CENT of
-- util.h, which is not in the repository, are the parameters `coin` and `cent`.
pub mod Digits
pub mod Trim
pub mod RoundTrip
use tri_tip.Prelude.{◌>>=◌}
use mathlib.Core.Bool.{◌&&◌, ◌||◌, Bool, false, not, true}
use tri_tip.Prelude.{
  ap, arith, Bool-cases, drop, get_or, if◌then◌else◌, inl, inr, leb, length, length-append, List,
  lt→ltb, ltb, ltb→lt, map, none, Option, Option-cases, refl, set, length-set, some, suc, sym, take,
  zero, ℕ, ◌%◌, ◌*◌, ◌++◌, ◌+◌, ◌-◌, ◌/◌, ◌<◌, ◌==◌, ◌≡◌, ◌^◌, ◌∙◌, ◌∷◌, ◌≢◌, ◌≤◌, ◌⊎◌, [],
  replicate,
}
use tri_tip.Prelude.Int.{ℤ, pos, negsuc}
use tri_tip.Hex.{is_space}
use Prim.Native.Nat.{◌^◌}

unfoldable pub is_digit : ℕ → Bool
is_digit c = leb 48 c && leb c 57

-- A number in decimal, of at most `fuel` digits; a number of 64 bits has no more than 20.
unfoldable pub decimal : ℕ → ℕ → List ℕ
decimal zero n = []
decimal (suc fuel) n =
    let high = decimal fuel (n / 10) in
    if ltb n 10 then (48 + n) ∷ [] else high ++ (48 + n % 10) ∷ []

-- Eight digits, with zeros in front
unfoldable pub padded : ℕ → ℕ → List ℕ
padded zero n = []
padded (suc k) n = (48 + n / 10 ^ k % 10) ∷ padded k n

-- The number of characters to trim, from the end; the argument has the string's end first. The loop reads
-- two places before a zero.
unfoldable pub trim_count : List ℕ → ℕ
unfolding is_digit
trim_count [] = 0
trim_count (c ∷ cs) =
    let rest = trim_count cs in if c == 48 && is_digit (get_or cs 1 0) then suc rest else 0

unfoldable pub reversed : List ℕ → List ℕ
reversed [] = []
reversed (c ∷ cs) = reversed cs ++ c ∷ []

-- FormatMoney of the absolute value. (Of the least number of 64 bits the code has none.)
unfoldable pub format_amount : ℕ → ℕ → List ℕ
unfolding decimal padded trim_count reversed
format_amount coin n =
    let str = decimal 20 (n / coin) ++ 46 ∷ padded 8 (n % coin) in
    take (length str - trim_count (reversed str)) str

unfoldable pub format_money : ℕ → ℤ → Bool → List ℕ
unfolding format_amount
format_money coin (pos n) plus =
    if plus && ltb 0 n then 43 ∷ format_amount coin n else format_amount coin n
format_money coin (negsuc n) plus = 45 ∷ format_amount coin (suc n)

-- The loop over the digits behind the point: the units and what is left of the string
unfoldable pub parse_fraction : ℕ → ℕ → List ℕ → ℕ × List ℕ
unfolding is_digit
parse_fraction mult units [] = (units, [])
parse_fraction mult units (c ∷ p) =
    let rest = parse_fraction (mult / 10) (units + mult * (c - 48)) p in
    if is_digit c && ltb 0 mult then rest else (units, c ∷ p)

-- The loop over the string; `whole` are the digits before the point.
unfoldable pub parse_whole : ℕ → List ℕ → List ℕ → Option (List ℕ × ℕ × List ℕ)
unfolding parse_fraction is_space is_digit
parse_whole cent whole [] = some (whole, 0, [])
parse_whole cent whole (c ∷ p) =
    let rest = parse_whole cent (whole ++ c ∷ []) p in
    let fraction = parse_fraction (cent * 10) 0 p in
    if c == 46
    then some (whole, fraction.0, fraction.1)
    else if is_space c
    then some (whole, 0, c ∷ p)
    else if not (is_digit c)
    then none
    else rest

unfoldable pub skip_spaces : List ℕ → List ℕ
unfolding is_space
skip_spaces [] = []
skip_spaces (c ∷ p) = let rest = skip_spaces p in if is_space c then rest else c ∷ p

-- `atoi64` of a string of digits
unfoldable pub atoi64 : ℕ → List ℕ → ℕ
atoi64 n [] = n
atoi64 n (c ∷ cs) = atoi64 (n * 10 + (c - 48)) cs

unfoldable pub money_of : ℕ → List ℕ × ℕ × List ℕ → Option ℕ
unfolding skip_spaces atoi64
money_of coin (whole, units, rest) =
    if ltb 0 (length (skip_spaces rest))
    then none
    else if ltb 10 (length whole)
    then none
    else if ltb coin units
    then none
    else some (atoi64 0 whole * coin + units)

unfoldable pub parse_money : ℕ → ℕ → List ℕ → Option ℕ
unfolding parse_whole money_of
parse_money coin cent str = parse_whole cent [] (skip_spaces str) >>= money_of coin
