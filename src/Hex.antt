-- ===== src/Hex.antt =====
-- util.cpp: IsHex and ParseHex, on the characters of a string up to its zero. `isspace` is that of the
-- C locale.
pub mod RoundTrip
use mathlib.Core.Bool.{◌&&◌, ◌||◌, Bool, false, not, true}
use tri_tip.Prelude.{
  ap, arith, Bool-cases, drop, get_or, if◌then◌else◌, inl, inr, leb, length, length-append, List,
  lt→ltb, ltb, ltb→lt, map, none, Option, Option-cases, refl, set, length-set, some, suc, sym, take,
  zero, ℕ, ◌%◌, ◌*◌, ◌++◌, ◌+◌, ◌-◌, ◌/◌, ◌<◌, ◌==◌, ◌≡◌, ◌^◌, ◌∙◌, ◌∷◌, ◌≢◌, ◌≤◌, ◌⊎◌, [],
  replicate,
}

-- phexdigit, with 16 in place of -1
abbrev pub digits : List ℕ
digits =
    16 ∷ 16 ∷ 16 ∷ 16 ∷ 16 ∷ 16 ∷ 16 ∷ 16 ∷ 16 ∷ 16 ∷ 16 ∷ 16 ∷ 16 ∷ 16 ∷ 16 ∷ 16 ∷ 16 ∷ 16 ∷ 16
    ∷ 16 ∷ 16 ∷ 16 ∷ 16 ∷ 16 ∷ 16 ∷ 16 ∷ 16 ∷ 16 ∷ 16 ∷ 16 ∷ 16 ∷ 16 ∷ 16 ∷ 16 ∷ 16 ∷ 16 ∷ 16 ∷ 16
    ∷ 16 ∷ 16 ∷ 16 ∷ 16 ∷ 16 ∷ 16 ∷ 16 ∷ 16 ∷ 16 ∷ 16 ∷ 0 ∷ 1 ∷ 2 ∷ 3 ∷ 4 ∷ 5 ∷ 6 ∷ 7 ∷ 8 ∷ 9 ∷ 16
    ∷ 16 ∷ 16 ∷ 16 ∷ 16 ∷ 16 ∷ 16 ∷ 10 ∷ 11 ∷ 12 ∷ 13 ∷ 14 ∷ 15 ∷ 16 ∷ 16 ∷ 16 ∷ 16 ∷ 16 ∷ 16 ∷ 16
    ∷ 16 ∷ 16 ∷ 16 ∷ 16 ∷ 16 ∷ 16 ∷ 16 ∷ 16 ∷ 16 ∷ 16 ∷ 16 ∷ 16 ∷ 16 ∷ 16 ∷ 16 ∷ 16 ∷ 16 ∷ 16 ∷ 16
    ∷ 10 ∷ 11 ∷ 12 ∷ 13 ∷ 14 ∷ 15 ∷ 16 ∷ 16 ∷ 16 ∷ 16 ∷ 16 ∷ 16 ∷ 16 ∷ 16 ∷ 16 ∷ 16 ∷ 16 ∷ 16 ∷ 16
    ∷ 16 ∷ 16 ∷ 16 ∷ 16 ∷ 16 ∷ 16 ∷ 16 ∷ 16 ∷ 16 ∷ 16 ∷ 16 ∷ 16 ∷ 16 ∷ 16 ∷ 16 ∷ 16 ∷ 16 ∷ 16 ∷ 16
    ∷ 16 ∷ 16 ∷ 16 ∷ 16 ∷ 16 ∷ 16 ∷ 16 ∷ 16 ∷ 16 ∷ 16 ∷ 16 ∷ 16 ∷ 16 ∷ 16 ∷ 16 ∷ 16 ∷ 16 ∷ 16 ∷ 16
    ∷ 16 ∷ 16 ∷ 16 ∷ 16 ∷ 16 ∷ 16 ∷ 16 ∷ 16 ∷ 16 ∷ 16 ∷ 16 ∷ 16 ∷ 16 ∷ 16 ∷ 16 ∷ 16 ∷ 16 ∷ 16 ∷ 16
    ∷ 16 ∷ 16 ∷ 16 ∷ 16 ∷ 16 ∷ 16 ∷ 16 ∷ 16 ∷ 16 ∷ 16 ∷ 16 ∷ 16 ∷ 16 ∷ 16 ∷ 16 ∷ 16 ∷ 16 ∷ 16 ∷ 16
    ∷ 16 ∷ 16 ∷ 16 ∷ 16 ∷ 16 ∷ 16 ∷ 16 ∷ 16 ∷ 16 ∷ 16 ∷ 16 ∷ 16 ∷ 16 ∷ 16 ∷ 16 ∷ 16 ∷ 16 ∷ 16 ∷ 16
    ∷ 16 ∷ 16 ∷ 16 ∷ 16 ∷ 16 ∷ 16 ∷ 16 ∷ 16 ∷ 16 ∷ 16 ∷ 16 ∷ 16 ∷ 16 ∷ 16 ∷ 16 ∷ 16 ∷ 16 ∷ 16 ∷ 16
    ∷ 16 ∷ 16 ∷ 16 ∷ 16 ∷ 16 ∷ 16 ∷ 16 ∷ 16 ∷ 16 ∷ 16 ∷ 16 ∷ 16 ∷ 16 ∷ 16 ∷ 16 ∷ 16 ∷ 16 ∷ 16 ∷ 16
    ∷ 16 ∷ 16 ∷ 16 ∷ 16 ∷ 16 ∷ 16 ∷ 16 ∷ []

unfoldable pub hex_digit : ℕ → Option ℕ
hex_digit c = if get_or digits c 16 == 16 then none else some (get_or digits c 16)

unfoldable pub all_hex : List ℕ → Bool
unfolding hex_digit
all_hex [] = true
all_hex (c ∷ cs) = elim (hex_digit c) [ none ↦ false | some d ↦ all_hex cs ]

unfoldable pub is_hex : List ℕ → Bool
unfolding all_hex
is_hex s = all_hex s && ltb 0 (length s) && length s % 2 == 0

unfoldable pub is_space : ℕ → Bool
is_space c = c == 32 || (leb 9 c && leb c 13)

-- The loop of ParseHex: `none` before the first digit of a byte, where spaces are skipped, and that digit
-- before the second one.
unfoldable pub parse_from : Option ℕ → List ℕ → List ℕ
unfolding is_space hex_digit
parse_from first [] = []
parse_from none (c ∷ cs) = elim (is_space c) [
  | true ↦ parse_from none cs
  | false ↦ elim (hex_digit c) [ none ↦ [] | some d ↦ parse_from (some d) cs ]
]
parse_from (some h) (c ∷ cs) = elim (hex_digit c) [
  | none ↦ []
  | some d ↦ (h * 16 + d) ∷ parse_from none cs
]

unfoldable pub parse_hex : List ℕ → List ℕ
unfolding parse_from
parse_hex = parse_from none
