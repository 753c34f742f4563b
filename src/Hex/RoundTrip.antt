-- ===== src/Hex/RoundTrip.antt =====
-- util.cpp: ParseHex and IsHex on a hexadecimal print.
use tri_tip.Prelude.{==_iff}
use mathlib.Core.Path.{subst}
use mathlib.Core.Bool.{◌&&◌, Bool, false, not, true}
use tri_tip.Prelude.{
  ap, arith, Bool-cases, get_or, inl, inr, length, List, none, Option-cases, refl, some, suc, zero,
  ℕ, ◌%◌, ◌*◌, ◌+◌, ◌/◌, ◌<◌, ◌==◌, ◌≡◌, ◌∙◌, ◌∷◌, [],
}
use tri_tip.Bloom.Bits.{AllBytes}
use tri_tip.Hex.{hex_digit, all_hex, is_hex, is_space, parse_from, parse_hex}

-- "0123456789abcdef"
abbrev letter : ℕ → ℕ
letter d =
    get_or (48 ∷ 49 ∷ 50 ∷ 51 ∷ 52 ∷ 53 ∷ 54 ∷ 55 ∷ 56 ∷ 57 ∷ 97 ∷ 98 ∷ 99 ∷ 100 ∷ 101 ∷ 102 ∷ []) d
      0

-- The print of bytes, two lower-case letters for each.
abbrev pub print : List ℕ → List ℕ
print [] = []
print (b ∷ bs) = letter (b / 16) ∷ letter (b % 16) ∷ print bs

all_read : ℕ → Bool
unfolding hex_digit is_space
all_read zero = true
all_read (suc n) = elim (hex_digit (letter n)) [
  | none ↦ false
  | some e ↦ e == n && (not (is_space (letter n)) && all_read n)
]

sixteen : all_read 16 ≡ true
unfolding all_read hex_digit is_space
sixteen = refl

read_below :
    (n d : ℕ)
    → all_read n ≡ true
    → d < n
    → (hex_digit (letter d) ≡ some d) × (is_space (letter d) ≡ false)
unfolding all_read
read_below zero d e h = absurd (omega arith)
read_below (suc n) d e h = elim (Option-cases (hex_digit (letter n))) [
  | inl f ↦ absurd (ground arith)
  | inr (c, f) ↦ elim (Bool-cases (n == d)) [
    | inl q ↦
        let r : c ≡ n = ground arith in
        let w : is_space (letter n) ≡ false = ground arith in
        subst (λ x. (hex_digit (letter x) ≡ some x) × (is_space (letter x) ≡ false))
          ((==_iff n d).0 q) (f ∙ ap some r, w)
    | inr q ↦ read_below n d (ground arith) (ground arith)
  ]
]

parse_from-print : (bs : List ℕ) → AllBytes bs → parse_from none (print bs) ≡ bs
unfolding parse_from
parse_from-print [] h = refl
parse_from-print (b ∷ bs) (h, hs) =
    let high = read_below 16 (b / 16) sixteen (omega arith) in
    let low = read_below 16 (b % 16) sixteen (omega arith) in
    rw (high.1, parse_from, high.0, low.0) (λ i. joined i ∷ parse_from-print bs hs i)
  where
    joined : b / 16 * 16 + b % 16 ≡ b
    joined = omega arith

all_hex-print : (bs : List ℕ) → AllBytes bs → all_hex (print bs) ≡ true
unfolding all_hex
all_hex-print [] h = refl
all_hex-print (b ∷ bs) (h, hs) =
    let high = read_below 16 (b / 16) sixteen (omega arith) in
    let low = read_below 16 (b % 16) sixteen (omega arith) in
    rw (high.0, all_hex, low.0) (all_hex-print bs hs)

length-print : (bs : List ℕ) → length (print bs) ≡ 2 * length bs
length-print [] = refl
length-print (b ∷ bs) = omega (arith, length-print bs)

-- The lower-case print of bytes, at least one, is hexadecimal for `IsHex`, and `ParseHex` reads the bytes
-- back from it.
pub parse_hex-print :
    (b : ℕ) (bs : List ℕ)
    → AllBytes (b ∷ bs)
    → (is_hex (print (b ∷ bs)) ≡ true) × (parse_hex (print (b ∷ bs)) ≡ b ∷ bs)
unfolding is_hex parse_hex
parse_hex-print b bs h =
    (ground (arith, all_hex-print (b ∷ bs) h, length-print (b ∷ bs)), parse_from-print (b ∷ bs) h)
