-- ===== src/Money/Trim.antt =====
-- util.cpp: the digits behind the point, and the zeros that FormatMoney takes off.
use tri_tip.Prelude.{length-replicate}
use mathlib.Core.List.{append_assoc}
use mathlib.Core.List.{append-nil}
use mathlib.Core.Bool.{◌&&◌, Bool, false, true}
use tri_tip.Prelude.{
  ap, arith, get_or, if◌then◌else◌, length, length-append, List, lt→ltb, refl, suc, sym, take, zero,
  ℕ, ◌%◌, ◌*◌, ◌++◌, ◌+◌, ◌-◌, ◌/◌, ◌<◌, ◌==◌, ◌≡◌, ◌^◌, ◌∙◌, ◌∷◌, ◌≤◌, [], replicate,
}
use tri_tip.Money.{is_digit, padded, trim_count, reversed, parse_fraction}
use tri_tip.Money.Digits.{digit}

-- The units of digits behind the point
unfoldable pub units_of : ℕ → List ℕ → ℕ
units_of mult [] = 0
units_of mult (c ∷ cs) = mult * (c - 48) + units_of (mult / 10) cs

-- Digits, for each of which there is a place
unfoldable pub HasPlaces : ℕ → List ℕ → Type 0
HasPlaces mult [] = Unit {0}
HasPlaces mult (c ∷ cs) = (0 < mult) × (48 ≤ c) × (c ≤ 57) × HasPlaces (mult / 10) cs

-- The whole string is read.
unfoldable all_read : ℕ → ℕ × List ℕ
all_read n = (n, [])

pub parse_fraction-units_of :
    (mult units : ℕ) (cs : List ℕ)
    → HasPlaces mult cs
    → parse_fraction mult units cs ≡ (units + units_of mult cs, [])
unfolding parse_fraction HasPlaces units_of all_read
parse_fraction-units_of mult units [] h = ap all_read {x = units} {y = units + 0} (omega arith)
parse_fraction-units_of mult units (c ∷ cs) (m, l, u, h) = rw (digit c l u) (
    rw (lt→ltb 0 mult m) (
      parse_fraction-units_of (mult / 10) (units + mult * (c - 48)) cs h
      ∙ ap all_read {x = units + mult * (c - 48) + units_of (mult / 10) cs}
          {y = units + (mult * (c - 48) + units_of (mult / 10) cs)} (omega arith)))

pub units_of-zeros :
    (mult : ℕ) (cs : List ℕ) (n : ℕ) → units_of mult (cs ++ replicate n 48) ≡ units_of mult cs
unfolding units_of
units_of-zeros mult [] zero = refl
units_of-zeros mult [] (suc n) = omega (arith, units_of-zeros (mult / 10) [] n)
units_of-zeros mult (c ∷ cs) n = ap (λ m. mult * (c - 48) + m) (units_of-zeros (mult / 10) cs n)

pub HasPlaces-take : (mult : ℕ) (cs ds : List ℕ) → HasPlaces mult (cs ++ ds) → HasPlaces mult cs
unfolding HasPlaces
HasPlaces-take mult [] ds h = tt
HasPlaces-take mult (c ∷ cs) ds (m, l, u, h) = (m, l, u, HasPlaces-take (mult / 10) cs ds h)

-- Eight digits give the number back.
pub units_of-padded : (n : ℕ) → n < 10 ^ 8 → units_of (10 ^ 7) (padded 8 n) ≡ n
unfolding units_of padded
units_of-padded n h = omega (arith, seven)
  where
    one : units_of (10 ^ 0) (padded 1 n) ≡ n % 10 ^ 1
    one = omega arith

    two : units_of (10 ^ 1) (padded 2 n) ≡ n % 10 ^ 2
    two = omega (arith, one)

    three : units_of (10 ^ 2) (padded 3 n) ≡ n % 10 ^ 3
    three = omega (arith, two)

    four : units_of (10 ^ 3) (padded 4 n) ≡ n % 10 ^ 4
    four = omega (arith, three)

    five : units_of (10 ^ 4) (padded 5 n) ≡ n % 10 ^ 5
    five = omega (arith, four)

    six : units_of (10 ^ 5) (padded 6 n) ≡ n % 10 ^ 6
    six = omega (arith, five)

    seven : units_of (10 ^ 6) (padded 7 n) ≡ n % 10 ^ 7
    seven = omega (arith, six)

pub padded-HasPlaces : (n : ℕ) → HasPlaces (10 ^ 7) (padded 8 n)
unfolding HasPlaces padded
padded-HasPlaces n = omega arith

-- What is trimmed are zeros behind the point.
trim_count-zeros :
    (cs ys : List ℕ) → (rest : List ℕ) × (cs ≡ replicate (trim_count (cs ++ 46 ∷ ys)) 48 ++ rest)
unfolding trim_count
trim_count-zeros [] ys = ([], refl)
trim_count-zeros (c ∷ cs) ys =
    step (c == 48 && is_digit (get_or (cs ++ 46 ∷ ys) 1 0)) (λ e. ground arith)
      (trim_count-zeros cs ys)
  where
    step :
        (t : Bool)
        → (t ≡ true → c ≡ 48)
        → (rest : List ℕ) × (cs ≡ replicate (trim_count (cs ++ 46 ∷ ys)) 48 ++ rest)
        → (rest : List ℕ) × (c ∷ cs
            ≡ replicate (if t then suc (trim_count (cs ++ 46 ∷ ys)) else 0) 48 ++ rest)
    step false h ih = (c ∷ cs, refl)
    step true h (rest, e) = (rest, λ i. h refl i ∷ e i)

reversed-append : (xs ys : List ℕ) → reversed (xs ++ ys) ≡ reversed ys ++ reversed xs
unfolding reversed
reversed-append [] ys = sym (append-nil (reversed ys))
reversed-append (x ∷ xs) ys =
    ap (λ zs. zs ++ x ∷ []) (reversed-append xs ys)
    ∙ append_assoc (reversed ys) (reversed xs) (x ∷ [])

reversed_twice : (xs : List ℕ) → reversed (reversed xs) ≡ xs
unfolding reversed
reversed_twice [] = refl
reversed_twice (x ∷ xs) =
    reversed-append (reversed xs) (x ∷ []) ∙ ap (λ ys. x ∷ ys) (reversed_twice xs)

zeros : ℕ → List ℕ
zeros n = replicate n 48

zeros-append : (n : ℕ) → zeros n ++ 48 ∷ [] ≡ 48 ∷ zeros n
unfolding zeros
zeros-append zero = refl
zeros-append (suc n) = ap (λ cs. 48 ∷ cs) (zeros-append n)

reversed-zeros : (n : ℕ) → reversed (zeros n) ≡ zeros n
unfolding reversed zeros
reversed-zeros zero = refl
reversed-zeros (suc n) = ap (λ cs. cs ++ 48 ∷ []) (reversed-zeros n) ∙ zeros-append n

take-front : (xs ys : List ℕ) (n : ℕ) → n ≡ length xs → take n (xs ++ ys) ≡ xs
take-front [] ys zero e = refl
take-front [] ys (suc n) e = ground (arith, e)
take-front (x ∷ xs) ys zero e = ground (arith, e)
take-front (x ∷ xs) ys (suc n) e = ap (λ zs. x ∷ zs) (take-front xs ys n (omega (arith, e)))

take_kept :
    (xs kept : List ℕ) (n m : ℕ)
    → m ≡ n
    → xs ≡ kept ++ replicate n 48
    → take (length xs - m) xs ≡ kept
take_kept xs kept n m e f =
    ap (take (length xs - m)) f
    ∙ take-front kept (replicate n 48) (length xs - m) (
        omega (
          arith,
          e,
          ap length f,
          length-append kept (replicate n 48),
          length-replicate {A = ℕ} n 48,
        ))

-- Trimming leaves what is before the point and a part of the digits behind it, and takes zeros off.
pub trimmed :
    (whole fs : List ℕ)
    → (kept : List ℕ) × (n : ℕ) × (fs ≡ kept ++ replicate n 48)
      × (take
            (length (whole ++ 46 ∷ fs) - trim_count (reversed (whole ++ 46 ∷ fs)))
            (whole ++ 46 ∷ fs)
          ≡ whole ++ 46 ∷ kept)
unfolding reversed zeros
trimmed whole fs = (
  kept,
  n,
  digits,
  take_kept (whole ++ 46 ∷ fs) (whole ++ 46 ∷ kept) n (trim_count (reversed (whole ++ 46 ∷ fs)))
      (ap trim_count same)
      (ap (λ cs. whole ++ 46 ∷ cs) digits ∙ sym (append_assoc whole (46 ∷ kept) (replicate n 48))),
)
  where
    same : reversed (whole ++ 46 ∷ fs) ≡ reversed fs ++ 46 ∷ reversed whole
    same = reversed-append whole (46 ∷ fs) ∙ append_assoc (reversed fs) (46 ∷ []) (reversed whole)

    found :
        (rest : List ℕ) × (reversed fs
          ≡ replicate (trim_count (reversed fs ++ 46 ∷ reversed whole)) 48 ++ rest)
    found = trim_count-zeros (reversed fs) (reversed whole)

    n : ℕ
    n = trim_count (reversed fs ++ 46 ∷ reversed whole)

    kept : List ℕ
    kept = reversed found.0

    digits : fs ≡ kept ++ replicate n 48
    digits =
        sym (reversed_twice fs)
        ∙ ap reversed found.1
        ∙ reversed-append (replicate n 48) found.0
        ∙ ap (λ cs. kept ++ cs) (reversed-zeros n)
