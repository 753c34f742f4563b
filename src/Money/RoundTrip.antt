-- ===== src/Money/RoundTrip.antt =====
-- util.cpp: ParseMoney after FormatMoney.
use mathlib.Core.Path.{ap₂}
use mathlib.Core.Path.{subst}
use tri_tip.Hex.{is_space}
use tri_tip.Money.Digits.{AllDigits}
use mathlib.Core.Bool.{false}
use tri_tip.Prelude.{
  ap, arith, length, List, none, refl, some, suc, ℕ, ◌%◌, ◌/◌, ◌<◌, ◌≡◌, ◌^◌, ◌∙◌, ◌∷◌, ◌≤◌, [],
  replicate,
}
use tri_tip.Prelude.Int.{ℤ, pos, negsuc}
use tri_tip.Prelude.{◌>>=◌}
use tri_tip.Money.{
  is_digit, decimal, padded, format_amount, format_money, parse_whole, skip_spaces, atoi64,
  money_of, parse_money,
}
use tri_tip.Money.Digits.{
  decimal-AllDigits, power, length-decimal, atoi64-decimal, parse_whole-digits, skip_spaces-digits,
}
use tri_tip.Money.Trim.{
  units_of, HasPlaces-take, HasPlaces, parse_fraction-units_of, units_of-zeros, units_of-padded,
  padded-HasPlaces, trimmed,
}

money_of-amount :
    (n : ℕ) (whole : List ℕ)
    → length whole ≤ 10
    → atoi64 0 whole ≡ n / 10 ^ 8
    → money_of (10 ^ 8) (whole, n % 10 ^ 8, []) ≡ some n
unfolding money_of skip_spaces
money_of-amount n whole l a = ground (arith, a)

parse_money-amount :
    (n : ℕ)
    → n / 10 ^ 8 < 10 ^ 10
    → parse_money (10 ^ 8) (10 ^ 6) (format_amount (10 ^ 8) n) ≡ some n
unfolding parse_money format_amount power
parse_money-amount n h =
    let t = trimmed whole fs in
    ap (λ str. parse_whole (10 ^ 6) [] (skip_spaces str) >>= money_of (10 ^ 8)) t.3
    ∙ ap (λ str. parse_whole (10 ^ 6) [] str >>= money_of (10 ^ 8))
        (skip_spaces-digits whole t.0 digits)
    ∙ ap (λ o. o >>= money_of (10 ^ 8)) (parse_whole-digits (10 ^ 6) [] whole t.0 digits)
    ∙ ap (λ r. money_of (10 ^ 8) (whole, r.0, r.1))
        (parse_fraction-units_of (10 ^ 7) 0 t.0 (
          HasPlaces-take (10 ^ 7) t.0 (replicate t.1 48)
            (subst (HasPlaces (10 ^ 7)) t.2 (padded-HasPlaces (n % 10 ^ 8)))))
    ∙ ap (λ units. money_of (10 ^ 8) (whole, units, []))
        (omega (
          arith,
          units_of-zeros (10 ^ 7) t.0 t.1,
          ap (units_of (10 ^ 7)) t.2,
          units_of-padded (n % 10 ^ 8) (omega arith),
        ))
    ∙ money_of-amount n whole (length-decimal 20 10 (n / 10 ^ 8) (omega (arith, h)) (omega arith))
        (atoi64-decimal 20 (n / 10 ^ 8) (omega (arith, h)))
  where
    whole : List ℕ
    whole = decimal 20 (n / 10 ^ 8)

    fs : List ℕ
    fs = padded 8 (n % 10 ^ 8)

    digits : AllDigits whole
    digits = decimal-AllDigits 20 (n / 10 ^ 8)

parse_money-amount_signed :
    (z : ℤ)
    → elim z [ pos n ↦ n | negsuc n ↦ suc n ] < 10 ^ 18
    → parse_money (10 ^ 8) (10 ^ 6) (format_money (10 ^ 8) z false)
      ≡ elim z [ pos n ↦ some n | negsuc n ↦ none ]
unfolding format_money parse_money parse_whole skip_spaces is_space is_digit
parse_money-amount_signed (pos n) h = parse_money-amount n (omega arith)
parse_money-amount_signed (negsuc n) h = refused (format_amount (10 ^ 8) (suc n))
  where
    refused : (str : List ℕ) → parse_money (10 ^ 8) (10 ^ 6) (45 ∷ str) ≡ none
    refused str = refl

-- With 10^8 units in a coin and 10^6 in a cent, an amount of less than 10^10 coins that FormatMoney
-- writes, without a plus sign, is the one that ParseMoney reads back; of a negative amount it reads nothing.
pub parse_money-format_money :
    (coin cent : ℕ) (z : ℤ)
    → coin ≡ 10 ^ 8
    → cent ≡ 10 ^ 6
    → elim z [ pos n ↦ n | negsuc n ↦ suc n ] < 10 ^ 18
    → parse_money coin cent (format_money coin z false)
      ≡ elim z [ pos n ↦ some n | negsuc n ↦ none ]
parse_money-format_money coin cent z e f h =
    ap₂ (λ c d. parse_money c d (format_money c z false)) e f ∙ parse_money-amount_signed z h
