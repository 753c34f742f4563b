-- ===== src/Money/Digits.antt =====
-- util.cpp: the digits that FormatMoney writes and ParseMoney reads.
use mathlib.Core.List.{append_assoc}
use mathlib.Core.List.{append-nil}
use mathlib.Core.Bool.{false, true}
use tri_tip.Prelude.{
  ap, arith, Bool-cases, inl, inr, length, length-append, List, ltb, ltb→lt, refl, some, suc, sym,
  zero, ℕ, ◌%◌, ◌*◌, ◌++◌, ◌+◌, ◌-◌, ◌/◌, ◌<◌, ◌==◌, ◌≡◌, ◌∙◌, ◌∷◌, ◌≤◌, [],
}
use tri_tip.Money.{is_digit, decimal, parse_fraction, parse_whole, skip_spaces, atoi64}
use tri_tip.Hex.{is_space}

unfoldable pub AllDigits : List ℕ → Type 0
AllDigits [] = Unit {0}
AllDigits (c ∷ cs) = (48 ≤ c) × (c ≤ 57) × AllDigits cs

AllDigits-append : (cs : List ℕ) (d : ℕ) → AllDigits cs → 48 ≤ d → d ≤ 57 → AllDigits (cs ++ d ∷ [])
unfolding AllDigits
AllDigits-append [] d a l u = (l, u, tt)
AllDigits-append (c ∷ cs) d (m, v, a) l u = (m, v, AllDigits-append cs d a l u)

pub decimal-AllDigits : (fuel n : ℕ) → AllDigits (decimal fuel n)
unfolding AllDigits decimal
decimal-AllDigits zero n = tt
decimal-AllDigits (suc fuel) n = elim (Bool-cases (ltb n 10)) [
  | inl e ↦ rw e (omega arith, omega (arith, ltb→lt n 10 e), tt)
  | inr e ↦ rw e (
      AllDigits-append (decimal fuel (n / 10)) (48 + n % 10) (decimal-AllDigits fuel (n / 10))
        (omega arith) (omega arith))
]

-- 10 to the power of `k`
unfoldable pub power : ℕ → ℕ
power zero = 1
power (suc k) = 10 * power k

pub length-decimal : (fuel k n : ℕ) → n < power k → 0 < k → length (decimal fuel n) ≤ k
unfolding decimal power
length-decimal zero k n h p = omega arith
length-decimal (suc fuel) zero n h p = ground arith
length-decimal (suc fuel) (suc k) n h p = elim (Bool-cases (ltb n 10)) [
  | inl e ↦ rw e (omega arith)
  | inr e ↦ rw e (
      omega (
        arith,
        length-append (decimal fuel (n / 10)) ((48 + n % 10) ∷ []),
        length-decimal fuel k (n / 10) (omega (arith, h)) (more k h (ground (arith, e))),
      ))
]
  where
    more : (k : ℕ) → n < 10 * power k → 10 ≤ n → 0 < k
    more zero h l = omega arith
    more (suc k) h l = omega arith

atoi64-append :
    (n : ℕ) (cs : List ℕ) (d : ℕ) → atoi64 n (cs ++ d ∷ []) ≡ atoi64 n cs * 10 + (d - 48)
unfolding atoi64
atoi64-append n [] d = refl
atoi64-append n (c ∷ cs) d = atoi64-append (n * 10 + (c - 48)) cs d

pub atoi64-decimal : (fuel n : ℕ) → n < power fuel → atoi64 0 (decimal fuel n) ≡ n
unfolding decimal power atoi64
atoi64-decimal zero n h = omega arith
atoi64-decimal (suc fuel) n h = elim (Bool-cases (ltb n 10)) [
  | inl e ↦ rw e (omega arith)
  | inr e ↦ rw e (
      omega (
        arith,
        atoi64-append 0 (decimal fuel (n / 10)) (48 + n % 10),
        atoi64-decimal fuel (n / 10) (omega (arith, h)),
      ))
]

other_point : (c : ℕ) → 48 ≤ c → (c == 46) ≡ false
other_point c l = ground arith

other_space : (c : ℕ) → 48 ≤ c → is_space c ≡ false
unfolding is_space
other_space c l = ground arith

pub digit : (c : ℕ) → 48 ≤ c → c ≤ 57 → is_digit c ≡ true
unfolding is_digit
digit c l u = ground arith

pub parse_whole-digits :
    (cent : ℕ) (whole cs fs : List ℕ)
    → AllDigits cs
    → parse_whole cent whole (cs ++ 46 ∷ fs)
      ≡ some (whole ++ cs, (parse_fraction (cent * 10) 0 fs).0, (parse_fraction (cent * 10) 0 fs).1)
unfolding parse_whole AllDigits
parse_whole-digits cent whole [] fs a =
    ap (λ w. some (w, (parse_fraction (cent * 10) 0 fs).0, (parse_fraction (cent * 10) 0 fs).1))
      (sym (append-nil whole))
parse_whole-digits cent whole (c ∷ cs) fs (l, u, a) = rw (other_point c l) (
    rw (other_space c l) (
      rw (digit c l u) (
        parse_whole-digits cent (whole ++ c ∷ []) cs fs a
        ∙ ap
            (λ w.
              some (w, (parse_fraction (cent * 10) 0 fs).0, (parse_fraction (cent * 10) 0 fs).1))
            (append_assoc whole (c ∷ []) cs))))

pub skip_spaces-digits :
    (cs fs : List ℕ) → AllDigits cs → skip_spaces (cs ++ 46 ∷ fs) ≡ cs ++ 46 ∷ fs
unfolding skip_spaces AllDigits is_space
skip_spaces-digits [] fs a = ground arith
skip_spaces-digits (c ∷ cs) fs (l, u, a) = ground arith
