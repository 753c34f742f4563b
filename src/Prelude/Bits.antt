-- ===== src/Prelude/Bits.antt =====
-- Exclusive or and or on binary numbers of a width, and exclusive or with 1.
use Prim.Native.Nat.{bit_or, bit_or-bitwise, bit_xor, bit_xor-bitwise, bitwise, differ, digits, max}
use native.Mathlib.Omega.{arith}
use native.Mathlib.Nat.{two-pow-succ}
use tri_tip.Prelude.{
  suc, zero, ℕ, ◌%◌, ◌+◌, ◌-◌, ◌/◌, ◌==◌, ◌≡◌, ◌≤◌, if◌then◌else◌, refl, ◌<◌, ◌*◌, ◌^◌,
}

module _ (op : ℕ → ℕ → ℕ) where
  abbrev joined : ℕ → ℕ → ℕ
  joined a b = bitwise (λ y. y) op a b

  -- Fuel that bounds the first number is enough: it gives what the number itself gives as fuel.
  joined_fuel : (w n a b : ℕ) → n ≤ w → a ≤ n → digits (λ y. y) op n a b ≡ joined a b
  joined_fuel w zero zero b nw an = refl
  joined_fuel w (suc n) zero b nw an = refl
  joined_fuel w zero (suc a) b nw an = absurd (omega arith)
  joined_fuel zero (suc n) (suc a) b nw an = absurd (omega arith)
  joined_fuel (suc w) (suc n) (suc a) b nw an =
      let half = suc a / 2 in
      omega (
        arith,
        joined_fuel w n half (b / 2) (omega arith) (omega arith),
        joined_fuel w a half (b / 2) (omega arith) (omega arith),
      )

  joined-suc :
      (a b : ℕ) → joined (suc a) b ≡ joined (suc a / 2) (b / 2) * 2 + op (suc a % 2) (b % 2)
  joined-suc a b = omega (arith, joined_fuel a a (suc a / 2) (b / 2) (omega arith) (omega arith))

  -- An operation that sends digits to digits keeps the width.
  joined-lt :
      (join : ℕ → ℕ → ℕ)
      → ((a b : ℕ) → join a b ≡ join (a / 2) (b / 2) * 2 + op (a % 2) (b % 2))
      → ((x y : ℕ) → x < 2 → y < 2 → op x y < 2)
      → join 0 0 ≡ 0
      → (w a b : ℕ) → a < 2 ^ w
      → b < 2 ^ w
      → join a b < 2 ^ w
  joined-lt join step digit none zero a b ha hb =
      let ea : a ≡ 0 = omega arith in
      let eb : b ≡ 0 = omega arith in rw (ea, eb) (omega (arith, none))
  joined-lt join step digit none (suc w) a b ha hb = omega (
    arith,
    two-pow-succ w,
    step a b,
    digit (a % 2) (b % 2) (omega arith) (omega arith),
    joined-lt join step digit none w (a / 2) (b / 2) (omega (arith, two-pow-succ w))
        (omega (arith, two-pow-succ w)),
  )

differ-zero : (x : ℕ) → differ x 0 ≡ x
differ-zero zero = refl
differ-zero (suc x) = refl

differ-one : (x : ℕ) → x < 2 → differ x 1 ≡ 1 - x
differ-one zero h = refl
differ-one (suc zero) h = refl
differ-one (suc (suc x)) h = absurd (omega arith)

differ-lt : (x y : ℕ) → x < 2 → y < 2 → differ x y < 2
differ-lt zero y hx hy = omega arith
differ-lt (suc zero) zero hx hy = omega arith
differ-lt (suc zero) (suc zero) hx hy = omega arith
differ-lt (suc zero) (suc (suc y)) hx hy = absurd (omega arith)
differ-lt (suc (suc x)) y hx hy = absurd (omega arith)

bit_xor_digit : (a b : ℕ) → bit_xor a b ≡ bit_xor (a / 2) (b / 2) * 2 + differ (a % 2) (b % 2)
bit_xor_digit zero b = rw (bit_xor-bitwise 0 b, bit_xor-bitwise 0 (b / 2)) (omega arith)
bit_xor_digit (suc a) b =
    rw (bit_xor-bitwise (suc a) b, bit_xor-bitwise (suc a / 2) (b / 2)) (joined-suc differ a b)

bit_or_digit : (a b : ℕ) → bit_or a b ≡ bit_or (a / 2) (b / 2) * 2 + max (a % 2) (b % 2)
bit_or_digit zero b = rw (bit_or-bitwise 0 b, bit_or-bitwise 0 (b / 2)) (omega arith)
bit_or_digit (suc a) b =
    rw (bit_or-bitwise (suc a) b, bit_or-bitwise (suc a / 2) (b / 2)) (joined-suc max a b)

xor-zero : (w a : ℕ) → a ≤ w → bit_xor a 0 ≡ a
xor-zero w zero h = refl
xor-zero zero (suc a) h = absurd (omega arith)
xor-zero (suc w) (suc a) h =
    omega (
      arith,
      bit_xor_digit (suc a) 0,
      xor-zero w (suc a / 2) (omega arith),
      differ-zero (suc a % 2),
    )

-- `i ^ 1` is the neighbour of `i` in its pair.
pub bit_xor-one : (i : ℕ) → bit_xor i 1 ≡ (if i % 2 == 1 then i - 1 else i + 1)
bit_xor-one i = ground (
  arith,
  bit_xor_digit i 1,
  xor-zero (i / 2) (i / 2) (omega arith),
  differ-one (i % 2) (omega arith),
)

-- Numbers of `w` bits have an exclusive or and an or of `w` bits.
pub bit_xor-lt : (w a b : ℕ) → a < 2 ^ w → b < 2 ^ w → bit_xor a b < 2 ^ w
bit_xor-lt = joined-lt differ bit_xor bit_xor_digit differ-lt refl

pub bit_or-lt : (w a b : ℕ) → a < 2 ^ w → b < 2 ^ w → bit_or a b < 2 ^ w
bit_or-lt = joined-lt max bit_or bit_or_digit (λ x y hx hy. omega arith) refl
