-- ===== src/Bloom/Bits.antt =====
-- bloom.cpp: a bit of the filter, and what setting one does.
use tri_tip.Prelude.{◌∙◌}
use tri_tip.Prelude.{==_iff}
use tri_tip.Prelude.{inl, inr}
use tri_tip.Prelude.{Bool-cases}
use tri_tip.Prelude.{ap}
use tri_tip.Prelude.{◌%◌}
use tri_tip.Prelude.{if◌then◌else◌, ◌*◌, ◌/◌}
use tri_tip.Bloom.{bit_at, set_bit}
use tri_tip.Prelude.{length, set}
use Prim.Native.Nat.{bit_and, bit_or}
use mathlib.Core.Bool.{◌&&◌, ◌||◌, Bool, false, not, true}
use tri_tip.Bloom.{bit_mask}
use tri_tip.Prelude.{[], arith, get_or, refl, suc, zero, ℕ, ◌<◌, ◌==◌, ◌≡◌, ◌^◌, ◌∷◌, List}

abbrev pub AllBytes : List ℕ → Type 0
AllBytes [] = Unit {0}
AllBytes (b ∷ bs) = (b < 2 ^ 8) × AllBytes bs

-- A test of the numbers under a bound, and what it shows of one of them.
holds_under : (test : ℕ → Bool) (bound : ℕ) → Bool
holds_under test zero = true
holds_under test (suc b) = holds_under test b && test b

holds_under_lem :
    (test : ℕ → Bool) (bound : ℕ)
    → holds_under test bound ≡ true
    → (x : ℕ) → x < bound
    → test x ≡ true
unfolding holds_under
holds_under_lem test zero all x small = absurd (omega arith)
holds_under_lem test (suc b) all x small = elim (Bool-cases (x == b)) [
  | inl last ↦ ap test ((==_iff x b).0 last) ∙ ground arith
  | inr other ↦ holds_under_lem test b (ground arith) x (ground arith)
]

abbrev bool_eq : Bool → Bool → Bool
bool_eq true b = b
bool_eq false b = not b

abbrev mask : ℕ → ℕ
mask i = get_or bit_mask i 0

abbrev bit_law : ℕ → ℕ → ℕ → Bool
bit_law b i j =
    bool_eq (not (bit_and (bit_or b (mask i)) (mask j) == 0))
      ((i == j) || not (bit_and b (mask j) == 0))
    && (elim (Prim.Native.Nat.compare (bit_or b (mask i)) 256) [
      | Prim.Native.Nat.Ordering.lt ↦ true
      | _ ↦ false
    ])

bit_table : holds_under (λ b. holds_under (λ i. holds_under (λ j. bit_law b i j) 8) 8) 256 ≡ true
unfolding holds_under
bit_table = refl

bool_eq_sound : (a b : Bool) → bool_eq a b ≡ true → a ≡ b
bool_eq_sound a b h = ground arith

bit_law_holds : (b i j : ℕ) → b < 2 ^ 8 → i < 8 → j < 8 → bit_law b i j ≡ true
bit_law_holds b i j hb hi hj =
    holds_under_lem (λ j. bit_law b i j) 8
      (holds_under_lem (λ i. holds_under (λ j. bit_law b i j) 8) 8
        (holds_under_lem (λ b. holds_under (λ i. holds_under (λ j. bit_law b i j) 8) 8) 256
          bit_table b hb)
        i hi)
      j hj

or_mask_bit :
    (b i j : ℕ)
    → b < 2 ^ 8
    → i < 8
    → j < 8
    → not (bit_and (bit_or b (mask i)) (mask j) == 0) ≡ ((i == j) || not (bit_and b (mask j) == 0))
or_mask_bit b i j hb hi hj = bool_eq_sound _ _ (ground (arith, bit_law_holds b i j hb hi hj))

or_mask-lt : (b i : ℕ) → b < 2 ^ 8 → i < 8 → bit_or b (mask i) < 2 ^ 8
or_mask-lt b i hb hi = ground (arith, bit_law_holds b i i hb hi hi)

pub get_or-set :
    (xs : List ℕ) (i j v : ℕ)
    → i < length xs
    → get_or (set xs i v) j 0 ≡ (if i == j then v else get_or xs j 0)
get_or-set [] i j v h = absurd (omega arith)
get_or-set (x ∷ xs) zero zero v h = refl
get_or-set (x ∷ xs) zero (suc j) v h = ground arith
get_or-set (x ∷ xs) (suc i) zero v h = ground arith
get_or-set (x ∷ xs) (suc i) (suc j) v h = ground (arith, get_or-set xs i j v)

get_or-lt : (xs : List ℕ) (i : ℕ) → AllBytes xs → get_or xs i 0 < 2 ^ 8
get_or-lt [] i h = omega arith
get_or-lt (x ∷ xs) zero h = h.0
get_or-lt (x ∷ xs) (suc i) h = get_or-lt xs i h.1

set-AllBytes : (xs : List ℕ) (i v : ℕ) → v < 2 ^ 8 → AllBytes xs → AllBytes (set xs i v)
set-AllBytes [] i v hv h = tt
set-AllBytes (x ∷ xs) zero v hv h = (hv, h.1)
set-AllBytes (x ∷ xs) (suc i) v hv h = (h.0, set-AllBytes xs i v hv h.1)

pub set_bit-AllBytes : (bytes : List ℕ) (i : ℕ) → AllBytes bytes → AllBytes (set_bit bytes i)
unfolding set_bit
set_bit-AllBytes bytes i h =
    set-AllBytes bytes (i / 8) _
      (or_mask-lt (get_or bytes (i / 8) 0) (i % 8) (get_or-lt bytes (i / 8) h) (omega arith)) h

-- Setting bit `i` sets bit `i` and no other.
pub bit_at-set_bit :
    (bytes : List ℕ) (i j : ℕ)
    → AllBytes bytes
    → i < length bytes * 8
    → bit_at (set_bit bytes i) j ≡ ((i == j) || bit_at bytes j)
unfolding bit_at set_bit
bit_at-set_bit bytes i j h lt = rw (get_or-set bytes (i / 8) (j / 8) _ (omega arith)) (
    ground (
      arith,
      or_mask_bit (get_or bytes (i / 8) 0) (i % 8) (j % 8) (get_or-lt bytes (i / 8) h),
      ap (λ k. get_or bytes k 0),
    ))

abbrev bit_of : ℕ → ℕ → Bool
bit_of b j = not (bit_and b (mask j) == 0)

abbrev full_law : ℕ → Bool
full_law b =
    b == 0xff
    || not (
        bit_of b 0
        && bit_of b 1
        && bit_of b 2
        && bit_of b 3
        && bit_of b 4
        && bit_of b 5
        && bit_of b 6
        && bit_of b 7)

full_table : holds_under full_law 256 ≡ true
unfolding holds_under
full_table = refl

-- A byte whose eight bits are set is 0xff, and 0xff has all its bits set.
pub first_byte_full :
    (bytes : List ℕ)
    → AllBytes bytes
    → ((j : ℕ) → j < 8 → bit_at bytes j ≡ true)
    → get_or bytes 0 0 ≡ 0xff
unfolding bit_at
first_byte_full bytes h all_set = ground (
  arith,
  holds_under_lem full_law 256 full_table (get_or bytes 0 0) (get_or-lt bytes 0 h),
  all_set 0 (omega arith),
  all_set 1 (omega arith),
  all_set 2 (omega arith),
  all_set 3 (omega arith),
  all_set 4 (omega arith),
  all_set 5 (omega arith),
  all_set 6 (omega arith),
  all_set 7 (omega arith),
)

ff_table : holds_under (λ j. bit_of 0xff j) 8 ≡ true
unfolding holds_under
ff_table = refl

pub bit_at-full : (bytes : List ℕ) (j : ℕ) → get_or bytes 0 0 ≡ 0xff → j < 8 → bit_at bytes j ≡ true
unfolding bit_at
bit_at-full bytes j e h =
    let first : j / 8 ≡ 0 = omega arith in
    let low : j % 8 ≡ j = omega arith in
    rw (first, low, e) (holds_under_lem (λ j. bit_of 0xff j) 8 ff_table j h)
