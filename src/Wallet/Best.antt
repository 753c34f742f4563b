-- ===== src/Wallet/Best.antt =====
-- wallet.cpp: the result of ApproximateBestSubset is a subset with its sum.
use tri_tip.Prelude.{length-replicate}
use tri_tip.Prelude.{get_elem?}
use mathlib.Core.Bool.{Bool, false, true}
use tri_tip.Prelude.{
  ap, arith, Bool-cases, get_or, if◌then◌else◌, inl, inr, leb, length, List, ltb, refl, set,
  length-set, some, suc, sym, zero, ℕ, ◌+◌, ◌<◌, ◌==◌, ◌≡◌, ◌∙◌, ◌∷◌, ◌≤◌, [], replicate,
}
use tri_tip.Wallet.Subset.{
  Coin, Search, try_value, visit, run_pass, run_passes, search_loop, approximate_best_subset,
}
use tri_tip.Wallet.Select.{picked, sum, total}

-- The sum of the values that are marked
unfoldable pub marked_sum : List Bool → List Coin → ℕ
marked_sum [] cs = 0
marked_sum (b ∷ bs) [] = 0
marked_sum (b ∷ bs) (c ∷ cs) = (if b then c.value else 0) + marked_sum bs cs

marked_sum-set-true :
    (bs : List Bool) (cs : List Coin) (i : ℕ) (c : Coin)
    → length bs ≡ length cs
    → get_elem? cs i ≡ some c
    → get_or bs i false ≡ false
    → marked_sum (set bs i true) cs ≡ marked_sum bs cs + c.value
unfolding marked_sum
marked_sum-set-true [] [] i c l e n = ground arith
marked_sum-set-true [] (d ∷ cs) i c l e n = ground arith
marked_sum-set-true (b ∷ bs) [] i c l e n = ground arith
marked_sum-set-true (b ∷ bs) (d ∷ cs) zero c l e n = ground arith
marked_sum-set-true (b ∷ bs) (d ∷ cs) (suc i) c l e n =
    omega (arith, marked_sum-set-true bs cs i c (omega (arith, l)) e n)

set-set : (bs : List Bool) (i : ℕ) (a b : Bool) → set (set bs i a) i b ≡ set bs i b
set-set [] i a b = refl
set-set (c ∷ bs) zero a b = refl
set-set (c ∷ bs) (suc i) a b = ap (λ xs. c ∷ xs) (set-set bs i a b)

set-get_or : (bs : List Bool) (i : ℕ) → get_or bs i false ≡ false → set bs i false ≡ bs
set-get_or [] i e = refl
set-get_or (b ∷ bs) zero e = ap (λ c. c ∷ bs) (sym e)
set-get_or (b ∷ bs) (suc i) e = ap (λ xs. b ∷ xs) (set-get_or bs i e)

-- The best subset has the sum that is noted for it, and reaches the goal.
unfoldable IsBest : ℕ → List Coin → Search → Type 0
unfolding marked_sum
IsBest goal coins s =
    (length s.best ≡ length coins)
    × (s.best_value ≡ marked_sum s.best coins)
    × (goal ≤ s.best_value)

-- The current subset has its sum, too.
unfoldable IsSound : ℕ → List Coin → Search → Type 0
unfolding marked_sum IsBest
IsSound goal coins s =
    (length s.included ≡ length coins)
    × (s.total ≡ marked_sum s.included coins)
    × IsBest goal coins s

Sound-Best :
    (goal : ℕ) (coins : List Coin) (s : Search) → IsSound goal coins s → IsBest goal coins s
unfolding IsSound
Sound-Best goal coins s (l, t, k) = k

try_value-Sound :
    (goal target i : ℕ) (coins : List Coin) (c : Coin) (s : Search)
    → goal ≤ target
    → get_elem? coins i ≡ some c
    → get_or s.included i false ≡ false
    → IsSound goal coins s
    → IsSound goal coins (try_value target i c.value s)
unfolding IsSound IsBest try_value
try_value-Sound goal target i coins c s g e n (l, t, (k, b, h)) =
    elim (Bool-cases (leb target (s.total + c.value))) [
      | inr r ↦ rw r (
        length-set s.included i true ∙ l,
        omega (arith, t, marked_sum-set-true s.included coins i c l e n),
        (k, b, h),
      )
      | inl r ↦ elim (Bool-cases (ltb (s.total + c.value) s.best_value)) [
        | inl u ↦ rw r (
            rw u (
              ap length restored ∙ l,
              omega (arith, t, ap (λ bs. marked_sum bs coins) restored),
              (
                length-set s.included i true ∙ l,
                omega (arith, t, marked_sum-set-true s.included coins i c l e n),
                ground (arith, r),
              ),
            ))
        | inr u ↦ rw r (
            rw u (
              ap length restored ∙ l,
              omega (arith, t, ap (λ bs. marked_sum bs coins) restored),
              (k, b, h),
            ))
      ]
    ]
  where
    restored : set (set s.included i true) i false ≡ s.included
    restored = set-set s.included i true false ∙ set-get_or s.included i n

-- From position `i` on nothing is included.
unfoldable IsFree : ℕ → List Bool → Type 0
IsFree i bs = (j : ℕ) → i ≤ j → get_or bs j false ≡ false

get_or-set_ne :
    (bs : List Bool) (i j : ℕ) (b : Bool) → i < j → get_or (set bs i b) j false ≡ get_or bs j false
get_or-set_ne [] i j b h = refl
get_or-set_ne (c ∷ bs) zero zero b h = ground arith
get_or-set_ne (c ∷ bs) zero (suc j) b h = refl
get_or-set_ne (c ∷ bs) (suc i) zero b h = ground arith
get_or-set_ne (c ∷ bs) (suc i) (suc j) b h = get_or-set_ne bs i j b (omega arith)

get_or-replicate : (n j : ℕ) → get_or (replicate n false) j false ≡ false
get_or-replicate zero j = refl
get_or-replicate (suc n) zero = refl
get_or-replicate (suc n) (suc j) = get_or-replicate n j

try_value-IsFree :
    (target i v : ℕ) (s : Search)
    → IsFree i s.included
    → IsFree (i + 1) (try_value target i v s).included
unfolding IsFree try_value
try_value-IsFree target i v s f j h = elim (Bool-cases (leb target (s.total + v))) [
  | inl r ↦ rw r (
      get_or-set_ne (set s.included i true) i j false (omega arith)
      ∙ get_or-set_ne s.included i j true (omega arith)
      ∙ f j (omega arith))
  | inr r ↦ rw r (get_or-set_ne s.included i j true (omega arith) ∙ f j (omega arith))
]

module _ (random : ℕ → Bool) (goal target : ℕ) (g : goal ≤ target) (coins : List Coin) where
  visit-Sound :
      (first : Bool) (i : ℕ) (c : Coin) (s : Search)
      → get_elem? coins i ≡ some c
      → (first ≡ true → IsFree i s.included)
      → IsSound goal coins s
      → IsSound goal coins (visit random target first i c.value s)
        × (first ≡ true → IsFree (i + 1) (visit random target first i c.value s).included)
  unfolding visit IsSound IsFree
  visit-Sound true i c s e f k = elim (Bool-cases (random s.drawn)) [
    | inl r ↦ rw r (
      try_value-Sound goal target i coins c (record s { drawn = s.drawn + 1 }) g e
          (f refl i (omega arith)) k,
      λ _. try_value-IsFree target i c.value (record s { drawn = s.drawn + 1 }) (f refl),
    )
    | inr r ↦ rw r (k, λ _ j h. f refl j (omega arith))
  ]
  visit-Sound false i c s e f k = elim (Bool-cases (get_or s.included i false)) [
    | inl r ↦ rw r (k, λ h. ground arith)
    | inr r ↦ rw r (try_value-Sound goal target i coins c s g e r k, λ h. ground arith)
  ]

  run_pass-Sound :
      (first : Bool) (i : ℕ) (cs : List Coin) (s : Search)
      → ((j : ℕ) → get_elem? cs j ≡ get_elem? coins (i + j))
      → (first ≡ true → IsFree i s.included)
      → IsSound goal coins s
      → IsSound goal coins (run_pass random target first i cs s)
  unfolding run_pass
  run_pass-Sound first i [] s e f k = k
  run_pass-Sound first i (c ∷ cs) s e f k =
      run_pass-Sound first (i + 1) cs (visit random target first i c.value s)
        (λ j. e (suc j) ∙ ap (get_elem? coins) {x = i + suc j} {y = i + 1 + j} (omega arith)) v.1
        v.0
    where
      v :
          IsSound goal coins (visit random target first i c.value s)
          × (first ≡ true → IsFree (i + 1) (visit random target first i c.value s).included)
      v =
          visit-Sound first i c s
            (ap (get_elem? coins) {x = i} {y = i + 0} (omega arith) ∙ sym (e 0)) f k

  marked_sum-none : (cs : List Coin) → marked_sum (replicate (length cs) false) cs ≡ 0
  unfolding marked_sum
  marked_sum-none [] = refl
  marked_sum-none (c ∷ cs) = omega (arith, marked_sum-none cs)

  run_passes-Sound :
      (s : Search) → IsBest goal coins s → IsSound goal coins (run_passes random target coins s)
  unfolding run_passes IsFree IsSound IsBest
  run_passes-Sound s k = choose first.reached
    where
      first : Search
      first =
          run_pass random target true 0 coins
            (record s { included = replicate (length coins) false; total = 0; reached = false })

      first_Sound : IsSound goal coins first
      first_Sound =
          run_pass-Sound true 0 coins _
            (λ j. ap (get_elem? coins) {x = j} {y = 0 + j} (omega arith))
            (λ _ j _. get_or-replicate (length coins) j)
            (length-replicate (length coins) false, sym (marked_sum-none coins), k)

      choose :
          (b : Bool)
          → IsSound goal coins (if b then first else run_pass random target false 0 coins first)
      choose true = first_Sound
      choose false =
          run_pass-Sound false 0 coins first
            (λ j. ap (get_elem? coins) {x = j} {y = 0 + j} (omega arith)) (λ e. ground arith)
            first_Sound

  search_loop-Best :
      (iterations : ℕ) (s : Search)
      → IsBest goal coins s
      → IsBest goal coins (search_loop random target iterations coins s)
  unfolding search_loop
  search_loop-Best zero s k = k
  search_loop-Best (suc iterations) s k =
      choose (s.best_value == target)
        (search_loop-Best iterations next (Sound-Best goal coins next (run_passes-Sound s k)))
    where
      next : Search
      next = run_passes random target coins s

      choose :
          (b : Bool)
          → IsBest goal coins (search_loop random target iterations coins next)
          → IsBest goal coins (if b then s else search_loop random target iterations coins next)
      choose true r = k
      choose false r = r

marked_sum-all : (cs : List Coin) → marked_sum (replicate (length cs) true) cs ≡ sum cs
unfolding marked_sum sum total
marked_sum-all [] = refl
marked_sum-all (c ∷ cs) = ap (λ n. c.value + n) (marked_sum-all cs)

pub sum-picked : (bs : List Bool) (cs : List Coin) → sum (picked bs cs) ≡ marked_sum bs cs
unfolding marked_sum sum total picked
sum-picked [] cs = refl
sum-picked (b ∷ bs) [] = refl
sum-picked (true ∷ bs) (c ∷ cs) = ap (λ n. c.value + n) (sum-picked bs cs)
sum-picked (false ∷ bs) (c ∷ cs) = omega (arith, sum-picked bs cs)

-- When the coins together reach the goal, the subset that is returned does, and the amount that is
-- returned is its sum.
pub approximate_best_subset-sum :
    (random : ℕ → Bool) (goal target : ℕ) (coins : List Coin) (iterations : ℕ)
    → goal ≤ target
    → goal ≤ sum coins
    → (goal ≤ (approximate_best_subset random target coins (sum coins) iterations).1)
      × ((approximate_best_subset random target coins (sum coins) iterations).1
          ≡ sum
              (picked (approximate_best_subset random target coins (sum coins) iterations).0 coins))
unfolding approximate_best_subset IsBest
approximate_best_subset-sum random goal target coins iterations g h =
    (found.2, found.1 ∙ sym (sum-picked _ coins))
  where
    start : Search
    start = record {
      included = [];
      total = 0;
      reached = false;
      best = replicate (length coins) true;
      best_value = sum coins;
      drawn = 0;
    }

    found : IsBest goal coins (search_loop random target iterations coins start)
    found =
        search_loop-Best random goal target g coins iterations start
          (length-replicate (length coins) true, sym (marked_sum-all coins), h)
