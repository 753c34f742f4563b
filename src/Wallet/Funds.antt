-- ===== src/Wallet/Funds.antt =====
-- wallet.cpp: what a payment of a target is.
use mathlib.Core.Path.{subst}
use tri_tip.Prelude.{leb→le}
use mathlib.Core.Bool.{◌&&◌, ◌||◌, Bool, false, not, true}
use tri_tip.Prelude.{
  arith, Bool-cases, if◌then◌else◌, inl, inr, leb, List, ltb, none, Option, refl, some, sym, ℕ, ◌+◌,
  ◌<◌, ◌==◌, ◌≡◌, ◌∙◌, ◌∷◌, ◌≤◌, ◌⊎◌, [],
}
use tri_tip.Wallet.Subset.{Coin, approximate_best_subset}
use tri_tip.Wallet.Select.{
  total, sum, Sorted, Scan, exact, scanned, sort_coins, picked, selection, best_or_larger,
  search_subset, select_scanned,
}
use tri_tip.Wallet.Totals.{IsPart, total-sort_coins, total-picked, larger_total}
use tri_tip.Wallet.Scanned.{WellSorted, Reaches, Divides}
use tri_tip.Wallet.Best.{approximate_best_subset-sum}

-- A payment of the target from a pool of coins: the amount is that of the coins chosen, reaches
-- the target, and no coin is taken more often than it is there. There is none when the pool is too small.
unfoldable pub Pays : ℕ → List Coin → Option (List Coin × ℕ) → Type 0
unfolding IsPart
Pays target pool none = sum pool < target
Pays target pool (some (cs, v)) = (v ≡ sum cs) × (target ≤ v) × IsPart cs pool

selection-Pays :
    (target : ℕ) (pool cs : List Coin)
    → target ≤ sum cs
    → IsPart cs pool
    → Pays target pool (some (selection cs))
unfolding Pays selection
selection-Pays target pool cs h p = (refl, h, p)

Found : ℕ → List Coin → List Bool × ℕ → Type 0
Found target values b = (target ≤ b.1) × (b.1 ≡ sum (picked b.0 values))

search_subset-Found :
    (cent : ℕ) (random : ℕ → ℕ → Bool) (target : ℕ) (values : List Coin)
    → target ≤ sum values
    → Found target values (search_subset cent random target values (sum values))
unfolding search_subset Found
search_subset-Found cent random target values h =
    choose (not (b.1 == target)) (Bool-cases (leb (target + cent) (sum values)))
  where
    b : List Bool × ℕ
    b = approximate_best_subset (random 0) target values (sum values) 1000

    again : List Bool × ℕ
    again = approximate_best_subset (random 1) (target + cent) values (sum values) 1000

    b_Found : Found target values b
    b_Found = approximate_best_subset-sum (random 0) target target values 1000 (omega arith) h

    again_Found : target + cent ≤ sum values → Found target values again
    again_Found k =
        approximate_best_subset-sum (random 1) target (target + cent) values 1000 (omega arith) h

    choose :
        (t : Bool)
        → (leb (target + cent) (sum values) ≡ true) ⊎ (leb (target + cent) (sum values) ≡ false)
        → Found target values (if t && leb (target + cent) (sum values) then again else b)
    choose true (inl e) = rw e (again_Found (leb→le (target + cent) (sum values) e))
    choose true (inr e) = rw e b_Found
    choose false c = b_Found

best_or_larger-Pays :
    (cent : ℕ) (target : ℕ) (values pool : List Coin) (larger : Option Coin) (b : List Bool × ℕ)
    → Found target values b
    → Reaches target larger
    → ((f : Coin → ℕ) → total f values + larger_total f larger ≤ total f pool)
    → Pays target pool (some (best_or_larger cent target values larger b))
unfolding best_or_larger Found Reaches IsPart larger_total
best_or_larger-Pays cent target values pool none b (h, e) r p =
    selection-Pays target pool (picked b.0 values) (omega (arith, e))
      (λ f. omega (arith, p f, total-picked f b.0 values))
best_or_larger-Pays cent target values pool (some c) b (h, e) r p =
    choose ((not (b.1 == target) && ltb b.1 (target + cent)) || leb c.value b.1)
  where
    choose :
        (t : Bool)
        → Pays target pool (some (if t then selection (c ∷ []) else selection (picked b.0 values)))
    choose true = selection-Pays target pool (c ∷ []) (omega (arith, r)) (λ f. omega (arith, p f))
    choose false =
        selection-Pays target pool (picked b.0 values) (omega (arith, e))
          (λ f. omega (arith, p f, total-picked f b.0 values))

-- What SelectCoinsMinConf does after the loop over the coins, by its tests; `found` is the result of the
-- search.
tests-Pays :
    (target : ℕ) (pool : List Coin) (s : Sorted) (found : List Coin × ℕ) (equal less : Bool)
    → (s.total_lower == target) ≡ equal
    → ltb s.total_lower target ≡ less
    → Divides target pool (record { values = []; total_lower = 0; larger = none }) (scanned s)
    → (target ≤ s.total_lower → Pays target pool (some found))
    → Pays target pool (
        if equal
        then some (selection s.values)
        else if less
        then elim s.larger [ none ↦ none | some c ↦ some (selection (c ∷ [])) ]
        else some found)
unfolding Divides WellSorted IsPart total Pays sum larger_total Reaches
tests-Pays target pool s found true less e h ((l, r), p, n) k =
    selection-Pays target pool s.values (ground (arith, e, l)) (λ f. omega (arith, p f))
tests-Pays target pool s found false false e h d k = k (ground (arith, h))
tests-Pays target pool s found false true e h ((l, r), p, n) k = larger s.larger r p n
  where
    larger_none : Option Coin
    larger_none = none

    larger :
        (o : Option Coin)
        → Reaches target o
        → ((f : Coin → ℕ)
            → total f s.values + larger_total f o ≤ 0 + larger_total f none + total f pool)
        → (o ≡ none → (larger_none ≡ none) × (s.total_lower ≡ 0 + sum pool))
        → Pays target pool (elim o [ none ↦ none | some c ↦ some (selection (c ∷ [])) ])
    larger none r p n = ground (arith, h, (n refl).1)
    larger (some c) r p n =
        selection-Pays target pool (c ∷ []) (omega (arith, r)) (λ f. omega (arith, p f))

found-Pays :
    (cent : ℕ) (random : ℕ → ℕ → Bool) (target : ℕ) (pool : List Coin) (s : Sorted)
    → Divides target pool (record { values = []; total_lower = 0; larger = none }) (scanned s)
    → target ≤ s.total_lower
    → Pays target pool (
        some (
          best_or_larger cent target
            (sort_coins s.values)
            s.larger
            (search_subset cent random target (sort_coins s.values) s.total_lower)))
unfolding Divides WellSorted larger_total sum total
found-Pays cent random target pool s ((l, r), p, n) h =
    best_or_larger-Pays cent target (sort_coins s.values) pool s.larger _
      (subst
        (λ n.
          Found target (sort_coins s.values)
            (search_subset cent random target (sort_coins s.values) n))
        same (search_subset-Found cent random target (sort_coins s.values) (omega (arith, same))))
      r (λ f. omega (arith, p f, total-sort_coins f s.values))
  where
    same : sum (sort_coins s.values) ≡ s.total_lower
    same = total-sort_coins (λ c. c.value) s.values ∙ sym l

pub select_scanned-Pays :
    (cent : ℕ) (random : ℕ → ℕ → Bool) (target : ℕ) (pool : List Coin) (r : Scan)
    → Divides target pool (record { values = []; total_lower = 0; larger = none }) r
    → Pays target pool (select_scanned cent random target r)
unfolding select_scanned Divides IsPart total larger_total sum
select_scanned-Pays cent random target pool (exact c) (v, p) =
    selection-Pays target pool (c ∷ []) (omega (arith, v)) (λ f. omega (arith, p f))
select_scanned-Pays cent random target pool (scanned s) d =
    tests-Pays target pool s _ _ _ refl refl d (found-Pays cent random target pool s d)
