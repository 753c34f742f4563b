-- ===== src/Wallet/Scanned.antt =====
-- wallet.cpp: how SelectCoinsMinConf divides the coins.
use tri_tip.Prelude.{
  arith, Bool-cases, inl, inr, List, ltb, none, Option, Option-cases, some, ℕ, ◌+◌, ◌==◌, ◌≡◌, ◌∷◌,
  ◌≤◌, [],
}
use tri_tip.Wallet.Subset.{Coin}
use tri_tip.Wallet.Select.{
  total, sum, Sorted, Scan, exact, scanned, is_confirmed, larger_value, sort_coin, scan_coins,
}
use tri_tip.Wallet.Totals.{confirmed_coins, huge, total-append, larger_total}

unfoldable pub Reaches : ℕ → Option Coin → Type 0
Reaches target none = Unit {0}
Reaches target (some c) = target ≤ c.value

unfoldable pub WellSorted : ℕ → Sorted → Type 0
unfolding Reaches
WellSorted target s = (s.total_lower ≡ sum s.values) × Reaches target s.larger

-- What the loop over `cs` finds from `s` on: a coin of the target's amount, or the coins divided; they
-- are coins of `s` and of `cs`, and without a larger coin the smaller are all.
unfoldable pub Divides : ℕ → List Coin → Sorted → Scan → Type 0
unfolding WellSorted larger_total
Divides target cs s (exact c) =
    (c.value ≡ target)
    × ((f : Coin → ℕ) → f c ≤ total f s.values + larger_total f s.larger + total f cs)
Divides target cs s (scanned t) =
    WellSorted target t
    × ((f : Coin → ℕ)
        → total f t.values + larger_total f t.larger
          ≤ total f s.values + larger_total f s.larger + total f cs)
    × (t.larger ≡ none → (s.larger ≡ none) × (t.total_lower ≡ s.total_lower + sum cs))

sort_coin-WellSorted :
    (cent : ℕ) (target : ℕ) (c : Coin) (s : Sorted)
    → WellSorted target s
    → WellSorted target (sort_coin cent target c s)
unfolding WellSorted sort_coin Reaches sum total
sort_coin-WellSorted cent target c s (l, r) = elim (Bool-cases (ltb c.value (target + cent))) [
  | inl e ↦ rw e (omega (arith, l, total-append (λ d. d.value) s.values (c ∷ [])), r)
  | inr e ↦ elim (Bool-cases (ltb c.value (larger_value s.larger))) [
    | inl h ↦ rw e (rw h (l, ground (arith, e)))
    | inr h ↦ rw e (rw h (l, r))
  ]
]

sort_coin-total :
    (cent : ℕ) (f : Coin → ℕ) (target : ℕ) (c : Coin) (s : Sorted)
    → total f (sort_coin cent target c s).values + larger_total f (sort_coin cent target c s).larger
      ≤ total f s.values + larger_total f s.larger + f c
unfolding sort_coin total larger_total
sort_coin-total cent f target c s = ground (arith, total-append f s.values (c ∷ []))

sort_coin-none :
    (cent : ℕ) (target : ℕ) (c : Coin) (s : Sorted)
    → huge c ≡ 0
    → (sort_coin cent target c s).larger ≡ none
    → (s.larger ≡ none) × ((sort_coin cent target c s).total_lower ≡ s.total_lower + c.value)
unfolding sort_coin huge larger_value
sort_coin-none cent target c s h e = elim (Option-cases s.larger) [
  | inl n ↦ (n, ground (arith, h, e, n))
  | inr (d, n) ↦ ground (arith, h, e, n)
]

module _ (cent target mine theirs : ℕ) where
  -- A coin that the loop sorts in, before the rest
  Divides-sort_coin :
      (c : Coin) (cs : List Coin) (s : Sorted) (r : Scan)
      → huge c ≡ 0
      → Divides target cs (sort_coin cent target c s) r
      → Divides target (c ∷ cs) s r
  unfolding Divides total sum
  Divides-sort_coin c cs s (exact d) h (v, f) =
      (v, λ g. omega (arith, f g, sort_coin-total cent g target c s))
  Divides-sort_coin c cs s (scanned t) h (w, f, n) = (
    w,
    (λ g. omega (arith, f g, sort_coin-total cent g target c s)),
    λ e. (
      (sort_coin-none cent target c s h (n e).0).0,
      omega (arith, (n e).1, (sort_coin-none cent target c s h (n e).0).1),
    ),
  )

  pub scan_coins-Divides :
      (cs : List Coin) (s : Sorted)
      → total huge (confirmed_coins mine theirs cs) ≡ 0
      → WellSorted target s
      → Divides target (confirmed_coins mine theirs cs) s (scan_coins cent target mine theirs cs s)
  unfolding scan_coins confirmed_coins Divides total sum
  scan_coins-Divides [] s h w = (w, (λ f. omega arith), λ e. (e, omega arith))
  scan_coins-Divides (c ∷ cs) s h w = elim (Bool-cases (is_confirmed mine theirs c)) [
    | inr e ↦ rw e (scan_coins-Divides cs s (ground (arith, h, e)) w)
    | inl e ↦ elim (Bool-cases (c.value == target)) [
      | inl v ↦ rw e (rw v (ground (arith, v), λ f. omega arith))
      | inr v ↦ rw e (
          rw v (
            Divides-sort_coin c (confirmed_coins mine theirs cs) s _ (ground (arith, h, e)) (
              scan_coins-Divides cs (sort_coin cent target c s) (ground (arith, h, e))
                (sort_coin-WellSorted cent target c s w))))
    ]
  ]
