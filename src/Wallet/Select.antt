-- ===== src/Wallet/Select.antt =====
-- wallet.cpp: SelectCoinsMinConf and SelectCoins, with amounts as in Wallet.Subset. The amount CENT of
-- util.h, which is not in the repository, is the parameter `cent`.
use mathlib.Core.Bool.{◌&&◌, ◌||◌, Bool, not}
use tri_tip.Prelude.{
  if◌then◌else◌, leb, List, ltb, none, Option, some, ℕ, ◌++◌, ◌+◌, ◌-◌, ◌==◌, ◌^◌, ◌∷◌, [],
}
use tri_tip.Wallet.Subset.{Coin, approximate_best_subset}

unfoldable pub total : (Coin → ℕ) → List Coin → ℕ
total f [] = 0
total f (c ∷ cs) = f c + total f cs

-- The coins that are smaller than the target, with their sum, and the smallest larger coin.
pub record Sorted : Type 0 where
  pub values : List Coin
  pub total_lower : ℕ
  pub larger : Option Coin

pub data Scan : Type 0 where
  exact : Coin → Scan
  scanned : Sorted → Scan

unfoldable pub is_confirmed : ℕ → ℕ → Coin → Bool
is_confirmed mine theirs c = not (ltb c.depth (if c.from_me then mine else theirs))

-- The amount of the smallest larger coin, or the largest number of 64 bits with sign
unfoldable pub larger_value : Option Coin → ℕ
larger_value none = 2 ^ 63 - 1
larger_value (some c) = c.value

unfoldable pub sort_coin : ℕ → ℕ → Coin → Sorted → Sorted
unfolding larger_value
sort_coin cent target c s =
    if ltb c.value (target + cent)
    then record s { values = s.values ++ c ∷ []; total_lower = s.total_lower + c.value }
    else if ltb c.value (larger_value s.larger)
    then record s { larger = some c }
    else s

-- The loop over the coins, which ends at one of exactly the target
unfoldable pub scan_coins : ℕ → ℕ → ℕ → ℕ → List Coin → Sorted → Scan
unfolding is_confirmed sort_coin
scan_coins cent target mine theirs [] s = scanned s
scan_coins cent target mine theirs (c ∷ cs) s =
    let skip = scan_coins cent target mine theirs cs s in
    let next = scan_coins cent target mine theirs cs (sort_coin cent target c s) in
    if not (is_confirmed mine theirs c) then skip else if c.value == target then exact c else next

-- `sort`, by falling value
unfoldable pub insert_coin : Coin → List Coin → List Coin
insert_coin c [] = c ∷ []
insert_coin c (d ∷ ds) =
    let rest = insert_coin c ds in if ltb c.value d.value then d ∷ rest else c ∷ d ∷ ds

unfoldable pub sort_coins : List Coin → List Coin
unfolding insert_coin
sort_coins [] = []
sort_coins (c ∷ cs) = insert_coin c (sort_coins cs)

unfoldable pub picked : List Bool → List Coin → List Coin
picked [] cs = []
picked (b ∷ bs) [] = []
picked (b ∷ bs) (c ∷ cs) = let rest = picked bs cs in if b then c ∷ rest else rest

unfoldable pub sum : List Coin → ℕ
unfolding total
sum = total (λ c. c.value)

-- A selection: the coins, which are distinct if those given are, and nValueRet.
unfoldable pub selection : List Coin → List Coin × ℕ
unfolding sum
selection cs = (cs, sum cs)

unfoldable pub best_or_larger : ℕ → ℕ → List Coin → Option Coin → List Bool × ℕ → List Coin × ℕ
unfolding selection picked
best_or_larger cent target values none b = selection (picked b.0 values)
best_or_larger cent target values (some c) b =
    if (not (b.1 == target) && ltb b.1 (target + cent)) || leb c.value b.1
    then selection (c ∷ [])
    else selection (picked b.0 values)

-- `random` gives the bits of each of the two searches.
unfoldable pub search_subset : ℕ → (ℕ → ℕ → Bool) → ℕ → List Coin → ℕ → List Bool × ℕ
unfolding approximate_best_subset
search_subset cent random target values total_lower =
    let b = approximate_best_subset (random 0) target values total_lower 1000 in
    let again = approximate_best_subset (random 1) (target + cent) values total_lower 1000 in
    if not (b.1 == target) && leb (target + cent) total_lower then again else b

-- What follows the loop over the coins; `none` is the result false.
unfoldable pub select_scanned : ℕ → (ℕ → ℕ → Bool) → ℕ → Scan → Option (List Coin × ℕ)
unfolding selection search_subset best_or_larger sort_coins
select_scanned cent random target (exact c) = some (selection (c ∷ []))
select_scanned cent random target (scanned s) =
    if s.total_lower == target
    then some (selection s.values)
    else if ltb s.total_lower target
    then elim s.larger [ none ↦ none | some c ↦ some (selection (c ∷ [])) ]
    else let values = sort_coins s.values in
      some (
        best_or_larger cent target values s.larger
          (search_subset cent random target values s.total_lower))

unfoldable pub select_coins_min_conf :
    ℕ → (List Coin → List Coin) → (ℕ → ℕ → Bool) → ℕ → ℕ → ℕ → List Coin → Option (List Coin × ℕ)
unfolding scan_coins select_scanned
select_coins_min_conf cent shuffle random target mine theirs coins =
    select_scanned cent random target (
      scan_coins cent target mine theirs (shuffle coins)
        (record { values = []; total_lower = 0; larger = none }))

-- `||` of two attempts
unfoldable pub or_else : Option (List Coin × ℕ) → Option (List Coin × ℕ) → Option (List Coin × ℕ)
or_else (some s) other = some s
or_else none other = other

-- Each attempt has its shuffle and its bits.
unfoldable pub select_coins :
    ℕ → (ℕ → List Coin → List Coin) → (ℕ → ℕ → ℕ → Bool) → ℕ → List Coin → Option (List Coin × ℕ)
unfolding select_coins_min_conf or_else
select_coins cent shuffle random target coins =
    or_else (select_coins_min_conf cent (shuffle 0) (random 0) target 1 6 coins) (
      or_else (select_coins_min_conf cent (shuffle 1) (random 1) target 1 1 coins)
        (select_coins_min_conf cent (shuffle 2) (random 2) target 0 1 coins))
