-- ===== src/Wallet/Totals.antt =====
-- wallet.cpp: measures of lists of coins.
use mathlib.Core.Bool.{Bool, false, true}
use tri_tip.Prelude.{
  arith, if◌then◌else◌, List, ltb, none, Option, refl, some, ℕ, ◌++◌, ◌+◌, ◌-◌, ◌≡◌, ◌^◌, ◌∷◌, ◌≤◌,
  [],
}
use tri_tip.Wallet.Subset.{Coin}
use tri_tip.Wallet.Select.{total, is_confirmed, insert_coin, sort_coins, picked}

-- The coins with the confirmations that are asked for
unfoldable pub confirmed_coins : ℕ → ℕ → List Coin → List Coin
confirmed_coins mine theirs [] = []
confirmed_coins mine theirs (c ∷ cs) =
    let rest = confirmed_coins mine theirs cs in
    if is_confirmed mine theirs c then c ∷ rest else rest

-- By any measure of coins the first are no more than the second: with a measure that is 1 on one coin
-- and 0 on others, no coin is there more often.
unfoldable pub IsPart : List Coin → List Coin → Type 0
IsPart cs ds = (f : Coin → ℕ) → total f cs ≤ total f ds

-- Whether a coin has the amount that stands for none
unfoldable pub huge : Coin → ℕ
huge c = if ltb c.value (2 ^ 63 - 1) then 0 else 1

pub total-append : (f : Coin → ℕ) (cs ds : List Coin) → total f (cs ++ ds) ≡ total f cs + total f ds
unfolding total
total-append f [] ds = omega arith
total-append f (c ∷ cs) ds = omega (arith, total-append f cs ds)

pub total-insert_coin :
    (f : Coin → ℕ) (c : Coin) (cs : List Coin) → total f (insert_coin c cs) ≡ f c + total f cs
unfolding total insert_coin
total-insert_coin f c [] = refl
total-insert_coin f c (d ∷ ds) = ground (arith, total-insert_coin f c ds)

pub total-sort_coins : (f : Coin → ℕ) (cs : List Coin) → total f (sort_coins cs) ≡ total f cs
unfolding total sort_coins
total-sort_coins f [] = refl
total-sort_coins f (c ∷ cs) =
    omega (arith, total-insert_coin f c (sort_coins cs), total-sort_coins f cs)

pub total-picked :
    (f : Coin → ℕ) (bs : List Bool) (cs : List Coin) → total f (picked bs cs) ≤ total f cs
unfolding total picked
total-picked f [] cs = omega arith
total-picked f (b ∷ bs) [] = omega arith
total-picked f (true ∷ bs) (c ∷ cs) = omega (arith, total-picked f bs cs)
total-picked f (false ∷ bs) (c ∷ cs) = omega (arith, total-picked f bs cs)

-- A measure of the confirmed coins is a measure of all.
pub total-confirmed_coins :
    (f : Coin → ℕ) (mine theirs : ℕ) (cs : List Coin)
    → total f (confirmed_coins mine theirs cs)
      ≡ total (λ c. if is_confirmed mine theirs c then f c else 0) cs
unfolding total confirmed_coins
total-confirmed_coins f mine theirs [] = refl
total-confirmed_coins f mine theirs (c ∷ cs) =
    ground (arith, total-confirmed_coins f mine theirs cs)

unfoldable pub larger_total : (Coin → ℕ) → Option Coin → ℕ
larger_total f none = 0
larger_total f (some c) = f c
