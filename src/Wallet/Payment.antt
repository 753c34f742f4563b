-- ===== src/Wallet/Payment.antt =====
-- wallet.cpp: SelectCoins, with its three attempts.
use tri_tip.Wallet.Select.{or_else}
use mathlib.Core.Bool.{Bool}
use tri_tip.Prelude.{
  ◌+◌, ◌<◌, ◌-◌, ◌^◌, arith, if◌then◌else◌, List, none, Option, refl, some, sym, ℕ, ◌≡◌, ◌∙◌, ◌∷◌,
  ◌≤◌, [],
}
use tri_tip.Wallet.Subset.{Coin}
use tri_tip.Wallet.Select.{total, sum, is_confirmed, select_coins_min_conf, select_coins}
use tri_tip.Wallet.Totals.{confirmed_coins, IsPart, huge, total-confirmed_coins}
use tri_tip.Wallet.Scanned.{WellSorted, Reaches, scan_coins-Divides}
use tri_tip.Wallet.Funds.{Pays, select_scanned-Pays}

-- The shuffle returns the coins in another order: no measure of them changes.
unfoldable pub Rearranges : (List Coin → List Coin) → Type 0
Rearranges shuffle = (f : Coin → ℕ) (cs : List Coin) → total f (shuffle cs) ≡ total f cs

pub total-confirmed_coins_le :
    (f : Coin → ℕ) (mine theirs : ℕ) (cs : List Coin)
    → total f (confirmed_coins mine theirs cs) ≤ total f cs
unfolding total confirmed_coins
total-confirmed_coins_le f mine theirs [] = omega arith
total-confirmed_coins_le f mine theirs (c ∷ cs) =
    ground (arith, total-confirmed_coins_le f mine theirs cs)

-- A rearrangement of the coins makes no difference to the pool.
Pays-shuffle :
    (shuffle : List Coin → List Coin) (target mine theirs : ℕ) (coins : List Coin)
    (o : Option (List Coin × ℕ))
    → Rearranges shuffle
    → Pays target (confirmed_coins mine theirs (shuffle coins)) o
    → Pays target (confirmed_coins mine theirs coins) o
unfolding Pays IsPart Rearranges sum
Pays-shuffle shuffle target mine theirs coins o r p = step o p
  where
    same :
        (f : Coin → ℕ)
        → total f (confirmed_coins mine theirs (shuffle coins))
          ≡ total f (confirmed_coins mine theirs coins)
    same f =
        total-confirmed_coins f mine theirs (shuffle coins)
        ∙ r (λ c. if is_confirmed mine theirs c then f c else 0) coins
        ∙ sym (total-confirmed_coins f mine theirs coins)

    step :
        (o : Option (List Coin × ℕ))
        → Pays target (confirmed_coins mine theirs (shuffle coins)) o
        → Pays target (confirmed_coins mine theirs coins) o
    step none p = omega (arith, p, same (λ c. c.value))
    step (some (cs, v)) (e, h, q) = (e, h, λ f. omega (arith, q f, same f))

select_coins_min_conf-Pays :
    (cent : ℕ) (shuffle : List Coin → List Coin) (random : ℕ → ℕ → Bool) (target mine theirs : ℕ)
    (coins : List Coin)
    → Rearranges shuffle
    → total huge coins ≡ 0
    → Pays target
        (confirmed_coins mine theirs coins)
        (select_coins_min_conf cent shuffle random target mine theirs coins)
unfolding select_coins_min_conf Rearranges WellSorted Reaches sum total
select_coins_min_conf-Pays cent shuffle random target mine theirs coins r h =
    Pays-shuffle shuffle target mine theirs coins _ r (
      select_scanned-Pays cent random target (confirmed_coins mine theirs (shuffle coins)) _ (
        scan_coins-Divides cent target mine theirs (shuffle coins) _
          (omega
            (arith, h, r huge coins, total-confirmed_coins_le huge mine theirs (shuffle coins)))
          (refl, tt)))

-- With fewer confirmations asked for there are more coins.
total-confirmed_coins_mono :
    (f : Coin → ℕ) (mine theirs mine' theirs' : ℕ) (cs : List Coin)
    → mine' ≤ mine
    → theirs' ≤ theirs
    → total f (confirmed_coins mine theirs cs) ≤ total f (confirmed_coins mine' theirs' cs)
unfolding total confirmed_coins is_confirmed
total-confirmed_coins_mono f mine theirs mine' theirs' [] h k = omega arith
total-confirmed_coins_mono f mine theirs mine' theirs' (c ∷ cs) h k =
    ground (arith, total-confirmed_coins_mono f mine theirs mine' theirs' cs h k)

-- An attempt that asks for more confirmations, before another attempt
or_else-Pays :
    (target mine theirs : ℕ) (coins : List Coin) (o other : Option (List Coin × ℕ))
    → Pays target (confirmed_coins mine theirs coins) o
    → 0 ≤ mine
    → 1 ≤ theirs
    → Pays target (confirmed_coins 0 1 coins) other
    → Pays target (confirmed_coins 0 1 coins) (or_else o other)
unfolding Pays IsPart or_else
or_else-Pays target mine theirs coins none other p h k q = q
or_else-Pays target mine theirs coins (some (cs, v)) other (e, g, p) h k q =
    (e, g, λ f. omega (arith, p f, total-confirmed_coins_mono f mine theirs 0 1 coins h k))

-- When all the coins have less than 2^63 - 1, none of them has more.
none_huge : (cs : List Coin) → sum cs < 2 ^ 63 - 1 → total huge cs ≡ 0
unfolding total huge sum
none_huge [] h = refl
none_huge (c ∷ cs) h = ground (arith, none_huge cs (omega (arith, h)))

-- SelectCoins, for shuffles that rearrange the coins, whatever the random bits: when the coins of the wallet's own
-- payments and the others with one confirmation are too few for the target, there is no selection, and when there is
-- none, they are too few. A selection has the amount that is returned, which reaches the
-- target, and takes no coin that is not among those or more often than it is. The coins, the target and a cent
-- together are below 2^63 - 1.
pub select_coins-Pays :
    (cent : ℕ) (shuffle : ℕ → List Coin → List Coin) (random : ℕ → ℕ → ℕ → Bool) (target : ℕ)
    (coins : List Coin)
    → ((n : ℕ) → Rearranges (shuffle n))
    → sum coins + target + cent < 2 ^ 63 - 1
    → Pays target (confirmed_coins 0 1 coins) (select_coins cent shuffle random target coins)
unfolding select_coins
select_coins-Pays cent shuffle random target coins r h =
    or_else-Pays target 1 6 coins _ _
      (select_coins_min_conf-Pays cent (shuffle 0) (random 0) target 1 6 coins (r 0) small)
      (omega arith) (omega arith)
      (or_else-Pays target 1 1 coins _ _
        (select_coins_min_conf-Pays cent (shuffle 1) (random 1) target 1 1 coins (r 1) small)
        (omega arith) (omega arith)
        (select_coins_min_conf-Pays cent (shuffle 2) (random 2) target 0 1 coins (r 2) small))
  where
    small : total huge coins ≡ 0
    small = none_huge coins (omega (arith, h))
