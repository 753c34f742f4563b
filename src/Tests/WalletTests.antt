-- ===== src/Tests/WalletTests.antt =====
-- wallet.cpp, allocators.h and the amounts of util.cpp at concrete inputs.
use tri_tip.Prelude.{◌+◌, ◌<◌, ◌-◌, ◌^◌, none, Option}
use mathlib.Core.Bool.{Bool, false, true}
use tri_tip.Prelude.{arith, List, ltb, refl, some, ℕ, ◌++◌, ◌≡◌, ◌∷◌, []}
use tri_tip.Prelude.Int.{pos}
use tri_tip.Wallet.Subset.{Coin}
use tri_tip.Wallet.Select.{sum, total, select_coins}
use tri_tip.Wallet.Totals.{confirmed_coins}
use tri_tip.Wallet.Funds.{Pays}
use tri_tip.Wallet.Payment.{Rearranges, select_coins-Pays}
use tri_tip.Core.OutPoint.{OutPoint}
use tri_tip.Wallet.Available.{Output, WalletTx, available_coins, select_available}
use tri_tip.Wallet.Available.Spends.{Distinct, SpendsOnce, select_available-SpendsOnce}
use tri_tip.Locked.{Manager, set_resident, lock_range, unlock_range}
use tri_tip.Locked.Ranges.{Range, Fits}
use tri_tip.Locked.Touched.{covers}
use tri_tip.Locked.Histories.{Reached, no_locks, starts, locked, resident-covers}
use tri_tip.Money.{format_money, parse_money}
use tri_tip.Money.RoundTrip.{parse_money-format_money}

abbrev coin_of : ℕ → ℕ → Coin
coin_of tx value = record { tx = tx; index = 0; value = value; depth = 7; from_me = false }

abbrev coins : List Coin
coins = coin_of 1 3000000 ∷ coin_of 2 500000 ∷ coin_of 3 700000 ∷ []

abbrev in_order : ℕ → List Coin → List Coin
in_order n cs = cs

abbrev no_bits : ℕ → ℕ → ℕ → Bool
no_bits attempt search k = false

in_order-Rearranges : (n : ℕ) → Rearranges (in_order n)
unfolding Rearranges
in_order-Rearranges n f cs = refl

coins_small : sum coins + 1200000 + 1000000 < 2 ^ 63 - 1
unfolding sum total
coins_small = omega arith

select_coins-Pays_example :
    Pays 1200000 (confirmed_coins 0 1 coins) (select_coins 1000000 in_order no_bits 1200000 coins)
select_coins-Pays_example =
    select_coins-Pays 1000000 in_order no_bits 1200000 coins in_order-Rearranges coins_small

abbrev key : Range
key = record { address = 5000; size = 32 }

abbrev key_locked : Manager
key_locked = record { histogram = (4096, 1) ∷ []; resident = set_resident 4096 true (λ x. false) }

key-Fits : Fits 4096 key
unfolding Fits
key-Fits = omega arith

one_range : Reached 4096 (key ∷ []) key_locked
unfolding lock_range no_locks
one_range = locked key key-Fits starts refl

resident-covers_example :
    ((x : ℕ) → key_locked.resident x ≡ ltb 0 (covers 4096 (key ∷ []) x))
    × ((r : Range)
        → Fits 4096 r
        → (t : Manager) × (lock_range 4096 r.address r.size key_locked ≡ some t))
    × ((before after : List Range) (r : Range)
        → Fits 4096 r
        → key ∷ [] ≡ before ++ r ∷ after
        → (t : Manager) × (unlock_range 4096 r.address r.size key_locked ≡ some t))
resident-covers_example = resident-covers 4096 (omega arith) (key ∷ []) key_locked one_range

parse_money-format_money_example :
    parse_money 100000000 1000000 (format_money 100000000 (pos 1250000000) false) ≡ some 1250000000
parse_money-format_money_example =
    parse_money-format_money 100000000 1000000 (pos 1250000000) refl refl (omega arith)

abbrev output_of : ℕ → Bool → Output
output_of value is_spent = record { value = pos value; is_mine = true; is_spent = is_spent }

abbrev tx_of : List Output → WalletTx
tx_of outputs = record {
  outputs = outputs;
  is_final = true;
  is_confirmed = true;
  is_coin_base = false;
  blocks_to_maturity = 0;
  depth = 7;
  is_from_me = false;
}

abbrev wallet : List (ℕ × WalletTx)
wallet =
    (3, tx_of (output_of 3000000 false ∷ output_of 500000 true ∷ output_of 600000 false ∷ []))
    ∷ (4, tx_of (output_of 900000 false ∷ []))
    ∷ []

abbrev locked_coins : List OutPoint
locked_coins = record { hash = 3; n = 0 } ∷ []

wallet-Distinct : Distinct wallet
unfolding Distinct
wallet-Distinct = (refl, (refl, tt))

wallet_small : sum (available_coins locked_coins true wallet) + 1200000 + 1000000 < 2 ^ 63 - 1
unfolding sum total available_coins
wallet_small = omega arith

select_available-SpendsOnce_example :
    SpendsOnce 1200000 locked_coins true wallet
      (select_available 1000000 in_order no_bits 1200000 locked_coins true wallet)
select_available-SpendsOnce_example =
    select_available-SpendsOnce 1000000 in_order no_bits 1200000 locked_coins true wallet
      in_order-Rearranges wallet-Distinct wallet_small

abbrev amount : Option (List Coin × ℕ) → ℕ
amount none = 0
amount (some r) = r.1

both_coins :
    amount (select_available 1000000 in_order no_bits 1200000 locked_coins true wallet) ≡ 1500000
unfolding select_available
both_coins = refl
