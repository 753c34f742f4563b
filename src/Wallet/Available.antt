-- ===== src/Wallet/Available.antt =====
-- wallet.cpp: AvailableCoins, and the locked coins. What main.h and wallet.h say of a transaction and
-- of its outputs, in the chain of the moment, are fields of the wallet's transactions here.
pub mod Spends
use mathlib.Core.Bool.{◌&&◌, ◌||◌, Bool, false, not, true}
use tri_tip.Prelude.{
  ap, arith, Bool-cases, drop, get_or, if◌then◌else◌, inl, inr, leb, length, length-append, List,
  lt→ltb, ltb, ltb→lt, map, none, Option, Option-cases, refl, set, length-set, some, suc, sym, take,
  zero, ℕ, ◌%◌, ◌*◌, ◌++◌, ◌+◌, ◌-◌, ◌/◌, ◌<◌, ◌==◌, ◌≡◌, ◌^◌, ◌∙◌, ◌∷◌, ◌≢◌, ◌≤◌, ◌⊎◌, [],
  replicate,
}
use tri_tip.Prelude.Int.{ℤ, pos, pos_part, ltb_ℤ}
use tri_tip.Core.OutPoint.{OutPoint, equal}
use tri_tip.Wallet.Subset.{Coin}
use tri_tip.Wallet.Select.{select_coins}

-- `vout[i]` with IsMine and IsSpent of it
pub record Output : Type 0 where
  pub value : ℤ
  pub is_mine : Bool
  pub is_spent : Bool

-- The answers of IsFinalTx, IsConfirmed, IsCoinBase, GetBlocksToMaturity, GetDepthInMainChain and
-- IsFromMe
pub record WalletTx : Type 0 where
  pub outputs : List Output
  pub is_final : Bool
  pub is_confirmed : Bool
  pub is_coin_base : Bool
  pub blocks_to_maturity : ℕ
  pub depth : ℕ
  pub is_from_me : Bool

-- `setLockedCoins`, a set
unfoldable pub count_coin : OutPoint → List OutPoint → ℕ
unfolding equal
count_coin o [] = 0
count_coin o (p ∷ ps) = (if equal p o then 1 else 0) + count_coin o ps

unfoldable pub is_locked_coin : ℕ → ℕ → List OutPoint → Bool
unfolding count_coin
is_locked_coin hash n locked = ltb 0 (count_coin (record { hash = hash; n = n }) locked)

unfoldable pub lock_coin : OutPoint → List OutPoint → List OutPoint
unfolding count_coin
lock_coin o locked = if ltb 0 (count_coin o locked) then locked else o ∷ locked

unfoldable pub unlock_coin : OutPoint → List OutPoint → List OutPoint
unfolding equal
unlock_coin o [] = []
unlock_coin o (p ∷ ps) = let rest = unlock_coin o ps in if equal p o then rest else p ∷ rest

unfoldable pub unlock_all_coins : List OutPoint → List OutPoint
unlock_all_coins locked = []

-- The loop over the outputs of a transaction, from the output `i` on
unfoldable pub available_outputs : List OutPoint → ℕ → WalletTx → ℕ → List Output → List Coin
unfolding is_locked_coin
available_outputs locked hash tx i [] = []
available_outputs locked hash tx i (o ∷ os) =
    let rest = available_outputs locked hash tx (i + 1) os in
    if not o.is_spent && o.is_mine && not (is_locked_coin hash i locked) && ltb_ℤ (pos 0) o.value
    then record {
      tx = hash;
      index = i;
      value = pos_part o.value;
      depth = tx.depth;
      from_me = tx.is_from_me;
    }
      ∷ rest
    else rest

-- AvailableCoins on mapWallet
unfoldable pub available_coins : List OutPoint → Bool → List (ℕ × WalletTx) → List Coin
unfolding available_outputs
available_coins locked only_confirmed [] = []
available_coins locked only_confirmed ((hash, tx) ∷ wallet) =
    let rest = available_coins locked only_confirmed wallet in
    if not tx.is_final
    then rest
    else if only_confirmed && not tx.is_confirmed
    then rest
    else if tx.is_coin_base && ltb 0 tx.blocks_to_maturity
    then rest
    else available_outputs locked hash tx 0 tx.outputs ++ rest

-- SelectCoins on the coins of the wallet; the value of `fOnlyConfirmed` that the call leaves out stands in wallet.h.
unfoldable pub select_available :
    ℕ
    → (ℕ → List Coin → List Coin)
    → (ℕ → ℕ → ℕ → Bool)
    → ℕ
    → List OutPoint
    → Bool
    → List (ℕ × WalletTx)
    → Option (List Coin × ℕ)
unfolding select_coins available_coins
select_available cent shuffle random target locked only_confirmed wallet =
    select_coins cent shuffle random target (available_coins locked only_confirmed wallet)
