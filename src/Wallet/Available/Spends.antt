-- ===== src/Wallet/Available/Spends.antt =====
-- wallet.cpp: what SelectCoins takes of the coins of AvailableCoins.
use tri_tip.Prelude.{◌-◌}
use tri_tip.Prelude.{sym, ◌^◌}
use tri_tip.Prelude.{ap, ◌<◌}
use tri_tip.Prelude.{==_iff, suc, zero, inl, inr, get_elem?, ◌++◌}
use tri_tip.Prelude.Maps.{find}
use tri_tip.Prelude.Int.{pos}
use tri_tip.Prelude.Int.{ltb_ℤ}
use mathlib.Core.Path.{ap₂}
use tri_tip.Prelude.Int.{pos_part}
use mathlib.Core.Bool.{◌&&◌, Bool, false, not, true}
use tri_tip.Prelude.{
  arith, Bool-cases, if◌then◌else◌, inl, inr, leb, List, none, Option, refl, some, ℕ, ◌+◌, ◌==◌,
  ◌≡◌, ◌∙◌, ◌∷◌, ◌≤◌, ◌⊎◌, [],
}
use tri_tip.Prelude.Maps.{has}
use tri_tip.Core.OutPoint.{OutPoint}
use tri_tip.Wallet.Subset.{Coin}
use tri_tip.Wallet.Select.{total, sum}
use tri_tip.Wallet.Totals.{confirmed_coins, IsPart, total-append}
use tri_tip.Wallet.Funds.{Pays}
use tri_tip.Wallet.Payment.{Rearranges, total-confirmed_coins_le, select_coins-Pays}
use tri_tip.Wallet.Available.{
  Output, WalletTx, is_locked_coin, available_outputs, available_coins, select_available,
}

-- 1 for the coin of an outpoint
unfoldable pub is_coin : ℕ → ℕ → Coin → ℕ
is_coin hash n c = if c.tx == hash && c.index == n then 1 else 0

-- A map has each key once.
unfoldable pub Distinct : List (ℕ × WalletTx) → Type 0
Distinct [] = Unit {0}
Distinct ((hash, tx) ∷ wallet) = (has hash wallet ≡ false) × Distinct wallet

-- No coin of a locked outpoint
available_outputs-locked :
    (locked : List OutPoint) (hash n h : ℕ) (tx : WalletTx) (i : ℕ) (os : List Output)
    → is_locked_coin hash n locked ≡ true
    → total (is_coin hash n) (available_outputs locked h tx i os) ≡ 0
unfolding total is_coin available_outputs
available_outputs-locked locked hash n h tx i [] l = refl
available_outputs-locked locked hash n h tx i (o ∷ os) l =
    step (not o.is_spent && o.is_mine) (is_locked_coin h i locked) (ltb_ℤ (pos 0) o.value)
      (other (Bool-cases (h == hash && i == n)))
      (available_outputs-locked locked hash n h tx (i + 1) os l)
  where
    rest : List Coin
    rest = available_outputs locked h tx (i + 1) os

    coin : Coin
    coin = record {
      tx = h;
      index = i;
      value = pos_part o.value;
      depth = tx.depth;
      from_me = tx.is_from_me;
    }

    other :
        ((h == hash && i == n) ≡ true) ⊎ ((h == hash && i == n) ≡ false)
        → (is_coin hash n coin ≡ 0) ⊎ (is_locked_coin h i locked ≡ true)
    other (inl e) =
        inr (ap₂ (λ a b. is_locked_coin a b locked) (ground (arith, e)) (ground (arith, e)) ∙ l)
    other (inr e) = inl (rw e)

    step :
        (mine taken positive : Bool)
        → (is_coin hash n coin ≡ 0) ⊎ (taken ≡ true)
        → total (is_coin hash n) rest ≡ 0
        → total (is_coin hash n) (if mine && not taken && positive then coin ∷ rest else rest) ≡ 0
    step mine taken positive f z = ground (arith, f, z)

-- From position `i` on there is one coin of an outpoint at the most, and none before.
available_outputs-once :
    (locked : List OutPoint) (hash n h : ℕ) (tx : WalletTx) (i : ℕ) (os : List Output)
    → total (is_coin hash n) (available_outputs locked h tx i os)
      ≤ (if h == hash && leb i n then 1 else 0)
unfolding total is_coin available_outputs
available_outputs-once locked hash n h tx i [] = omega arith
available_outputs-once locked hash n h tx i (o ∷ os) =
    ground (arith, available_outputs-once locked hash n h tx (i + 1) os)

-- Whether an output can be spent, as IsSpent, IsMine and its amount have it
output_spendable : Option Output → Bool
output_spendable none = false
output_spendable (some o) =
    if o.is_spent then false else if o.is_mine then ltb_ℤ (pos 0) o.value else false

-- Whether a transaction's outputs can be spent: it is final, confirmed if that is asked for, and mature
tx_spendable : Bool → WalletTx → Bool
tx_spendable only tx =
    if tx.is_final
    then (if only then tx.is_confirmed else true)
      && (if tx.is_coin_base then tx.blocks_to_maturity == 0 else true)
    else false

-- Whether an outpoint is that of an output of the wallet that can be spent
unfoldable pub spendable : Bool → ℕ → ℕ → List (ℕ × WalletTx) → Bool
unfolding output_spendable tx_spendable
spendable only hash n wallet = elim (find hash wallet) [
  | none ↦ false
  | some tx ↦ tx_spendable only tx && output_spendable (get_elem? tx.outputs n)
]

-- From position `i` on: no coin of an output that cannot be spent
available_outputs-unspendable :
    (locked : List OutPoint) (hash n : ℕ) (tx : WalletTx) (i : ℕ) (os : List Output)
    → output_spendable (get_elem? os n) ≡ false
    → total (is_coin hash (i + n)) (available_outputs locked hash tx i os) ≡ 0
unfolding total is_coin available_outputs output_spendable
available_outputs-unspendable locked hash n tx i [] e = refl
available_outputs-unspendable locked hash zero tx i (o ∷ os) e =
    ground (arith, e, available_outputs-once locked hash i hash tx (i + 1) os)
available_outputs-unspendable locked hash (suc n) tx i (o ∷ os) e = ground (
  arith,
  ap (λ k. total (is_coin hash k) (available_outputs locked hash tx (i + 1) os)) (shift i n),
  available_outputs-unspendable locked hash n tx (i + 1) os e,
)
  where
    shift : (i n : ℕ) → i + 1 + n ≡ i + suc n
    shift i n = omega arith

-- Of a transaction with another hash there is no coin of the outpoint.
available_outputs-other :
    (locked : List OutPoint) (hash n h : ℕ) (tx : WalletTx) (i : ℕ) (os : List Output)
    → (h == hash) ≡ false
    → total (is_coin hash n) (available_outputs locked h tx i os) ≡ 0
available_outputs-other locked hash n h tx i os e =
    ground (arith, e, available_outputs-once locked hash n h tx i os)

available_coins-locked :
    (locked : List OutPoint) (only : Bool) (hash n : ℕ) (wallet : List (ℕ × WalletTx))
    → is_locked_coin hash n locked ≡ true
    → total (is_coin hash n) (available_coins locked only wallet) ≡ 0
unfolding total available_coins
available_coins-locked locked only hash n [] l = refl
available_coins-locked locked only hash n ((h, tx) ∷ wallet) l = ground (
  arith,
  available_coins-locked locked only hash n wallet l,
  available_outputs-locked locked hash n h tx 0 tx.outputs l,
  total-append (is_coin hash n) (available_outputs locked h tx 0 tx.outputs)
      (available_coins locked only wallet),
)

available_coins-once :
    (locked : List OutPoint) (only : Bool) (hash n : ℕ) (wallet : List (ℕ × WalletTx))
    → Distinct wallet
    → total (is_coin hash n) (available_coins locked only wallet)
      ≤ (if has hash wallet then 1 else 0)
unfolding total available_coins Distinct
available_coins-once locked only hash n [] d = omega arith
available_coins-once locked only hash n ((h, tx) ∷ wallet) (m, d) = ground (
  arith,
  available_coins-once locked only hash n wallet d,
  available_outputs-once locked hash n h tx 0 tx.outputs,
  total-append (is_coin hash n) (available_outputs locked h tx 0 tx.outputs)
      (available_coins locked only wallet),
)

-- What the loop of AvailableCoins adds for a transaction
offered : List OutPoint → Bool → ℕ → WalletTx → List Coin
offered locked only h tx =
    if tx_spendable only tx then available_outputs locked h tx 0 tx.outputs else []

available_coins-offered :
    (locked : List OutPoint) (only : Bool) (h : ℕ) (tx : WalletTx) (wallet : List (ℕ × WalletTx))
    → available_coins locked only ((h, tx) ∷ wallet)
      ≡ offered locked only h tx ++ available_coins locked only wallet
unfolding available_coins offered tx_spendable
available_coins-offered locked only h tx wallet = ground arith

offered-other :
    (locked : List OutPoint) (only : Bool) (hash n h : ℕ) (tx : WalletTx)
    → (h == hash) ≡ false
    → total (is_coin hash n) (offered locked only h tx) ≡ 0
unfolding total offered
offered-other locked only hash n h tx e =
    ground (arith, available_outputs-other locked hash n h tx 0 tx.outputs e)

offered-unspendable :
    (locked : List OutPoint) (only : Bool) (hash n h : ℕ) (tx : WalletTx)
    → h ≡ hash
    → (tx_spendable only tx && output_spendable (get_elem? tx.outputs n)) ≡ false
    → total (is_coin hash n) (offered locked only h tx) ≡ 0
unfolding total offered
offered-unspendable locked only hash n h tx q e =
    ap (λ k. total (is_coin k n) (offered locked only h tx)) (sym q)
    ∙ step (tx_spendable only tx)
        (λ f.
          ap (λ k. total (is_coin h k) (available_outputs locked h tx 0 tx.outputs)) (from_zero n)
          ∙ available_outputs-unspendable locked h n tx 0 tx.outputs f)
        e
  where
    from_zero : (n : ℕ) → n ≡ 0 + n
    from_zero n = omega arith

    step :
        (t : Bool)
        → (output_spendable (get_elem? tx.outputs n) ≡ false
            → total (is_coin h n) (available_outputs locked h tx 0 tx.outputs) ≡ 0)
        → (t && output_spendable (get_elem? tx.outputs n)) ≡ false
        → total (is_coin h n) (if t then available_outputs locked h tx 0 tx.outputs else []) ≡ 0
    step true f e = f e
    step false f e = refl

available_coins-cons :
    (locked : List OutPoint) (only : Bool) (hash n h : ℕ) (tx : WalletTx)
    (wallet : List (ℕ × WalletTx))
    → total (is_coin hash n) (offered locked only h tx) ≡ 0
    → total (is_coin hash n) (available_coins locked only wallet) ≡ 0
    → total (is_coin hash n) (available_coins locked only ((h, tx) ∷ wallet)) ≡ 0
available_coins-cons locked only hash n h tx wallet e f =
    ap (total (is_coin hash n)) (available_coins-offered locked only h tx wallet)
    ∙ omega (
      arith,
      e,
      f,
      total-append (is_coin hash n) (offered locked only h tx) (available_coins locked only wallet),
    )

available_coins-unknown :
    (locked : List OutPoint) (only : Bool) (hash n : ℕ) (wallet : List (ℕ × WalletTx))
    → Distinct wallet
    → has hash wallet ≡ false
    → total (is_coin hash n) (available_coins locked only wallet) ≡ 0
available_coins-unknown locked only hash n wallet d e =
    ground (arith, e, available_coins-once locked only hash n wallet d)

available_coins-unspendable :
    (locked : List OutPoint) (only : Bool) (hash n : ℕ) (wallet : List (ℕ × WalletTx))
    → Distinct wallet
    → spendable only hash n wallet ≡ false
    → total (is_coin hash n) (available_coins locked only wallet) ≡ 0
unfolding Distinct spendable
available_coins-unspendable locked only hash n [] d e =
    available_coins-unknown locked only hash n [] d refl
available_coins-unspendable locked only hash n ((h, tx) ∷ wallet) (m, d) e =
    step (Bool-cases (h == hash)) (available_coins-unspendable locked only hash n wallet d) e
  where
    tests : Option WalletTx → Bool
    tests none = false
    tests (some u) = tx_spendable only u && output_spendable (get_elem? u.outputs n)

    step :
        ((h == hash) ≡ true) ⊎ ((h == hash) ≡ false)
        → (spendable only hash n wallet ≡ false
            → total (is_coin hash n) (available_coins locked only wallet) ≡ 0)
        → spendable only hash n ((h, tx) ∷ wallet) ≡ false
        → total (is_coin hash n) (available_coins locked only ((h, tx) ∷ wallet)) ≡ 0
    step (inl y) ih e =
        available_coins-cons locked only hash n h tx wallet
          (offered-unspendable locked only hash n h tx ((==_iff h hash).0 y) (ground (arith, y, e)))
          (available_coins-unknown locked only hash n wallet d
            (ap (λ k. has k wallet) (sym ((==_iff h hash).0 y)) ∙ m))
    step (inr y) ih e =
        available_coins-cons locked only hash n h tx wallet
          (offered-other locked only hash n h tx y) (ih (ground (arith, y, e)))

-- A payment of the target from the wallet: nothing that is said of none; of a payment, that its coins
-- have the amount that is returned, which reaches the target, that no coin of the wallet is in it twice, that
-- none is in it that is locked, and none whose output cannot be spent.
unfoldable pub SpendsOnce :
    ℕ → List OutPoint → Bool → List (ℕ × WalletTx) → Option (List Coin × ℕ) → Type 0
unfolding is_coin spendable
SpendsOnce target locked only wallet none = Unit {0}
SpendsOnce target locked only wallet (some (cs, v)) =
    (v ≡ sum cs)
    × (target ≤ v)
    × ((hash n : ℕ)
        → (total (is_coin hash n) cs ≤ 1)
          × (is_locked_coin hash n locked ≡ true → total (is_coin hash n) cs ≡ 0)
          × (spendable only hash n wallet ≡ false → total (is_coin hash n) cs ≡ 0))

Pays-SpendsOnce :
    (target : ℕ) (locked : List OutPoint) (only : Bool) (wallet : List (ℕ × WalletTx))
    (o : Option (List Coin × ℕ))
    → Distinct wallet
    → Pays target (confirmed_coins 0 1 (available_coins locked only wallet)) o
    → SpendsOnce target locked only wallet o
unfolding Pays IsPart SpendsOnce
Pays-SpendsOnce target locked only wallet none d p = tt
Pays-SpendsOnce target locked only wallet (some (cs, v)) d (e, h, p) = (
  e,
  h,
  λ hash n.
      let less = p (is_coin hash n) in
      let fewer =
        total-confirmed_coins_le (is_coin hash n) 0 1 (available_coins locked only wallet) in
      (
        ground (arith, less, fewer, available_coins-once locked only hash n wallet d),
        λ l. omega (arith, less, fewer, available_coins-locked locked only hash n wallet l),
        λ u. omega (arith, less, fewer, available_coins-unspendable locked only hash n wallet d u),
      ),
)

-- Of a wallet whose transactions are distinct, SelectCoins on the coins of AvailableCoins spends each coin once
-- at most, no locked coin, and only outputs of the wallet's final and mature transactions, confirmed ones if that is
-- asked for, that are its own, have a positive amount and are not spent. The amount it returns is that of
-- the coins and reaches the target. The shuffles rearrange, and the coins, the target and a cent together are
-- below 2^63 - 1.
pub select_available-SpendsOnce :
    (cent : ℕ) (shuffle : ℕ → List Coin → List Coin) (random : ℕ → ℕ → ℕ → Bool) (target : ℕ)
    (locked : List OutPoint) (only : Bool) (wallet : List (ℕ × WalletTx))
    → ((n : ℕ) → Rearranges (shuffle n))
    → Distinct wallet
    → sum (available_coins locked only wallet) + target + cent < 2 ^ 63 - 1
    → SpendsOnce target locked only wallet
        (select_available cent shuffle random target locked only wallet)
unfolding select_available
select_available-SpendsOnce cent shuffle random target locked only wallet r d h =
    Pays-SpendsOnce target locked only wallet _ d
      (select_coins-Pays cent shuffle random target (available_coins locked only wallet) r h)
