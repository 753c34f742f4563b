-- ===== src/Core/Coins.antt =====
-- core.h, CCoins: the unspent outputs of a transaction, and spending one of them.
pub mod Spend
pub mod Format
use mathlib.Core.Bool.{◌&&◌, Bool, false, not, true}
use tri_tip.Core.OutPoint.{OutPoint}
use tri_tip.Core.Transaction
use tri_tip.Core.Transaction.{Transaction}
use tri_tip.Core.TxInUndo.{TxInUndo, of_txout}
use tri_tip.Core.TxOut
use tri_tip.Core.TxOut.{TxOut}
use tri_tip.Prelude.{
  [], ◌∷◌, List, Option, get_or, if◌then◌else◌, leb, length, ltb, none, set, some, ℕ, ◌==◌,
}
use tri_tip.Prelude.Equality.{list_eq}

pub record Coins : Type 0 where
  pub coin_base : Bool
  pub vout : List TxOut
  pub height : ℕ
  pub version : ℕ

-- `CCoins(tx, nHeightIn)` and `CCoins()`
unfoldable pub of_transaction : Transaction → ℕ → Coins
of_transaction tx height = record {
  coin_base = Transaction.is_coin_base tx;
  vout = tx.vout;
  height = height;
  version = tx.version;
}

unfoldable pub empty : Coins
empty = record { coin_base = false; vout = []; height = 0; version = 0 }

-- `Cleanup`: the null outputs at the end of `vout` are popped.
unfoldable pub push_unless_last : TxOut → List TxOut → List TxOut
push_unless_last o [] = if TxOut.is_null o then [] else o ∷ []
push_unless_last o (p ∷ ps) = o ∷ p ∷ ps

unfoldable pub pop_nulls : List TxOut → List TxOut
unfolding push_unless_last
pop_nulls [] = []
pop_nulls (o ∷ os) = push_unless_last o (pop_nulls os)

unfoldable pub cleanup : Coins → Coins
unfolding pop_nulls
cleanup c = record c { vout = pop_nulls c.vout }

abbrev bool_eq : Bool → Bool → Bool
bool_eq true b = b
bool_eq false b = not b

unfoldable pub equal : Coins → Coins → Bool
equal a b =
    bool_eq a.coin_base b.coin_base
    && a.height == b.height
    && a.version == b.version
    && list_eq TxOut.equal a.vout b.vout

-- The last lines of `Spend`: metadata goes along with the last output.
unfoldable pub complete : TxInUndo → Coins → TxInUndo
complete u c =
    if length c.vout == 0
    then record u { height = c.height; coin_base = c.coin_base; version = c.version }
    else u

-- `Spend(out, undo)`: `none` for a call that returns false and changes nothing.
unfoldable pub spend : OutPoint → Coins → Option (TxInUndo × Coins)
unfolding cleanup complete of_txout
spend out c =
    if leb (length c.vout) out.n
    then none
    else if TxOut.is_null (get_or c.vout out.n TxOut.null)
    then none
    else let rest = cleanup (record c { vout = set c.vout out.n TxOut.null }) in
      some (complete (of_txout (get_or c.vout out.n TxOut.null)) rest, rest)

-- `Spend(nPos)`: the position is converted to an unsigned int.
unfoldable pub spend_at : ℕ → Coins → Option (TxInUndo × Coins)
unfolding spend
spend_at pos = spend (record { hash = 0; n = pos })

unfoldable pub is_available : ℕ → Coins → Bool
is_available pos c = ltb pos (length c.vout) && not (TxOut.is_null (get_or c.vout pos TxOut.null))

unfoldable pub all_null : List TxOut → Bool
all_null [] = true
all_null (o ∷ os) = if TxOut.is_null o then all_null os else false

unfoldable pub is_pruned : Coins → Bool
unfolding all_null
is_pruned c = all_null c.vout
