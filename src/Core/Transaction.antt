-- ===== src/Core/Transaction.antt =====
-- core.h, CTransaction. `nVersion` is the 32-bit pattern of the signed version.
pub mod Newer
use mathlib.Core.Bool.{◌&&◌, Bool, false, true}
use tri_tip.Core.OutPoint
use tri_tip.Core.OutPoint.{uint_max}
use tri_tip.Core.TxIn
use tri_tip.Core.TxIn.{TxIn}
use tri_tip.Core.TxOut
use tri_tip.Core.TxOut.{TxOut}
use tri_tip.Prelude.{ℕ, ◌==◌, [], ◌∷◌, List, if◌then◌else◌, leb, ltb}
use tri_tip.Prelude.Equality.{list_eq}

pub record Transaction : Type 0 where
  pub version : ℕ
  pub vin : List TxIn
  pub vout : List TxOut
  pub lock_time : ℕ

unfoldable pub null : Transaction
null = record { version = 1; vin = []; vout = []; lock_time = 0 }

unfoldable pub is_empty {ℓ} : {A : Type ℓ} → List A → Bool
is_empty [] = true
is_empty (x ∷ xs) = false

unfoldable pub is_null : Transaction → Bool
unfolding is_empty
is_null tx = is_empty tx.vin && is_empty tx.vout

-- `vin.size() == 1 && vin[0].prevout.IsNull()`
unfoldable pub is_coin_base_inputs : List TxIn → Bool
unfolding OutPoint.is_null
is_coin_base_inputs (i ∷ []) = OutPoint.is_null i.prevout
is_coin_base_inputs _ = false

unfoldable pub is_coin_base : Transaction → Bool
unfolding is_coin_base_inputs
is_coin_base tx = is_coin_base_inputs tx.vin

unfoldable pub equal : Transaction → Transaction → Bool
equal a b =
    a.version == b.version
    && list_eq TxIn.equal a.vin b.vin
    && list_eq TxOut.equal a.vout b.vout
    && a.lock_time == b.lock_time

-- The first loop of `IsNewerThan`, under its test of the sizes: the same prevouts in order.
unfoldable pub same_prevouts : List TxIn → List TxIn → Bool
same_prevouts [] [] = true
same_prevouts (i ∷ is) (j ∷ js) = OutPoint.equal i.prevout j.prevout && same_prevouts is js
same_prevouts _ _ = false

-- One round of the second loop, on `fNewer` and `nLowest`: its two tests in turn.
unfoldable pub test_new : ℕ → Bool × ℕ → Bool × ℕ
test_new new (newer, lowest) = if leb new lowest then (false, new) else (newer, lowest)

unfoldable pub test_old : ℕ → Bool × ℕ → Bool × ℕ
test_old old (newer, lowest) = if ltb old lowest then (true, old) else (newer, lowest)

unfoldable pub newer_round : ℕ → ℕ → Bool × ℕ → Bool × ℕ
unfolding test_new test_old
newer_round new old s = if new == old then s else test_old old (test_new new s)

unfoldable pub newer_loop : List TxIn → List TxIn → Bool × ℕ → Bool × ℕ
newer_loop (i ∷ is) (j ∷ js) s = newer_loop is js (newer_round i.sequence j.sequence s)
newer_loop _ _ s = s

unfoldable pub is_newer_than : Transaction → Transaction → Bool
is_newer_than tx old =
    if same_prevouts tx.vin old.vin then (newer_loop tx.vin old.vin (false, uint_max)).0 else false
