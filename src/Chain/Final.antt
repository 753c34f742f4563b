-- ===== src/Chain/Final.antt =====
-- bitcoin_messages_handlers.cpp, IsFinalTx: later heights and times.
use mathlib.Core.Bool.{true}
use tri_tip.Prelude.{arith, ℕ, ◌<◌, ◌≡◌, ◌≤◌}
use tri_tip.Prelude.Int.{ℤ, pos}
use tri_tip.Core.Transaction.{Transaction}
use tri_tip.Chain.{is_final_tx}

-- A transaction that `IsFinalTx` takes for final at a positive height and time is final at every
-- later height and time, whatever the best height and the clock are.
pub is_final_tx_mono :
    (threshold : ℕ) (best now best' now' : ℤ) (tx : Transaction) (h t h' t' : ℕ)
    → 0 < h
    → 0 < t
    → h ≤ h'
    → t ≤ t'
    → is_final_tx threshold best now tx (pos h) (pos t) ≡ true
    → is_final_tx threshold best' now' tx (pos h') (pos t') ≡ true
unfolding is_final_tx
is_final_tx_mono threshold best now best' now' tx h t h' t' ph pt hh tt' e = ground arith
