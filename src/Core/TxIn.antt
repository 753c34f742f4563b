-- ===== src/Core/TxIn.antt =====
-- core.h, CTxIn. A script is its list of bytes.
use mathlib.Core.Bool.{◌&&◌, Bool}
use tri_tip.Core.OutPoint
use tri_tip.Core.OutPoint.{OutPoint, uint_max}
use tri_tip.Prelude.{ℕ, ◌==◌, List}
use tri_tip.Prelude.Equality.{bytes_eq}

pub record TxIn : Type 0 where
  pub prevout : OutPoint
  pub script_sig : List ℕ
  pub sequence : ℕ

unfoldable pub is_final : TxIn → Bool
is_final i = i.sequence == uint_max

unfoldable pub equal : TxIn → TxIn → Bool
unfolding OutPoint.equal
equal a b =
    OutPoint.equal a.prevout b.prevout
    && bytes_eq a.script_sig b.script_sig
    && a.sequence == b.sequence
