-- ===== src/Core/TxInUndo.antt =====
-- core.h, CTxInUndo: what is kept of a spent output, and its format on disk.
pub mod RoundTrip
use tri_tip.Prelude.{◌>>=◌}
use mathlib.Core.Bool.{Bool, false, true}
use tri_tip.Core.Codec.{Codec}
use tri_tip.Core.TxOut.{TxOut}
use tri_tip.Prelude.{
  List, Option, ltb, none, some, ℕ, ◌%◌, ◌*◌, ◌++◌, ◌+◌, ◌/◌, ◌==◌, ◌^◌, if◌then◌else◌, [],
}

pub record TxInUndo : Type 0 where
  pub txout : TxOut
  pub coin_base : Bool
  pub height : ℕ
  pub version : ℕ

-- `CTxInUndo(txoutIn)`, the other arguments by their defaults.
unfoldable pub of_txout : TxOut → TxInUndo
of_txout o = record { txout = o; coin_base = false; height = 0; version = 0 }

abbrev pub to_nat : Bool → ℕ
to_nat true = 1
to_nat false = 0

module _ (varint : Codec ℕ) (compressor : Codec TxOut) where
  -- `nHeight*2+(fCoinBase ? 1 : 0)` is computed in an unsigned int.
  unfoldable pub serialize : TxInUndo → List ℕ
  serialize u =
      varint.put ((u.height * 2 + to_nat u.coin_base) % 2 ^ 32)
      ++ ((if ltb 0 u.height then varint.put u.version else []) ++ compressor.put u.txout)

  -- Reads into `u`, whose version stays where the stream holds none.
  unfoldable pub unserialize : TxInUndo → List ℕ → Option (TxInUndo × List ℕ)
  unserialize u s = do
    (code, s₁) ← varint.get s
    let height = code / 2
    (version, s₂) ← if ltb 0 height then varint.get s₁ else some (u.version, s₁)
    (txout, s₃) ← compressor.get s₂
    some (
      record { txout = txout; coin_base = code % 2 == 1; height = height; version = version },
      s₃,
    )
