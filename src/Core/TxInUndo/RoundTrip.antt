-- ===== src/Core/TxInUndo/RoundTrip.antt =====
-- core.h, CTxInUndo::Serialize and Unserialize.
use mathlib.Core.Bool.{Bool, false, true}
use tri_tip.Core.Codec.{Codec}
use tri_tip.Core.TxInUndo.{TxInUndo, serialize, unserialize, to_nat}
use tri_tip.Core.TxOut.{TxOut}
use tri_tip.Prelude.{
  lt→ltb, List, arith, ltb, refl, some, ℕ, ◌++◌, ◌*◌, ◌+◌, ◌<◌, ◌≡◌, ◌^◌, zero, suc, if◌then◌else◌,
  [], ◌%◌, ◌/◌, ◌==◌,
}
use mathlib.Core.List.{append_assoc}

code_height : (h : ℕ) (c : Bool) → h < 2 ^ 31 → ((h * 2 + to_nat c) % 2 ^ 32) / 2 ≡ h
code_height h true lt = omega arith
code_height h false lt = omega arith

code_coin_base : (h : ℕ) (c : Bool) → h < 2 ^ 31 → (((h * 2 + to_nat c) % 2 ^ 32) % 2 == 1) ≡ c
code_coin_base h true lt = ground arith
code_coin_base h false lt = ground arith

optional_version :
    (varint : Codec ℕ) (h v old : ℕ) (rest : List ℕ)
    → varint.Fits v
    → (h ≡ 0 → v ≡ old)
    → (let s = (if ltb 0 h then varint.put v else []) ++ rest in
        if ltb 0 h then varint.get s else some (old, s))
      ≡ some (v, rest)
optional_version varint zero v old rest fits same = rw (same refl)
optional_version varint (suc h) v old rest fits same =
    rw (lt→ltb 0 (suc h) (omega arith)) (varint.get-put v rest fits)

module _ (varint : Codec ℕ) (compressor : Codec TxOut) where
  -- What Serialize writes, Unserialize reads back, with the rest of the stream left over, where
  -- the height is below 2 ^ 31, the fields fit the two formats, and an undo record of height 0
  -- has the version that the record being read into had.
  pub undo_round_trip :
      (u old : TxInUndo) (rest : List ℕ)
      → u.height < 2 ^ 31
      → varint.Fits ((u.height * 2 + to_nat u.coin_base) % 2 ^ 32)
      → varint.Fits u.version
      → compressor.Fits u.txout
      → (u.height ≡ 0 → u.version ≡ old.version)
      → unserialize varint compressor old (serialize varint compressor u ++ rest) ≡ some (u, rest)
  unfolding unserialize serialize
  undo_round_trip u old rest lt code version out same = simp append_assoc (
      rw (
        varint.get-put _ _ code,
        code_height u.height u.coin_base lt,
        code_coin_base u.height u.coin_base lt,
        optional_version varint u.height u.version old.version _ version same,
        compressor.get-put _ _ out,
      ))
