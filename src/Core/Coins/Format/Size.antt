-- ===== src/Core/Coins/Format/Size.antt =====
-- core.h, CCoins::GetSerializeSize against Serialize.
use mathlib.Core.Bool.{◌||◌, Bool, not}
use mathlib.Core.Option
use tri_tip.Core.Codec.{Codec}
use tri_tip.Core.Coins.{Coins}
use tri_tip.Core.Coins.Format.{
  calc_mask_from, calc_mask_size, first_unspent, get_serialize_size, header_code, mask_byte,
  mask_groups, outs_size, put_outs, second_unspent, serialize,
}
use tri_tip.Core.TxOut
use tri_tip.Core.TxOut.{TxOut}
use tri_tip.Prelude.{
  [], ◌∷◌, List, length, map, some, take, ℕ, ◌==◌, ◌+◌, ◌≤◌, ◌≡◌, arith, refl, ap, length-append,
  length-map, length-take, Bool-cases, inl, inr,
}

calc_mask_from-le :
    (b last n : ℕ) (gs : List (List Bool))
    → last ≤ b
    → (calc_mask_from b gs (last, n)).0 ≤ b + length gs
unfolding calc_mask_from
calc_mask_from-le b last n [] le = omega arith
calc_mask_from-le b last n (g ∷ gs) le =
    ground
      (arith, calc_mask_from-le (b + 1) (b + 1) (n + 1) gs, calc_mask_from-le (b + 1) last n gs)

length-mask :
    (vout : List TxOut)
    → length (map mask_byte (take (calc_mask_size vout).0 (mask_groups vout)))
      ≡ (calc_mask_size vout).0
unfolding calc_mask_size
length-mask vout =
    let gs = mask_groups vout in
    omega (
      arith,
      length-map (take (calc_mask_from 0 gs (0, 0)).0 gs) mask_byte,
      length-take (calc_mask_from 0 gs (0, 0)).0 gs,
      calc_mask_from-le 0 0 0 gs (omega arith),
    )

module _ (varint : Codec ℕ) (compressor : Codec TxOut) where
  length-put_outs :
      (os : List TxOut) → length (put_outs varint compressor os) ≡ outs_size varint compressor os
  unfolding put_outs outs_size
  length-put_outs [] = refl
  length-put_outs (o ∷ os) = elim (Bool-cases (TxOut.is_null o)) [
    | inl e ↦ rw e (length-put_outs os)
    | inr e ↦ rw e (
        omega (
          arith,
          length-append (compressor.put o) (put_outs varint compressor os),
          compressor.size-put o,
          length-put_outs os,
        ))
  ]

  -- GetSerializeSize is the number of bytes that Serialize writes, and each passes its assertion
  -- on the same coin records.
  pub get_serialize_size-serialize :
      (c : Coins)
      → get_serialize_size varint compressor c ≡ Option.map length (serialize varint compressor c)
  unfolding get_serialize_size serialize
  get_serialize_size-serialize c =
      elim (Bool-cases
        (first_unspent c.vout || (second_unspent c.vout || not ((calc_mask_size c.vout).1 == 0)))) [
          | inr e ↦ rw e
          | inl e ↦ rw e (
              ap some (
                simp length-append (
                  omega (
                    arith,
                    length-mask c.vout,
                    length-put_outs c.vout,
                    varint.size-put c.version,
                    varint.size-put c.height,
                    varint.size-put (
                        header_code c.coin_base (first_unspent c.vout) (second_unspent c.vout)
                          (calc_mask_size c.vout).1),
                  ))))
        ]
