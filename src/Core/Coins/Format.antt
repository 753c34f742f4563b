-- ===== src/Core/Coins/Format.antt =====
-- core.h, CCoins: CalcMaskSize, Serialize, Unserialize and GetSerializeSize. An output is unspent
-- if it is not null; the mask has one bit for each output from the third on, in bytes of eight.
pub mod Mask
pub mod RoundTrip
pub mod Size
use Prim.Native.Nat.{bit_and, bit_or}
use mathlib.Core.Bool.{◌||◌, Bool, false, not, true}
use tri_tip.Core.Codec.{Codec}
use tri_tip.Core.Coins.{Coins, pop_nulls}
use tri_tip.Core.TxInUndo.{to_nat}
use tri_tip.Prelude.{◌>>=◌}
use tri_tip.Core.TxOut
use tri_tip.Core.TxOut.{TxOut}
use tri_tip.Prelude.{
  [], ◌∷◌, List, Option, drop, if◌then◌else◌, length, map, none, some, take, zero, suc, ℕ, ◌==◌,
  ◌+◌, ◌++◌, ◌*◌, ◌/◌, ◌%◌, ◌^◌, ◌-◌,
}

abbrev pub unspent : TxOut → Bool
unspent o = not (TxOut.is_null o)

-- The runs of eight outputs that the loops over `b` and `i` walk through, the last one shorter.
-- The fuel is the number of outputs.
unfoldable pub groups_of : ℕ → List Bool → List (List Bool)
groups_of zero l = []
groups_of (suc f) [] = []
groups_of (suc f) (b ∷ l) = take 8 (b ∷ l) ∷ groups_of f (drop 8 (b ∷ l))

abbrev pub mask_groups : List TxOut → List (List Bool)
mask_groups vout = groups_of (length vout) (map unspent (drop 2 vout))

-- `!fZero` after the inner loop of CalcMaskSize
unfoldable pub any_set : List Bool → Bool
any_set [] = false
any_set (b ∷ bs) = b || any_set bs

-- The outer loop, on `b` and the pair of `nLastUsedByte` and `nNonzeroBytes`.
unfoldable pub calc_mask_from : ℕ → List (List Bool) → ℕ × ℕ → ℕ × ℕ
calc_mask_from b [] s = s
calc_mask_from b (g ∷ gs) (last, nonzero) =
    calc_mask_from (b + 1) gs (if any_set g then (b + 1, nonzero + 1) else (last, nonzero))

unfoldable pub calc_mask_size : List TxOut → ℕ × ℕ
unfolding calc_mask_from
calc_mask_size vout = calc_mask_from 0 (mask_groups vout) (0, 0)

-- `chAvail`, the bits or-ed in from the lowest
unfoldable pub mask_byte_from : ℕ → List Bool → ℕ → ℕ
mask_byte_from i [] ch = ch
mask_byte_from i (b ∷ bs) ch = mask_byte_from (i + 1) bs (if b then bit_or ch (2 ^ i) else ch)

unfoldable pub mask_byte : List Bool → ℕ
unfolding mask_byte_from
mask_byte g = mask_byte_from 0 g 0

unfoldable pub first_unspent : List TxOut → Bool
first_unspent [] = false
first_unspent (o ∷ os) = unspent o

unfoldable pub second_unspent : List TxOut → Bool
unfolding first_unspent
second_unspent [] = false
second_unspent (o ∷ os) = first_unspent os

-- `nCode`, in unsigned int; the assertion before it makes the subtraction exact
unfoldable pub header_code : Bool → Bool → Bool → ℕ → ℕ
header_code coin_base first second nonzero =
    (8 * (nonzero - (if first || second then 0 else 1))
      + to_nat coin_base
      + (if first then 2 else 0)
      + (if second then 4 else 0))
    % 2 ^ 32

-- The loop that reads mask bytes until `nMaskCode` of them were not zero; the stream may end.
unfoldable pub bits_of : ℕ → List Bool
bits_of ch =
    set_at 1 ∷ set_at 2 ∷ set_at 4 ∷ set_at 8 ∷ set_at 16 ∷ set_at 32 ∷ set_at 64 ∷ set_at 128 ∷ []
  where
    set_at : ℕ → Bool
    set_at m = not (bit_and ch m == 0)

unfoldable pub read_mask : ℕ → List ℕ → List Bool → Option (List Bool × List ℕ)
unfolding bits_of
read_mask zero s avail = some (avail, s)
read_mask (suc k) [] avail = none
read_mask (suc k) (ch ∷ s) avail = read_mask (if ch == 0 then suc k else k) s (avail ++ bits_of ch)

module _ (varint : Codec ℕ) (compressor : Codec TxOut) where
  unfoldable pub put_outs : List TxOut → List ℕ
  put_outs [] = []
  put_outs (o ∷ os) = if TxOut.is_null o then put_outs os else compressor.put o ++ put_outs os

  -- `none` where the assertion fails
  unfoldable pub serialize : Coins → Option (List ℕ)
  unfolding calc_mask_size mask_byte header_code first_unspent second_unspent put_outs
  serialize c =
      let (mask_size, nonzero) = calc_mask_size c.vout in
      let first = first_unspent c.vout in
      let second = second_unspent c.vout in
      if first || (second || not (nonzero == 0))
      then some (
          varint.put c.version
          ++ (varint.put (header_code c.coin_base first second nonzero)
              ++ (map mask_byte (take mask_size (mask_groups c.vout))
                  ++ (put_outs c.vout ++ varint.put c.height))))
      else none

  unfoldable pub outs_size : List TxOut → ℕ
  outs_size [] = 0
  outs_size (o ∷ os) = if TxOut.is_null o then outs_size os else compressor.size o + outs_size os

  -- `GetSerializeSize`, with the same assertion
  unfoldable pub get_serialize_size : Coins → Option ℕ
  unfolding calc_mask_size header_code first_unspent second_unspent outs_size
  get_serialize_size c =
      let (mask_size, nonzero) = calc_mask_size c.vout in
      let first = first_unspent c.vout in
      let second = second_unspent c.vout in
      if first || (second || not (nonzero == 0))
      then some (
          varint.size c.version
          + varint.size (header_code c.coin_base first second nonzero)
          + mask_size
          + outs_size c.vout
          + varint.size c.height)
      else none

  unfoldable pub get_outs : List Bool → List ℕ → Option (List TxOut × List ℕ)
  get_outs [] s = some ([], s)
  get_outs (true ∷ avail) s = do
    (o, s₁) ← compressor.get s
    (os, s₂) ← get_outs avail s₁
    some (o ∷ os, s₂)
  get_outs (false ∷ avail) s = do (os, s₁) ← get_outs avail s; some (TxOut.null ∷ os, s₁)

  unfoldable pub unserialize : List ℕ → Option (Coins × List ℕ)
  unfolding read_mask get_outs pop_nulls
  unserialize s = do
    (version, s₁) ← varint.get s
    (code, s₂) ← varint.get s₁
    let first = code / 2 % 2 == 1
    let second = code / 4 % 2 == 1
    let mask_code = code / 8 + (if first || second then 0 else 1)
    (avail, s₃) ← read_mask mask_code s₂ (first ∷ second ∷ [])
    (vout, s₄) ← get_outs avail s₃
    (height, s₅) ← varint.get s₄
    some (
      record {
        coin_base = code % 2 == 1;
        vout = pop_nulls vout;
        height = height;
        version = version;
      },
      s₅,
    )
