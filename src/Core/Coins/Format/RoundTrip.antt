-- ===== src/Core/Coins/Format/RoundTrip.antt =====
-- core.h, CCoins: Unserialize after Serialize.
use mathlib.Core.Bool.{◌||◌, Bool, false, not, true}
use mathlib.Core.List.{append_assoc}
use tri_tip.Core.Codec.{Codec}
use tri_tip.Core.Coins.{Coins, is_pruned, all_null, pop_nulls, push_unless_last}
use tri_tip.Core.Coins.Spend.{EndsUnspent}
use tri_tip.Core.Coins.Format.{
  unspent, groups_of, mask_groups, mask_byte, first_unspent, second_unspent, header_code, read_mask,
  put_outs, get_outs, serialize, unserialize,
}
use tri_tip.Core.Coins.Format.Mask.{
  nonzero, EndsSet, EndsTrue, nonzero-pos, calc_mask_size-EndsSet, read_mask-groups,
  groups_of-EndsSet, flatten-groups_of, take-eq_self,
}
use tri_tip.Core.TxOut
use tri_tip.Core.TxOut.{TxOut}
use tri_tip.Prelude.{
  [], ◌∷◌, List, drop, if◌then◌else◌, length, map, some, zero, suc, ℕ, ◌==◌, ◌+◌, ◌++◌, ◌≤◌, ◌<◌,
  ◌≡◌, ◌%◌, ◌/◌, ◌^◌, arith, refl, ap, ◌∙◌, replicate, Bool-cases, inl, inr,
}

header_code_fields :
    (cb first second : Bool) (n : ℕ)
    → (first || (second || not (n == 0))) ≡ true
    → n < 2 ^ 28
    → let code = header_code cb first second n in
      ((code % 2 == 1) ≡ cb)
      × ((code / 2 % 2 == 1) ≡ first)
      × ((code / 4 % 2 == 1) ≡ second)
      × (code / 8 + (if first || second then 0 else 1) ≡ n)
unfolding header_code
header_code_fields true true true n h lt = ground arith
header_code_fields true true false n h lt = ground arith
header_code_fields true false true n h lt = ground arith
header_code_fields true false false n h lt = ground arith
header_code_fields false true true n h lt = ground arith
header_code_fields false true false n h lt = ground arith
header_code_fields false false true n h lt = ground arith
header_code_fields false false false n h lt = ground arith

-- Spent outputs are blank: the null output.
abbrev pub NullsBlank : List TxOut → Type 0
NullsBlank [] = Unit {0}
NullsBlank (o ∷ os) = (TxOut.is_null o ≡ true → o ≡ TxOut.null) × NullsBlank os

abbrev pub AllFit : Codec TxOut → List TxOut → Type 0
AllFit compressor [] = Unit {0}
AllFit compressor (o ∷ os) = (TxOut.is_null o ≡ false → compressor.Fits o) × AllFit compressor os

EndsTrue-unspent : (os : List TxOut) → EndsUnspent os → EndsTrue (map unspent os)
EndsTrue-unspent [] e = tt
EndsTrue-unspent (o ∷ []) e = ground arith
EndsTrue-unspent (o ∷ p ∷ os) e = EndsTrue-unspent (p ∷ os) e

EndsUnspent-drop : (os : List TxOut) → EndsUnspent os → EndsUnspent (drop 2 os)
EndsUnspent-drop [] e = tt
EndsUnspent-drop (o ∷ []) e = tt
EndsUnspent-drop (o ∷ p ∷ []) e = tt
EndsUnspent-drop (o ∷ p ∷ q ∷ os) e = e

length-bits : (os : List TxOut) → length (map unspent (drop 2 os)) ≤ length os
length-bits [] = omega arith
length-bits (o ∷ []) = omega arith
length-bits (o ∷ p ∷ os) = go os
  where
    go : (os : List TxOut) → length (map unspent os) ≤ suc (suc (length os))
    go [] = omega arith
    go (o ∷ os) = omega (arith, go os)

mask_groups-EndsSet : (os : List TxOut) → EndsUnspent os → EndsSet (mask_groups os)
mask_groups-EndsSet os e =
    groups_of-EndsSet (length os) _ (length-bits os)
      (EndsTrue-unspent (drop 2 os) (EndsUnspent-drop os e))

mask_groups_pos :
    (o p q : TxOut) (os : List TxOut)
    → EndsUnspent (q ∷ os)
    → 0 < nonzero (mask_groups (o ∷ p ∷ q ∷ os))
unfolding groups_of
mask_groups_pos o p q os e = nonzero-pos _ _ (mask_groups-EndsSet (o ∷ p ∷ q ∷ os) e)

-- The assertion of Serialize holds where an output is unspent and stands last.
assertion_holds :
    (os : List TxOut)
    → EndsUnspent os
    → all_null os ≡ false
    → (first_unspent os || (second_unspent os || not (nonzero (mask_groups os) == 0))) ≡ true
unfolding all_null first_unspent second_unspent
assertion_holds [] e h = ground arith
assertion_holds (o ∷ []) e h = ground arith
assertion_holds (o ∷ p ∷ []) e h = ground arith
assertion_holds (o ∷ p ∷ q ∷ os) e h = ground (arith, mask_groups_pos o p q os e)

nonzero-le : (gs : List (List Bool)) → nonzero gs ≤ length gs
unfolding nonzero
nonzero-le [] = omega arith
nonzero-le (g ∷ gs) = ground (arith, nonzero-le gs)

length-groups_of : (f : ℕ) (l : List Bool) → length (groups_of f l) ≤ f
unfolding groups_of
length-groups_of zero l = omega arith
length-groups_of (suc f) [] = omega arith
length-groups_of (suc f) (b ∷ l) = omega (arith, length-groups_of f (drop 8 (b ∷ l)))

replicate_two :
    (os : List TxOut) (k : ℕ)
    → (j : ℕ) × (first_unspent os
          ∷ second_unspent os
          ∷ (map unspent (drop 2 os) ++ replicate k false)
        ≡ map unspent os ++ replicate j false)
unfolding first_unspent second_unspent
replicate_two [] k = (suc (suc k), refl)
replicate_two (o ∷ []) k = (suc k, refl)
replicate_two (o ∷ p ∷ os) k = (k, refl)

pop_nulls-append_null :
    (os : List TxOut) (k : ℕ) → EndsUnspent os → pop_nulls (os ++ replicate k TxOut.null) ≡ os
unfolding pop_nulls push_unless_last
pop_nulls-append_null [] zero e = refl
pop_nulls-append_null [] (suc k) e =
    rw (pop_nulls-append_null [] k e) (unfold TxOut.is_null TxOut.null in refl)
pop_nulls-append_null (o ∷ []) k e = rw (pop_nulls-append_null [] k tt, e)
pop_nulls-append_null (o ∷ p ∷ os) k e = rw (pop_nulls-append_null (p ∷ os) k e)

module _ (varint : Codec ℕ) (compressor : Codec TxOut) where
  get_outs-null :
      (k : ℕ) (s : List ℕ)
      → get_outs varint compressor (replicate k false) s ≡ some (replicate k TxOut.null, s)
  unfolding get_outs
  get_outs-null zero s = refl
  get_outs-null (suc k) s = rw (get_outs-null k s)

  get_outs-put_outs :
      (os : List TxOut) (k : ℕ) (s : List ℕ)
      → NullsBlank os
      → AllFit compressor os
      → get_outs varint compressor
          (map unspent os ++ replicate k false)
          (put_outs varint compressor os ++ s)
        ≡ some (os ++ replicate k TxOut.null, s)
  unfolding get_outs put_outs
  get_outs-put_outs [] k s blank fit = get_outs-null k s
  get_outs-put_outs (o ∷ os) k s blank fit = elim (Bool-cases (TxOut.is_null o)) [
    | inl spent ↦ rw (spent, get_outs-put_outs os k s blank.1 fit.1, blank.0 spent)
    | inr left ↦
        rw (left, append_assoc, compressor.get-put o _ (fit.0 left))
          (rw (get_outs-put_outs os k s blank.1 fit.1))
  ]

  code_of : Coins → ℕ
  code_of c =
      header_code c.coin_base (first_unspent c.vout) (second_unspent c.vout)
        (nonzero (mask_groups c.vout))

  -- What Serialize writes, with every group in the mask.
  body : Coins → List ℕ
  body c =
      varint.put c.version
      ++ (varint.put (code_of c)
          ++ (map mask_byte (mask_groups c.vout)
              ++ (put_outs varint compressor c.vout ++ varint.put c.height)))

  serialize-body :
      (c : Coins)
      → EndsUnspent c.vout
      → all_null c.vout ≡ false
      → serialize varint compressor c ≡ some (body c)
  unfolding serialize body code_of
  serialize-body c ends left =
      let gs = mask_groups c.vout in
      rw (
        calc_mask_size-EndsSet gs (mask_groups-EndsSet c.vout ends),
        assertion_holds c.vout ends left,
        take-eq_self (length gs) gs (omega arith),
      )

  -- The availability bits, read back.
  read_avail :
      (c : Coins) (s : List ℕ)
      → EndsUnspent c.vout
      → (j : ℕ) × (read_mask
            (nonzero (mask_groups c.vout))
            (map mask_byte (mask_groups c.vout) ++ s)
            (first_unspent c.vout ∷ second_unspent c.vout ∷ [])
          ≡ some (map unspent c.vout ++ replicate j false, s))
  read_avail c s ends =
      let (k, filled) = flatten-groups_of (length c.vout) _ (length-bits c.vout) in
      let (j, same) = replicate_two c.vout k in
      (
        j,
        read_mask-groups (mask_groups c.vout) s _ (mask_groups-EndsSet c.vout ends)
            ∙ ap (λ l. some (first_unspent c.vout ∷ second_unspent c.vout ∷ l, s)) filled
            ∙ ap (λ l. some (l, s)) same,
      )

  unserialize-body :
      (c : Coins) (rest : List ℕ)
      → EndsUnspent c.vout
      → NullsBlank c.vout
      → all_null c.vout ≡ false
      → length c.vout < 2 ^ 28
      → varint.Fits c.version
      → varint.Fits (code_of c)
      → varint.Fits c.height
      → AllFit compressor c.vout
      → unserialize varint compressor (body c ++ rest) ≡ some (c, rest)
  unfolding unserialize body code_of
  unserialize-body c rest ends blank left short fit_version fit_code fit_height fit_outs =
      let n = nonzero (mask_groups c.vout) in
      let (coin_base, first, second, count) =
        header_code_fields c.coin_base (first_unspent c.vout) (second_unspent c.vout) n
          (assertion_holds c.vout ends left)
          (omega (
            arith,
            nonzero-le (mask_groups c.vout),
            length-groups_of (length c.vout) (map unspent (drop 2 c.vout)),
          )) in
      let (j, avail) =
        read_avail c (put_outs varint compressor c.vout ++ (varint.put c.height ++ rest)) ends in
      simp append_assoc (
        rw (
          varint.get-put _ _ fit_version,
          varint.get-put _ _ fit_code,
          coin_base,
          first,
          second,
          count,
          avail,
          get_outs-put_outs c.vout j (varint.put c.height ++ rest) blank fit_outs,
          varint.get-put _ _ fit_height,
          pop_nulls-append_null c.vout j ends,
        ))

  -- On a coin record that has an unspent output, ends with one, and keeps nothing of its spent
  -- outputs, whose parts fit the formats and that has fewer than 2 ^ 28 outputs, Serialize passes
  -- its assertion, and Unserialize gives the record back, with the rest of the stream left over.
  pub coins_round_trip :
      (c : Coins) (rest : List ℕ)
      → EndsUnspent c.vout
      → NullsBlank c.vout
      → is_pruned c ≡ false
      → length c.vout < 2 ^ 28
      → varint.Fits c.version
      → ((code : ℕ) → code < 2 ^ 32 → varint.Fits code)
      → varint.Fits c.height
      → AllFit compressor c.vout
      → (bytes : List ℕ) × (serialize varint compressor c ≡ some bytes)
        × (unserialize varint compressor (bytes ++ rest) ≡ some (c, rest))
  unfolding is_pruned
  coins_round_trip c rest ends blank left short fit_version fit_code fit_height fit_outs = (
    body c,
    serialize-body c ends left,
    unserialize-body c rest ends blank left short fit_version
        (fit_code (code_of c) (unfold code_of header_code in omega arith)) fit_height fit_outs,
  )
