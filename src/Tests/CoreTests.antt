-- ===== src/Tests/CoreTests.antt =====
-- core.h at concrete inputs.
use mathlib.Core.Bool.{false, true}
use tri_tip.Prelude.{
  arith, if◌then◌else◌, length, List, ltb, none, Option, refl, some, suc, zero, ℕ, ◌++◌, ◌<◌, ◌==◌,
  ◌≡◌, ◌^◌, ◌∷◌, [],
}
use tri_tip.Core.Codec.{Codec}
use tri_tip.Core.Coins
use tri_tip.Core.Coins.{Coins}
use tri_tip.Core.Coins.Format
use tri_tip.Core.Coins.Format.RoundTrip.{AllFit, coins_round_trip}
use tri_tip.Core.Coins.Format.Size.{get_serialize_size-serialize}
use tri_tip.Core.Coins.Spend.{Spends, spend-Spends, spend-eq-none}
use tri_tip.Core.OutPoint
use tri_tip.Core.OutPoint.{OutPoint}
use tri_tip.Core.Transaction
use tri_tip.Core.Transaction.Newer.{prevouts, is_newer_than-lowest}
use tri_tip.Core.Transaction.{Transaction, is_newer_than, same_prevouts}
use tri_tip.Core.TxIn.{TxIn}
use tri_tip.Core.TxInUndo
use tri_tip.Core.TxInUndo.{TxInUndo}
use tri_tip.Core.TxInUndo.RoundTrip.{undo_round_trip}
use tri_tip.Core.TxOut
use tri_tip.Core.TxOut.{TxOut}
use tri_tip.Prelude.Int.{ℤ, negsuc, pos}

-- One number for one value, and outputs as a sign, a magnitude, a length and the script: formats
-- that meet what is asked of VARINT and CTxOutCompressor.
take_bytes : ℕ → List ℕ → Option (List ℕ × List ℕ)
take_bytes zero s = some ([], s)
take_bytes (suc n) [] = none
take_bytes (suc n) (b ∷ s) = elim (take_bytes n s) [
  | none ↦ none
  | some (bs, rest) ↦ some (b ∷ bs, rest)
]

take_bytes-append : (bs rest : List ℕ) → take_bytes (length bs) (bs ++ rest) ≡ some (bs, rest)
unfolding take_bytes
take_bytes-append [] rest = refl
take_bytes-append (b ∷ bs) rest = rw (take_bytes-append bs rest)

abbrev get_one : List ℕ → Option (ℕ × List ℕ)
get_one [] = none
get_one (n ∷ s) = some (n, s)

abbrev one_number : Codec ℕ
one_number = record {
  Fits = λ n. n < 2 ^ 64;
  put = λ n. n ∷ [];
  get = get_one;
  size = λ n. 1;
  size-put = λ n. refl;
  get-put = λ n rest h. refl;
}

put_out : TxOut → List ℕ
put_out o = elim o.value [
  | pos n ↦ 0 ∷ n ∷ length o.script_pub_key ∷ o.script_pub_key
  | negsuc n ↦ 1 ∷ n ∷ length o.script_pub_key ∷ o.script_pub_key
]

get_out : List ℕ → Option (TxOut × List ℕ)
get_out (sign ∷ n ∷ len ∷ s) = elim (take_bytes len s) [
  | none ↦ none
  | some (script, rest) ↦
      some (record { value = if sign == 0 then pos n else negsuc n; script_pub_key = script }, rest)
]
get_out _ = none

get_out-put_out : (o : TxOut) (rest : List ℕ) → get_out (put_out o ++ rest) ≡ some (o, rest)
unfolding get_out put_out
get_out-put_out o rest = go o.value o.script_pub_key rest
  where
    go :
        (v : ℤ) (script rest : List ℕ)
        → let o : TxOut = record { value = v; script_pub_key = script } in
          get_out (put_out o ++ rest) ≡ some (o, rest)
    go (pos n) script rest = rw (take_bytes-append script rest, get_out)
    go (negsuc n) script rest = rw (take_bytes-append script rest, get_out)

abbrev plain_out : Codec TxOut
plain_out = record {
  Fits = λ o. TxOut.is_null o ≡ false;
  put = put_out;
  get = get_out;
  size = λ o. length (put_out o);
  size-put = λ o. refl;
  get-put = λ o rest h. get_out-put_out o rest;
}

abbrev coin : ℕ → TxOut
coin n = record { value = pos n; script_pub_key = 0x51 ∷ [] }

abbrev input : ℕ → ℕ → TxIn
input h sequence = record {
  prevout = record { hash = h; n = 0 };
  script_sig = [];
  sequence = sequence;
}

abbrev spending : ℕ → Transaction
spending sequence = record {
  version = 1;
  vin = input 7 5 ∷ input 8 sequence ∷ [];
  vout = coin 3 ∷ [];
  lock_time = 0;
}

is_newer_than-lowest_example :
    (prevouts (spending 9).vin ≡ prevouts (spending 4).vin
      → is_newer_than (spending 9) (spending 4) ≡ ltb 4 9)
    × (¬ (prevouts (spending 9).vin ≡ prevouts (spending 4).vin)
        → is_newer_than (spending 9) (spending 4) ≡ false)
is_newer_than-lowest_example = is_newer_than-lowest (spending 9) (spending 4)

newer : is_newer_than (spending 9) (spending 4) ≡ true
unfolding is_newer_than same_prevouts OutPoint.equal Transaction.newer_loop Transaction.newer_round
newer = refl

abbrev sample : Coins
sample = record {
  coin_base = true;
  vout = TxOut.null ∷ coin 5 ∷ TxOut.null ∷ coin 6 ∷ [];
  height = 100;
  version = 1;
}

abbrev point : ℕ → OutPoint
point n = record { hash = 0; n = n }

spend-eq-none_example :
    (Coins.spend (point 9) sample ≡ none → Coins.is_available 9 sample ≡ false)
    × (Coins.is_available 9 sample ≡ false → Coins.spend (point 9) sample ≡ none)
spend-eq-none_example = spend-eq-none (point 9) sample

available : Coins.is_available 3 sample ≡ true
unfolding Coins.is_available TxOut.null TxOut.is_null
available = refl

spend-Spends_example :
    (u : TxInUndo) × (c : Coins) × (Coins.spend (point 3) sample ≡ some (u, c))
    × Spends (point 3) sample u c
spend-Spends_example = spend-Spends (point 3) sample available

undo_round_trip_example :
    let u : TxInUndo = record { txout = coin 4; coin_base = true; height = 9; version = 2 } in
    TxInUndo.unserialize one_number plain_out
      (TxInUndo.of_txout (coin 0))
      (TxInUndo.serialize one_number plain_out u ++ 1 ∷ [])
    ≡ some (u, 1 ∷ [])
undo_round_trip_example =
    undo_round_trip one_number plain_out
      (record { txout = coin 4; coin_base = true; height = 9; version = 2 })
      (TxInUndo.of_txout (coin 0)) (1 ∷ []) (omega arith) (omega arith) (omega arith)
      (unfold TxOut.is_null in refl) (λ e. absurd (omega arith))

sample_fits : AllFit plain_out sample.vout
unfolding TxOut.is_null TxOut.null
sample_fits = ((λ h. h), ((λ h. h), ((λ h. h), ((λ h. h), tt))))

coins_round_trip_example :
    (bytes : List ℕ) × (Coins.Format.serialize one_number plain_out sample ≡ some bytes)
    × (Coins.Format.unserialize one_number plain_out (bytes ++ 1 ∷ []) ≡ some (sample, 1 ∷ []))
unfolding TxOut.is_null TxOut.null
coins_round_trip_example =
    coins_round_trip one_number plain_out sample (1 ∷ []) refl
      ((λ h. refl), ((λ h. cc), ((λ h. refl), ((λ h. cc), tt)))) (unfold Coins.is_pruned in refl)
      (omega arith) (omega arith) (λ code h. omega arith) (omega arith) sample_fits

get_serialize_size-serialize_example :
    Coins.Format.get_serialize_size one_number plain_out sample
    ≡ mathlib.Core.Option.map length (Coins.Format.serialize one_number plain_out sample)
get_serialize_size-serialize_example = get_serialize_size-serialize one_number plain_out sample
