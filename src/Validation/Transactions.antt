-- ===== src/Validation/Transactions.antt =====
-- bitcoin_messages_handlers.cpp: the transactions that CheckTransaction accepts.
use mathlib.Core.Bool.{◌||◌, false, true}
use tri_tip.Prelude.{arith, Bool-cases, inl, inr, List, ltb, refl, sym, ◌≡◌, ◌∙◌, ◌∷◌, ◌≤◌, []}
use tri_tip.Core.OutPoint
use tri_tip.Core.TxIn.{TxIn}
use tri_tip.Core.Transaction
use tri_tip.Core.Transaction.{Transaction, is_empty}
use tri_tip.Validation.{
  valid, Env, prevouts_loop, first_script_size, inputs_check, check_transaction,
}
use tri_tip.Validation.Inputs.{
  dos-ne_valid, then_check-valid, guard-valid, Apart, duplicates_loop-Apart,
}
use tri_tip.Validation.Values.{MoneyLaw, AllInRange, total_value, values_loop-Within}

abbrev pub NoNullPrevout : List TxIn → Type 0
NoNullPrevout [] = Unit {0}
NoNullPrevout (i ∷ is) = (OutPoint.is_null i.prevout ≡ false) × NoNullPrevout is

-- A transaction as it should be, apart from its signatures and the outputs it spends.
pub record IsSound (env : Env) (tx : Transaction) : Type 0 where
  pub has_inputs : is_empty tx.vin ≡ false
  pub has_outputs : is_empty tx.vout ≡ false
  pub small : env.tx_size tx ≤ env.max_block_size
  pub values : AllInRange env.max_money tx.vout
  pub total : total_value tx.vout ≤ env.max_money
  pub distinct : Apart tx.vin
  pub coin_base :
      Transaction.is_coin_base tx ≡ true
      → (2 ≤ first_script_size tx.vin) × (first_script_size tx.vin ≤ 100)
  pub prevouts : Transaction.is_coin_base tx ≡ false → NoNullPrevout tx.vin

prevouts_forth : (is : List TxIn) → prevouts_loop is ≡ valid → NoNullPrevout is
unfolding prevouts_loop
prevouts_forth [] e = tt
prevouts_forth (i ∷ is) e = elim (Bool-cases (OutPoint.is_null i.prevout)) [
  | inl n ↦ absurd (dos-ne_valid 10 (sym (rw n refl) ∙ e))
  | inr n ↦ (n, prevouts_forth is (sym (rw n refl) ∙ e))
]

prevouts_back : (is : List TxIn) → NoNullPrevout is → prevouts_loop is ≡ valid
unfolding prevouts_loop
prevouts_back [] n = refl
prevouts_back (i ∷ is) (n, ns) = rw n (prevouts_back is ns)

inputs_forth :
    (tx : Transaction)
    → inputs_check tx ≡ valid
    → (Transaction.is_coin_base tx ≡ true
        → (2 ≤ first_script_size tx.vin) × (first_script_size tx.vin ≤ 100))
      × (Transaction.is_coin_base tx ≡ false → NoNullPrevout tx.vin)
unfolding inputs_check
inputs_forth tx e = (
  λ c.
      let g =
        guard-valid (ltb (first_script_size tx.vin) 2 || ltb 100 (first_script_size tx.vin)) 100
          (sym (rw c refl) ∙ e) in
      (ground arith, ground arith),
  λ c. prevouts_forth tx.vin (sym (rw c refl) ∙ e),
)

inputs_back : (env : Env) (tx : Transaction) → IsSound env tx → inputs_check tx ≡ valid
unfolding inputs_check
inputs_back env tx s = elim (Bool-cases (Transaction.is_coin_base tx)) [
  | inl c ↦
      let p = s.coin_base c in
      let low : ltb (first_script_size tx.vin) 2 ≡ false = ground arith in
      let high : ltb 100 (first_script_size tx.vin) ≡ false = ground arith in rw (c, low, high) refl
  | inr c ↦ rw c (prevouts_back tx.vin (s.prevouts c))
]

-- `CheckTransaction` accepts exactly the transactions that are sound: with inputs and outputs, not
-- too large, each value and their mathematical sum within the range of money, no output spent
-- twice, and a coinbase script of 2 to 100 bytes or no null outpoint spent.
pub check_transaction-IsSound :
    (env : Env) (law : MoneyLaw env) (tx : Transaction)
    → (check_transaction env tx ≡ valid → IsSound env tx)
      × (IsSound env tx → check_transaction env tx ≡ valid)
unfolding check_transaction
check_transaction-IsSound env law tx = (forth, back)
  where
    forth : check_transaction env tx ≡ valid → IsSound env tx
    forth e =
        let (a, last) = then_check-valid _ _ e in
        let (b, apart) = then_check-valid _ _ a in
        let (c, vals) = then_check-valid _ _ b in
        let (d, size) = then_check-valid _ _ c in
        let (ins, outs) = then_check-valid _ _ d in
        let big = guard-valid _ 100 size in
        record {
          has_inputs = guard-valid _ 10 ins;
          has_outputs = guard-valid _ 10 outs;
          small = ground arith;
          values = ((values_loop-Within env law 0 tx.vout (omega arith)).0 vals).0;
          total = omega (arith, ((values_loop-Within env law 0 tx.vout (omega arith)).0 vals).1);
          distinct = (duplicates_loop-Apart tx.vin).0 apart;
          coin_base = (inputs_forth tx last).0;
          prevouts = (inputs_forth tx last).1;
        }

    back : IsSound env tx → check_transaction env tx ≡ valid
    back s =
        let size : ltb env.max_block_size (env.tx_size tx) ≡ false = ground (arith, s.small) in
        rw
          (
            s.has_inputs,
            s.has_outputs,
            size,
            (values_loop-Within env law 0 tx.vout (omega arith)).1
                (s.values, omega (arith, s.total)),
            (duplicates_loop-Apart tx.vin).1 s.distinct,
          )
          (inputs_back env tx s)
