-- ===== src/Validation/Blocks.antt =====
-- bitcoin_messages_handlers.cpp: the blocks that CheckBlock accepts.
use tri_tip.Prelude.{length-map}
use tri_tip.Prelude.{==_iff}
use tri_tip.Validation.{root_check, sig_ops_check, size_check, time_check, unique_check, work_check}
use Prim.{⊥}
use mathlib.Core.Bool.{◌||◌, Bool, false, not, true}
use tri_tip.Prelude.{
  arith, Bool-cases, if◌then◌else◌, inl, inr, length, List, ltb, refl, suc, sym, ℕ, ◌+◌, ◌≡◌, ◌∙◌,
  ◌∷◌, ◌≢◌, ◌≤◌, [],
}
use tri_tip.Prelude.Int.{ℤ, pos, ltb_ℤ, ◌+ℤ◌}
use tri_tip.Core.Transaction
use tri_tip.Core.Transaction.{Transaction, is_empty}
use tri_tip.Merkle.{merkle_root}
use tri_tip.Validation.{
  valid, invalid, dos, Env, Block, check_transaction, check_block, check_proof_of_work,
  coin_base_check, no_coin_base, transactions_loop, tx_hashes, unique, has_hash, block_sig_ops,
}
use tri_tip.Validation.Compact.{set_compact}
use tri_tip.Validation.Inputs.{dos-ne_valid, then_check-valid, guard-valid}
use tri_tip.Validation.Values.{MoneyLaw}
use tri_tip.Validation.Transactions.{IsSound, check_transaction-IsSound}

abbrev pub Absent : ℕ → List ℕ → Type 0
Absent h [] = Unit {0}
Absent h (k ∷ ks) = (h ≢ k) × Absent h ks

abbrev pub Distinct : List ℕ → Type 0
Distinct [] = Unit {0}
Distinct (h ∷ hs) = Absent h hs × Distinct hs

abbrev pub NoCoinBase : List Transaction → Type 0
NoCoinBase [] = Unit {0}
NoCoinBase (tx ∷ txs) = (Transaction.is_coin_base tx ≡ false) × NoCoinBase txs

abbrev pub OneCoinBase : List Transaction → Type 0
OneCoinBase [] = ⊥
OneCoinBase (tx ∷ txs) = (Transaction.is_coin_base tx ≡ true) × NoCoinBase txs

abbrev pub AllSound : Env → List Transaction → Type 0
AllSound env [] = Unit {0}
AllSound env (tx ∷ txs) = IsSound env tx × AllSound env txs

Fresh : List ℕ → List ℕ → Type 0
Fresh seen [] = Unit {0}
Fresh seen (h ∷ hs) = (has_hash h seen ≡ false) × Fresh seen hs

Fresh-split : (h : ℕ) (seen hs : List ℕ) → Fresh (h ∷ seen) hs → Absent h hs × Fresh seen hs
unfolding Fresh has_hash
Fresh-split h seen [] f = (tt, tt)
Fresh-split h seen (k ∷ ks) (f, fs) =
    let r = Fresh-split h seen ks fs in ((λ e. ground arith, r.0), (ground arith, r.1))

length-unique : (seen hs : List ℕ) → length (unique seen hs) ≤ length seen + length hs
unfolding unique
length-unique seen [] = omega arith
length-unique seen (h ∷ hs) = elim (Bool-cases (has_hash h seen)) [
  | inl e ↦ rw e (omega (arith, length-unique seen hs))
  | inr e ↦ rw e (omega (arith, length-unique (h ∷ seen) hs))
]

-- Only a list without a repetition fills the set.
unique-Fresh :
    (seen hs : List ℕ)
    → length (unique seen hs) ≡ length seen + length hs
    → Distinct hs × Fresh seen hs
unfolding unique Fresh
unique-Fresh seen [] e = (tt, tt)
unique-Fresh seen (h ∷ hs) e = elim (Bool-cases (has_hash h seen)) [
  | inl f ↦ absurd (short f)
  | inr f ↦
      let r = unique-Fresh (h ∷ seen) hs (sym (rw f refl) ∙ e ∙ omega arith) in
      let q = Fresh-split h seen hs r.1 in ((q.0, r.0), (f, q.1))
]
  where
    short : has_hash h seen ≡ true → ⊥
    short f =
        let g : length (unique seen hs) ≡ length seen + suc (length hs) = sym (rw f refl) ∙ e in
        omega (arith, length-unique seen hs)

no_coin_base-NoCoinBase :
    (env : Env) (txs : List Transaction) → no_coin_base env txs ≡ valid → NoCoinBase txs
unfolding no_coin_base
no_coin_base-NoCoinBase env [] e = tt
no_coin_base-NoCoinBase env (tx ∷ txs) e = elim (Bool-cases (Transaction.is_coin_base tx)) [
  | inl c ↦ absurd (dos-ne_valid 100 (sym (rw c refl) ∙ e))
  | inr c ↦ (c, no_coin_base-NoCoinBase env txs (sym (rw c refl) ∙ e))
]

coin_base_check-OneCoinBase :
    (env : Env) (txs : List Transaction) → coin_base_check env txs ≡ valid → OneCoinBase txs
unfolding coin_base_check
coin_base_check-OneCoinBase env [] e = absurd (dos-ne_valid 100 e)
coin_base_check-OneCoinBase env (tx ∷ txs) e = elim (Bool-cases (Transaction.is_coin_base tx)) [
  | inr c ↦ absurd (dos-ne_valid 100 (sym (rw c refl) ∙ e))
  | inl c ↦ (c, no_coin_base-NoCoinBase env txs (sym (rw c refl) ∙ e))
]

transactions_loop-AllSound :
    (env : Env) (law : MoneyLaw env) (txs : List Transaction)
    → transactions_loop env txs ≡ valid
    → AllSound env txs
unfolding transactions_loop
transactions_loop-AllSound env law [] e = tt
transactions_loop-AllSound env law (tx ∷ txs) e =
    let r = then_check-valid (check_transaction env tx) (transactions_loop env txs) e in
    ((check_transaction-IsSound env law tx).0 r.0, transactions_loop-AllSound env law txs r.1)

-- A block as it should be by itself, whatever chain it extends.
pub record IsSoundBlock (env : Env) (block : Block) : Type 0 where
  pub size : env.block_size block ≤ env.max_block_size
  pub target_positive : ltb_ℤ (pos 0) (set_compact block.header.bits) ≡ true
  pub target_limited : ltb_ℤ env.proof_of_work_limit (set_compact block.header.bits) ≡ false
  pub work : ltb_ℤ (set_compact block.header.bits) (pos (env.block_hash block.header)) ≡ false
  pub time : ltb_ℤ (env.adjusted_time +ℤ pos 7200) (pos block.header.time) ≡ false
  pub coin_base : OneCoinBase block.vtx
  pub transactions : AllSound env block.vtx
  pub distinct : Distinct (tx_hashes env block.vtx)
  pub sig_ops : block_sig_ops env 0 block.vtx ≤ env.max_block_sigops
  pub root : block.header.hash_merkle_root ≡ merkle_root env.pair_hash (tx_hashes env block.vtx)

time-valid : (b : Bool) → (if b then invalid else valid) ≡ valid → b ≡ false
time-valid true e = absurd (ground arith)
time-valid false e = refl

pass-valid : (b : Bool) → (if b then valid else dos 100) ≡ valid → b ≡ true
pass-valid true e = refl
pass-valid false e = absurd (dos-ne_valid 100 e)

or_false : (a b : Bool) → (a || b) ≡ false → (a ≡ false) × (b ≡ false)
or_false a b e = ground arith

not-false : (b : Bool) → not b ≡ false → b ≡ true
not-false b e = ground arith

module _ (env : Env) (block : Block) where
  size-valid : size_check env block ≡ valid → env.block_size block ≤ env.max_block_size
  unfolding size_check
  size-valid e =
      let r =
        (or_false (is_empty block.vtx || ltb env.max_block_size (length block.vtx))
          (ltb env.max_block_size (env.block_size block)) (guard-valid _ 100 e)).1 in
      ground arith

  work-valid :
      work_check env true block ≡ valid
      → (ltb_ℤ (pos 0) (set_compact block.header.bits) ≡ true)
        × (ltb_ℤ env.proof_of_work_limit (set_compact block.header.bits) ≡ false)
        × (ltb_ℤ (set_compact block.header.bits) (pos (env.block_hash block.header)) ≡ false)
  unfolding work_check check_proof_of_work
  work-valid e =
      met (ltb_ℤ (pos 0) target) (ltb_ℤ env.proof_of_work_limit target)
        (ltb_ℤ target (pos (env.block_hash block.header))) (guard-valid _ 50 e)
    where
      target : ℤ
      target = set_compact block.header.bits

      met :
          (a b c : Bool)
          → not (if not a || b then false else not c) ≡ false
          → (a ≡ true) × (b ≡ false) × (c ≡ false)
      met true false false h = (refl, refl, refl)
      met true false true h = absurd (ground arith)
      met true true c h = absurd (ground arith)
      met false b c h = absurd (ground arith)

  Distinct-valid : unique_check env block ≡ valid → Distinct (tx_hashes env block.vtx)
  unfolding unique_check tx_hashes
  Distinct-valid e =
      let r = pass-valid _ e in
      (unique-Fresh [] (tx_hashes env block.vtx)
        (omega (arith, (==_iff _ _).0 r, length-map block.vtx env.tx_hash))).0

  small-valid :
      sig_ops_check env block ≡ valid → block_sig_ops env 0 block.vtx ≤ env.max_block_sigops
  unfolding sig_ops_check
  small-valid e =
      let r = guard-valid (ltb env.max_block_sigops (block_sig_ops env 0 block.vtx)) 100 e in
      ground arith

  root-valid :
      root_check env true block ≡ valid
      → block.header.hash_merkle_root ≡ merkle_root env.pair_hash (tx_hashes env block.vtx)
  unfolding root_check
  root-valid e = (==_iff _ _).0 (not-false _ (guard-valid _ 100 e))

-- A block that `CheckBlock` accepts with both checks on is sound: not too large, with a positive
-- target within the limit that its hash meets, not more than two hours ahead, with a coinbase that is
-- its first transaction alone, with sound transactions and pairwise distinct hashes of them, within
-- the limit of signature operations, and under the Merkle root that its header names.
pub check_block-IsSoundBlock :
    (env : Env) (law : MoneyLaw env) (block : Block)
    → check_block env true true block ≡ valid
    → IsSoundBlock env block
unfolding check_block time_check
check_block-IsSoundBlock env law block e =
    let (a, root) = then_check-valid _ _ e in
    let (b, ops) = then_check-valid _ _ a in
    let (c, once) = then_check-valid _ _ b in
    let (d, txs) = then_check-valid _ _ c in
    let (f, base) = then_check-valid _ _ d in
    let (g, time) = then_check-valid _ _ f in
    let (size, pow) = then_check-valid _ _ g in
    record {
      size = size-valid env block size;
      target_positive = (work-valid env block pow).0;
      target_limited = (work-valid env block pow).1;
      work = (work-valid env block pow).2;
      time = time-valid _ time;
      coin_base = coin_base_check-OneCoinBase env block.vtx base;
      transactions = transactions_loop-AllSound env law block.vtx txs;
      distinct = Distinct-valid env block once;
      sig_ops = small-valid env block ops;
      root = root-valid env block root;
    }
