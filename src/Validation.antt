-- ===== src/Validation.antt =====
-- dust_coin/bitcoin_messages_handlers.cpp: CheckTransaction, CheckProofOfWork, GetLegacySigOpCount
-- and CheckBlock, with the block of dust_coin/bitcoin_block.h and its header of core.h.
-- `Env` holds what the code takes from main.h, serialize.h, script.h and hash.h: sizes, limits,
-- hashes, the count of signature operations, and the adjusted time.
pub mod Compact
pub mod Inputs
pub mod Values
pub mod Transactions
pub mod Blocks
use mathlib.Core.Bool.{◌&&◌, ◌||◌, Bool, false, not, true}
use tri_tip.Prelude.{
  ap, arith, Bool-cases, drop, get_or, if◌then◌else◌, inl, inr, leb, length, length-append, List,
  lt→ltb, ltb, ltb→lt, map, none, Option, Option-cases, refl, set, length-set, some, suc, sym, take,
  zero, ℕ, ◌%◌, ◌*◌, ◌++◌, ◌+◌, ◌-◌, ◌/◌, ◌<◌, ◌==◌, ◌≡◌, ◌^◌, ◌∙◌, ◌∷◌, ◌≢◌, ◌≤◌, ◌⊎◌, [],
  replicate,
}
use tri_tip.Prelude.Int.{ℤ, pos, negsuc, pos_part, neg_part, ltb_ℤ, ◌+ℤ◌}
use tri_tip.Core.OutPoint
use tri_tip.Core.OutPoint.{OutPoint}
use tri_tip.Core.TxIn.{TxIn}
use tri_tip.Core.TxOut.{TxOut}
use tri_tip.Core.Transaction
use tri_tip.Core.Transaction.{Transaction, is_empty}
use tri_tip.Merkle.{merkle_root}
use tri_tip.Validation.Compact.{set_compact}

-- What a check leaves in CValidationState: nothing, Invalid, or DoS at a level.
pub data Verdict : Type 0 where
  valid : Verdict
  invalid : Verdict
  dos : ℕ → Verdict

infixl 5 ◌then_check◌
abbrev pub ◌then_check◌ : Verdict → Verdict → Verdict
valid then_check v = v
invalid then_check v = invalid
dos n then_check v = dos n

pub record BlockHeader : Type 0 where
  pub version : ℤ
  pub hash_prev_block : ℕ
  pub hash_merkle_root : ℕ
  pub time : ℕ
  pub bits : ℕ
  pub nonce : ℕ

pub record Block : Type 0 where
  pub header : BlockHeader
  pub vtx : List Transaction

pub record Env : Type 0 where
  pub max_block_size : ℕ
  pub max_block_sigops : ℕ
  pub max_money : ℕ
  pub money_range : ℤ → Bool
  pub tx_size : Transaction → ℕ
  pub block_size : Block → ℕ
  pub tx_hash : Transaction → ℕ
  pub block_hash : BlockHeader → ℕ
  pub pair_hash : ℕ → ℕ → ℕ
  pub sig_op_count : List ℕ → ℕ
  pub proof_of_work_limit : ℤ
  pub adjusted_time : ℤ

-- `SetNull` and `IsNull` of the header and the block
unfoldable pub null_header : BlockHeader
null_header = record {
  version = pos 2;
  hash_prev_block = 0;
  hash_merkle_root = 0;
  time = 0;
  bits = 0;
  nonce = 0;
}

unfoldable pub is_null_header : BlockHeader → Bool
is_null_header h = h.bits == 0

unfoldable pub null_block : Block
unfolding null_header
null_block = record { header = null_header; vtx = [] }

unfoldable pub has_outpoint : OutPoint → List OutPoint → Bool
has_outpoint p [] = false
has_outpoint p (q ∷ qs) = if OutPoint.equal q p then true else has_outpoint p qs

-- The loop that looks for duplicate inputs, on vInOutPoints.
unfoldable pub duplicates_loop : List OutPoint → List TxIn → Verdict
unfolding has_outpoint
duplicates_loop seen [] = valid
duplicates_loop seen (i ∷ is) =
    if has_outpoint i.prevout seen then dos 100 else duplicates_loop (i.prevout ∷ seen) is

unfoldable pub prevouts_loop : List TxIn → Verdict
prevouts_loop [] = valid
prevouts_loop (i ∷ is) = if OutPoint.is_null i.prevout then dos 10 else prevouts_loop is

-- The length of `vin[0].scriptSig`; the inputs are not empty there.
unfoldable pub first_script_size : List TxIn → ℕ
first_script_size [] = 0
first_script_size (i ∷ is) = length i.script_sig

unfoldable pub inputs_check : Transaction → Verdict
unfolding prevouts_loop first_script_size
inputs_check tx =
    if Transaction.is_coin_base tx
    then (if ltb (first_script_size tx.vin) 2 || ltb 100 (first_script_size tx.vin)
        then dos 100
        else valid)
    else prevouts_loop tx.vin

-- A sum in int64.
unfoldable pub int64 : ℕ → ℤ
int64 n = if ltb n (2 ^ 63) then pos n else negsuc (2 ^ 64 - 1 - n)

-- `nValueOut += txout.nValue`, for a total and a value that are not negative.
unfoldable pub add_value : ℤ → ℤ → ℤ
unfolding int64
add_value total value = int64 ((pos_part total + pos_part value) % 2 ^ 64)

unfoldable pub has_hash : ℕ → List ℕ → Bool
has_hash h [] = false
has_hash h (k ∷ ks) = if k == h then true else has_hash h ks

-- The set uniqueTx after the loop.
unfoldable pub unique : List ℕ → List ℕ → List ℕ
unfolding has_hash
unique seen [] = seen
unique seen (h ∷ hs) = unique (if has_hash h seen then seen else h ∷ seen) hs

module _ (env : Env) where
  unfoldable pub values_loop : ℤ → List TxOut → Verdict
  unfolding add_value
  values_loop total [] = valid
  values_loop total (o ∷ os) =
      if ltb_ℤ o.value (pos 0)
      then dos 100
      else if ltb_ℤ (pos env.max_money) o.value
      then dos 100
      else if not (env.money_range (add_value total o.value))
      then dos 100
      else values_loop (add_value total o.value) os

  unfoldable pub check_transaction : Transaction → Verdict
  unfolding values_loop duplicates_loop inputs_check is_empty
  check_transaction tx =
      (if is_empty tx.vin then dos 10 else valid)
      then_check (if is_empty tx.vout then dos 10 else valid)
      then_check (if ltb env.max_block_size (env.tx_size tx) then dos 100 else valid)
      then_check values_loop (pos 0) tx.vout
      then_check duplicates_loop [] tx.vin
      then_check inputs_check tx

  unfoldable pub check_proof_of_work : ℕ → ℕ → Bool
  unfolding set_compact
  check_proof_of_work hash bits =
      let target = set_compact bits in
      if not (ltb_ℤ (pos 0) target) || ltb_ℤ env.proof_of_work_limit target
      then false
      else not (ltb_ℤ target (pos hash))

  -- Both loops of GetLegacySigOpCount, in unsigned int.
  unfoldable pub in_sig_ops : ℕ → List TxIn → ℕ
  in_sig_ops n [] = n
  in_sig_ops n (i ∷ is) = in_sig_ops ((n + env.sig_op_count i.script_sig) % 2 ^ 32) is

  unfoldable pub out_sig_ops : ℕ → List TxOut → ℕ
  out_sig_ops n [] = n
  out_sig_ops n (o ∷ os) = out_sig_ops ((n + env.sig_op_count o.script_pub_key) % 2 ^ 32) os

  unfoldable pub get_legacy_sig_op_count : Transaction → ℕ
  unfolding in_sig_ops out_sig_ops
  get_legacy_sig_op_count tx = out_sig_ops (in_sig_ops 0 tx.vin) tx.vout

  unfoldable pub block_sig_ops : ℕ → List Transaction → ℕ
  unfolding get_legacy_sig_op_count
  block_sig_ops n [] = n
  block_sig_ops n (tx ∷ txs) = block_sig_ops ((n + get_legacy_sig_op_count tx) % 2 ^ 32) txs

  unfoldable pub no_coin_base : List Transaction → Verdict
  no_coin_base [] = valid
  no_coin_base (tx ∷ txs) = if Transaction.is_coin_base tx then dos 100 else no_coin_base txs

  -- The first transaction is a coinbase, and no other is.
  unfoldable pub coin_base_check : List Transaction → Verdict
  unfolding no_coin_base
  coin_base_check [] = dos 100
  coin_base_check (tx ∷ txs) = if Transaction.is_coin_base tx then no_coin_base txs else dos 100

  unfoldable pub transactions_loop : List Transaction → Verdict
  unfolding check_transaction
  transactions_loop [] = valid
  transactions_loop (tx ∷ txs) = check_transaction tx then_check transactions_loop txs

  -- The hashes that BuildMerkleTree caches, which GetTxHash reads.
  unfoldable pub tx_hashes : List Transaction → List ℕ
  tx_hashes txs = map env.tx_hash txs

  -- The tests of CheckBlock, one after the other.
  unfoldable pub size_check : Block → Verdict
  unfolding is_empty
  size_check block =
      if is_empty block.vtx
        || ltb env.max_block_size (length block.vtx)
        || ltb env.max_block_size (env.block_size block)
      then dos 100
      else valid

  unfoldable pub work_check : Bool → Block → Verdict
  unfolding check_proof_of_work
  work_check check_pow block =
      if check_pow && not (check_proof_of_work (env.block_hash block.header) block.header.bits)
      then dos 50
      else valid

  unfoldable pub time_check : Block → Verdict
  time_check block =
      if ltb_ℤ (env.adjusted_time +ℤ pos 7200) (pos block.header.time) then invalid else valid

  unfoldable pub unique_check : Block → Verdict
  unfolding tx_hashes unique
  unique_check block =
      if length (unique [] (tx_hashes block.vtx)) == length block.vtx then valid else dos 100

  unfoldable pub sig_ops_check : Block → Verdict
  unfolding block_sig_ops
  sig_ops_check block =
      if ltb env.max_block_sigops (block_sig_ops 0 block.vtx) then dos 100 else valid

  unfoldable pub root_check : Bool → Block → Verdict
  unfolding tx_hashes
  root_check check_root block =
      if check_root
        && not (block.header.hash_merkle_root == merkle_root env.pair_hash (tx_hashes block.vtx))
      then dos 100
      else valid

  unfoldable pub check_block : (check_pow check_merkle_root : Bool) → Block → Verdict
  unfolding size_check work_check time_check coin_base_check transactions_loop unique_check
      sig_ops_check root_check
  check_block check_pow check_merkle_root block =
      size_check block
      then_check work_check check_pow block
      then_check time_check block
      then_check coin_base_check block.vtx
      then_check transactions_loop block.vtx
      then_check unique_check block
      then_check sig_ops_check block
      then_check root_check check_merkle_root block
