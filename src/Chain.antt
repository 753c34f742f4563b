-- ===== src/Chain.antt =====
-- dust_coin/bitcoin_messages_handlers.cpp: IsFinalTx, IsSuperMajority and AcceptBlock.
-- A CBlockIndex is a block with its ancestors, so that `pprev` is the rest of a list. What main.h and
-- script.h hold are the fields of `Net`; the clock and the best height are arguments.
pub mod Final
pub mod Majority
pub mod Accept
use mathlib.Core.Bool.{◌&&◌, ◌||◌, Bool, false, not, true}
use tri_tip.Prelude.{
  ap, arith, Bool-cases, drop, get_or, if◌then◌else◌, inl, inr, leb, length, length-append, List,
  lt→ltb, ltb, ltb→lt, map, none, Option, Option-cases, refl, set, length-set, some, suc, sym, take,
  zero, ℕ, ◌%◌, ◌*◌, ◌++◌, ◌+◌, ◌-◌, ◌/◌, ◌<◌, ◌==◌, ◌≡◌, ◌^◌, ◌∙◌, ◌∷◌, ◌≢◌, ◌≤◌, ◌⊎◌, [],
  replicate,
}
use tri_tip.Prelude.Int.{ℤ, pos, negsuc, pos_part, neg_part, ltb_ℤ, ◌+ℤ◌, ◌-ℤ◌, ◌*ℤ◌}
use tri_tip.Prelude.Equality.{eq_ℤ}
use tri_tip.Prelude.Maps.{find, has, insert}
use tri_tip.Core.TxIn
use tri_tip.Core.TxIn.{TxIn}
use tri_tip.Core.Transaction.{Transaction}
use tri_tip.Checkpoints.{check_block, get_last_checkpoint, checkpoints}
use tri_tip.Validation
use tri_tip.Validation.{Block, BlockHeader, Env, Verdict, valid, invalid, dos, ◌then_check◌}
use tri_tip.Validation.Compact.{set_compact, get_compact}

pub record BlockIndex : Type 0 where
  pub version : ℤ
  pub height : ℕ
  pub time : ℕ
  pub bits : ℕ

-- An index and its ancestors, nearest first.
pub record Indexed : Type 0 where
  pub block : BlockIndex
  pub ancestors : List BlockIndex

pub record Net : Type 0 where
  pub env : Env
  pub test_net : Bool
  pub checkpoints_enabled : Bool
  pub genesis : ℕ
  pub locktime_threshold : ℕ
  pub best_height : ℤ
  pub median_time_past : Indexed → ℤ
  pub height_script : ℕ → List ℕ

-- The loop over the inputs of IsFinalTx.
unfoldable pub all_final : List TxIn → Bool
all_final [] = true
all_final (i ∷ is) = if TxIn.is_final i then all_final is else false

-- `best_height` and `now` stand in for a height and a time of 0.
unfoldable pub is_final_tx : ℕ → ℤ → ℤ → Transaction → ℤ → ℤ → Bool
unfolding all_final
is_final_tx threshold best_height now tx height time =
    if tx.lock_time == 0
    then true
    else if ltb_ℤ (pos tx.lock_time) (
        if ltb tx.lock_time threshold
        then (if eq_ℤ height (pos 0) then best_height else height)
        else (if eq_ℤ time (pos 0) then now else time))
    then true
    else all_final tx.vin

-- The loop of IsSuperMajority, on `nFound`, the rounds left and `pstart`.
unfoldable pub majority_loop : ℤ → ℕ → ℕ → ℕ → List BlockIndex → ℕ
majority_loop min_version required found zero bs = found
majority_loop min_version required found (suc n) [] = found
majority_loop min_version required found (suc n) (b ∷ bs) =
    if ltb found required
    then majority_loop min_version required
        (if ltb_ℤ b.version min_version then found else found + 1) n bs
    else found

unfoldable pub is_super_majority : ℤ → List BlockIndex → ℕ → ℕ → Bool
unfolding majority_loop
is_super_majority min_version start required to_check =
    leb required (majority_loop min_version required 0 to_check start)

abbrev pub chain_of : Indexed → List BlockIndex
chain_of i = i.block ∷ i.ancestors

-- `std::equal` on the bytes of the first range; the second one may be shorter, which is no C++.
unfoldable pub starts_with : List ℕ → List ℕ → Bool
starts_with [] bs = true
starts_with (a ∷ rest) [] = false
starts_with (a ∷ rest) (b ∷ bs) = if a == b then starts_with rest bs else false

-- `vtx[0].vin[0].scriptSig`
unfoldable pub coin_base_script : List Transaction → List ℕ
coin_base_script [] = []
coin_base_script (tx ∷ txs) = elim tx.vin [ [] ↦ [] | i ∷ is ↦ i.script_sig ]

module _ (net : Net) where
  abbrev pub block_hash : Block → ℕ
  block_hash b = net.env.block_hash b.header

  unfoldable pub final_loop : ℤ → ℤ → List Transaction → Verdict
  unfolding is_final_tx
  final_loop height time [] = valid
  final_loop height time (tx ∷ txs) =
      if is_final_tx net.locktime_threshold net.best_height net.env.adjusted_time tx height time
      then final_loop height time txs
      else dos 10

  -- The two thresholds of a majority, of the main net and of the test net.
  unfoldable pub majority_of : Indexed → ℕ → ℕ → ℕ → ℕ → Bool
  unfolding is_super_majority
  majority_of prev required to_check test_required test_to_check =
      if net.test_net
      then is_super_majority (pos 2) (chain_of prev) test_required test_to_check
      else is_super_majority (pos 2) (chain_of prev) required to_check

  -- The tests of AcceptBlock for a block with a known previous block.
  unfoldable pub old_version_check : Indexed → Block → Verdict
  unfolding majority_of
  old_version_check prev block =
      if ltb_ℤ block.header.version (pos 2)
      then (if majority_of prev 950 1000 75 100 then invalid else valid)
      else valid

  unfoldable pub height_check : Indexed → Block → Verdict
  unfolding majority_of starts_with coin_base_script
  height_check prev block =
      if ltb_ℤ block.header.version (pos 2)
      then valid
      else if majority_of prev 750 1000 51 100
      then (if starts_with (net.height_script (prev.block.height + 1)) (coin_base_script block.vtx)
          then valid
          else dos 100)
      else valid

  unfoldable pub median_check : Indexed → Block → Verdict
  median_check prev block =
      if ltb_ℤ (net.median_time_past prev) (pos block.header.time) then valid else invalid

  unfoldable pub checkpoint_check : Indexed → Block → Verdict
  unfolding check_block
  checkpoint_check prev block =
      if check_block net.checkpoints_enabled (checkpoints net.test_net) (prev.block.height + 1)
        (block_hash block)
      then valid
      else dos 100

  unfoldable pub accept_after : Indexed → Block → Verdict
  unfolding median_check final_loop checkpoint_check old_version_check height_check
  accept_after prev block =
      median_check prev block
      then_check final_loop (pos (prev.block.height + 1)) (pos block.header.time) block.vtx
      then_check checkpoint_check prev block
      then_check old_version_check prev block
      then_check height_check prev block

  unfoldable pub accept_block : List (ℕ × Indexed) → Block → Verdict
  unfolding accept_after
  accept_block index block =
      if has (block_hash block) index
      then invalid
      else if block_hash block == net.genesis
      then valid
      else elim (find block.header.hash_prev_block index) [
        | none ↦ dos 10
        | some prev ↦ accept_after prev block
      ]
