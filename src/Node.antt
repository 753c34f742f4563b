-- ===== src/Node.antt =====
-- dust_coin/bitcoin_messages_handlers.cpp: GetOrphanRoot, AlreadyHave, PushGetBlocks, ComputeMinWork
-- and ProcessBlock, on the maps of blocks, the peer that sent the block and the gate.
pub mod Orphans
pub mod Work
pub mod Consistent
pub mod Process
use mathlib.Core.Bool.{◌&&◌, ◌||◌, Bool, false, not, true}
use tri_tip.Prelude.{
  ap, arith, Bool-cases, drop, get_or, if◌then◌else◌, inl, inr, leb, length, length-append, List,
  lt→ltb, ltb, ltb→lt, map, none, Option, Option-cases, refl, set, length-set, some, suc, sym, take,
  zero, ℕ, ◌%◌, ◌*◌, ◌++◌, ◌+◌, ◌-◌, ◌/◌, ◌<◌, ◌==◌, ◌≡◌, ◌^◌, ◌∙◌, ◌∷◌, ◌≢◌, ◌≤◌, ◌⊎◌, [],
  replicate,
}
use tri_tip.Prelude.Int.{ℤ, pos, negsuc, pos_part, neg_part, ltb_ℤ, ◌+ℤ◌, ◌-ℤ◌, ◌*ℤ◌}
use tri_tip.Prelude.Equality.{eq_ℤ}
use tri_tip.Prelude.Maps.{find, has, insert}
use tri_tip.Core.TxIn
use tri_tip.Core.TxIn.{TxIn}
use tri_tip.Core.Transaction.{Transaction}
use tri_tip.Checkpoints.{check_block, get_last_checkpoint, checkpoints}
use tri_tip.Validation
use tri_tip.Validation.{Block, BlockHeader, Env, Verdict, valid, invalid, dos, ◌then_check◌}
use tri_tip.Validation.Compact.{set_compact, get_compact}
use tri_tip.Prelude.{◌>>=◌}
use tri_tip.Chain.{Indexed, Net, BlockIndex, block_hash}

pub data InvType : Type 0 where
  msg_tx : InvType
  msg_block : InvType
  other_inv : InvType

-- The maps of blocks, hashBestChain, pindexBest as the hash of its block, and the blocks given to
-- BitcoinGate. `orphans_by_prev` is a multimap, whose keys repeat.
pub record Node : Type 0 where
  pub index : List (ℕ × Indexed)
  pub orphans : List (ℕ × Block)
  pub orphans_by_prev : List (ℕ × Block)
  pub best_chain : ℕ
  pub best : ℕ
  pub gate : List Block

-- What PushGetBlocks keeps of a peer, and the "getblocks" messages pushed to it.
pub record Peer : Type 0 where
  pub last_begin : Option ℕ
  pub last_end : ℕ
  pub sent : List (ℕ × ℕ)

unfoldable pub same_begin : Option ℕ → ℕ → Bool
same_begin none begin = false
same_begin (some b) begin = b == begin

unfoldable pub push_get_blocks : ℕ → ℕ → Peer → Peer
unfolding same_begin
push_get_blocks begin end peer =
    if same_begin peer.last_begin begin && end == peer.last_end
    then peer
    else record { last_begin = some begin; last_end = end; sent = peer.sent ++ (begin, end) ∷ [] }

module _ (net : Net) where
  -- The walk of GetOrphanRoot; `none` where the fuel ends.
  unfoldable pub orphan_root : ℕ → List (ℕ × Block) → BlockHeader → Option ℕ
  orphan_root zero orphans h = none
  orphan_root (suc f) orphans h = elim (find h.hash_prev_block orphans) [
    | none ↦ some (net.env.block_hash h)
    | some b ↦ orphan_root f orphans b.header
  ]

  unfoldable pub get_orphan_root : List (ℕ × Block) → BlockHeader → Option ℕ
  unfolding orphan_root
  get_orphan_root orphans h = orphan_root (length orphans + 1) orphans h

  -- `nTargetTimespan * 4`, in seconds, is 4838400. The fuel covers the time.
  unfoldable pub min_work_loop : ℕ → ℤ → ℤ → ℤ
  min_work_loop zero time result = result
  min_work_loop (suc f) time result =
      let rest = min_work_loop f (time -ℤ pos 4838400) (result *ℤ pos 4) in
      if ltb_ℤ (pos 0) time && ltb_ℤ result net.env.proof_of_work_limit then rest else result

  unfoldable pub min_work : ℤ → ℤ → ℤ
  unfolding min_work_loop
  min_work base time =
      let result = min_work_loop (pos_part time / 4838400 + 1) time base in
      if ltb_ℤ net.env.proof_of_work_limit result then net.env.proof_of_work_limit else result

  unfoldable pub compute_min_work : ℕ → ℤ → ℕ
  unfolding min_work set_compact get_compact
  compute_min_work base time =
      if net.test_net && ltb_ℤ (pos 1200) time
      then get_compact net.env.proof_of_work_limit
      else get_compact (min_work (set_compact base) time)

  -- The test against the last checkpoint, for a block that does not extend the best chain.
  unfoldable pub spam_check : ℕ → Option Indexed → Block → Verdict
  unfolding compute_min_work set_compact
  spam_check best none block = valid
  spam_check best (some checkpoint) block =
      if block.header.hash_prev_block == best
      then valid
      else if ltb_ℤ (pos block.header.time -ℤ pos checkpoint.block.time) (pos 0)
      then dos 100
      else if ltb_ℤ
          (set_compact (
            compute_min_work checkpoint.block.bits
              (pos block.header.time -ℤ pos checkpoint.block.time)))
          (set_compact block.header.bits)
      then dos 100
      else valid

  unfoldable pub already_have : InvType → ℕ → Node → Bool
  already_have msg_block hash node = has hash node.index || has hash node.orphans
  already_have msg_tx hash node = true
  already_have other_inv hash node = true

  -- The first half of ProcessBlock, which decides.
  unfoldable pub process_verdict : Block → Node → Verdict
  unfolding spam_check get_last_checkpoint Validation.check_block
  process_verdict block node =
      (if has (block_hash net block) node.index then invalid else valid)
      then_check (if has (block_hash net block) node.orphans then invalid else valid)
      then_check Validation.check_block net.env true true block
      then_check spam_check node.best_chain
          (get_last_checkpoint net.checkpoints_enabled node.index (checkpoints net.test_net)) block

  -- `pblock->hashPrevBlock != 0 && !mapBlockIndex.count(pblock->hashPrevBlock)`
  unfoldable pub is_orphan : Block → Node → Bool
  is_orphan block node =
      not (block.header.hash_prev_block == 0) && not (has block.header.hash_prev_block node.index)

  unfoldable pub hold_orphan : Block → Node → Node
  hold_orphan block node = record node {
    orphans = insert (block_hash net block) block node.orphans;
    orphans_by_prev = node.orphans_by_prev ++ (block.header.hash_prev_block, block) ∷ [];
  }

  -- A valid block: an orphan is held, and its root asked for, if a peer sent it; any other block goes
  -- to the gate. `none` only where the walk to the orphan root does not end.
  unfoldable pub process_valid : Block → Option Peer → Node → Option (Verdict × Option Peer × Node)
  unfolding is_orphan hold_orphan push_get_blocks get_orphan_root
  process_valid block none node = some (
    valid,
    none,
    if is_orphan block node then node else record node { gate = node.gate ++ block ∷ [] },
  )
  process_valid block (some peer) node =
      if is_orphan block node
      then (do
        root ← get_orphan_root (hold_orphan block node).orphans block.header
        some (valid, some (push_get_blocks node.best root peer), hold_orphan block node))
      else some (valid, some peer, record node { gate = node.gate ++ block ∷ [] })

  unfoldable pub process_block : Block → Option Peer → Node → Option (Verdict × Option Peer × Node)
  unfolding process_verdict process_valid
  process_block block from node = elim (process_verdict block node) [
    | invalid ↦ some (invalid, from, node)
    | dos n ↦ some (dos n, from, node)
    | valid ↦ process_valid block from node
  ]
