-- ===== src/Tests/ChainTests.antt =====
-- checkpoints.cpp and bitcoin_messages_handlers.cpp at concrete inputs.
use Prim.Native.Nat.{min}
use mathlib.Core.Bool.{◌&&◌, false, not, true}
use tri_tip.Prelude.{
  ap, arith, Bool-cases, drop, get_or, if◌then◌else◌, inl, inr, leb, length, length-append, List,
  lt→ltb, ltb, ltb→lt, map, none, Option, Option-cases, refl, set, length-set, some, suc, sym, take,
  zero, ℕ, ◌%◌, ◌*◌, ◌++◌, ◌+◌, ◌-◌, ◌/◌, ◌<◌, ◌==◌, ◌≡◌, ◌^◌, ◌∙◌, ◌∷◌, ◌≢◌, ◌≤◌, ◌⊎◌, [],
  replicate,
}
use tri_tip.Prelude.Int.{ℤ, pos, negsuc, ltb_ℤ}
use tri_tip.Prelude.Maps.{find}
use tri_tip.Checkpoints
use tri_tip.Checkpoints.Last.{Highest, rises, Unknown, get_last_checkpoint-Highest}
use tri_tip.Core.Transaction
use tri_tip.Core.Transaction.{Transaction}
use tri_tip.Core.TxIn.{TxIn}
use tri_tip.Validation
use tri_tip.Validation.{Block, BlockHeader, Env, Verdict, valid}
use tri_tip.Validation.Values.{MoneyLaw}
use tri_tip.Validation.Transactions.{IsSound, check_transaction-IsSound}
use tri_tip.Validation.Blocks.{IsSoundBlock, check_block-IsSoundBlock}
use tri_tip.Chain
use tri_tip.Chain.{BlockIndex, Indexed, Net}
use tri_tip.Chain.Majority.{is_super_majority-count, count_versions}
use tri_tip.Node
use tri_tip.Node.{Node, Peer}
use tri_tip.Node.Orphans.{Reaches, get_orphan_root-Reaches}
use tri_tip.Node.Work.{rounds, compute_min_work-rounds}
use tri_tip.Validation.Compact
use tri_tip.Node.Consistent.{IsConsistent}
use tri_tip.Node.Process.{Returns, process_block-Run}

abbrev coin_base_in : TxIn
coin_base_in = record {
  prevout = record { hash = 0; n = 2 ^ 32 - 1 };
  script_sig = 1 ∷ 2 ∷ [];
  sequence = 2 ^ 32 - 1;
}

abbrev coin_base_tx : Transaction
coin_base_tx = record {
  version = 1;
  vin = coin_base_in ∷ [];
  vout = record { value = pos 50; script_pub_key = 0x51 ∷ [] } ∷ [];
  lock_time = 0;
}

abbrev env : Env
env = record {
  max_block_size = 1000;
  max_block_sigops = 20;
  max_money = 21000;
  money_range = λ z. not (ltb_ℤ z (pos 0)) && not (ltb_ℤ (pos 21000) z);
  tx_size = λ tx. length tx.vin + length tx.vout;
  block_size = λ b. length b.vtx;
  tx_hash = λ tx. tx.lock_time;
  block_hash = λ h. h.nonce;
  pair_hash = λ a b. a + 2 * b;
  sig_op_count = λ s. length s;
  proof_of_work_limit = pos 65535;
  adjusted_time = pos 1000;
}

law : MoneyLaw env
law = record { positive = omega arith; range = λ z. refl }

abbrev header : ℕ → ℕ → BlockHeader
header prev nonce = record {
  version = pos 1;
  hash_prev_block = prev;
  hash_merkle_root = 0;
  time = 900;
  bits = 0x0300ffff;
  nonce = nonce;
}

abbrev block : ℕ → ℕ → Block
block prev nonce = record { header = header prev nonce; vtx = coin_base_tx ∷ [] }

check_transaction-IsSound_example :
    (Validation.check_transaction env coin_base_tx ≡ valid → IsSound env coin_base_tx)
    × (IsSound env coin_base_tx → Validation.check_transaction env coin_base_tx ≡ valid)
check_transaction-IsSound_example = check_transaction-IsSound env law coin_base_tx

sound : Validation.check_transaction env coin_base_tx ≡ valid
unfolding Validation.check_transaction Transaction.is_coin_base
sound = refl

block_sound : Validation.check_block env true true (block 3 4) ≡ valid
unfolding Validation.check_block tri_tip.Prelude.Int.◌+ℤ◌ Transaction.is_coin_base
    tri_tip.Merkle.merkle_root
block_sound = refl

check_block-IsSoundBlock_example : IsSoundBlock env (block 3 4)
check_block-IsSoundBlock_example = check_block-IsSoundBlock env law (block 3 4) block_sound

abbrev held_index : List (ℕ × ℕ)
held_index = (0x0000000069e244f73d78e8fd29ba2fd2ed618bd6fa2ee92559f542fdb26e7c1d, 77) ∷ (5, 6) ∷ []

table_rises : rises Checkpoints.map_checkpoints ≡ true
table_rises = refl

get_last_checkpoint-Highest_example :
    ((a : ℕ)
      → Checkpoints.get_last_checkpoint true held_index Checkpoints.map_checkpoints ≡ some a
      → (true ≡ true) × Highest held_index Checkpoints.map_checkpoints a)
    × (Checkpoints.get_last_checkpoint true held_index Checkpoints.map_checkpoints ≡ none
        → (true ≡ false) ⊎ Unknown held_index Checkpoints.map_checkpoints)
    × (true ≡ false
        → Checkpoints.get_last_checkpoint true held_index Checkpoints.map_checkpoints ≡ none)
get_last_checkpoint-Highest_example =
    get_last_checkpoint-Highest held_index true Checkpoints.map_checkpoints table_rises

found : Checkpoints.get_last_checkpoint true held_index Checkpoints.map_checkpoints ≡ some 77
unfolding Checkpoints.get_last_checkpoint
found = refl

abbrev locked : Transaction
locked = record coin_base_tx { lock_time = 5 }

final : Chain.is_final_tx 500000000 (pos 1) (pos 2) locked (pos 6) (pos 700) ≡ true
unfolding Chain.is_final_tx
final = refl

abbrev index_of : ℕ → ℤ → BlockIndex
index_of h v = record { version = v; height = h; time = 850; bits = 0x0300ffff }

abbrev recent : List BlockIndex
recent = index_of 9 (pos 2) ∷ index_of 8 (pos 1) ∷ index_of 7 (pos 2) ∷ []

is_super_majority-count_example :
    Chain.is_super_majority (pos 2) recent 2 3 ≡ leb 2 (count_versions (pos 2) (take 3 recent))
is_super_majority-count_example = is_super_majority-count (pos 2) recent 2 3

abbrev net : Net
net = record {
  env = env;
  test_net = false;
  checkpoints_enabled = true;
  genesis = 1;
  locktime_threshold = 500000000;
  best_height = pos 9;
  median_time_past = λ i. pos i.block.time;
  height_script = λ h. h ∷ [];
}

abbrev index : List (ℕ × Indexed)
index = (3, record { block = index_of 9 (pos 1); ancestors = [] }) ∷ []

accepted : Chain.accept_block net index (block 3 4) ≡ valid
unfolding Chain.accept_block
accepted = refl

sixteen : Compact.set_compact 0x03000010 ≡ pos 16
unfolding Compact.set_compact
sixteen = refl

compute_min_work-rounds_example :
    Node.compute_min_work net 0x03000010 (pos 4838401)
    ≡ Compact.get_compact (
        if net.test_net && ltb 1200 4838401
        then pos 65535
        else pos (min 65535 (16 * 4 ^ rounds 4838401)))
compute_min_work-rounds_example =
    compute_min_work-rounds net 0x03000010 16 65535 4838401 refl sixteen

sixteen_times_sixteen : rounds 4838401 ≡ 2
unfolding rounds
sixteen_times_sixteen = refl

abbrev node : Node
node = record {
  index = index;
  orphans = (21, block 20 21) ∷ [];
  orphans_by_prev = (20, block 20 21) ∷ [];
  best_chain = 3;
  best = 3;
  gate = [];
}

abbrev rank : ℕ → ℕ
rank n = n

get_orphan_root-Reaches_example :
    (r : BlockHeader) × (Node.get_orphan_root net node.orphans (header 21 22)
      ≡ some (net.env.block_hash r))
    × Reaches node.orphans (header 21 22) r
    × (find r.hash_prev_block node.orphans ≡ none)
get_orphan_root-Reaches_example =
    get_orphan_root-Reaches rank net node.orphans (header 21 22) (omega arith, tt)

consistent : IsConsistent net rank node
unfolding Validation.check_block tri_tip.Prelude.Int.◌+ℤ◌ Transaction.is_coin_base
    tri_tip.Merkle.merkle_root
consistent = record {
  held = (
    record {
      filed = refl;
      checked = refl;
      ranked = omega arith;
      unknown = refl;
      parentless = refl;
    },
    tt,
  );
  passed = tt;
}

abbrev peer : Peer
peer = record { last_begin = none; last_end = 0; sent = [] }

process_block-Run_example :
    Returns net rank (block 21 22) node (Node.process_block net (block 21 22) (some peer) node)
process_block-Run_example =
    process_block-Run net rank (block 21 22) node (omega arith) consistent (some peer)

-- The peer is asked for the root of the orphan.
asked :
    Node.process_block net (block 21 22) (some peer) node
    ≡ some (
      valid,
      some (record { last_begin = some 3; last_end = 21; sent = (3, 21) ∷ [] }),
      Node.hold_orphan net (block 21 22) node,
    )
unfolding Node.process_block tri_tip.Prelude.Int.◌+ℤ◌ Transaction.is_coin_base
    tri_tip.Merkle.merkle_root
asked = refl
