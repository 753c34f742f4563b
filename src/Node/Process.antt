-- ===== src/Node/Process.antt =====
-- bitcoin_messages_handlers.cpp, ProcessBlock: what every call returns and keeps.
use mathlib.Core.Bool.{false, true}
use tri_tip.Prelude.{
  arith, Bool-cases, inl, inr, none, Option, refl, some, ℕ, ◌++◌, ◌<◌, ◌≡◌, ◌∷◌, ◌≢◌, [],
}
use tri_tip.Prelude.Maps.{All-map}
use tri_tip.Validation.{Verdict, valid, invalid, dos, Block}
use tri_tip.Validation.Inputs.{dos-ne_valid}
use tri_tip.Chain.{Net, block_hash}
use tri_tip.Node.{
  Node, Peer, process_verdict, process_valid, process_block, is_orphan, hold_orphan,
  push_get_blocks,
}
use tri_tip.Node.Orphans.{Ranked, get_orphan_root-Reaches}
use tri_tip.Node.Consistent.{
  IsConsistent, Passed, hold_orphan-IsConsistent, pass_block-IsConsistent, process_verdict-Passed,
}

-- What a run of ProcessBlock makes of the node.
pub record Run (net : Net) (rank : ℕ → ℕ) (block : Block) (node : Node) (v : Verdict) (node' : Node)
    : Type 0 where
  pub consistent : IsConsistent net rank node'
  pub refused : v ≢ valid → node' ≡ node
  pub accepted : v ≡ valid → Passed net block node
  pub held : v ≡ valid → is_orphan net block node ≡ true → node'.gate ≡ node.gate
  pub passed : v ≡ valid → is_orphan net block node ≡ false → node'.gate ≡ node.gate ++ block ∷ []

Ranked-Held :
    (net : Net) (rank : ℕ → ℕ) (node : Node) → IsConsistent net rank node → Ranked rank node.orphans
Ranked-Held net rank node c = All-map (λ k b h. h.ranked) node.orphans c.held

module _ (net : Net) (rank : ℕ → ℕ) (block : Block) (node : Node) where
  abbrev pub Returns : Option (Verdict × Option Peer × Node) → Type 0
  Returns r =
      (v : Verdict) × (from : Option Peer) × (node' : Node) × (r ≡ some (v, from, node'))
      × Run net rank block node v node'

  refuse-Returns :
      (v : Verdict) (from : Option Peer)
      → v ≢ valid
      → IsConsistent net rank node
      → Returns (some (v, from, node))
  refuse-Returns v from ne c = (
    v,
    from,
    node,
    refl,
    record {
      consistent = c;
      refused = λ x. refl;
      accepted = λ e. absurd (ne e);
      held = λ e. absurd (ne e);
      passed = λ e. absurd (ne e);
    },
  )

  hold-Run :
      rank block.header.hash_prev_block < rank (block_hash net block)
      → IsConsistent net rank node
      → Passed net block node
      → is_orphan net block node ≡ true
      → Run net rank block node valid (hold_orphan net block node)
  unfolding hold_orphan
  hold-Run lower c p o = record {
    consistent = hold_orphan-IsConsistent net rank block node lower c p o;
    refused = λ ne. absurd (ne refl);
    accepted = λ e. p;
    held = λ e f. refl;
    passed = λ e f. absurd (ground arith);
  }

  skip-Run :
      IsConsistent net rank node
      → Passed net block node
      → is_orphan net block node ≡ true
      → Run net rank block node valid node
  skip-Run c p o = record {
    consistent = c;
    refused = λ ne. refl;
    accepted = λ e. p;
    held = λ e f. refl;
    passed = λ e f. absurd (ground arith);
  }

  pass-Run :
      IsConsistent net rank node
      → Passed net block node
      → is_orphan net block node ≡ false
      → Run net rank block node valid (record node { gate = node.gate ++ block ∷ [] })
  pass-Run c p o = record {
    consistent = pass_block-IsConsistent net rank block node c p;
    refused = λ ne. absurd (ne refl);
    accepted = λ e. p;
    held = λ e f. absurd (ground arith);
    passed = λ e f. refl;
  }

  process_valid-Returns :
      rank block.header.hash_prev_block < rank (block_hash net block)
      → IsConsistent net rank node
      → Passed net block node
      → (from : Option Peer) → Returns (process_valid net block from node)
  unfolding process_valid
  process_valid-Returns lower c p none = elim (Bool-cases (is_orphan net block node)) [
    | inl o ↦ (valid, none, node, rw o refl, skip-Run c p o)
    | inr o ↦
        (valid, none, record node { gate = node.gate ++ block ∷ [] }, rw o refl, pass-Run c p o)
  ]
  process_valid-Returns lower c p (some peer) = elim (Bool-cases (is_orphan net block node)) [
    | inl o ↦
        let held = hold_orphan-IsConsistent net rank block node lower c p o in
        let root =
          get_orphan_root-Reaches rank net (hold_orphan net block node).orphans block.header
            (Ranked-Held net rank (hold_orphan net block node) held) in
        (
          valid,
          some (push_get_blocks node.best (net.env.block_hash root.0) peer),
          hold_orphan net block node,
          rw (o, root.1) refl,
          hold-Run lower c p o,
        )
    | inr o ↦ (
      valid,
      some peer,
      record node { gate = node.gate ++ block ∷ [] },
      rw o refl,
      pass-Run c p o,
    )
  ]

  returns :
      rank block.header.hash_prev_block < rank (block_hash net block)
      → IsConsistent net rank node
      → (from : Option Peer) (v : Verdict) → process_verdict net block node ≡ v
      → Returns (elim v [
        | invalid ↦ some (invalid, from, node)
        | dos n ↦ some (dos n, from, node)
        | valid ↦ process_valid net block from node
      ])
  returns lower c from valid e =
      process_valid-Returns lower c (process_verdict-Passed net block node e) from
  returns lower c from invalid e = refuse-Returns invalid from (λ q. ground arith) c
  returns lower c from (dos n) e = refuse-Returns (dos n) from (dos-ne_valid n) c

  -- `ProcessBlock` on a consistent node, for a block that stands above its previous one in rank, always
  -- returns. It leaves the node consistent: each orphan is filed under its hash, has passed
  -- CheckBlock, is not in the index and has no parent there, and the gate has got checked blocks
  -- only. It changes nothing on a refused block, and gives an accepted one to the gate exactly if its
  -- previous block is known or zero.
  pub process_block-Run :
      rank block.header.hash_prev_block < rank (block_hash net block)
      → IsConsistent net rank node
      → (from : Option Peer) → Returns (process_block net block from node)
  unfolding process_block
  process_block-Run lower c from = returns lower c from (process_verdict net block node) refl
