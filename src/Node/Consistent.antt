-- ===== src/Node/Consistent.antt =====
-- bitcoin_messages_handlers.cpp, ProcessBlock: the orphans and the gate, and what a valid verdict says.
use mathlib.Core.Bool.{Bool, false, true}
use tri_tip.Prelude.{ap, arith, if◌then◌else◌, List, refl, ℕ, ◌++◌, ◌<◌, ◌≡◌, ◌∙◌, ◌∷◌, []}
use tri_tip.Prelude.Maps.{has, All, insert-All, All-map}
use tri_tip.Validation
use tri_tip.Validation.{Verdict, valid, invalid, dos, ◌then_check◌, Block}
use tri_tip.Validation.Inputs.{then_check-valid}
use tri_tip.Chain.{Net, block_hash}
use tri_tip.Node.{Node, process_verdict, is_orphan, hold_orphan}

-- An orphan: filed under its hash, checked, below its hash in rank, and without a known parent.
pub record Held (net : Net) (rank : ℕ → ℕ) (node : Node) (key : ℕ) (b : Block) : Type 0 where
  pub filed : block_hash net b ≡ key
  pub checked : Validation.check_block net.env true true b ≡ valid
  pub ranked : rank b.header.hash_prev_block < rank key
  pub unknown : has key node.index ≡ false
  pub parentless : has b.header.hash_prev_block node.index ≡ false

abbrev pub AllChecked : Net → List Block → Type 0
AllChecked net [] = Unit {0}
AllChecked net (b ∷ bs) = (Validation.check_block net.env true true b ≡ valid) × AllChecked net bs

pub record IsConsistent (net : Net) (rank : ℕ → ℕ) (node : Node) : Type 0 where
  pub held : All (Held net rank node) node.orphans
  pub passed : AllChecked net node.gate

-- The index stays, so that what is said of it stays said.
Held_keep :
    (net : Net) (rank : ℕ → ℕ) (node node' : Node)
    → node'.index ≡ node.index
    → (k : ℕ) (b : Block) → Held net rank node k b
    → Held net rank node' k b
Held_keep net rank node node' e k b h = record {
  filed = h.filed;
  checked = h.checked;
  ranked = h.ranked;
  unknown = ap (has k) e ∙ h.unknown;
  parentless = ap (has b.header.hash_prev_block) e ∙ h.parentless;
}

AllChecked-append :
    (net : Net) (bs : List Block) (b : Block)
    → AllChecked net bs
    → Validation.check_block net.env true true b ≡ valid
    → AllChecked net (bs ++ b ∷ [])
AllChecked-append net [] b a c = (c, tt)
AllChecked-append net (d ∷ bs) b (x, a) c = (x, AllChecked-append net bs b a c)

-- What a valid verdict says of the block.
pub record Passed (net : Net) (block : Block) (node : Node) : Type 0 where
  pub unknown : has (block_hash net block) node.index ≡ false
  pub new_orphan : has (block_hash net block) node.orphans ≡ false
  pub checked : Validation.check_block net.env true true block ≡ valid

fresh : (b : Bool) → (if b then invalid else valid) ≡ valid → b ≡ false
fresh true e = absurd (ground arith)
fresh false e = refl

pub process_verdict-Passed :
    (net : Net) (block : Block) (node : Node)
    → process_verdict net block node ≡ valid
    → Passed net block node
unfolding process_verdict
process_verdict-Passed net block node e =
    let (a, spam) = then_check-valid _ _ e in
    let (b, checked) = then_check-valid _ _ a in
    let (known, orphan) = then_check-valid _ _ b in
    record { unknown = fresh _ known; new_orphan = fresh _ orphan; checked = checked }

orphan-parentless :
    (net : Net) (block : Block) (node : Node)
    → is_orphan net block node ≡ true
    → has block.header.hash_prev_block node.index ≡ false
unfolding is_orphan
orphan-parentless net block node e = ground arith

module _ (net : Net) (rank : ℕ → ℕ) (block : Block) (node : Node) where
  pub hold_orphan-IsConsistent :
      rank block.header.hash_prev_block < rank (block_hash net block)
      → IsConsistent net rank node
      → Passed net block node
      → is_orphan net block node ≡ true
      → IsConsistent net rank (hold_orphan net block node)
  unfolding hold_orphan
  hold_orphan-IsConsistent lower c p o = record {
    held =
        insert-All (Held net rank (hold_orphan net block node)) (block_hash net block) block
          node.orphans
          (record {
            filed = refl;
            checked = p.checked;
            ranked = lower;
            unknown = p.unknown;
            parentless = orphan-parentless net block node o;
          })
          (All-map (Held_keep net rank node (hold_orphan net block node) refl) node.orphans c.held);
    passed = c.passed;
  }

  pub pass_block-IsConsistent :
      IsConsistent net rank node
      → Passed net block node
      → IsConsistent net rank (record node { gate = node.gate ++ block ∷ [] })
  pass_block-IsConsistent c p = record {
    held =
        All-map (Held_keep net rank node (record node { gate = node.gate ++ block ∷ [] }) refl)
          node.orphans c.held;
    passed = AllChecked-append net node.gate block c.passed p.checked;
  }
