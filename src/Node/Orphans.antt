-- ===== src/Node/Orphans.antt =====
-- bitcoin_messages_handlers.cpp, GetOrphanRoot: the walk along the orphans.
use tri_tip.Prelude.{==_iff}
use mathlib.Core.Bool.{false, true}
use tri_tip.Prelude.{
  arith, Bool-cases, if◌then◌else◌, inl, inr, length, List, ltb, none, Option-cases, refl, some,
  suc, sym, zero, ℕ, ◌+◌, ◌<◌, ◌==◌, ◌≡◌, ◌∙◌, ◌∷◌, ◌≤◌, [],
}
use tri_tip.Prelude.Maps.{find, All, All-find}
use tri_tip.Validation.{Block, BlockHeader}
use tri_tip.Chain.{Net}
use tri_tip.Node.{orphan_root, get_orphan_root}

-- The walk from a header to the header of a held block, over the previous blocks.
pub data Reaches (orphans : List (ℕ × Block)) : BlockHeader → BlockHeader → Type 0 where
  here : {h : BlockHeader} → Reaches orphans h h
  up :
      {h r : BlockHeader} (b : Block)
      → find h.hash_prev_block orphans ≡ some b
      → Reaches orphans b.header r
      → Reaches orphans h r

-- A hash chain has no cycle: a rank of the hashes falls from each block to the one before it.
abbrev pub Ranked : (ℕ → ℕ) → List (ℕ × Block) → Type 0
Ranked rank orphans = All (λ k b. rank b.header.hash_prev_block < rank k) orphans

module _ (rank : ℕ → ℕ) where
  abbrev below : ℕ → List (ℕ × Block) → ℕ
  below r [] = 0
  below r ((k, b) ∷ m) = if ltb (rank k) r then suc (below r m) else below r m

  below-le : (r : ℕ) (m : List (ℕ × Block)) → below r m ≤ length m
  below-le r [] = omega arith
  below-le r ((k, b) ∷ m) = ground (arith, below-le r m)

  below_mono : (r s : ℕ) (m : List (ℕ × Block)) → r ≤ s → below r m ≤ below s m
  below_mono r s [] h = omega arith
  below_mono r s ((k, b) ∷ m) h = ground (arith, below_mono r s m h)

  below_strict :
      (k : ℕ) (c : Block) (m : List (ℕ × Block))
      → find k m ≡ some c
      → below (rank k) m < below (rank k + 1) m
  below_strict k c [] e = absurd (ground arith)
  below_strict k c ((j, b) ∷ m) e = elim (Bool-cases (j == k)) [
    | inl q ↦
        let p : j ≡ k = (==_iff _ _).0 q in
        let low : ltb (rank j) (rank k) ≡ false = rw p (ground arith) in
        let high : ltb (rank j) (rank k + 1) ≡ true = rw p (ground arith) in
        rw (low, high) (omega (arith, below_mono (rank k) (rank k + 1) m (omega arith)))
    | inr q ↦ ground (arith, below_strict k c m (sym (rw q refl) ∙ e))
  ]

  walk :
      (net : Net) (orphans : List (ℕ × Block)) (f : ℕ) (h : BlockHeader)
      → Ranked rank orphans
      → below (rank h.hash_prev_block + 1) orphans < f
      → (r : BlockHeader) × (orphan_root net f orphans h ≡ some (net.env.block_hash r))
        × Reaches orphans h r
        × (find r.hash_prev_block orphans ≡ none)
  unfolding orphan_root
  walk net orphans zero h ranked le = absurd (omega arith)
  walk net orphans (suc f) h ranked le = elim (Option-cases (find h.hash_prev_block orphans)) [
    | inl n ↦ (h, rw (n, orphan_root) refl, here, n)
    | inr (b, e) ↦
        let falls =
          All-find (λ k b. rank b.header.hash_prev_block < rank k) h.hash_prev_block b orphans
            ranked e in
        let rest = walk net orphans f b.header ranked (
          omega (
            arith,
            below_strict h.hash_prev_block b orphans e,
            below_mono (rank b.header.hash_prev_block + 1) (rank h.hash_prev_block) orphans
                (omega (arith, falls)),
          )) in
        (rest.0, rw (e, orphan_root) rest.1, up b e rest.2, rest.3)
  ]

-- `GetOrphanRoot` ends, on orphans without a cycle, at the hash of a block that the walk from the given
-- one reaches and whose previous block is no orphan.
pub get_orphan_root-Reaches :
    (rank : ℕ → ℕ) (net : Net) (orphans : List (ℕ × Block)) (h : BlockHeader)
    → Ranked rank orphans
    → (r : BlockHeader) × (get_orphan_root net orphans h ≡ some (net.env.block_hash r))
      × Reaches orphans h r
      × (find r.hash_prev_block orphans ≡ none)
unfolding get_orphan_root
get_orphan_root-Reaches rank net orphans h ranked =
    walk rank net orphans (length orphans + 1) h ranked
      (omega (arith, below-le rank (rank h.hash_prev_block + 1) orphans))
