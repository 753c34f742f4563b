-- ===== src/Merkle.antt =====
-- dust_coin/bitcoin_block.h, CBlock: BuildMerkleTree, GetMerkleBranch and CheckMerkleBranch.
-- `vMerkleTree` is one vector: the transaction hashes, then each level behind the one that it
-- hashes. The double SHA-256 of two hashes is the parameter `hash`. Reads are inside the vector;
-- out of range the model reads 0.
pub mod Tree
pub mod Branch
pub mod Duplicate
use Prim.Native.Nat.{bit_xor, min}
use mathlib.Core.Bool.{Bool, true, false}
use mathlib.Core.List.{get_last?}
use mathlib.Core.Option
use tri_tip.Prelude.{
  [], get_or, if◌then◌else◌, length, ltb, suc, zero, ℕ, ◌%◌, ◌++◌, ◌+◌, ◌-◌, ◌/◌, ◌==◌, ◌∷◌, List,
}

-- The loop of GetMerkleBranch, on `j`, nSize and nIndex.
unfoldable pub branch_loop : ℕ → List ℕ → ℕ → ℕ → ℕ → List ℕ
branch_loop zero tree j n index = []
branch_loop (suc f) tree j n index =
    let i = min (bit_xor index 1) (n - 1) in
    let rest = branch_loop f tree (j + n) ((n + 1) / 2) (index / 2) in
    if ltb 1 n then get_or tree (j + i) 0 ∷ rest else []

module _ (hash : ℕ → ℕ → ℕ) where
  -- The inner loop, on `i` and the tree; `n` is nSize. The fuel is above the rounds left.
  unfoldable pub level_loop : ℕ → ℕ → ℕ → ℕ → List ℕ → List ℕ
  level_loop zero j n i tree = tree
  level_loop (suc f) j n i tree =
      let i₂ = min (i + 1) (n - 1) in
      let rest =
        level_loop f j n (i + 2)
          (tree ++ hash (get_or tree (j + i) 0) (get_or tree (j + i₂) 0) ∷ []) in
      if ltb i n then rest else tree

  -- The outer loop, on `j`, nSize and the tree.
  unfoldable pub tree_loop : ℕ → ℕ → ℕ → List ℕ → List ℕ
  unfolding level_loop
  tree_loop zero j n tree = tree
  tree_loop (suc f) j n tree =
      let rest = tree_loop f (j + n) ((n + 1) / 2) (level_loop n j n 0 tree) in
      if ltb 1 n then rest else tree

  -- `vMerkleTree` after BuildMerkleTree, from the hashes of `vtx`
  unfoldable pub build_tree : List ℕ → List ℕ
  unfolding tree_loop
  build_tree txids = tree_loop (length txids) 0 (length txids) txids

  -- What BuildMerkleTree returns: the last entry, or 0.
  unfoldable pub merkle_root : List ℕ → ℕ
  unfolding build_tree
  merkle_root txids = get_or (build_tree txids) (length (build_tree txids) - 1) 0

  -- `vMerkleTree` is built first where it is empty.
  unfoldable pub cached_tree : List ℕ → List ℕ → List ℕ
  unfolding build_tree
  cached_tree [] txids = build_tree txids
  cached_tree (h ∷ tree) txids = h ∷ tree

  unfoldable pub merkle_branch : List ℕ → List ℕ → ℕ → List ℕ
  unfolding cached_tree branch_loop
  merkle_branch cached txids index =
      branch_loop (length txids) (cached_tree cached txids) 0 (length txids) index

  -- The loop of CheckMerkleBranch, for an index that is not -1.
  unfoldable pub check_branch : ℕ → List ℕ → ℕ → ℕ
  check_branch h [] index = h
  check_branch h (other ∷ branch) index =
      check_branch (if index % 2 == 1 then hash other h else hash h other) branch (index / 2)
