-- ===== src/Tests/MerkleTests.antt =====
-- dust_coin/bitcoin_block.h at concrete inputs.
use tri_tip.Prelude.{arith, inl, List, refl, ℕ, ◌%◌, ◌*◌, ◌+◌, ◌≡◌, ◌∷◌, []}
use tri_tip.Merkle.Branch.{check_branch-merkle_branch}
use tri_tip.Merkle.Duplicate.{merkle_root-duplicate}
use tri_tip.Merkle.Tree.{merkle_root-root, root}
use tri_tip.Merkle.{build_tree, check_branch, merkle_branch, merkle_root}

-- Not a hash, but enough to follow the order of the arguments.
abbrev mix : ℕ → ℕ → ℕ
mix a b = (a * 31 + b * 7 + 1) % 1009

abbrev five : List ℕ
five = 11 ∷ 12 ∷ 13 ∷ 14 ∷ 15 ∷ []

tree_of_three : build_tree mix (1 ∷ 2 ∷ 3 ∷ []) ≡ 1 ∷ 2 ∷ 3 ∷ 46 ∷ 115 ∷ mix 46 115 ∷ []
unfolding build_tree
tree_of_three = refl

merkle_root-root_example : merkle_root mix five ≡ root mix 5 five
merkle_root-root_example = merkle_root-root mix five

check_branch-merkle_branch_example :
    check_branch mix 14 (merkle_branch mix [] five 3) 3 ≡ merkle_root mix five
check_branch-merkle_branch_example =
    check_branch-merkle_branch mix [] five 3 (inl refl) (omega arith)

merkle_root-duplicate_example :
    merkle_root mix (11 ∷ 12 ∷ 15 ∷ 15 ∷ []) ≡ merkle_root mix (11 ∷ 12 ∷ 15 ∷ [])
merkle_root-duplicate_example = merkle_root-duplicate mix (11 ∷ 12 ∷ []) 15 refl (omega arith)
