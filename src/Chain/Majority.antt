-- ===== src/Chain/Majority.antt =====
-- bitcoin_messages_handlers.cpp, IsSuperMajority as a count of blocks.
use tri_tip.Prelude.{
  ap, arith, if◌then◌else◌, leb, List, suc, take, zero, ℕ, ◌+◌, ◌≡◌, ◌∙◌, ◌∷◌, [],
}
use tri_tip.Prelude.Int.{ℤ, ltb_ℤ}
use tri_tip.Chain.{BlockIndex, majority_loop, is_super_majority}

abbrev pub count_versions : ℤ → List BlockIndex → ℕ
count_versions min_version [] = 0
count_versions min_version (b ∷ bs) =
    if ltb_ℤ b.version min_version
    then count_versions min_version bs
    else suc (count_versions min_version bs)

majority_loop-count :
    (min_version : ℤ) (required found n : ℕ) (bs : List BlockIndex)
    → leb required (majority_loop min_version required found n bs)
      ≡ leb required (found + count_versions min_version (take n bs))
unfolding majority_loop
majority_loop-count min_version required found zero bs = ap (leb required) (omega arith)
majority_loop-count min_version required found (suc n) [] = ap (leb required) (omega arith)
majority_loop-count min_version required found (suc n) (b ∷ bs) = ground (
  arith,
  majority_loop-count min_version required found n bs,
  majority_loop-count min_version required (found + 1) n bs,
)

-- `IsSuperMajority` tells whether at least `required` of the first `to_check` blocks, from the given
-- one backwards, have the version or a later one, however early its loop ends.
pub is_super_majority-count :
    (min_version : ℤ) (start : List BlockIndex) (required to_check : ℕ)
    → is_super_majority min_version start required to_check
      ≡ leb required (count_versions min_version (take to_check start))
unfolding is_super_majority
is_super_majority-count min_version start required to_check =
    majority_loop-count min_version required 0 to_check start ∙ ap (leb required) (omega arith)
