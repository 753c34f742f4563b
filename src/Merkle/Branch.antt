-- ===== src/Merkle/Branch.antt =====
-- dust_coin/bitcoin_block.h: the branch of a transaction leads from its hash to the root.
use Prim.Native.Nat.{bit_xor, min}
use mathlib.Core.Path.{ap₂}
use mathlib.Core.List.{append_assoc}
use tri_tip.Merkle.{branch_loop, build_tree, cached_tree, check_branch, merkle_branch, merkle_root}
use tri_tip.Merkle.Tree.{
  build_tree-levels, get_or-append_left, get_or-append_right, length-next, levels, merkle_root-root,
  next, root,
}
use tri_tip.Prelude.Bits.{bit_xor-one}
use tri_tip.Prelude.{
  Bool-cases, [], ap, arith, get_or, if◌then◌else◌, inl, inr, length, length-append, ltb, ltb→lt,
  refl, suc, sym, zero, ℕ, ◌%◌, ◌++◌, ◌+◌, ◌-◌, ◌/◌, ◌<◌, ◌==◌, ◌≡◌, ◌≤◌, ◌∙◌, ◌∷◌, ◌⊎◌, List,
  lt→ltb,
}

-- The index that is hashed together with index `i` on a level of `n` entries.
abbrev sibling : ℕ → ℕ → ℕ
sibling n i = min (bit_xor i 1) (n - 1)

sibling_two : (n i : ℕ) → i < n → sibling (suc (suc n)) (suc (suc i)) ≡ suc (suc (sibling n i))
sibling_two n i h = ground (arith, bit_xor-one i, bit_xor-one (suc (suc i)))

module _ (hash : ℕ → ℕ → ℕ) where
  spec_branch : ℕ → List ℕ → ℕ → List ℕ
  spec_branch zero l i = []
  spec_branch (suc f) l i =
      let rest = spec_branch f (next hash l) (i / 2) in
      if ltb 1 (length l) then get_or l (sibling (length l) i) 0 ∷ rest else []

  branch_loop-spec :
      (f j n i : ℕ) (pre l : List ℕ)
      → j ≡ length pre
      → n ≡ length l
      → branch_loop f (pre ++ (l ++ levels hash f l)) j n i ≡ spec_branch f l i
  unfolding branch_loop spec_branch levels
  branch_loop-spec zero j n i pre l ej en = refl
  branch_loop-spec (suc f) j n i pre l ej en =
      let above =
        branch_loop-spec f (j + n) ((n + 1) / 2) (i / 2) (pre ++ l) (next hash l)
          (omega (arith, length-append pre l)) (omega (arith, length-next hash l)) in
      elim (Bool-cases (ltb 1 (length l))) [
        | inr stop ↦ rw (en, stop)
        | inl more ↦
            rw (lt→ltb 1 n (omega (arith, ltb→lt 1 (length l) more)), more)
              (ap₂ ◌∷◌
                (get_or-append_right pre _ (j + sibling n i) (sibling n i) (omega arith)
                  ∙ get_or-append_left l _ (sibling n i) (omega (arith, ltb→lt 1 (length l) more))
                  ∙ ap (λ m. get_or l (sibling m i) 0) en)
                (ap (λ tree. branch_loop f tree (j + n) ((n + 1) / 2) (i / 2))
                    (sym (append_assoc pre l _))
                  ∙ above))
      ]

  -- Two neighbours hash to the entry above them.
  parent :
      (l : List ℕ) (i : ℕ)
      → i < length l
      → (let s = get_or l (sibling (length l) i) 0 in
          let x = get_or l i 0 in if i % 2 == 1 then hash s x else hash x s)
        ≡ get_or (next hash l) (i / 2) 0
  unfolding next
  parent [] i h = absurd (omega arith)
  parent (x ∷ []) zero h = refl
  parent (x ∷ []) (suc i) h = absurd (omega arith)
  parent (x ∷ y ∷ r) zero h = let e : sibling (suc (suc (length r))) 0 ≡ 1 = omega arith in rw e
  parent (x ∷ y ∷ r) (suc zero) h =
      let e : sibling (suc (suc (length r))) 1 ≡ 0 = omega arith in rw e
  parent (x ∷ y ∷ r) (suc (suc i)) h =
      let odd : (suc (suc i) % 2 == 1) ≡ (i % 2 == 1) = ground arith in
      let half : suc (suc i) / 2 ≡ suc (i / 2) = omega arith in
      rw (sibling_two (length r) i (omega arith), odd, half) (parent r i (omega arith))

  check_branch-spec :
      (f i : ℕ) (l : List ℕ)
      → i < length l
      → length l ≤ suc f
      → check_branch hash (get_or l i 0) (spec_branch f l i) i ≡ root hash f l
  unfolding check_branch spec_branch root
  check_branch-spec zero i l h fuel = ap (λ k. get_or l k 0) (omega arith)
  check_branch-spec (suc f) i l h fuel = elim (Bool-cases (ltb 1 (length l))) [
    | inl more ↦ rw more (
        ap (λ x. check_branch hash x (spec_branch f (next hash l) (i / 2)) (i / 2)) (parent l i h)
        ∙ check_branch-spec f (i / 2) (next hash l) (omega (arith, length-next hash l))
            (omega (arith, length-next hash l, ltb→lt 1 (length l) more)))
    | inr stop ↦ let single : i ≡ 0 = ground arith in rw stop (ap (λ k. get_or l k 0) single)
  ]

  -- The branch of the transaction at `index` leads from its hash to the root that BuildMerkleTree
  -- returns, whether the tree was cached before or not.
  pub check_branch-merkle_branch :
      (cached txids : List ℕ) (index : ℕ)
      → (cached ≡ []) ⊎ (cached ≡ build_tree hash txids)
      → index < length txids
      → check_branch hash (get_or txids index 0) (merkle_branch hash cached txids index) index
        ≡ merkle_root hash txids
  unfolding merkle_branch
  check_branch-merkle_branch cached txids index fresh h =
      ap (λ b. check_branch hash (get_or txids index 0) b index)
        (ap (λ tree. branch_loop (length txids) tree 0 (length txids) index)
            (tree cached fresh ∙ build_tree-levels hash txids)
          ∙ branch_loop-spec (length txids) 0 (length txids) index [] txids refl refl)
      ∙ check_branch-spec (length txids) index txids h (omega arith)
      ∙ sym (merkle_root-root hash txids)
    where
      tree :
          (cached : List ℕ)
          → (cached ≡ []) ⊎ (cached ≡ build_tree hash txids)
          → cached_tree hash cached txids ≡ build_tree hash txids
      tree [] fresh = unfold cached_tree in refl
      tree (x ∷ t) (inl e) = cc
      tree (x ∷ t) (inr e) = unfold cached_tree in e
