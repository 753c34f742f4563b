-- ===== src/Merkle/Duplicate.antt =====
-- dust_coin/bitcoin_block.h: lists of transactions with one root.
use tri_tip.Merkle.{merkle_root}
use tri_tip.Merkle.Tree.{length-next, merkle_root-root, next, root}
use tri_tip.Prelude.{
  [], ap, arith, length, length-append, lt→ltb, refl, suc, sym, zero, ℕ, ◌%◌, ◌++◌, ◌<◌, ◌≡◌, ◌≤◌,
  ◌∙◌, ◌∷◌, List,
}

module _ (hash : ℕ → ℕ → ℕ) where
  -- Any fuel that is enough gives the same root.
  root_fuel :
      (f g : ℕ) (l : List ℕ) → length l ≤ suc f → length l ≤ suc g → root hash f l ≡ root hash g l
  unfolding root
  root_fuel zero zero l hf hg = refl
  root_fuel zero (suc g) l hf hg = ground arith
  root_fuel (suc f) zero l hf hg = ground arith
  root_fuel (suc f) (suc g) l hf hg =
      ground (arith, root_fuel f g (next hash l), length-next hash l)

  next-duplicate :
      (l : List ℕ) (x : ℕ)
      → length l % 2 ≡ 0
      → next hash (l ++ x ∷ x ∷ []) ≡ next hash (l ++ x ∷ [])
  unfolding next
  next-duplicate [] x even = refl
  next-duplicate (a ∷ []) x even = absurd (omega arith)
  next-duplicate (a ∷ b ∷ l) x even = ap (◌∷◌ (hash a b)) (next-duplicate l x (omega arith))

  root-next :
      (l : List ℕ) (f : ℕ)
      → 1 < length l
      → length (next hash l) ≤ suc f
      → root hash (length l) l ≡ root hash f (next hash l)
  root-next l f h g = go (length l) refl
    where
      go : (n : ℕ) → length l ≡ n → root hash n l ≡ root hash f (next hash l)
      go zero e = absurd (omega arith)
      go (suc n) e =
          unfold root in
          rw (lt→ltb 1 (length l) h)
            (root_fuel n f (next hash l) (omega (arith, length-next hash l)) g)

  -- Two lists of transactions with one root: where the number of transactions is odd and above
  -- one, the last may be given twice.
  pub merkle_root-duplicate :
      (txids : List ℕ) (last : ℕ)
      → length txids % 2 ≡ 0
      → 0 < length txids
      → merkle_root hash (txids ++ last ∷ last ∷ []) ≡ merkle_root hash (txids ++ last ∷ [])
  merkle_root-duplicate txids last even more =
      let once = txids ++ last ∷ [] in
      let twice = txids ++ last ∷ last ∷ [] in
      let f = length twice in
      merkle_root-root hash twice
      ∙ root-next twice f (omega (arith, length-append txids (last ∷ last ∷ [])))
          (omega (arith, length-next hash twice))
      ∙ ap (root hash f) (next-duplicate txids last even)
      ∙ sym (
          root-next once f (omega (arith, length-append txids (last ∷ []))) (
            omega (
              arith,
              length-next hash once,
              length-append txids (last ∷ []),
              length-append txids (last ∷ last ∷ []),
            )))
      ∙ sym (merkle_root-root hash once)
