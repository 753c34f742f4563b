-- ===== src/Merkle/Tree.antt =====
-- dust_coin/bitcoin_block.h: the flat Merkle tree and the levels of the tree.
use Prim.Native.Nat.{min}
use mathlib.Core.Bool.{false}
use mathlib.Core.List.{append_assoc, append-nil}
use tri_tip.Merkle.{level_loop, tree_loop, build_tree, merkle_root}
use tri_tip.Prelude.{
  ltb→lt, Bool-cases, [], ap, arith, get_or, if◌then◌else◌, inl, inr, length, length-append, ltb,
  refl, suc, sym, zero, ℕ, ◌++◌, ◌+◌, ◌-◌, ◌/◌, ◌<◌, ◌≡◌, ◌≤◌, ◌∙◌, ◌∷◌, List, lt→ltb,
}

pub get_or-append_left :
    (xs ys : List ℕ) (i : ℕ) → i < length xs → get_or (xs ++ ys) i 0 ≡ get_or xs i 0
get_or-append_left [] ys i h = absurd (omega arith)
get_or-append_left (x ∷ xs) ys zero h = refl
get_or-append_left (x ∷ xs) ys (suc i) h = get_or-append_left xs ys i (omega arith)

pub get_or-append_right :
    (xs ys : List ℕ) (i k : ℕ) → i ≡ length xs + k → get_or (xs ++ ys) i 0 ≡ get_or ys k 0
get_or-append_right [] ys i k e = ap (λ j. get_or ys j 0) (omega arith)
get_or-append_right (x ∷ xs) ys zero k e = absurd (omega arith)
get_or-append_right (x ∷ xs) ys (suc i) k e = get_or-append_right xs ys i k (omega arith)

read_at :
    (pre front rest : List ℕ) (i k : ℕ)
    → i ≡ length front + k
    → get_or (pre ++ (front ++ rest)) (length pre + i) 0 ≡ get_or rest k 0
read_at pre front rest i k e =
    get_or-append_right pre (front ++ rest) (length pre + i) i refl
    ∙ get_or-append_right front rest i k e

pub not-ltb : (a b : ℕ) → b ≤ a → ltb a b ≡ false
not-ltb a b h = ground arith

last_of : List ℕ → ℕ
last_of l = get_or l (length l - 1) 0

last_of-append : (xs ys : List ℕ) → 0 < length ys → last_of (xs ++ ys) ≡ last_of ys
unfolding last_of
last_of-append xs ys h =
    get_or-append_right xs ys (length (xs ++ ys) - 1) (length ys - 1)
      (omega (arith, length-append xs ys))

last_of_short : (l : List ℕ) → length l ≤ 1 → last_of (l ++ []) ≡ get_or l 0 0
unfolding last_of
last_of_short [] h = refl
last_of_short (x ∷ []) h = refl
last_of_short (x ∷ y ∷ l) h = absurd (omega arith)

module _ (hash : ℕ → ℕ → ℕ) where
  -- The level above: neighbours are hashed together, a last one alone with itself.
  unfoldable pub next : List ℕ → List ℕ
  next [] = []
  next (x ∷ []) = hash x x ∷ []
  next (x ∷ y ∷ r) = hash x y ∷ next r

  -- The levels above `l`, one after another, and the root above `l`.
  unfoldable pub levels : ℕ → List ℕ → List ℕ
  levels zero l = []
  levels (suc f) l = let rest = levels f (next l) in if ltb 1 (length l) then next l ++ rest else []

  unfoldable pub root : ℕ → List ℕ → ℕ
  root zero l = get_or l 0 0
  root (suc f) l = let rest = root f (next l) in if ltb 1 (length l) then rest else get_or l 0 0

  pub length-next : (l : List ℕ) → length (next l) ≡ (length l + 1) / 2
  unfolding next
  length-next [] = refl
  length-next (x ∷ []) = refl
  length-next (x ∷ y ∷ r) = omega (arith, length-next r)

  level_loop_stop : (f j n i : ℕ) (tree : List ℕ) → n ≤ i → level_loop hash f j n i tree ≡ tree
  unfolding level_loop
  level_loop_stop zero j n i tree h = refl
  level_loop_stop (suc f) j n i tree h = rw (not-ltb i n h)

  level_loop-next :
      (f n i : ℕ) (pre front back acc : List ℕ)
      → i ≡ length front
      → n ≡ length front + length back
      → length back ≤ f
      → level_loop hash f (length pre) n i (pre ++ (front ++ (back ++ acc)))
        ≡ pre ++ (front ++ (back ++ (acc ++ next back)))
  unfolding level_loop next
  level_loop-next f n i pre front [] acc ei en h =
      level_loop_stop f _ n i _ (omega arith) ∙ rw append-nil
  level_loop-next zero n i pre front (x ∷ back) acc ei en h = absurd (omega arith)
  level_loop-next (suc f) n i pre front (x ∷ []) acc ei en h =
      rw
        (
          lt→ltb i n (omega arith),
          read_at pre front (x ∷ acc) i 0 (omega arith),
          read_at pre front (x ∷ acc) (min (i + 1) (n - 1)) 0 (omega arith),
        )
        (level_loop_stop f (length pre) n (i + 2) _ (omega arith) ∙ simp append_assoc)
  level_loop-next (suc f) n i pre front (x ∷ y ∷ r) acc ei en h =
      rw
        (
          lt→ltb i n (omega arith),
          read_at pre front (x ∷ y ∷ (r ++ acc)) i 0 (omega arith),
          read_at pre front (x ∷ y ∷ (r ++ acc)) (min (i + 1) (n - 1)) 1 (omega arith),
        )
        (ap (level_loop hash f (length pre) n (i + 2)) (simp append_assoc)
          ∙ level_loop-next f n (i + 2) pre (front ++ x ∷ y ∷ []) r (acc ++ hash x y ∷ [])
              (omega (arith, length-append front (x ∷ y ∷ [])))
              (omega (arith, length-append front (x ∷ y ∷ []))) (omega arith)
          ∙ simp append_assoc)

  -- One level behind the tree so far.
  level_loop-append :
      (j n : ℕ) (pre l : List ℕ)
      → j ≡ length pre
      → n ≡ length l
      → level_loop hash n j n 0 (pre ++ l) ≡ (pre ++ l) ++ next l
  level_loop-append j n pre l ej en = rw ej (
      ap (λ m. level_loop hash n (length pre) n 0 (pre ++ m)) (sym (append-nil l))
      ∙ level_loop-next n n 0 pre [] l [] refl (omega arith) (omega arith)
      ∙ sym (append_assoc pre l (next l)))

  tree_loop-levels :
      (f j n : ℕ) (pre l : List ℕ)
      → j ≡ length pre
      → n ≡ length l
      → tree_loop hash f j n (pre ++ l) ≡ pre ++ (l ++ levels f l)
  unfolding tree_loop levels
  tree_loop-levels zero j n pre l ej en = rw append-nil
  tree_loop-levels (suc f) j n pre l ej en =
      let above =
        tree_loop-levels f (j + n) ((n + 1) / 2) (pre ++ l) (next l)
          (omega (arith, length-append pre l)) (omega (arith, length-next l)) in
      elim (Bool-cases (ltb 1 n)) [
        | inr stop ↦ rw (stop, ← en, stop) (rw append-nil)
        | inl more ↦
            rw (more, ← en, more)
              (ap (tree_loop hash f (j + n) ((n + 1) / 2)) (level_loop-append j n pre l ej en)
                ∙ above
                ∙ simp append_assoc)
      ]

  -- The tree is the transaction hashes and the levels above them.
  pub build_tree-levels :
      (txids : List ℕ) → build_tree hash txids ≡ txids ++ levels (length txids) txids
  unfolding build_tree
  build_tree-levels txids = tree_loop-levels (length txids) 0 (length txids) [] txids refl refl

  last_of-levels : (f : ℕ) (l : List ℕ) → length l ≤ suc f → last_of (l ++ levels f l) ≡ root f l
  unfolding levels root
  last_of-levels zero [] h = unfold last_of in refl
  last_of-levels zero (x ∷ []) h = unfold last_of in refl
  last_of-levels zero (x ∷ y ∷ l) h = absurd (omega arith)
  last_of-levels (suc f) l h = elim (Bool-cases (ltb 1 (length l))) [
    | inl more ↦ rw more (
        last_of-append l (next l ++ levels f (next l)) (
          omega (
            arith,
            length-next l,
            length-append (next l) (levels f (next l)),
            ltb→lt 1 (length l) more,
          ))
        ∙ last_of-levels f (next l) (omega (arith, length-next l, ltb→lt 1 (length l) more)))
    | inr stop ↦ rw stop (last_of_short l (ground arith))
  ]

  -- The result of BuildMerkleTree is the root of the tree of levels, and 0 for no transaction.
  pub merkle_root-root : (txids : List ℕ) → merkle_root hash txids ≡ root (length txids) txids
  unfolding merkle_root last_of
  merkle_root-root txids =
      ap last_of (build_tree-levels txids) ∙ last_of-levels (length txids) txids (omega arith)
