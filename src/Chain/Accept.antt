-- ===== src/Chain/Accept.antt =====
-- bitcoin_messages_handlers.cpp, AcceptBlock: what an accepted block satisfies.
pub mod Sufficient
use tri_tip.Prelude.{==_iff}
use mathlib.Core.Bool.{Bool, false, true}
use tri_tip.Prelude.{
  arith, Bool-cases, if◌then◌else◌, inl, inr, List, Option-cases, refl, some, sym, ℕ, ◌+◌, ◌==◌,
  ◌≡◌, ◌∙◌, ◌∷◌, ◌≢◌, ◌⊎◌, [],
}
use tri_tip.Prelude.Int.{pos, ltb_ℤ}
use tri_tip.Prelude.Maps.{find, has}
use tri_tip.Core.Transaction.{Transaction}
use tri_tip.Checkpoints.{check_block, checkpoints}
use tri_tip.Validation.{Verdict, valid, invalid, dos, Block}
use tri_tip.Validation.Inputs.{then_check-valid, dos-ne_valid}
use mathlib.Core.Path.{ap₂}
use tri_tip.Prelude.{take, leb, ◌<◌, ◌≤◌, ◌++◌, ◌^◌, ◌-◌, ltb}
use tri_tip.Core.TxIn
use tri_tip.Core.TxIn.{TxIn}
use tri_tip.Checkpoints.{matches}
use tri_tip.Chain.Majority.{count_versions, is_super_majority-count}
use tri_tip.Chain.{
  all_final, is_super_majority, chain_of, Net, Indexed, block_hash, is_final_tx, final_loop,
  accept_after, accept_block, median_check, checkpoint_check, old_version_check, height_check,
  majority_of, starts_with, coin_base_script,
}

abbrev pub AllMax : List TxIn → Type 0
AllMax [] = Unit {0}
AllMax (i ∷ is) = (i.sequence ≡ 2 ^ 32 - 1) × AllMax is

-- A lock time below the threshold is a height, and any other a time; a block without a time is judged by the
-- clock. A transaction is final without a lock time, with one that is past, or when all its inputs have the largest
-- sequence number.
unfoldable pub IsFinal : Net → ℕ → ℕ → Transaction → Type 0
IsFinal net height time tx =
    (tx.lock_time ≡ 0)
    ⊎ ((tx.lock_time < net.locktime_threshold) × (tx.lock_time < height))
    ⊎ ((net.locktime_threshold ≤ tx.lock_time) × (time ≢ 0) × (tx.lock_time < time))
    ⊎ ((net.locktime_threshold ≤ tx.lock_time)
        × (time ≡ 0)
        × (ltb_ℤ (pos tx.lock_time) net.env.adjusted_time ≡ true))
    ⊎ AllMax tx.vin

abbrev pub AllFinal : Net → ℕ → ℕ → List Transaction → Type 0
AllFinal net height time [] = Unit {0}
AllFinal net height time (tx ∷ txs) = IsFinal net height time tx × AllFinal net height time txs

-- How many of the last blocks, `main` of them or on the test net `test`, have version 2 or a later one
abbrev pub recent : Net → Indexed → ℕ → ℕ → ℕ
recent net prev main test =
    count_versions (pos 2)
      (take (if net.test_net then test else main) (prev.block ∷ prev.ancestors))

-- A block that may follow `prev`.
pub record Follows (net : Net) (prev : Indexed) (block : Block) : Type 0 where
  pub late : ltb_ℤ (net.median_time_past prev) (pos block.header.time) ≡ true
  pub final : AllFinal net (prev.block.height + 1) block.header.time block.vtx
  pub checkpoint :
      net.checkpoints_enabled ≡ true
      → (expected : ℕ) → find (prev.block.height + 1) (checkpoints net.test_net) ≡ some expected
      → block_hash net block ≡ expected
  pub version :
      ltb_ℤ block.header.version (pos 2) ≡ true
      → recent net prev 1000 100 < (if net.test_net then 75 else 950)
  pub height :
      ltb_ℤ block.header.version (pos 2) ≡ false
      → (if net.test_net then 51 else 750) ≤ recent net prev 1000 100
      → (rest : List ℕ) × (coin_base_script block.vtx
          ≡ net.height_script (prev.block.height + 1) ++ rest)

all_final-AllMax : (is : List TxIn) → all_final is ≡ true → AllMax is
unfolding all_final TxIn.is_final
all_final-AllMax [] e = tt
all_final-AllMax (i ∷ is) e = (ground (arith, e), all_final-AllMax is (ground (arith, e)))

is_final_tx-IsFinal :
    (net : Net) (height time : ℕ) (tx : Transaction)
    → is_final_tx net.locktime_threshold net.best_height net.env.adjusted_time tx
        (pos (height + 1))
        (pos time)
      ≡ true
    → IsFinal net (height + 1) time tx
unfolding is_final_tx IsFinal
is_final_tx-IsFinal net height time tx e = elim (Bool-cases (tx.lock_time == 0)) [
  | inl a ↦ inl ((==_iff _ _).0 a)
  | inr a ↦ elim (Bool-cases (all_final tx.vin)) [
    | inl f ↦ inr (inr (inr (inr (all_final-AllMax tx.vin f))))
    | inr f ↦ elim (Bool-cases (ltb tx.lock_time net.locktime_threshold)) [
      | inl l ↦ inr (inl (ground (arith, l), ground (arith, a, f, l, e)))
      | inr l ↦ elim (Bool-cases (time == 0)) [
        | inl z ↦
            inr
              (inr (inr (inl (ground (arith, l), (==_iff _ _).0 z, ground (arith, a, f, l, z, e)))))
        | inr z ↦
            inr (inr (inl (ground (arith, l), ground (arith, z), ground (arith, a, f, l, z, e))))
      ]
    ]
  ]
]

starts_with-append :
    (xs bs : List ℕ) → starts_with xs bs ≡ true → (rest : List ℕ) × (bs ≡ xs ++ rest)
unfolding starts_with
starts_with-append [] bs e = (bs, refl)
starts_with-append (a ∷ xs) [] e = absurd (ground (arith, e))
starts_with-append (a ∷ xs) (b ∷ bs) e =
    let r = starts_with-append xs bs (ground (arith, e)) in
    (r.0, ap₂ (λ y ys. y ∷ ys) (ground (arith, e)) r.1)

pub majority_of-recent :
    (net : Net) (prev : Indexed) (required test_required : ℕ)
    → majority_of net prev required 1000 test_required 100
      ≡ leb (if net.test_net then test_required else required) (recent net prev 1000 100)
unfolding majority_of
majority_of-recent net prev required test_required = step net.test_net
  where
    step :
        (b : Bool)
        → (if b
            then is_super_majority (pos 2) (chain_of prev) test_required 100
            else is_super_majority (pos 2) (chain_of prev) required 1000)
          ≡ leb (if b then test_required else required) (
              count_versions (pos 2) (take (if b then 100 else 1000) (prev.block ∷ prev.ancestors)))
    step true = is_super_majority-count (pos 2) (chain_of prev) test_required 100
    step false = is_super_majority-count (pos 2) (chain_of prev) required 1000

check_block-expected :
    (enabled : Bool) (cs : List (ℕ × ℕ)) (height hash expected : ℕ)
    → check_block enabled cs height hash ≡ true
    → enabled ≡ true
    → find height cs ≡ some expected
    → hash ≡ expected
unfolding check_block matches
check_block-expected enabled cs height hash expected e t f = ground (arith, e, t, f)

final_loop-AllFinal :
    (net : Net) (height time : ℕ) (txs : List Transaction)
    → final_loop net (pos (height + 1)) (pos time) txs ≡ valid
    → AllFinal net (height + 1) time txs
unfolding final_loop
final_loop-AllFinal net height time [] e = tt
final_loop-AllFinal net height time (tx ∷ txs) e =
    elim (Bool-cases (
      is_final_tx net.locktime_threshold net.best_height net.env.adjusted_time tx (pos (height + 1))
        (pos time))) [
          | inl f ↦ (
            is_final_tx-IsFinal net height time tx f,
            final_loop-AllFinal net height time txs (sym (rw f refl) ∙ e),
          )
          | inr f ↦ absurd (dos-ne_valid 10 (sym (rw f refl) ∙ e))
        ]

test_true : (b : Bool) (v : Verdict) → v ≢ valid → (if b then valid else v) ≡ valid → b ≡ true
test_true true v ne e = refl
test_true false v ne e = absurd (ne e)

test_false : (b : Bool) (v : Verdict) → v ≢ valid → (if b then v else valid) ≡ valid → b ≡ false
test_false true v ne e = absurd (ne e)
test_false false v ne e = refl

invalid-ne_valid : invalid ≢ valid
invalid-ne_valid e = ground arith

fewer : (a b : ℕ) → leb a b ≡ false → b < a
fewer a b e = ground (arith, e)

enough : (a b : ℕ) → a ≤ b → leb a b ≡ true
enough a b h = ground (arith, h)

accept_after-Follows :
    (net : Net) (prev : Indexed) (block : Block)
    → accept_after net prev block ≡ valid
    → Follows net prev block
unfolding accept_after median_check checkpoint_check old_version_check height_check
accept_after-Follows net prev block e =
    let (a, height) = then_check-valid _ _ e in
    let (b, version) = then_check-valid _ _ a in
    let (c, checkpoint) = then_check-valid _ _ b in
    let (median, final) = then_check-valid _ _ c in
    record {
      late = test_true _ invalid invalid-ne_valid median;
      final = final_loop-AllFinal net prev.block.height block.header.time block.vtx final;
      checkpoint = λ on expected f.
          check_block-expected net.checkpoints_enabled (checkpoints net.test_net)
            (prev.block.height + 1) (block_hash net block) expected
            (test_true _ (dos 100) (dos-ne_valid 100) checkpoint) on f;
      version = λ v. fewer _ _ (
          sym (majority_of-recent net prev 950 75)
          ∙ test_false _ invalid invalid-ne_valid (sym (rw v refl) ∙ version));
      height = λ v m.
          let asked : majority_of net prev 750 1000 51 100 ≡ true =
            majority_of-recent net prev 750 51 ∙ enough _ _ m in
          starts_with-append (net.height_script (prev.block.height + 1))
            (coin_base_script block.vtx)
            (test_true _ (dos 100) (dos-ne_valid 100) (sym (rw (v, asked) refl) ∙ height));
    }

-- What `AcceptBlock` accepts is new, and is the genesis block or follows a block of the index.
pub accept_block-Follows :
    (net : Net) (index : List (ℕ × Indexed)) (block : Block)
    → accept_block net index block ≡ valid
    → (has (block_hash net block) index ≡ false)
      × ((block_hash net block ≡ net.genesis)
          ⊎ ((prev : Indexed) × (find block.header.hash_prev_block index ≡ some prev)
              × Follows net prev block))
unfolding accept_block
accept_block-Follows net index block e = elim (Bool-cases (has (block_hash net block) index)) [
  | inl h ↦ absurd (invalid-ne_valid (sym (rw h refl) ∙ e))
  | inr h ↦ (
    h,
    elim (Bool-cases (block_hash net block == net.genesis)) [
      | inl g ↦ inl ((==_iff _ _).0 g)
      | inr g ↦ elim (Option-cases (find block.header.hash_prev_block index)) [
        | inl n ↦ absurd (dos-ne_valid 10 (sym (rw (h, g, n) refl) ∙ e))
        | inr (prev, f) ↦
            inr (prev, f, accept_after-Follows net prev block (sym (rw (h, g, f) refl) ∙ e))
      ]
    ],
  )
]
