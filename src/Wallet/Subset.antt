-- ===== src/Wallet/Subset.antt =====
-- wallet.cpp: ApproximateBestSubset. Amounts are numbers without a bound, which agree with `int64` as
-- long as no sum reaches 2^63. `random` are the bits of insecure_rand after a call of
-- seed_insecure_rand.
use mathlib.Core.Bool.{Bool, false, true}
use tri_tip.Prelude.{
  get_or, if◌then◌else◌, leb, length, List, ltb, set, suc, zero, ℕ, ◌+◌, ◌-◌, ◌==◌, ◌∷◌, [],
  replicate,
}

-- COutput, with what is used of its transaction: the transaction's identity, the amount, whether it
-- is from the wallet itself, and its depth.
pub record Coin : Type 0 where
  pub tx : ℕ
  pub index : ℕ
  pub value : ℕ
  pub depth : ℕ
  pub from_me : Bool

-- The variables of ApproximateBestSubset; `drawn` counts the bits that have been drawn.
pub record Search : Type 0 where
  pub included : List Bool
  pub total : ℕ
  pub reached : Bool
  pub best : List Bool
  pub best_value : ℕ
  pub drawn : ℕ

-- A value is added; if that reaches the target, the subset is compared with the best and the value is
-- taken out again.
unfoldable pub try_value : ℕ → ℕ → ℕ → Search → Search
try_value target i v s =
    let total = s.total + v in
    let included = set s.included i true in
    if leb target total
    then record s {
      included = set included i false;
      total = total - v;
      reached = true;
      best = if ltb total s.best_value then included else s.best;
      best_value = if ltb total s.best_value then total else s.best_value;
    }
    else record s { included = included; total = total }

module _ (random : ℕ → Bool) (target : ℕ) where
  -- The body of the inner loop; the first pass draws a bit, the second takes what is not included.
  unfoldable pub visit : Bool → ℕ → ℕ → Search → Search
  unfolding try_value
  visit true i v s =
      let t = record s { drawn = s.drawn + 1 } in
      if random s.drawn then try_value target i v t else t
  visit false i v s = if get_or s.included i false then s else try_value target i v s

  -- A pass over the values from position `i` on
  unfoldable pub run_pass : Bool → ℕ → List Coin → Search → Search
  unfolding visit
  run_pass first i [] s = s
  run_pass first i (c ∷ cs) s = run_pass first (i + 1) cs (visit first i c.value s)

  unfoldable pub run_passes : List Coin → Search → Search
  unfolding run_pass
  run_passes coins s =
      let t =
        run_pass true 0 coins
          (record s { included = replicate (length coins) false; total = 0; reached = false }) in
      if t.reached then t else run_pass false 0 coins t

  -- At most `iterations` rounds, until the target is hit.
  unfoldable pub search_loop : ℕ → List Coin → Search → Search
  unfolding run_passes
  search_loop zero coins s = s
  search_loop (suc iterations) coins s =
      let rest = search_loop iterations coins (run_passes coins s) in
      if s.best_value == target then s else rest

  unfoldable pub approximate_best_subset : List Coin → ℕ → ℕ → List Bool × ℕ
  unfolding search_loop
  approximate_best_subset coins total_lower iterations =
      let s = search_loop iterations coins (record {
        included = [];
        total = 0;
        reached = false;
        best = replicate (length coins) true;
        best_value = total_lower;
        drawn = 0;
      }) in
      (s.best, s.best_value)
