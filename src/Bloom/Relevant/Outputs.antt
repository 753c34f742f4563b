-- ===== src/Bloom/Relevant/Outputs.antt =====
-- bloom.cpp: IsRelevantAndUpdate and a matching output.
use mathlib.Core.Bool.{◌||◌, Bool, true}
use tri_tip.Prelude.{
  arith, Bool-cases, inl, inr, length, List, some, ℕ, ◌%◌, ◌++◌, ◌+◌, ◌≡◌, ◌∷◌, [],
}
use tri_tip.Bloom.{BloomFilter, contains}
use tri_tip.Bloom.Members.{Grows-IsValid, IsValid, contains-Grows, contains-total}
use tri_tip.Bloom.Relevant.Updates.{
  any_contained-Grows, any_contained-total, outputs_loop-Finds, update_for-Updates,
}
use tri_tip.Bloom.Relevant.{Script, any_contained, is_relevant_and_update, outputs_loop}
use tri_tip.Core.OutPoint.{OutPoint}
use tri_tip.Core.Transaction.{Transaction}
use tri_tip.Core.TxOut.{TxOut}

module _ (script : Script) (hash : ℕ) where
  outputs_loop_hit :
      (i : ℕ) (before : List TxOut) (o : TxOut) (after : List TxOut) (found : Bool)
      (f : BloomFilter)
      → IsValid f
      → any_contained (script.data_elements o.script_pub_key) f ≡ some true
      → (b : Bool) × (g : BloomFilter) × (outputs_loop script hash i (before ++ o ∷ after) found f
          ≡ some (b, g))
        × (b ≡ true)
        × (f.flags % 4 ≡ 1
            → contains (script.outpoint_bytes (record { hash = hash; n = i + length before })) g
              ≡ some true)
  unfolding outputs_loop
  outputs_loop_hit i [] o after found f v h =
      let point : OutPoint = record { hash = hash; n = i } in
      let (f', update, u) = update_for-Updates script o point f v in
      let v' = Grows-IsValid f f' v u.grows in
      let (b, g, rest, r) = outputs_loop-Finds script hash (i + 1) after (found || true) f' v' in
      let here : i + 0 ≡ i = omega arith in
      (
        b,
        g,
        rw (h, update) rest,
        r.keeps (ground arith),
        λ e. rw here (contains-Grows (script.outpoint_bytes point) f' g v' r.grows (u.all e)),
      )
  outputs_loop_hit i (p ∷ before) o after found f v h =
      let point : OutPoint = record { hash = hash; n = i } in
      let (hit, run) = any_contained-total (script.data_elements p.script_pub_key) f v in
      let (f', update, u) = update_for-Updates script p point f v in
      let next : i + length (p ∷ before) ≡ i + 1 + length before = omega arith in
      elim (Bool-cases hit) [
        | inl e ↦
            let (b, g, rest, found', all) =
              outputs_loop_hit (i + 1) before o after (found || hit) f'
                (Grows-IsValid f f' v u.grows)
                (any_contained-Grows (script.data_elements o.script_pub_key) f f' v u.grows h) in
            (
              b,
              g,
              rw (run, e, update) (rw e at rest),
              found',
              λ q. rw next (all (ground (arith, u.grows.flags))),
            )
        | inr e ↦
            let (b, g, rest, found', all) =
              outputs_loop_hit (i + 1) before o after (found || hit) f v h in
            (b, g, rw (run, e) (rw e at rest), found', λ q. rw next (all q))
      ]

  -- A transaction with an output whose script has a data element in the filter is relevant, and
  -- under BLOOM_UPDATE_ALL the filter then contains the outpoint of that output.
  pub is_relevant_and_update_output :
      (tx : Transaction) (before : List TxOut) (o : TxOut) (after : List TxOut) (f : BloomFilter)
      → IsValid f
      → tx.vout ≡ before ++ o ∷ after
      → any_contained (script.data_elements o.script_pub_key) f ≡ some true
      → (g : BloomFilter) × (is_relevant_and_update script tx hash f ≡ some (true, g))
        × (f.flags % 4 ≡ 1
            → contains (script.outpoint_bytes (record { hash = hash; n = length before })) g
              ≡ some true)
  unfolding is_relevant_and_update
  is_relevant_and_update_output tx before o after f v e h =
      let (known, r₁) = contains-total (script.hash_bytes hash) f v in
      let (b, g, r₂, found, all) = outputs_loop_hit 0 before o after known f v h in
      let here : 0 + length before ≡ length before = omega arith in
      (g, rw (e, r₁) (ground (arith, r₂, found)), λ q. rw here at (all q))
