-- ===== src/Bloom/Relevant.antt =====
-- bloom.cpp: CBloomFilter::IsRelevantAndUpdate.
pub mod Updates
pub mod Outputs
use mathlib.Core.Bool.{◌&&◌, ◌||◌, Bool, false, not, true}
use tri_tip.Prelude.{
  ap, arith, Bool-cases, drop, get_or, if◌then◌else◌, inl, inr, leb, length, length-append, List,
  lt→ltb, ltb, ltb→lt, map, none, Option, Option-cases, refl, set, length-set, some, suc, sym, take,
  zero, ℕ, ◌%◌, ◌*◌, ◌++◌, ◌+◌, ◌-◌, ◌/◌, ◌<◌, ◌==◌, ◌≡◌, ◌^◌, ◌∙◌, ◌∷◌, ◌≢◌, ◌≤◌, ◌⊎◌, [],
  replicate,
}
use tri_tip.Bloom.{BloomFilter, contains, insert}
use tri_tip.Core.OutPoint.{OutPoint}
use tri_tip.Core.Transaction.{Transaction}
use tri_tip.Prelude.{◌>>=◌}
use tri_tip.Core.TxIn.{TxIn}
use tri_tip.Core.TxOut.{TxOut}

-- What the code takes from script.h and serialize.h: the data of the opcodes that `GetOp` yields
-- up to the end of a script or its first failure; whether `Solver` finds a pay-to-pubkey or a
-- multisig script; the bytes of a hash and of an outpoint.
pub record Script : Type 0 where
  pub data_elements : List ℕ → List (List ℕ)
  pub pays_to_key : List ℕ → Bool
  pub hash_bytes : ℕ → List ℕ
  pub outpoint_bytes : OutPoint → List ℕ

unfoldable pub nonempty : List ℕ → Bool
nonempty [] = false
nonempty (b ∷ bs) = true

-- The loop over the data elements of a script, which breaks at the first match.
unfoldable pub any_contained : List (List ℕ) → BloomFilter → Option Bool
unfolding nonempty
any_contained [] f = some false
any_contained (e ∷ es) f = do
  found ← if nonempty e then contains e f else some false
  let rest = any_contained es f
  if found then some true else rest

module _ (script : Script) where
  -- `nFlags & BLOOM_UPDATE_MASK` is the remainder by 4: 1 is BLOOM_UPDATE_ALL, and 2 is
  -- BLOOM_UPDATE_P2PUBKEY_ONLY.
  unfoldable pub update_for : TxOut → OutPoint → BloomFilter → Option BloomFilter
  update_for out point f =
      if f.flags % 4 == 1
      then insert (script.outpoint_bytes point) f
      else if f.flags % 4 == 2
      then (if script.pays_to_key out.script_pub_key
          then insert (script.outpoint_bytes point) f
          else some f)
      else some f

  -- The loop over the outputs, on `i`, `fFound` and the filter.
  unfoldable pub outputs_loop :
      ℕ → ℕ → List TxOut → Bool → BloomFilter → Option (Bool × BloomFilter)
  unfolding any_contained update_for
  outputs_loop hash i [] found f = some (found, f)
  outputs_loop hash i (o ∷ os) found f = do
    hit ← any_contained (script.data_elements o.script_pub_key) f
    f' ← if hit then update_for o (record { hash = hash; n = i }) f else some f
    outputs_loop hash (i + 1) os (found || hit) f'

  unfoldable pub inputs_loop : List TxIn → BloomFilter → Option Bool
  unfolding any_contained
  inputs_loop [] f = some false
  inputs_loop (i ∷ is) f = do
    spent ← contains (script.outpoint_bytes i.prevout) f
    signed ← if spent then some true else any_contained (script.data_elements i.script_sig) f
    let rest = inputs_loop is f
    if signed then some true else rest

  unfoldable pub is_relevant_and_update :
      Transaction → ℕ → BloomFilter → Option (Bool × BloomFilter)
  unfolding outputs_loop inputs_loop
  is_relevant_and_update tx hash f = do
    known ← contains (script.hash_bytes hash) f
    (found, f') ← outputs_loop hash 0 tx.vout known f
    spends ← if found then some true else inputs_loop tx.vin f'
    some (spends, f')
