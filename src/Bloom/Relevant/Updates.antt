-- ===== src/Bloom/Relevant/Updates.antt =====
-- bloom.cpp: what IsRelevantAndUpdate finds, and what it adds to the filter.
use mathlib.Core.Bool.{◌||◌, Bool, false, true}
use tri_tip.Prelude.{
  arith, Bool-cases, if◌then◌else◌, inl, inr, List, refl, some, ℕ, ◌%◌, ◌+◌, ◌==◌, ◌≡◌, ◌∷◌, ◌≢◌,
  [],
}
use tri_tip.Bloom.{BloomFilter, contains, insert}
use tri_tip.Bloom.Members.{
  Grows, Grows-IsValid, Grows-refl, Grows-trans, IsValid, contains-insert, contains-total,
  contains-Grows,
}
use tri_tip.Bloom.Relevant.{
  Script, any_contained, inputs_loop, is_relevant_and_update, nonempty, outputs_loop, update_for,
}
use tri_tip.Core.OutPoint.{OutPoint}
use tri_tip.Core.Transaction.{Transaction}
use tri_tip.Core.TxIn.{TxIn}
use tri_tip.Core.TxOut.{TxOut}

pub any_contained-total :
    (es : List (List ℕ)) (f : BloomFilter) → IsValid f → (b : Bool) × (any_contained es f ≡ some b)
unfolding any_contained
any_contained-total [] f v = (false, refl)
any_contained-total (e ∷ es) f v =
    let (b, run) = contains-total e f v in
    let (c, rest) = any_contained-total es f v in
    (if (if nonempty e then b else false) then true else c, ground (arith, run, rest))

pub any_contained-Grows :
    (es : List (List ℕ)) (f g : BloomFilter)
    → IsValid f
    → Grows f g
    → any_contained es f ≡ some true
    → any_contained es g ≡ some true
unfolding any_contained
any_contained-Grows [] f g v p h = h
any_contained-Grows (e ∷ es) f g v p h =
    let (b, run) = contains-total e f v in
    let (c, run') = contains-total e g (Grows-IsValid f g v p) in
    ground (arith, run, run', contains-Grows e f g v p, any_contained-Grows es f g v p)

module _ (script : Script) where
  -- What `update_for` does for a matched output.
  pub record Updates (point : OutPoint) (f g : BloomFilter) : Type 0 where
    pub grows : Grows f g
    pub all : f.flags % 4 ≡ 1 → contains (script.outpoint_bytes point) g ≡ some true
    pub nothing : f.flags % 4 ≡ 0 → g ≡ f

  inserted :
      (point : OutPoint) (f : BloomFilter)
      → IsValid f
      → f.flags % 4 ≢ 0
      → (g : BloomFilter) × (insert (script.outpoint_bytes point) f ≡ some g) × Updates point f g
  inserted point f v ne =
      let (g, run, grows, has) = contains-insert (script.outpoint_bytes point) f v in
      (g, run, record { grows = grows; all = λ _. has; nothing = λ e. absurd (ne e) })

  pub update_for-Updates :
      (out : TxOut) (point : OutPoint) (f : BloomFilter)
      → IsValid f
      → (g : BloomFilter) × (update_for script out point f ≡ some g) × Updates point f g
  unfolding update_for
  update_for-Updates out point f v = elim (Bool-cases (f.flags % 4 == 1)) [
    | inl e ↦ let (g, run, u) = inserted point f v (ground arith) in (g, rw e run, u)
    | inr e ↦ elim (Bool-cases (f.flags % 4 == 2)) [
      | inl e' ↦ elim (Bool-cases (script.pays_to_key out.script_pub_key)) [
        | inl pays ↦
            let (g, run, u) = inserted point f v (ground arith) in (g, rw (e, e', pays) run, u)
        | inr other ↦ (
          f,
          rw (e, e', other),
          record { grows = Grows-refl f v; all = λ h. absurd (ground arith); nothing = λ h. refl },
        )
      ]
      | inr e' ↦ (
        f,
        rw (e, e'),
        record { grows = Grows-refl f v; all = λ h. absurd (ground arith); nothing = λ h. refl },
      )
    ]
  ]

  -- The loop over the outputs: it ends, sets bits only, keeps what was found, and changes the
  -- filter only where it finds an output and the flags ask for an update.
  pub record Finds (found : Bool) (f : BloomFilter) (b : Bool) (g : BloomFilter) : Type 0 where
    pub grows : Grows f g
    pub keeps : found ≡ true → b ≡ true
    pub unchanged : b ≡ false → g ≡ f
    pub nothing : f.flags % 4 ≡ 0 → g ≡ f

  pub outputs_loop-Finds :
      (hash i : ℕ) (os : List TxOut) (found : Bool) (f : BloomFilter)
      → IsValid f
      → (b : Bool) × (g : BloomFilter) × (outputs_loop script hash i os found f ≡ some (b, g))
        × Finds found f b g
  unfolding outputs_loop
  outputs_loop-Finds hash i [] found f v = (
    found,
    f,
    refl,
    record { grows = Grows-refl f v; keeps = λ h. h; unchanged = λ h. refl; nothing = λ h. refl },
  )
  outputs_loop-Finds hash i (o ∷ os) found f v =
      let point : OutPoint = record { hash = hash; n = i } in
      let (hit, run) = any_contained-total (script.data_elements o.script_pub_key) f v in
      elim (Bool-cases hit) [
        | inl e ↦
            let (f', update, u) = update_for-Updates o point f v in
            let (b, g, rest, r) =
              outputs_loop-Finds hash (i + 1) os (found || hit) f' (Grows-IsValid f f' v u.grows) in
            (
              b,
              g,
              rw (run, e, update) (rw e at rest),
              record {
                grows = Grows-trans f f' g u.grows r.grows;
                keeps = λ h. r.keeps (ground arith);
                unchanged = λ h. absurd (ground (arith, r.keeps));
                nothing = λ h. ground (arith, u.nothing h, r.nothing, u.grows.flags);
              },
            )
        | inr e ↦
            let (b, g, rest, r) = outputs_loop-Finds hash (i + 1) os (found || hit) f v in
            (
              b,
              g,
              rw (run, e) (rw e at rest),
              record {
                grows = r.grows;
                keeps = λ h. r.keeps (ground arith);
                unchanged = r.unchanged;
                nothing = r.nothing;
              },
            )
      ]

  pub inputs_loop-total :
      (is : List TxIn) (f : BloomFilter)
      → IsValid f
      → (b : Bool) × (inputs_loop script is f ≡ some b)
  unfolding inputs_loop
  inputs_loop-total [] f v = (false, refl)
  inputs_loop-total (i ∷ is) f v =
      let (spent, r₁) = contains-total (script.outpoint_bytes i.prevout) f v in
      let (signed, r₂) = any_contained-total (script.data_elements i.script_sig) f v in
      let (rest, r₃) = inputs_loop-total is f v in
      (if (if spent then true else signed) then true else rest, ground (arith, r₁, r₂, r₃))

  -- What IsRelevantAndUpdate makes of the filter `f`, with its result `b`.
  pub record Relevant (tx : Transaction) (hash : ℕ) (f : BloomFilter) (b : Bool) (g : BloomFilter)
      : Type 0 where
    pub grows : Grows f g
    pub unchanged : b ≡ false → g ≡ f
    pub none_asked : f.flags % 4 ≡ 0 → g ≡ f
    pub known : contains (script.hash_bytes hash) f ≡ some true → b ≡ true

  -- On a filter that is not empty IsRelevantAndUpdate does not divide by zero. It only sets bits;
  -- it leaves the filter as it is where it finds nothing or the flags are BLOOM_UPDATE_NONE; and
  -- it finds a transaction whose hash the filter contains.
  pub is_relevant_and_update-Relevant :
      (tx : Transaction) (hash : ℕ) (f : BloomFilter)
      → IsValid f
      → (b : Bool) × (g : BloomFilter) × (is_relevant_and_update script tx hash f ≡ some (b, g))
        × Relevant tx hash f b g
  unfolding is_relevant_and_update
  is_relevant_and_update-Relevant tx hash f v =
      let (known, r₁) = contains-total (script.hash_bytes hash) f v in
      let (found, g, r₂, u) = outputs_loop-Finds hash 0 tx.vout known f v in
      let (spends, r₃) = inputs_loop-total tx.vin g (Grows-IsValid f g v u.grows) in
      (
        if found then true else spends,
        g,
        ground (arith, r₁, r₂, r₃),
        record {
          grows = u.grows;
          unchanged = λ h. u.unchanged (ground arith);
          none_asked = u.nothing;
          known = λ h. ground (arith, u.keeps, r₁);
        },
      )
