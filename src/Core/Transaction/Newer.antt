-- ===== src/Core/Transaction/Newer.antt =====
-- core.h, CTransaction::IsNewerThan: replacement of a transaction by another with the same inputs.
use Prim.Native.Nat.{min}
use mathlib.Core.Bool.{Bool, ◌&&◌, false, true}
use tri_tip.Core.OutPoint
use mathlib.Core.Path.{ap₂}
use tri_tip.Core.OutPoint.{OutPoint, uint_max}
use tri_tip.Core.TxIn.{TxIn}
use tri_tip.Core.Transaction.{Transaction, is_newer_than, newer_loop, newer_round, same_prevouts}
use tri_tip.Prelude.{
  inl, inr, Bool-cases, ap, ◌∙◌, [], arith, if◌then◌else◌, ltb, refl, ℕ, ◌==◌, ◌≡◌, ◌≤◌, ◌∷◌, List,
}

-- The lowest sequence number of `is` among the positions at which `is` and `js` differ.
abbrev lowest_from : ℕ → List TxIn → List TxIn → ℕ
lowest_from low (i ∷ is) (j ∷ js) =
    lowest_from (if i.sequence == j.sequence then low else min low i.sequence) is js
lowest_from low _ _ = low

abbrev pub lowest_differing : List TxIn → List TxIn → ℕ
lowest_differing = lowest_from uint_max

abbrev pub Bounded : List TxIn → Type 0
Bounded [] = Unit {0}
Bounded (i ∷ is) = (i.sequence ≤ uint_max) × Bounded is

round-min :
    (new old a b : ℕ)
    → newer_round new old (ltb b a, min a b) ≡ (
      ltb (if old == new then b else min b old) (if new == old then a else min a new),
      min (if new == old then a else min a new) (if old == new then b else min b old),
    )
unfolding newer_round
round-min new old a b = ground arith

newer_loop-lowest :
    (is js : List TxIn) (a b : ℕ)
    → (newer_loop is js (ltb b a, min a b)).0 ≡ ltb (lowest_from b js is) (lowest_from a is js)
unfolding newer_loop
newer_loop-lowest [] [] a b = refl
newer_loop-lowest [] (j ∷ js) a b = refl
newer_loop-lowest (i ∷ is) [] a b = refl
newer_loop-lowest (i ∷ is) (j ∷ js) a b =
    ap (λ s. (newer_loop is js s).0) (round-min i.sequence j.sequence a b)
    ∙ newer_loop-lowest is js _ _

is_newer_than-same :
    (tx old : Transaction)
    → is_newer_than tx old ≡ (
        if same_prevouts tx.vin old.vin
        then ltb (lowest_differing old.vin tx.vin) (lowest_differing tx.vin old.vin)
        else false)
unfolding is_newer_than
is_newer_than-same tx old = rw (newer_loop-lowest tx.vin old.vin uint_max uint_max)

-- The outpoints that the inputs spend, in order
abbrev pub prevouts : List TxIn → List OutPoint
prevouts [] = []
prevouts (i ∷ is) = i.prevout ∷ prevouts is

equal-true : (a b : OutPoint) → OutPoint.equal a b ≡ true → a ≡ b
unfolding OutPoint.equal
equal-true a b e =
    ap₂ {C = OutPoint} (λ h n. record { hash = h; n = n }) (ground (arith, e)) (ground (arith, e))

same_prevouts-true : (is js : List TxIn) → same_prevouts is js ≡ true → prevouts is ≡ prevouts js
unfolding same_prevouts
same_prevouts-true [] [] e = refl
same_prevouts-true [] (j ∷ js) e = absurd (ground (arith, e))
same_prevouts-true (i ∷ is) [] e = absurd (ground (arith, e))
same_prevouts-true (i ∷ is) (j ∷ js) e =
    ap₂ (λ o os. o ∷ os) (equal-true i.prevout j.prevout (ground (arith, e)))
      (same_prevouts-true is js (ground (arith, e)))

points_equal : List OutPoint → List OutPoint → Bool
points_equal [] [] = true
points_equal (a ∷ ps) (b ∷ qs) = OutPoint.equal a b && points_equal ps qs
points_equal _ _ = false

points_equal_refl : (os : List OutPoint) → points_equal os os ≡ true
unfolding points_equal OutPoint.equal
points_equal_refl [] = refl
points_equal_refl (o ∷ os) = ground (arith, points_equal_refl os)

same_prevouts-points :
    (is js : List TxIn) → same_prevouts is js ≡ points_equal (prevouts is) (prevouts js)
unfolding same_prevouts points_equal
same_prevouts-points [] [] = refl
same_prevouts-points [] (j ∷ js) = refl
same_prevouts-points (i ∷ is) [] = refl
same_prevouts-points (i ∷ is) (j ∷ js) =
    ap (λ b. OutPoint.equal i.prevout j.prevout && b) (same_prevouts-points is js)

outpoints_true : (is js : List TxIn) → prevouts is ≡ prevouts js → same_prevouts is js ≡ true
outpoints_true is js e =
    same_prevouts-points is js
    ∙ ap (λ os. points_equal os (prevouts js)) e
    ∙ points_equal_refl (prevouts js)

-- Where `tx` and `old` spend the same outpoints in the same order, `tx` is newer exactly when, among the
-- inputs whose sequence numbers differ, the lowest one of `old` is below that of `tx`. Otherwise it is not newer.
pub is_newer_than-lowest :
    (tx old : Transaction)
    → (prevouts tx.vin ≡ prevouts old.vin
        → is_newer_than tx old
          ≡ ltb (lowest_differing old.vin tx.vin) (lowest_differing tx.vin old.vin))
      × (¬ (prevouts tx.vin ≡ prevouts old.vin) → is_newer_than tx old ≡ false)
is_newer_than-lowest tx old = (
  λ e. ground (arith, is_newer_than-same tx old, outpoints_true tx.vin old.vin e),
  λ n. elim (Bool-cases (same_prevouts tx.vin old.vin)) [
    | inl e ↦ absurd (n (same_prevouts-true tx.vin old.vin e))
    | inr e ↦ ground (arith, is_newer_than-same tx old, e)
  ],
)

same_prevouts_symm : (is js : List TxIn) → same_prevouts is js ≡ same_prevouts js is
unfolding same_prevouts OutPoint.equal
same_prevouts_symm [] [] = refl
same_prevouts_symm [] (j ∷ js) = refl
same_prevouts_symm (i ∷ is) [] = refl
same_prevouts_symm (i ∷ is) (j ∷ js) = ground (arith, same_prevouts_symm is js)

-- Of two transactions at most one is newer than the other.
pub is_newer_than_asymm :
    (tx old : Transaction) → is_newer_than tx old ≡ true → is_newer_than old tx ≡ false
is_newer_than_asymm tx old h =
    ground (
      arith,
      is_newer_than-same tx old,
      is_newer_than-same old tx,
      same_prevouts_symm tx.vin old.vin,
    )
