-- ===== src/Validation/Inputs.antt =====
-- bitcoin_messages_handlers.cpp: the transactions that CheckTransaction accepts.
use mathlib.Core.Path.{subst}
use mathlib.Core.Bool.{Bool, false, true}
use tri_tip.Prelude.{
  ap, arith, Bool-cases, if◌then◌else◌, inl, inr, List, refl, sym, ℕ, ◌≡◌, ◌∙◌, ◌∷◌, ◌≢◌, [],
}
use Prim.{⊥}
use tri_tip.Core.OutPoint
use tri_tip.Core.OutPoint.{OutPoint}
use tri_tip.Core.OutPoint.Order.{equal_sound, equal_refl}
use tri_tip.Core.TxIn.{TxIn}
use tri_tip.Validation.{Verdict, valid, invalid, dos, ◌then_check◌, has_outpoint, duplicates_loop}

pub dos-ne_valid : (n : ℕ) → dos n ≢ valid
dos-ne_valid n e = subst (λ v. elim v [ valid ↦ ⊥ | invalid ↦ ⊥ | dos m ↦ Unit {0} ]) e tt

pub then_check-valid : (v w : Verdict) → (v then_check w) ≡ valid → (v ≡ valid) × (w ≡ valid)
then_check-valid valid w e = (refl, e)
then_check-valid invalid w e = absurd (ground arith)
then_check-valid (dos n) w e = absurd (dos-ne_valid n e)

pub guard-valid : (b : Bool) (n : ℕ) → (if b then dos n else valid) ≡ valid → b ≡ false
guard-valid true n e = absurd (dos-ne_valid n e)
guard-valid false n e = refl

-- No two inputs of a list spend the same output.
abbrev pub NotSpent : OutPoint → List TxIn → Type 0
NotSpent p [] = Unit {0}
NotSpent p (j ∷ js) = (p ≢ j.prevout) × NotSpent p js

abbrev pub Apart : List TxIn → Type 0
Apart [] = Unit {0}
Apart (i ∷ is) = NotSpent i.prevout is × Apart is

abbrev Clear : List OutPoint → List TxIn → Type 0
Clear seen [] = Unit {0}
Clear seen (i ∷ is) = (has_outpoint i.prevout seen ≡ false) × Clear seen is

Clear-forth :
    (p : OutPoint) (seen : List OutPoint) (is : List TxIn)
    → Clear (p ∷ seen) is
    → NotSpent p is × Clear seen is
unfolding has_outpoint
Clear-forth p seen [] c = (tt, tt)
Clear-forth p seen (i ∷ is) (c, cs) =
    let r = Clear-forth p seen is cs in
    let ne : OutPoint.equal p i.prevout ≡ false = ground arith in
    (
      (λ e. absurd (differ (ap (OutPoint.equal p) (sym e) ∙ equal_refl p) ne), r.0),
      (ground arith, r.1),
    )
  where
    differ : {b : Bool} → b ≡ true → b ≡ false → ⊥
    differ e f = ground arith

Clear-back :
    (p : OutPoint) (seen : List OutPoint) (is : List TxIn)
    → NotSpent p is
    → Clear seen is
    → Clear (p ∷ seen) is
unfolding has_outpoint
Clear-back p seen [] n c = tt
Clear-back p seen (i ∷ is) (n, ns) (c, cs) = (
  elim (Bool-cases (OutPoint.equal p i.prevout)) [
    | inl e ↦ absurd (n (equal_sound p i.prevout e))
    | inr e ↦ rw e c
  ],
  Clear-back p seen is ns cs,
)

duplicates_forth :
    (seen : List OutPoint) (is : List TxIn)
    → duplicates_loop seen is ≡ valid
    → Apart is × Clear seen is
unfolding duplicates_loop
duplicates_forth seen [] e = (tt, tt)
duplicates_forth seen (i ∷ is) e = elim (Bool-cases (has_outpoint i.prevout seen)) [
  | inl h ↦ absurd (dos-ne_valid 100 (sym (rw h refl) ∙ e))
  | inr h ↦
      let ih = duplicates_forth (i.prevout ∷ seen) is (sym (rw h refl) ∙ e) in
      let r = Clear-forth i.prevout seen is ih.1 in ((r.0, ih.0), (h, r.1))
]

duplicates_back :
    (seen : List OutPoint) (is : List TxIn)
    → Apart is
    → Clear seen is
    → duplicates_loop seen is ≡ valid
unfolding duplicates_loop
duplicates_back seen [] a c = refl
duplicates_back seen (i ∷ is) (n, a) (c, cs) =
    rw c (duplicates_back (i.prevout ∷ seen) is a (Clear-back i.prevout seen is n cs))

Clear-start : (is : List TxIn) → Clear [] is
unfolding has_outpoint
Clear-start [] = tt
Clear-start (i ∷ is) = (refl, Clear-start is)

pub duplicates_loop-Apart :
    (is : List TxIn)
    → (duplicates_loop [] is ≡ valid → Apart is) × (Apart is → duplicates_loop [] is ≡ valid)
duplicates_loop-Apart is =
    (λ e. (duplicates_forth [] is e).0, λ a. duplicates_back [] is a (Clear-start is))
