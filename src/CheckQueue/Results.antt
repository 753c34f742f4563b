-- ===== src/CheckQueue/Results.antt =====
-- checkqueue.h: the open checks and the results of lists of checks and of batches.
use tri_tip.Prelude.{take-append-drop}
use mathlib.Core.Bool.{◌&&◌, Bool, true}
use tri_tip.Prelude.{
  ap, arith, drop, if◌then◌else◌, length, List, refl, sym, take, ℕ, ◌++◌, ◌+◌, ◌<◌, ◌≡◌, ◌∙◌, ◌∷◌,
  [],
}
use tri_tip.CheckQueue.{Batch, push_all, run_checks}

abbrev pub nows : List Batch → ℕ
nows [] = 0
nows (b ∷ bs) = b.now + nows bs

abbrev pub oks : List Batch → Bool
oks [] = true
oks (b ∷ bs) = b.ok && oks bs

abbrev pub Positive : List Batch → Type 0
Positive [] = Unit {0}
Positive (b ∷ bs) = (0 < b.now) × Positive bs

pub nows-append : (bs cs : List Batch) (b : Batch) → nows (bs ++ b ∷ cs) ≡ b.now + nows (bs ++ cs)
nows-append [] cs b = refl
nows-append (d ∷ bs) cs b = omega (arith, nows-append bs cs b)

pub oks-append : (bs cs : List Batch) (b : Batch) → oks (bs ++ b ∷ cs) ≡ (b.ok && oks (bs ++ cs))
oks-append [] cs b = refl
oks-append (d ∷ bs) cs b = ground (arith, oks-append bs cs b)

pub Positive-append :
    (bs cs : List Batch) (b : Batch) → Positive (bs ++ b ∷ cs) → (0 < b.now) × Positive (bs ++ cs)
Positive-append [] cs b p = p
Positive-append (d ∷ bs) cs b (p, ps) = let r = Positive-append bs cs b ps in (r.0, (p, r.1))

pub nothing_busy : (bs : List Batch) → Positive bs → nows bs ≡ 0 → bs ≡ []
nothing_busy [] p e = refl
nothing_busy (b ∷ bs) (p, ps) e = absurd (omega arith)

module _ {T : Type 0} (run : T → Bool) where
  abbrev pub conj : List T → Bool
  conj [] = true
  conj (c ∷ cs) = run c && conj cs

  pub conj-append : (cs ds : List T) → conj (cs ++ ds) ≡ (conj cs && conj ds)
  conj-append [] ds = refl
  conj-append (c ∷ cs) ds = ground (arith, conj-append cs ds)

  pub conj-take : (n : ℕ) (cs : List T) → conj cs ≡ (conj (take n cs) && conj (drop n cs))
  conj-take n cs = ap conj (sym (take-append-drop n cs)) ∙ conj-append (take n cs) (drop n cs)

  pub run_checks-conj : (ok : Bool) (cs : List T) → run_checks run ok cs ≡ (ok && conj cs)
  unfolding run_checks
  run_checks-conj ok [] = ground arith
  run_checks-conj ok (c ∷ cs) = run_checks-conj (if ok then run c else ok) cs ∙ ground arith

  pub conj-push_all : (cs queue : List T) → conj (push_all cs queue) ≡ (conj cs && conj queue)
  unfolding push_all
  conj-push_all [] queue = refl
  conj-push_all (c ∷ cs) queue = conj-push_all cs (c ∷ queue) ∙ ground arith

  pub length-push_all : (cs queue : List T) → length (push_all cs queue) ≡ length cs + length queue
  unfolding push_all
  length-push_all [] queue = omega arith
  length-push_all (c ∷ cs) queue = omega (arith, length-push_all cs (c ∷ queue))
