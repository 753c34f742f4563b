-- ===== src/Alert/Settled.antt =====
-- alert.cpp, CAlert::ProcessAlert: alerts of mapAlerts that cancel others.
use mathlib.Core.Path.{subst}
use mathlib.Core.Bool.{false, true}
use tri_tip.Prelude.{
  ap, arith, Bool-cases, if◌then◌else◌, inl, inr, List, none, Option, Option-cases, refl, some, sym,
  ℕ, ◌≡◌, ◌∙◌, ◌≢◌, ◌⊎◌,
}
use tri_tip.Prelude.Int.{ℤ, ◌≤ℤ◌}
use tri_tip.Prelude.Maps.{In}
use tri_tip.Alert.{
  Alert, Env, Outcome, cancels, is_in_effect, process_alert, check_signature, refuse,
}
use tri_tip.Alert.Process.{Processed, process_alert-Processed}

pub record Settled (now : ℤ) (m : List (ℕ × Alert)) : Type 0 where
  pub apart : (h k : ℕ) (a b : Alert) → In h a m → In k b m → h ≢ k → cancels now a b ≡ false

-- What is not in effect any more cancels nothing.
cancels_later :
    (since now : ℤ) (a b : Alert)
    → since ≤ℤ now
    → cancels since a b ≡ false
    → cancels now a b ≡ false
unfolding cancels is_in_effect
cancels_later since now a b le e = ground arith

later : (since now : ℤ) (m : List (ℕ × Alert)) → since ≤ℤ now → Settled since m → Settled now m
later since now m le s = record {
  apart = λ h k a b i j ne. cancels_later since now a b le (s.apart h k a b i j ne);
}

Processed-Settled :
    (env : Env) (b : Alert) (m : List (ℕ × Alert)) (o : Outcome)
    → Processed env b m o
    → Settled env.now m
    → Settled env.now o.alerts
Processed-Settled env b m o p s = elim (Bool-cases o.accepted) [
  | inr e ↦ record { apart = λ h k c d i j. s.apart h k c d (p.no_new e h c i) (p.no_new e k d j) }
  | inl e ↦ record { apart = λ h k c d i j ne. both e h k c d (p.only e h c i) (p.only e k d j) ne }
]
  where
    New : ℕ → Alert → Type 0
    New h c = (h ≡ env.hash b.msg) × (c ≡ b)

    Old : ℕ → Alert → Type 0
    Old h c = In h c m × (cancels env.now b c ≡ false) × (is_in_effect env.now c ≡ true)

    both :
        o.accepted ≡ true
        → (h k : ℕ) (c d : Alert) → New h c ⊎ Old h c
        → New k d ⊎ Old k d
        → h ≢ k
        → cancels env.now c d ≡ false
    both e h k c d (inl x) (inl y) ne = absurd (ne (x.0 ∙ sym y.0))
    both e h k c d (inl x) (inr y) ne = ap (λ z. cancels env.now z d) x.1 ∙ y.1
    both e h k c d (inr x) (inl y) ne = ap (cancels env.now c) y.1 ∙ (p.accepted e).2 h c x.0 x.1
    both e h k c d (inr x) (inr y) ne = s.apart h k c d x.0 y.0 ne

alerts_of : List (ℕ × Alert) → Option Outcome → List (ℕ × Alert)
alerts_of m none = m
alerts_of m (some o) = o.alerts

-- The run is one of three.
alerts_of-process_alert :
    (env : Env) (a : Alert) (m : List (ℕ × Alert))
    → (alerts_of m (process_alert env a m) ≡ m)
      ⊎ ((b : Alert) × (o : Outcome) × (process_alert env a m ≡ some o) × Processed env b m o)
unfolding process_alert check_signature refuse alerts_of
alerts_of-process_alert env a m =
    elim (Bool-cases
      (env.verify (if env.test_net then env.test_key else env.main_key) (env.hash a.msg) a.sig)) [
        | inr v ↦ inl (rw v refl)
        | inl v ↦ elim (Option-cases (env.decode a.msg)) [
          | inl d ↦ inl (rw (v, d) refl)
          | inr (fields, d) ↦
              (let r = process_alert-Processed env a m fields v d in
                inr (record a { fields = fields }, r.0, r.1, r.2))
        ]
      ]

-- `ProcessAlert` keeps a map in which no alert cancels another one, whatever alert comes and
-- however late it comes.
pub process_alert-Settled :
    (env : Env) (since : ℤ) (a : Alert) (m : List (ℕ × Alert)) (o : Outcome)
    → since ≤ℤ env.now
    → Settled since m
    → process_alert env a m ≡ some o
    → Settled env.now o.alerts
unfolding alerts_of
process_alert-Settled env since a m o le s run = elim (alerts_of-process_alert env a m) [
  | inl e ↦ subst (Settled env.now) (sym e ∙ ap (alerts_of m) run) (later since env.now m le s)
  | inr (b, p, run₂, q) ↦
      subst (Settled env.now) (ap (alerts_of m) (sym run₂ ∙ run))
        (Processed-Settled env b m p q (later since env.now m le s))
]
