-- ===== src/Tests/AlertTests.antt =====
-- alert.cpp at concrete inputs.
use mathlib.Core.Bool.{false, true}
use tri_tip.Prelude.{
  arith, inl, inr, List, map, none, Option, refl, some, sym, ℕ, ◌-◌, ◌==◌, ◌≡◌, ◌∙◌, ◌∷◌, ◌≢◌, [],
}
use tri_tip.Prelude.Int.{pos}
use tri_tip.Prelude.Maps.{In}
use tri_tip.Alert
use tri_tip.Alert.{Alert, Env, Outcome, UnsignedAlert}
use tri_tip.Alert.Process.{Processed, process_alert-Processed}
use tri_tip.Alert.Settled.{Settled, process_alert-Settled}

-- The message of an alert is its id, and every alert cancels the id before it.
abbrev fields_of : ℕ → UnsignedAlert
fields_of n = record {
  version = pos 1;
  relay_until = pos 500;
  expiration = pos 900;
  id = pos n;
  cancel = pos 0;
  set_cancel = pos (n - 1) ∷ [];
  min_ver = pos 0;
  max_ver = pos 80000;
  set_sub_ver = [];
  priority = pos 1;
  comment = [];
  status_bar = 104 ∷ 39 ∷ 105 ∷ [];
  reserved = [];
}

abbrev decode : List ℕ → Option UnsignedAlert
decode [] = none
decode (n ∷ _) = some (fields_of n)

abbrev first : List ℕ → ℕ
first [] = 0
first (n ∷ _) = n

abbrev env : Env
env = record {
  now = pos 100;
  test_net = false;
  hash = first;
  verify = λ key h sig. h == first sig;
  main_key = [];
  test_key = 1 ∷ [];
  decode = decode;
  protocol_version = pos 70001;
  sub_version = [];
  alert_notify = 37 ∷ 115 ∷ [];
  replace_all = λ command status. status;
}

abbrev alert_of : ℕ → Alert
alert_of n = record { fields = fields_of n; msg = n ∷ []; sig = n ∷ [] }

abbrev held : List (ℕ × Alert)
held = (7, alert_of 7) ∷ (20, alert_of 20) ∷ []

abbrev outcome : Outcome
unfolding Alert.process_alert Alert.check_signature Alert.refuse
outcome = elim (Alert.process_alert env (alert_of 8) held) [
  | none ↦ Alert.refuse env (alert_of 8) [] []
  | some o ↦ o
]

-- Alert 8 cancels alert 7 and is shown without the quote in its text.
outcome_lem :
    (outcome.accepted ≡ true)
    × (map (λ e. e.0) outcome.alerts ≡ 20 ∷ 8 ∷ [])
    × (outcome.command ≡ some (39 ∷ 104 ∷ 105 ∷ 39 ∷ []))
unfolding Alert.process_alert Alert.check_signature Alert.refuse
outcome_lem = (refl, refl, refl)

process_alert-Processed_example :
    (o : Outcome) × (Alert.process_alert env (alert_of 8) held ≡ some o)
    × Processed env (alert_of 8) held o
process_alert-Processed_example =
    process_alert-Processed env (alert_of 8) held (fields_of 8) refl refl

held-Settled : Settled (pos 50) held
unfolding Alert.cancels
held-Settled = record { apart = apart }
  where
    apart :
        (h k : ℕ) (a b : Alert)
        → In h a held
        → In k b held
        → h ≢ k
        → Alert.cancels (pos 50) a b ≡ false
    apart h k a b (inl x) (inl y) ne = absurd (ne (x.0 ∙ sym y.0))
    apart h k a b (inl x) (inr (inl y)) ne = λ i. Alert.cancels (pos 50) (x.1 i) (y.1 i)
    apart h k a b (inl x) (inr (inr y)) ne = elim y [ ]
    apart h k a b (inr (inl x)) (inl y) ne = λ i. Alert.cancels (pos 50) (x.1 i) (y.1 i)
    apart h k a b (inr (inl x)) (inr (inl y)) ne = absurd (ne (x.0 ∙ sym y.0))
    apart h k a b (inr (inl x)) (inr (inr y)) ne = elim y [ ]
    apart h k a b (inr (inr x)) j ne = elim x [ ]

process_alert-Settled_example : Settled (pos 100) outcome.alerts
unfolding Alert.process_alert
process_alert-Settled_example =
    process_alert-Settled env (pos 50) (alert_of 8) held outcome (omega arith) held-Settled refl
