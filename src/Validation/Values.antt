-- ===== src/Validation/Values.antt =====
-- bitcoin_messages_handlers.cpp, CheckTransaction: the values of the outputs and their total.
use mathlib.Core.Bool.{◌&&◌, false, not, true}
use tri_tip.Prelude.{
  arith, Bool-cases, if◌then◌else◌, inl, inr, leb, List, refl, ℕ, ◌+◌, ◌<◌, ◌≡◌, ◌^◌, ◌∙◌, ◌∷◌, ◌≤◌,
  [],
}
use Prim.{⊥}
use tri_tip.Prelude.Int.{ℤ, pos, negsuc, pos_part, ltb_ℤ}
use tri_tip.Core.TxOut.{TxOut}
use tri_tip.Validation.{Verdict, valid, dos, Env, int64, add_value, values_loop}
use tri_tip.Validation.Inputs.{dos-ne_valid}

-- What MoneyRange of main.h does: it tests for 0 up to MAX_MONEY, a positive int64.
pub record MoneyLaw (env : Env) : Type 0 where
  pub positive : env.max_money < 2 ^ 63
  pub range :
      (z : ℤ) → env.money_range z ≡ (not (ltb_ℤ z (pos 0)) && not (ltb_ℤ (pos env.max_money) z))

abbrev pub InRange : ℕ → ℤ → Type 0
InRange max (pos n) = n ≤ max
InRange max (negsuc n) = ⊥

abbrev pub AllInRange : ℕ → List TxOut → Type 0
AllInRange max [] = Unit {0}
AllInRange max (o ∷ os) = InRange max o.value × AllInRange max os

abbrev pub total_value : List TxOut → ℕ
total_value [] = 0
total_value (o ∷ os) = pos_part o.value + total_value os

module _ (env : Env) (law : MoneyLaw env) where
  range_of-sum :
      (t v : ℕ)
      → t ≤ env.max_money
      → v ≤ env.max_money
      → (env.money_range (add_value (pos t) (pos v)) ≡ leb (t + v) env.max_money)
        × (t + v ≤ env.max_money → add_value (pos t) (pos v) ≡ pos (t + v))
  unfolding add_value int64
  range_of-sum t v ht hv = (
    law.range (add_value (pos t) (pos v)) ∙ ground (arith, law.positive),
    λ h. ground (arith, law.positive),
  )

  abbrev pub Within : ℕ → List TxOut → Type 0
  Within t os = AllInRange env.max_money os × (t + total_value os ≤ env.max_money)

  -- One round, on the value alone.
  round :
      (t : ℕ) (v : ℤ) (next : ℤ → Verdict) (Rest : ℕ → Type 0)
      → t ≤ env.max_money
      → ((u : ℕ)
          → u ≤ env.max_money
          → (next (pos u) ≡ valid → Rest u) × (Rest u → next (pos u) ≡ valid))
      → let now =
          if ltb_ℤ v (pos 0)
          then dos 100
          else if ltb_ℤ (pos env.max_money) v
          then dos 100
          else if not (env.money_range (add_value (pos t) v))
          then dos 100
          else next (add_value (pos t) v) in
        (now ≡ valid
          → InRange env.max_money v × (t + pos_part v ≤ env.max_money) × Rest (t + pos_part v))
        × (InRange env.max_money v
            → t + pos_part v ≤ env.max_money
            → Rest (t + pos_part v)
            → now ≡ valid)
  round t (negsuc n) next Rest ht ih =
      let low : ltb_ℤ (negsuc n) (pos 0) ≡ true = ground arith in
      rw low (λ e. absurd (dos-ne_valid 100 e), λ r. elim r [ ])
  round t (pos n) next Rest ht ih =
      let low : ltb_ℤ (pos n) (pos 0) ≡ false = ground arith in
      elim (Bool-cases (ltb_ℤ (pos env.max_money) (pos n))) [
        | inl big ↦ rw (low, big) (λ e. absurd (dos-ne_valid 100 e), λ r. absurd (ground arith))
        | inr small ↦
            let r = range_of-sum t n ht (ground arith) in
            elim (Bool-cases (leb (t + n) env.max_money)) [
              | inl fits ↦
                  let le : t + n ≤ env.max_money = ground arith in
                  let k = ih (t + n) le in
                  rw (low, small, r.0, fits, r.1 le)
                    (λ e. (ground arith, le, k.0 e), λ x y z. k.1 z)
              | inr over ↦
                  rw (low, small, r.0, over)
                    (λ e. absurd (dos-ne_valid 100 e), λ x y. absurd (ground arith))
            ]
      ]

  pub values_loop-Within :
      (t : ℕ) (os : List TxOut)
      → t ≤ env.max_money
      → (values_loop env (pos t) os ≡ valid → Within t os)
        × (Within t os → values_loop env (pos t) os ≡ valid)
  unfolding values_loop
  values_loop-Within t [] h = (λ e. (tt, omega arith), λ w. refl)
  values_loop-Within t (o ∷ os) h =
      let r =
        round t o.value (λ z. values_loop env z os) (λ u. Within u os) h
          (λ u hu. values_loop-Within u os hu) in
      (
        λ e. let q = r.0 e in ((q.0, q.2.0), omega (arith, q.2.1)),
        λ w. r.1 w.0.0 (omega (arith, w.1)) (w.0.1, omega (arith, w.1)),
      )
