-- ===== src/Alert/Process.antt =====
-- alert.cpp, CAlert::ProcessAlert: when an alert is accepted and what then stands in mapAlerts.
use mathlib.Core.Bool.{◌&&◌, Bool, false, not, true}
use tri_tip.Prelude.{
  ap, arith, Bool-cases, if◌then◌else◌, inl, inr, List, refl, some, sym, ℕ, ◌≡◌, ◌∙◌, ◌∷◌, ◌⊎◌, [],
}
use tri_tip.Prelude.Int.{ℤ}
use tri_tip.Prelude.Equality.{eq_ℤ}
use tri_tip.Prelude.Maps.{In, In-insert, In-new, insert-In}
use tri_tip.Alert.{
  UnsignedAlert, Alert, Env, Outcome, Notice, is_in_effect, cancels, is_final_form, cancel_loop,
  is_cancelled, process_checked, process_alert, check_signature, refuse, add_alert, max_int,
}

-- What the loop leaves: what the alert does not cancel and is in effect.
pub cancel_loop_lem :
    (now : ℤ) (a b : Alert) (h : ℕ) (m : List (ℕ × Alert))
    → In h b (cancel_loop now a m)
    → In h b m × (cancels now a b ≡ false) × (is_in_effect now b ≡ true)
unfolding cancel_loop
cancel_loop_lem now a b h [] i = elim i [ ]
cancel_loop_lem now a b h ((k, c) ∷ m) i =
    step (Bool-cases (cancels now a c)) (Bool-cases (is_in_effect now c))
      (cancel_loop_lem now a b h m) i
  where
    Rest : Type 0
    Rest =
        In h b (cancel_loop now a m)
        → In h b m × (cancels now a b ≡ false) × (is_in_effect now b ≡ true)

    step :
        (cancels now a c ≡ true) ⊎ (cancels now a c ≡ false)
        → (is_in_effect now c ≡ true) ⊎ (is_in_effect now c ≡ false)
        → Rest
        → In h b (cancel_loop now a ((k, c) ∷ m))
        → In h b ((k, c) ∷ m) × (cancels now a b ≡ false) × (is_in_effect now b ≡ true)
    step (inl e) f ih = rw e (λ j. (inr (ih j).0, (ih j).1, (ih j).2))
    step (inr e) (inl f) ih =
        rw (e, f)
          (λ j. elim j [
            | inl q ↦ (inl q, ap (cancels now a) q.1 ∙ e, ap (is_in_effect now) q.1 ∙ f)
            | inr r ↦ (inr (ih r).0, (ih r).1, (ih r).2)
          ])
    step (inr e) (inr f) ih = rw (e, f) (λ j. (inr (ih j).0, (ih j).1, (ih j).2))

pub loop-In :
    (now : ℤ) (a b : Alert) (h : ℕ) (m : List (ℕ × Alert))
    → In h b m
    → cancels now a b ≡ false
    → is_in_effect now b ≡ true
    → In h b (cancel_loop now a m)
unfolding cancel_loop
loop-In now a b h [] i e f = elim i [ ]
loop-In now a b h ((k, c) ∷ m) (inl q) e f =
    let e₂ : cancels now a c ≡ false = ap (cancels now a) (sym q.1) ∙ e in
    let f₂ : is_in_effect now c ≡ true = ap (is_in_effect now) (sym q.1) ∙ f in rw (e₂, f₂) (inl q)
loop-In now a b h ((k, c) ∷ m) (inr i) e f =
    step (cancels now a c) (is_in_effect now c) (loop-In now a b h m i e f)
  where
    step :
        (s t : Bool)
        → In h b (cancel_loop now a m)
        → In h b (
            if s
            then cancel_loop now a m
            else if not t
            then cancel_loop now a m
            else (k, c) ∷ cancel_loop now a m)
    step true t r = r
    step false true r = inr r
    step false false r = r

pub is_cancelled-false :
    (now : ℤ) (a b : Alert) (h : ℕ) (m : List (ℕ × Alert))
    → is_cancelled now a m ≡ false
    → In h b m
    → cancels now b a ≡ false
unfolding is_cancelled
is_cancelled-false now a b h [] e i = elim i [ ]
is_cancelled-false now a b h ((k, c) ∷ m) e (inl q) = ap (λ d. cancels now d a) q.1 ∙ ground arith
is_cancelled-false now a b h ((k, c) ∷ m) e (inr i) =
    is_cancelled-false now a b h m (ground arith) i

pub is_cancelled-true :
    (now : ℤ) (a : Alert) (m : List (ℕ × Alert))
    → is_cancelled now a m ≡ true
    → (h : ℕ) × (b : Alert) × In h b m × (cancels now b a ≡ true)
unfolding is_cancelled
is_cancelled-true now a [] e = absurd (ground arith)
is_cancelled-true now a ((k, c) ∷ m) e = elim (Bool-cases (cancels now c a)) [
  | inl f ↦ (k, c, inl (refl, refl), f)
  | inr f ↦ let r = is_cancelled-true now a m (rest f) in (r.0, r.1, inr r.2, r.3)
]
  where
    rest : cancels now c a ≡ false → is_cancelled now a m ≡ true
    rest f = ground arith

cancels-is_in_effect : (now : ℤ) (a b : Alert) → cancels now a b ≡ true → is_in_effect now a ≡ true
unfolding cancels
cancels-is_in_effect now a b e = elim (Bool-cases (is_in_effect now a)) [
  | inl f ↦ f
  | inr f ↦ ground arith
]

-- What ProcessAlert makes of an alert `b` whose signature is right.
pub record Processed (env : Env) (b : Alert) (m : List (ℕ × Alert)) (o : Outcome) : Type 0 where
  pub alert : o.alert ≡ b
  pub accepted :
      o.accepted ≡ true
      → (is_in_effect env.now b ≡ true)
        × (eq_ℤ b.fields.id max_int ≡ true → is_final_form b ≡ true)
        × ((h : ℕ) (c : Alert)
            → In h c m
            → cancels env.now b c ≡ false
            → cancels env.now c b ≡ false)
  pub refused :
      o.accepted ≡ false
      → (is_in_effect env.now b ≡ false)
        ⊎ ((eq_ℤ b.fields.id max_int ≡ true) × (is_final_form b ≡ false))
        ⊎ ((h : ℕ) × (c : Alert) × In h c m
            × (cancels env.now b c ≡ false)
            × (cancels env.now c b ≡ true))
  pub added :
      o.accepted ≡ true
      → In (env.hash b.msg) b o.alerts
        ⊎ ((c : Alert) × In (env.hash b.msg) c m × In (env.hash b.msg) c o.alerts)
  pub kept :
      o.accepted ≡ true
      → (h : ℕ) (c : Alert) → In h c m
      → cancels env.now b c ≡ false
      → is_in_effect env.now c ≡ true
      → In h c o.alerts
  pub only :
      o.accepted ≡ true
      → (h : ℕ) (c : Alert) → In h c o.alerts
      → ((h ≡ env.hash b.msg) × (c ≡ b))
        ⊎ (In h c m × (cancels env.now b c ≡ false) × (is_in_effect env.now c ≡ true))
  pub no_new : o.accepted ≡ false → (h : ℕ) (c : Alert) → In h c o.alerts → In h c m

and_not : (x y : Bool) → (x && not y) ≡ true → (x ≡ true) × (y ≡ false)
and_not x y e = ground arith

and_not-false : (x y : Bool) → (x && not y) ≡ false → x ≡ true → y ≡ true
and_not-false x y e f = ground arith

choose :
    (s t u : Bool) {r₁ r₂ r₃ r₄ : Outcome} (P : Outcome → Type 0)
    → (s ≡ false → P r₁)
    → (t ≡ true → P r₂)
    → (u ≡ true → P r₃)
    → (s ≡ true → t ≡ false → u ≡ false → P r₄)
    → P (if not s then r₁ else if t then r₂ else if u then r₃ else r₄)
choose false t u P p q r z = p refl
choose true true u P p q r z = q refl
choose true false true P p q r z = r refl
choose true false false P p q r z = z refl refl refl

module _ (env : Env) (b : Alert) (m : List (ℕ × Alert)) where
  left : List (ℕ × Alert)
  left = cancel_loop env.now b m

  refuse-Processed :
      (n : List (ℕ × Alert)) (ns : List Notice)
      → (is_in_effect env.now b ≡ false)
        ⊎ ((eq_ℤ b.fields.id max_int ≡ true) × (is_final_form b ≡ false))
        ⊎ ((h : ℕ) × (c : Alert) × In h c m
            × (cancels env.now b c ≡ false)
            × (cancels env.now c b ≡ true))
      → ((h : ℕ) (c : Alert) → In h c n → In h c m)
      → Processed env b m (refuse env b n ns)
  unfolding refuse
  refuse-Processed n ns why sub = record {
    alert = refl;
    accepted = λ e. absurd (ground arith);
    refused = λ e. why;
    added = λ e. absurd (ground arith);
    kept = λ e. absurd (ground arith);
    only = λ e. absurd (ground arith);
    no_new = λ e. sub;
  }

  add-Processed :
      is_in_effect env.now b ≡ true
      → (eq_ℤ b.fields.id max_int ≡ true → is_final_form b ≡ true)
      → is_cancelled env.now b left ≡ false
      → (ns : List Notice) → Processed env b m (add_alert env b left ns)
  unfolding add_alert left
  add-Processed live form free ns = record {
    alert = refl;
    accepted = λ e. (live, form, uncancelled);
    refused = λ e. absurd (ground arith);
    added = λ e. elim (In-new (env.hash b.msg) b left) [
      | inl i ↦ inl i
      | inr (c, i) ↦ inr (
        c,
        (cancel_loop_lem env.now b c (env.hash b.msg) m i).0,
        insert-In (env.hash b.msg) (env.hash b.msg) c b left i,
      )
    ];
    kept = λ e h c i f g. insert-In h (env.hash b.msg) c b left (loop-In env.now b c h m i f g);
    only = λ e h c i. elim (In-insert h (env.hash b.msg) c b left i) [
      | inl q ↦ inl q
      | inr r ↦ inr (cancel_loop_lem env.now b c h m r)
    ];
    no_new = λ e. absurd (ground arith);
  }
    where
      uncancelled :
          (h : ℕ) (c : Alert) → In h c m → cancels env.now b c ≡ false → cancels env.now c b ≡ false
      uncancelled h c i f = elim (Bool-cases (cancels env.now c b)) [
        | inr e ↦ e
        | inl e ↦
            is_cancelled-false env.now b c h left free
              (loop-In env.now b c h m i f (cancels-is_in_effect env.now c b e))
      ]

  process_checked-Processed : Processed env b m (process_checked env b m)
  unfolding process_checked left
  process_checked-Processed =
      choose (is_in_effect env.now b) (eq_ℤ b.fields.id max_int && not (is_final_form b))
        (is_cancelled env.now b left) (Processed env b m)
        (λ e. refuse-Processed m [] (inl e) (λ h c i. i))
        (λ e. refuse-Processed m [] (inr (inl (and_not _ _ e))) (λ h c i. i))
        (λ e.
          refuse-Processed left _ (inr (inr (canceller e)))
            (λ h c i. (cancel_loop_lem env.now b c h m i).0))
        (λ e f g. add-Processed e (and_not-false _ _ f) g _)
    where
      canceller :
          is_cancelled env.now b left ≡ true
          → (h : ℕ) × (c : Alert) × In h c m
            × (cancels env.now b c ≡ false)
            × (cancels env.now c b ≡ true)
      canceller e =
          let r = is_cancelled-true env.now b left e in
          let l = cancel_loop_lem env.now b r.1 r.0 m r.2 in (r.0, r.1, l.0, l.1, r.3)

-- With a right signature over fields that can be read, `ProcessAlert` returns: it accepts the alert
-- exactly if it is in effect, has the final form in case of the largest id, and is not cancelled by
-- an alert that it does not cancel itself. Then the map holds the alert under its hash, unless that hash had an alert
-- before, which stays; it holds the alerts in effect that the alert does not cancel, and nothing else. A refused
-- alert adds nothing to the map.
pub process_alert-Processed :
    (env : Env) (a : Alert) (m : List (ℕ × Alert)) (fields : UnsignedAlert)
    → env.verify (if env.test_net then env.test_key else env.main_key) (env.hash a.msg) a.sig ≡ true
    → env.decode a.msg ≡ some fields
    → (o : Outcome) × (process_alert env a m ≡ some o)
      × Processed env (record a { fields = fields }) m o
unfolding process_alert check_signature
process_alert-Processed env a m fields v d = (
  process_checked env (record a { fields = fields }) m,
  rw (v, d) refl,
  process_checked-Processed env (record a { fields = fields }) m,
)
