-- ===== src/CheckQueue/Holds.antt =====
-- checkqueue.h: one critical section, the count of open checks and their results.
use tri_tip.Prelude.{length-drop}
use mathlib.Core.Path.{subst}
use mathlib.Core.Bool.{◌&&◌, ◌||◌, Bool, false, true}
use tri_tip.Prelude.{
  ap, arith, drop, if◌then◌else◌, length, List, refl, sym, take, ℕ, ◌%◌, ◌++◌, ◌+◌, ◌-◌, ◌<◌, ◌==◌,
  ◌≡◌, ◌^◌, ◌∙◌, ◌∷◌, ◌≤◌, [],
}
use native.Mathlib.Nat.{div-le_self}
use tri_tip.CheckQueue.{
  Queue, Batch, Outcome, returns, waits, takes, fresh, add, clean_up, wake, batch_of, take_batch,
  loop_head,
}
use tri_tip.CheckQueue.Results.{
  nows, oks, Positive, nows-append, oks-append, Positive-append, nothing_busy, conj, conj-take,
  run_checks-conj, conj-push_all, length-push_all,
}

module _ {T : Type 0} (run : T → Bool) where
  -- The count and the result, over the queue and the batches in the threads.
  pub record Holds (v : Bool) (q : Queue T) (busy : List Batch) : Type 0 where
    pub positive : Positive busy
    pub counted : q.todo ≡ length q.queue + nows busy
    pub bounded : q.todo < 2 ^ 32
    pub result : (q.all_ok && (oks busy && conj run q.queue)) ≡ v

  -- How a thread comes into the critical section.
  pub data Enters (q : Queue T) : List Batch → Queue T → List Batch → Type 0 where
    joins : {busy : List Batch} → Enters q busy (clean_up fresh q) busy
    wakes : {busy : List Batch} → Enters q busy (wake q) busy
    finishes :
        (before : List Batch) (b : Batch) (after : List Batch)
        → Enters q (before ++ b ∷ after) (clean_up b q) (before ++ after)

  pub Enters-Holds :
      (v : Bool) (q q' : Queue T) (busy rest : List Batch)
      → Enters q busy q' rest
      → Holds v q busy
      → Holds v q' rest
  unfolding clean_up fresh wake
  Enters-Holds v q q' busy rest joins h = record {
    positive = h.positive;
    counted = h.counted;
    bounded = h.bounded;
    result = h.result;
  }
  Enters-Holds v q q' busy rest wakes h = record {
    positive = h.positive;
    counted = h.counted;
    bounded = h.bounded;
    result = h.result;
  }
  Enters-Holds v q q' busy rest (finishes before b after) h =
      let p = Positive-append before after b h.positive in
      let one : (b.now == 0) ≡ false = ground (arith, p.0) in
      subst
        (λ t.
          Holds v
            (if t then record q { total = q.total + 1 } else record q {
              all_ok = q.all_ok && b.ok;
              todo = (q.todo + 2 ^ 32 - b.now) % 2 ^ 32;
            })
            (before ++ after))
        (sym one)
        (record {
          positive = p.1;
          counted = omega (arith, h.counted, h.bounded, nows-append before after b);
          bounded = omega arith;
          result =
              regroup q.all_ok b.ok (oks (before ++ after)) (conj run q.queue)
              ∙ ap (λ o. q.all_ok && (o && conj run q.queue)) (sym (oks-append before after b))
              ∙ h.result;
        })
    where
      regroup : (a o t c : Bool) → ((a && o) && (t && c)) ≡ (a && ((o && t) && c))
      regroup a o t c = ground arith

  -- What the end of a critical section means, for the checks with the conjunction `v`.
  abbrev pub Ends : Bool → Bool → List Batch → Outcome T → Type 0
  Ends master v rest (takes b q) = Holds v q (b ∷ rest)
  Ends master v rest (waits q) = Holds v q rest
  Ends master v rest (returns r q) =
      (r ≡ v) × (rest ≡ []) × (q.queue ≡ []) × Holds (if master then true else v) q rest

  all_done :
      (v ok : Bool) (rest : List Batch) (q : Queue T)
      → Holds v q rest
      → q.queue ≡ []
      → q.todo ≡ 0
      → (q.all_ok ≡ v) × (rest ≡ [])
  all_done v ok rest q h e z =
      let none : rest ≡ [] = nothing_busy rest h.positive (omega (arith, h.counted)) in
      (
        sym (unit q.all_ok) ∙ sym (λ i. q.all_ok && (oks (none i) && conj run (e i))) ∙ h.result,
        none,
      )
    where
      unit : (a : Bool) → (a && (true && true)) ≡ a
      unit a = ground arith

  empty_head :
      (master v quit ok : Bool) (idle total todo size : ℕ) (rest : List Batch)
      → let q : Queue T = record {
        queue = [];
        idle = idle;
        total = total;
        all_ok = ok;
        todo = todo;
        quit = quit;
        batch_size = size;
      } in
        Holds v q rest → Ends master v rest (loop_head run master q)
  unfolding loop_head
  empty_head master v quit ok idle total todo size rest h =
      step ((master || quit) && todo == 0) (λ e. ground arith)
    where
      q : Queue T
      q = record {
        queue = [];
        idle = idle;
        total = total;
        all_ok = ok;
        todo = todo;
        quit = quit;
        batch_size = size;
      }

      kept :
          (m : Bool)
          → rest ≡ []
          → ((if m then true else ok) && (oks rest && true)) ≡ (if m then true else v)
      kept true e = ap (λ r. true && (oks r && true)) e
      kept false e = h.result

      left :
          todo ≡ 0
          → Ends master v rest
              (returns ok (record q { total = total - 1; all_ok = if master then true else ok }))
      left z =
          let d = all_done v ok rest q h refl z in
          (
            d.0,
            d.1,
            refl,
            record {
              positive = h.positive;
              counted = h.counted;
              bounded = h.bounded;
              result = kept master d.1;
            },
          )

      step :
          (t : Bool)
          → (t ≡ true → todo ≡ 0)
          → Ends master v rest (
              if t
              then returns ok (record q { total = total - 1; all_ok = if master then true else ok })
              else waits (record q { idle = idle + 1 }))
      step true f = left (f refl)
      step false f = record {
        positive = h.positive;
        counted = h.counted;
        bounded = h.bounded;
        result = h.result;
      }

  batch_of-le : (q : Queue T) → 0 < length q.queue → batch_of q ≤ length q.queue
  unfolding batch_of
  batch_of-le q h = omega (arith, div-le_self (length q.queue) (q.total + q.idle + 1))

  batch_of-pos : (q : Queue T) → 0 < batch_of q
  unfolding batch_of
  batch_of-pos q = omega arith

  take_batch-Ends :
      (master v : Bool) (q : Queue T) (rest : List Batch)
      → 0 < length q.queue
      → Holds v q rest
      → Ends master v rest (take_batch run q)
  unfolding take_batch
  take_batch-Ends master v q rest some_left h = record {
    positive = (batch_of-pos q, h.positive);
    counted = omega (arith, h.counted, batch_of-le q some_left, length-drop (batch_of q) q.queue);
    bounded = h.bounded;
    result =
        ap (λ o. q.all_ok && ((o && oks rest) && conj run (drop (batch_of q) q.queue)))
          (run_checks-conj run q.all_ok (take (batch_of q) q.queue))
        ∙ regroup q.all_ok (conj run (take (batch_of q) q.queue)) (oks rest)
            (conj run (drop (batch_of q) q.queue))
        ∙ ap (λ c. q.all_ok && (oks rest && c)) (sym (conj-take run (batch_of q) q.queue))
        ∙ h.result;
  }
    where
      regroup : (a t o d : Bool) → (a && (((a && t) && o) && d)) ≡ (a && (o && (t && d)))
      regroup a t o d = ground arith

  pub loop_head-Ends :
      (master v : Bool) (q : Queue T) (rest : List Batch)
      → Holds v q rest
      → Ends master v rest (loop_head run master q)
  unfolding loop_head
  loop_head-Ends master v q rest h = split q.queue refl
    where
      At : List T → Type 0
      At l = Ends master v rest (loop_head run master (record q { queue = l }))

      moved : (l : List T) → q.queue ≡ l → Holds v (record q { queue = l }) rest
      moved l e = subst (λ l. Holds v (record q { queue = l }) rest) e h

      split : (l : List T) → q.queue ≡ l → At q.queue
      split [] e =
          subst At (sym e) (
            empty_head master v q.quit q.all_ok q.idle q.total q.todo q.batch_size rest
              (moved [] e))
      split (c ∷ cs) e = subst At (sym e) (
          take_batch-Ends master v (record q { queue = c ∷ cs }) rest (omega arith)
            (moved (c ∷ cs) e))

  pub add-Holds :
      (v : Bool) (q : Queue T) (busy : List Batch) (checks : List T)
      → q.todo + length checks < 2 ^ 32
      → Holds v q busy
      → Holds (v && conj run checks) (add checks q) busy
  unfolding add
  add-Holds v q busy checks small h = record {
    positive = h.positive;
    counted = omega (arith, h.counted, length-push_all run checks q.queue);
    bounded = omega arith;
    result =
        ap (λ c. q.all_ok && (oks busy && c)) (conj-push_all run checks q.queue)
        ∙ regroup q.all_ok (oks busy) (conj run checks) (conj run q.queue)
        ∙ ap (λ w. w && conj run checks) h.result;
  }
    where
      regroup : (a o c d : Bool) → (a && (o && (c && d))) ≡ ((a && (o && d)) && c)
      regroup a o c d = ground arith
