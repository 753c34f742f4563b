-- ===== src/CheckQueue/Runs.antt =====
-- checkqueue.h: the runs of the threads.
use mathlib.Core.Path.{subst}
use mathlib.Core.Bool.{Bool, false, true}
use tri_tip.Prelude.{arith, length, List, refl, sym, ℕ, ◌++◌, ◌+◌, ◌<◌, ◌≡◌, ◌^◌, ◌∷◌, []}
use tri_tip.CheckQueue.{Queue, Batch, returns, waits, takes, new, add, loop_head}
use tri_tip.CheckQueue.Results.{conj, conj-append}
use tri_tip.CheckQueue.Holds.{Holds, Enters, Enters-Holds, Ends, loop_head-Ends, add-Holds}

module _ {T : Type 0} (run : T → Bool) where
  -- The runs: the checks added since the master returned last, the queue, and the batches that threads
  -- execute. A thread comes in, and its critical section ends in one of three ways.
  pub data Reached (n : ℕ) : List T → Queue T → List Batch → Type 0 where
    starts : Reached n [] (new n) []
    added :
        {cs : List T} {q : Queue T} {busy : List Batch} (checks : List T)
        → q.todo + length checks < 2 ^ 32
        → Reached n cs q busy
        → Reached n (cs ++ checks) (add checks q) busy
    took :
        {cs : List T} {q q₁ q₂ : Queue T} {busy rest : List Batch} {b : Batch} (master : Bool)
        → Reached n cs q busy
        → Enters run q busy q₁ rest
        → loop_head run master q₁ ≡ takes b q₂
        → Reached n cs q₂ (b ∷ rest)
    waited :
        {cs : List T} {q q₁ q₂ : Queue T} {busy rest : List Batch} (master : Bool)
        → Reached n cs q busy
        → Enters run q busy q₁ rest
        → loop_head run master q₁ ≡ waits q₂
        → Reached n cs q₂ rest
    worker_left :
        {cs : List T} {q q₁ q₂ : Queue T} {busy rest : List Batch} {r : Bool}
        → Reached n cs q busy
        → Enters run q busy q₁ rest
        → loop_head run false q₁ ≡ returns r q₂
        → Reached n cs q₂ rest
    master_left :
        {cs : List T} {q q₁ q₂ : Queue T} {busy rest : List Batch} {r : Bool}
        → Reached n cs q busy
        → Enters run q busy q₁ rest
        → loop_head run true q₁ ≡ returns r q₂
        → Reached n [] q₂ rest

  entered :
      (v : Bool) (q q' : Queue T) (busy rest : List Batch) (master : Bool)
      → Holds run v q busy
      → Enters run q busy q' rest
      → Ends run master v rest (loop_head run master q')
  entered v q q' busy rest master h e =
      loop_head-Ends run master v q' rest (Enters-Holds run v q q' busy rest e h)

  -- Every run keeps the count of the open checks and the conjunction of the results.
  pub Reached-Holds :
      (n : ℕ) (cs : List T) (q : Queue T) (busy : List Batch)
      → Reached n cs q busy
      → Holds run (conj run cs) q busy
  unfolding new
  Reached-Holds n cs q busy starts = record {
    positive = tt;
    counted = refl;
    bounded = omega arith;
    result = refl;
  }
  Reached-Holds n cs q busy (added {cs = cs₀} {q = q₀} checks small r) =
      subst (λ v. Holds run v (add checks q₀) busy) (sym (conj-append run cs₀ checks))
        (add-Holds run (conj run cs₀) q₀ busy checks small (Reached-Holds n cs₀ q₀ busy r))
  Reached-Holds n cs q busy (took {q = q₀} {q₁} {busy = busy₀} {rest} master r e out) =
      subst (Ends run master (conj run cs) rest) out
        (entered (conj run cs) q₀ q₁ busy₀ rest master (Reached-Holds n cs q₀ busy₀ r) e)
  Reached-Holds n cs q busy (waited {q = q₀} {q₁} {busy = busy₀} {rest} master r e out) =
      subst (Ends run master (conj run cs) rest) out
        (entered (conj run cs) q₀ q₁ busy₀ rest master (Reached-Holds n cs q₀ busy₀ r) e)
  Reached-Holds n cs q busy (worker_left {q = q₀} {q₁} {busy = busy₀} {rest} r e out) =
      (subst (Ends run false (conj run cs) rest) out
        (entered (conj run cs) q₀ q₁ busy₀ rest false (Reached-Holds n cs q₀ busy₀ r) e)).3
  Reached-Holds n cs q busy (master_left {cs = cs₀} {q = q₀} {q₁} {busy = busy₀} {rest} r e out) =
      (subst (Ends run true (conj run cs₀) rest) out
        (entered (conj run cs₀) q₀ q₁ busy₀ rest true (Reached-Holds n cs₀ q₀ busy₀ r) e)).3

  -- In every run of the threads, whatever their order and their batches, `Wait` returns to the master the
  -- conjunction of the results of all checks added since it returned last; then no check is open, in
  -- the queue or in a thread.
  pub wait-conj :
      (n : ℕ) (cs : List T) (q q₁ q₂ : Queue T) (busy rest : List Batch) (r : Bool)
      → Reached n cs q busy
      → Enters run q busy q₁ rest
      → loop_head run true q₁ ≡ returns r q₂
      → (r ≡ conj run cs) × (rest ≡ []) × (q₂.queue ≡ [])
  wait-conj n cs q q₁ q₂ busy rest r run_so_far e out =
      let d =
        subst (Ends run true (conj run cs) rest) out
          (entered (conj run cs) q q₁ busy rest true (Reached-Holds n cs q busy run_so_far) e) in
      (d.0, d.1, d.2)
