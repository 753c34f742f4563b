-- ===== src/CheckQueue.antt =====
-- checkqueue.h: CCheckQueue, which shares verifications among threads. A thread acts on the queue in
-- the critical sections of Loop alone; what one does is a function here, and a run of the threads is
-- a sequence of them. A check of the type parameter `T` gives `run`, its result.
pub mod Results
pub mod Holds
pub mod Runs
use mathlib.Core.Bool.{◌&&◌, ◌||◌, Bool, false, not, true}
use tri_tip.Prelude.{
  ap, arith, Bool-cases, drop, get_or, if◌then◌else◌, inl, inr, leb, length, length-append, List,
  lt→ltb, ltb, ltb→lt, map, none, Option, Option-cases, refl, set, length-set, some, suc, sym, take,
  zero, ℕ, ◌%◌, ◌*◌, ◌++◌, ◌+◌, ◌-◌, ◌/◌, ◌<◌, ◌==◌, ◌≡◌, ◌^◌, ◌∙◌, ◌∷◌, ◌≢◌, ◌≤◌, ◌⊎◌, [],
  replicate,
}
use Prim.Native.Nat.{max, min}

-- `queue` has its back first. The mutex and the conditions, on which threads wait, are left out.
pub record Queue (T : Type 0) : Type 0 where
  pub queue : List T
  pub idle : ℕ
  pub total : ℕ
  pub all_ok : Bool
  pub todo : ℕ
  pub quit : Bool
  pub batch_size : ℕ

-- `nNow` and `fOk` of a thread, after it has executed its batch.
pub record Batch : Type 0 where
  pub now : ℕ
  pub ok : Bool

unfoldable pub fresh : Batch
fresh = record { now = 0; ok = true }

-- How a critical section ends: Loop returns, the thread waits, or it has a batch.
pub data Outcome (T : Type 0) : Type 0 where
  returns : Bool → Queue T → Outcome T
  waits : Queue T → Outcome T
  takes : Batch → Queue T → Outcome T

module _ {T : Type 0} where
  unfoldable pub new : ℕ → Queue T
  new n = record {
    queue = [];
    idle = 0;
    total = 0;
    all_ok = true;
    todo = 0;
    quit = false;
    batch_size = n;
  }

  unfoldable pub push_all : List T → List T → List T
  push_all [] queue = queue
  push_all (c ∷ cs) queue = push_all cs (c ∷ queue)

  -- `Add`
  unfoldable pub add : List T → Queue T → Queue T
  unfolding push_all
  add checks q = record q {
    queue = push_all checks q.queue;
    todo = (q.todo + length checks) % 2 ^ 32;
  }

  -- The clean-up of the last round, or the first entry.
  unfoldable pub clean_up : Batch → Queue T → Queue T
  clean_up b q =
      if b.now == 0
      then record q { total = q.total + 1 }
      else record q { all_ok = q.all_ok && b.ok; todo = (q.todo + 2 ^ 32 - b.now) % 2 ^ 32 }

  unfoldable pub wake : Queue T → Queue T
  wake q = record q { idle = q.idle - 1 }

  unfoldable pub batch_of : Queue T → ℕ
  batch_of q = max 1 (min q.batch_size (length q.queue / (q.total + q.idle + 1)))

module _ {T : Type 0} (run : T → Bool) where
  -- The checks of a batch; none is executed after one that fails.
  unfoldable pub run_checks : Bool → List T → Bool
  run_checks ok [] = ok
  run_checks ok (c ∷ cs) = run_checks (if ok then run c else ok) cs

  unfoldable pub take_batch : Queue T → Outcome T
  unfolding run_checks batch_of
  take_batch q =
      takes (record { now = batch_of q; ok = run_checks q.all_ok (take (batch_of q) q.queue) })
        (record q { queue = drop (batch_of q) q.queue })

  -- The loop on an empty queue, and what follows it.
  unfoldable pub loop_head : Bool → Queue T → Outcome T
  unfolding take_batch
  loop_head master q = elim q.queue [
    | [] ↦
        if (master || q.quit) && q.todo == 0
        then returns q.all_ok
            (record q { total = q.total - 1; all_ok = if master then true else q.all_ok })
        else waits (record q { idle = q.idle + 1 })
    | c ∷ cs ↦ take_batch q
  ]
