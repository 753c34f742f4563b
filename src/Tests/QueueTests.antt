-- ===== src/Tests/QueueTests.antt =====
-- checkqueue.h at a concrete run.
use mathlib.Core.Bool.{Bool, false, true}
use tri_tip.Prelude.{arith, List, refl, ℕ, ◌≡◌, ◌∷◌, []}
use tri_tip.CheckQueue
use tri_tip.CheckQueue.{Queue, Batch, Outcome, returns, waits, takes}
use tri_tip.CheckQueue.Runs.{Reached, wait-conj, starts, added, took}
use tri_tip.CheckQueue.Results.{conj}
use tri_tip.CheckQueue.Holds.{joins, finishes}

-- Checks are their results. Two checks are added, and the master executes both, one at a time.
abbrev identity : Bool → Bool
identity b = b

abbrev checks : List Bool
checks = true ∷ false ∷ []

abbrev queue_of : List Bool → ℕ → Bool → Queue Bool
queue_of queue todo ok = record {
  queue = queue;
  idle = 0;
  total = 1;
  all_ok = ok;
  todo = todo;
  quit = false;
  batch_size = 8;
}

abbrev batch : Bool → Batch
batch ok = record { now = 1; ok = ok }

two_left : Reached identity 8 checks (CheckQueue.add checks (CheckQueue.new 8)) []
unfolding CheckQueue.add CheckQueue.new
two_left = added checks (omega arith) starts

one_left : Reached identity 8 checks (queue_of (true ∷ []) 2 true) (batch false ∷ [])
unfolding CheckQueue.add CheckQueue.new CheckQueue.loop_head CheckQueue.clean_up CheckQueue.fresh
one_left = took true two_left joins refl

none_left : Reached identity 8 checks (queue_of [] 1 false) (batch false ∷ [])
unfolding CheckQueue.loop_head CheckQueue.clean_up
none_left = took true one_left (finishes [] (batch false) []) refl

abbrev no_batch : List Batch
no_batch = []

abbrev no_check : List Bool
no_check = []

wait-conj_example : (false ≡ conj identity checks) × (no_batch ≡ no_batch) × (no_check ≡ no_check)
unfolding CheckQueue.loop_head CheckQueue.clean_up
wait-conj_example =
    wait-conj identity 8 checks (queue_of [] 1 false)
      (CheckQueue.clean_up (batch false) (queue_of [] 1 false))
      (record (queue_of [] 0 true) { total = 0 }) (batch false ∷ []) [] false none_left
      (finishes [] (batch false) []) refl
