-- ===== src/Reindex/Tests.antt =====
-- Tests of the queue and of the worker on a table of three tasks, and the theorems about them there.
use nexcraft.Base.{
  ℕ, ◌+◌, ◌≤◌, ◌≡◌, refl, Bool, true, false, none, some, [], ◌∷◌, map, arith, ok, All, length,
}
use nexcraft.Base.Dict
use nexcraft.Reindex.Queue.{
  Queue, pending, enqueue_many, dequeue_batch, mark_done, mark_failed_retry, depth, has,
  is_eligible,
}
use nexcraft.Reindex.Queue.Batches.{Marked, dequeue_batch-Marked}
use nexcraft.Reindex.Queue.Workers.{dequeue_batch-apart}
use nexcraft.Reindex.Queue.Attempts.{WellFormed, enqueue_many-WellFormed}
use nexcraft.Reindex.Queue.Settles.{runs}
use nexcraft.Reindex.Worker.{ReindexWorker, State, no_stats, run_once, claimed_tasks}
use nexcraft.Reindex.Worker.Stats.{run_once-total}
use nexcraft.Reindex.Worker.Settled.{run_once-Settled}
use nexcraft.Reindex.Worker.Retries.{run_once-WellFormed}

abbrev no_rows : Queue ℕ
no_rows = record { rows = []; next_id = 1 }

-- Three tasks, the last of a kind that nobody handles.
abbrev tasks : Queue ℕ
tasks = (enqueue_many no_rows (("card", 10) ∷ ("event", 20) ∷ ("other", 30) ∷ []) 5).1

depth-tasks : depth (some pending) none tasks ≡ 3
unfolding depth enqueue_many
depth-tasks = refl

tasks-WellFormed : WellFormed 2 tasks
tasks-WellFormed =
    enqueue_many-WellFormed 2 no_rows (("card", 10) ∷ ("event", 20) ∷ ("other", 30) ∷ []) 5
      (omega arith) (record { unique = tt; below = tt; attempts = tt })

abbrev free : ℕ → Bool
free id = false

dequeue_batch_example :
    (length (dequeue_batch 2 [] free 7 tasks).0 ≤ 2)
    × All (Marked (is_eligible [] free) 7 tasks.rows) (dequeue_batch 2 [] free 7 tasks).0
dequeue_batch_example = dequeue_batch-Marked 2 [] free 7 tasks tasks-WellFormed.unique

two_workers_example :
    All
      (λ r. has (map (λ x. x.queue_id) (dequeue_batch 2 [] free 7 tasks).0) r.queue_id ≡ false)
      (dequeue_batch 5 ("other" ∷ []) free 8 (dequeue_batch 2 [] free 7 tasks).1).0
two_workers_example = dequeue_batch-apart 2 5 [] ("other" ∷ []) free free 7 8 tasks

-- The second worker gets the one task that is left.
dequeue_batch-left :
    map
      (λ r. r.queue_id)
      (dequeue_batch 5 ("other" ∷ []) free 8 (dequeue_batch 2 [] free 7 tasks).1).0
    ≡ 3 ∷ []
unfolding dequeue_batch enqueue_many
dequeue_batch-left = refl

-- Cards are indexed, events raise, and every commit succeeds. The world counts the handlers' calls.
abbrev worker : ReindexWorker ℕ ℕ
worker = record {
  handlers = ("card", λ task w. (none, w + 1)) ∷ ("event", λ task w. (some (69 ∷ []), w + 1)) ∷ [];
  commit = λ w. (none, w);
  now = λ w. 100 + w;
  locked = λ w id. false;
  batch_size = 10;
  max_attempts = 2;
  task_kinds = [];
}

abbrev start : State ℕ ℕ
start = record { queue = tasks; world = 0; stats = no_stats }

run_once_total_example :
    ((run_once worker none start).1.stats.processed ≡ length (claimed_tasks worker none start).0)
    × ((run_once worker none start).1.stats.succeeded
          + (run_once worker none start).1.stats.failed
          + (run_once worker none start).1.stats.skipped
        ≡ length (claimed_tasks worker none start).0)
run_once_total_example =
    run_once-total worker none start (run_once-Settled worker (λ w. refl) none start).0

run_once_settled_example :
    ((run_once worker none start).0 ≡ ok tt)
    × ((id : ℕ)
        → runs (run_once worker none start).1.queue id ≡ true
        → (runs tasks id ≡ true)
          × (has (map (λ r. r.queue_id) (claimed_tasks worker none start).0) id ≡ false))
run_once_settled_example = run_once-Settled worker (λ w. refl) none start

run_once_example : WellFormed 2 (run_once worker none start).1.queue
run_once_example = run_once-WellFormed worker none start tasks-WellFormed

-- The card is done, the event waits for its second attempt, the unknown task is skipped.
stats-run_once :
    (run_once worker none start).1.stats
    ≡ record { processed = 3; succeeded = 1; failed = 1; skipped = 1 }
unfolding run_once dequeue_batch enqueue_many mark_done mark_failed_retry Dict.get
stats-run_once = refl

depth-run_once : depth (some pending) none (run_once worker none start).1.queue ≡ 1
unfolding run_once dequeue_batch enqueue_many mark_done mark_failed_retry Dict.get depth
depth-run_once = refl
