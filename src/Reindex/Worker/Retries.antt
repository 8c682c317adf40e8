-- ===== src/Reindex/Worker/Retries.antt =====
-- A run of the worker and the limit of attempts.
use nexcraft.Base.{ℕ, Option, none, some, List, [], ◌∷◌, Result, ok, err}
use nexcraft.Base.Exec.{resume}
use nexcraft.Base.Dict.{get}
use nexcraft.Reindex.Queue.{Row, Queue, mark_done, mark_failed_retry}
use nexcraft.Reindex.Queue.Attempts.{
  WellFormed, dequeue_batch-WellFormed, mark_done-WellFormed, mark_failed_retry-WellFormed,
}
use nexcraft.Reindex.Worker.{
  State, ReindexWorker, settle, session, retry, save_done, after_done, after_handler, by_handler,
  process_task, process_tasks, run_once, dequeue, count_processed, claimed_tasks, after_unknown,
  claim_tasks, no_stats, batch_limit,
}

module _ {P W : Type 0} (worker : ReindexWorker P W) where
  abbrev Sound : State P W → Type 0
  Sound s = WellFormed worker.max_attempts s.queue

  settle-WellFormed :
      (outcome : Option (List ℕ)) (before after : Queue P)
      → WellFormed worker.max_attempts before
      → WellFormed worker.max_attempts after
      → WellFormed worker.max_attempts (settle outcome before after)
  settle-WellFormed none before after h k = k
  settle-WellFormed (some error) before after h k = h

  retry-Sound :
      (task : Row P) (error : List ℕ) (s : State P W) → Sound s → Sound (retry worker task error s)
  unfolding session
  retry-Sound task error s h =
      settle-WellFormed (worker.commit s.world).0 s.queue
        (mark_failed_retry task.queue_id error worker.max_attempts (worker.now s.world) s.queue) h
        (mark_failed_retry-WellFormed worker.max_attempts task.queue_id error (worker.now s.world)
          s.queue h)

  save_done-Sound : (task : Row P) (s : State P W) → Sound s → Sound (save_done worker task s).1
  unfolding session
  save_done-Sound task s h =
      settle-WellFormed (worker.commit s.world).0 s.queue
        (mark_done task.queue_id (worker.now s.world) s.queue) h
        (mark_done-WellFormed worker.max_attempts task.queue_id (worker.now s.world) s.queue h)

  after_done-Sound :
      (task : Row P) (outcome : Option (List ℕ)) (s : State P W)
      → Sound s
      → Sound (after_done worker task outcome s)
  after_done-Sound task none s h = h
  after_done-Sound task (some error) s h = retry-Sound task error s h

  after_handler-Sound :
      (task : Row P) (outcome : Option (List ℕ)) (s : State P W)
      → Sound s
      → Sound (after_handler worker task outcome s)
  after_handler-Sound task none s h =
      after_done-Sound task (save_done worker task s).0 (save_done worker task s).1
        (save_done-Sound task s h)
  after_handler-Sound task (some error) s h = retry-Sound task error s h

  after_unknown-Sound :
      (outcome : Option (List ℕ)) (s : State P W) → Sound s → Sound (after_unknown outcome s).1
  after_unknown-Sound none s h = h
  after_unknown-Sound (some error) s h = h

  by_handler-Sound :
      (task : Row P) (handler : Option (Row P → W → Option (List ℕ) × W)) (s : State P W)
      → Sound s
      → Sound (by_handler worker task handler s).1
  by_handler-Sound task none s h =
      after_unknown-Sound (save_done worker task s).0 (save_done worker task s).1
        (save_done-Sound task s h)
  by_handler-Sound task (some handler) s h =
      after_handler-Sound task (handler task s.world).0
        (record s { world = (handler task s.world).1 }) h

  -- A bind keeps what its two parts keep.
  bind-Sound :
      {A : Type 0} (r : Result A) (f : A → State P W → Result Unit × State P W) (s : State P W)
      → Sound s
      → ((a : A) → Sound s → Sound (f a s).1)
      → Sound (resume r f s).1
  bind-Sound (ok a) f s h k = k a h
  bind-Sound (err e) f s h k = h

  process_tasks-Sound :
      (tasks : List (Row P)) (s : State P W) → Sound s → Sound (process_tasks worker tasks s).1
  unfolding process_tasks process_task
  process_tasks-Sound [] s h = h
  process_tasks-Sound (task ∷ tasks) s h =
      let s' = process_task worker task s in
      bind-Sound s'.0 (λ _. process_tasks worker tasks) s'.1
        (by_handler-Sound task (get task.task_kind worker.handlers) (count_processed s) h)
        (λ _. process_tasks-Sound tasks s'.1)

  claim_tasks-Sound :
      (outcome : Option (List ℕ)) (tasks : List (Row P)) (s : State P W)
      → Sound s
      → Sound (claim_tasks outcome tasks s).1
  unfolding claim_tasks
  claim_tasks-Sound none tasks s h = h
  claim_tasks-Sound (some error) tasks s h = h

  -- A run keeps the queue well formed, also when handlers or commits fail: the ids stay unique, no
  -- row has more attempts than the worker's limit, and a row that waits has one left.
  pub run_once-WellFormed :
      (limit : Option ℕ) (s : State P W)
      → WellFormed worker.max_attempts s.queue
      → WellFormed worker.max_attempts (run_once worker limit s).1.queue
  unfolding run_once dequeue session
  run_once-WellFormed limit s h =
      let clean = record s { stats = no_stats } in
      let begin = dequeue worker limit clean in
      let found = claimed_tasks worker limit s in
      bind-Sound begin.0 (process_tasks worker) begin.1
        (claim_tasks-Sound (worker.commit s.world).0 found.0 (session worker (λ q. found.1) clean).1
          (settle-WellFormed (worker.commit s.world).0 s.queue found.1 h (
            dequeue_batch-WellFormed worker.max_attempts (batch_limit limit worker.batch_size)
              worker.task_kinds (worker.locked s.world) (worker.now s.world) s.queue h)))
        (λ tasks. process_tasks-Sound tasks begin.1)
