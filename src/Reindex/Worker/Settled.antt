-- ===== src/Reindex/Worker/Settled.antt =====
-- What becomes of the tasks that a run claims, if the commits succeed.
use nexcraft.Base.{ℕ, ◌≡◌, refl, true, false, Option, none, some, List, [], ◌∷◌, map, ok, arith}
use nexcraft.Base.Dict.{get}
use nexcraft.Reindex.Queue.{Row, Queue, has}
use nexcraft.Reindex.Queue.Settles.{
  runs, Settles, mark_done-Settles, mark_failed_retry-Settles, dequeue_batch-running,
}
use nexcraft.Reindex.Worker.{
  State, ReindexWorker, session, retry, save_done, after_handler, by_handler, process_task,
  process_tasks, run_once, dequeue, count_processed, claimed_tasks, claim_tasks, no_stats,
  batch_limit,
}

-- Commits that never fail.
module _ {P W : Type 0} (worker : ReindexWorker P W)
    (commits : (w : W) → (worker.commit w).0 ≡ none) where
  -- A step that raises nothing and leaves none of the tasks running.
  abbrev Settled : State P W → State P W → List ℕ → Type 0
  Settled s s' ids = Settles s.queue s'.queue ids

  retry-Settled :
      (task : Row P) (error : List ℕ) (s : State P W)
      → Settled s (retry worker task error s) (task.queue_id ∷ [])
  unfolding session
  retry-Settled task error s = rw (commits s.world) (
      mark_failed_retry-Settles task.queue_id error worker.max_attempts (worker.now s.world)
        s.queue)

  save_done-Settled :
      (task : Row P) (s : State P W) → Settled s (save_done worker task s).1 (task.queue_id ∷ [])
  unfolding session
  save_done-Settled task s =
      rw (commits s.world) (mark_done-Settles task.queue_id (worker.now s.world) s.queue)

  save_done-commits : (task : Row P) (s : State P W) → (save_done worker task s).0 ≡ none
  unfolding session
  save_done-commits task s = commits s.world

  after_handler-Settled :
      (task : Row P) (outcome : Option (List ℕ)) (s : State P W)
      → Settled s (after_handler worker task outcome s) (task.queue_id ∷ [])
  after_handler-Settled task none s = rw (save_done-commits task s) (save_done-Settled task s)
  after_handler-Settled task (some error) s = retry-Settled task error s

  by_handler-Settled :
      (task : Row P) (handler : Option (Row P → W → Option (List ℕ) × W)) (s : State P W)
      → ((by_handler worker task handler s).0 ≡ ok tt)
        × Settled s (by_handler worker task handler s).1 (task.queue_id ∷ [])
  by_handler-Settled task none s = rw (save_done-commits task s) (refl, save_done-Settled task s)
  by_handler-Settled task (some handler) s = (
    refl,
    after_handler-Settled task (handler task s.world).0
        (record s { world = (handler task s.world).1 }),
  )

  Settles-both :
      (q q' q'' : Queue P) (id : ℕ) (ids : List ℕ)
      → Settles q q' (id ∷ [])
      → Settles q' q'' ids
      → Settles q q'' (id ∷ ids)
  Settles-both q q' q'' id ids first rest other h =
      let k = rest other h in ground (arith, k.0, k.1, first other)

  abbrev ids_of : List (Row P) → List ℕ
  ids_of = map (λ r. r.queue_id)

  process_tasks-Settled :
      (tasks : List (Row P)) (s : State P W)
      → ((process_tasks worker tasks s).0 ≡ ok tt)
        × Settled s (process_tasks worker tasks s).1 (ids_of tasks)
  unfolding process_tasks process_task
  process_tasks-Settled [] s = (refl, λ id h. (h, refl))
  process_tasks-Settled (task ∷ tasks) s =
      let one = by_handler-Settled task (get task.task_kind worker.handlers) (count_processed s) in
      let s' = (process_task worker task s).1 in
      let rest = process_tasks-Settled tasks s' in
      rw (one.0) (
        rest.0,
        Settles-both s.queue s'.queue (process_tasks worker tasks s').1.queue task.queue_id
            (ids_of tasks) one.1 rest.1,
      )

  -- If every commit succeeds, a run raises nothing, whatever the handlers raise, and it leaves none of
  -- the tasks that it claimed running: what runs after it ran before it, and was not claimed by it.
  pub run_once-Settled :
      (limit : Option ℕ) (s : State P W)
      → ((run_once worker limit s).0 ≡ ok tt)
        × ((id : ℕ)
            → runs (run_once worker limit s).1.queue id ≡ true
            → (runs s.queue id ≡ true) × (has (ids_of (claimed_tasks worker limit s).0) id ≡ false))
  unfolding run_once dequeue session claim_tasks
  run_once-Settled limit s =
      let found = claimed_tasks worker limit s in
      let begin : State P W = record {
        queue = found.1;
        world = (worker.commit s.world).1;
        stats = no_stats;
      } in
      let rest = process_tasks-Settled found.0 begin in
      rw (commits s.world) (
        rest.0,
        λ id h. (
          dequeue_batch-running (batch_limit limit worker.batch_size) worker.task_kinds
              (worker.locked s.world) (worker.now s.world) s.queue id (rest.1 id h).0
              (rest.1 id h).1,
          (rest.1 id h).1,
        ),
      )
