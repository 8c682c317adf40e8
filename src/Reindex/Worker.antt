-- ===== src/Reindex/Worker.antt =====
-- packages/ontology-store/ontology_store/workers/reindex.py: `ReindexWorker.run_once` and
-- `_process_task`, with `Database.session` of db/engine.py.
-- The handlers are parameters: one reads the spine and writes the index, and returns the text of
-- what it raises. A commit may fail, with a text of its own, and then the changes of its session to
-- the queue are lost. The world outside says what time it is and which rows are locked.
pub mod Stats
pub mod Settled
pub mod Retries
use nexcraft.Base.{
  ℕ, zero, suc, ◌+◌, String, Bool, Option, none, some, List, [], ◌∷◌, Result, ok, err, Error,
  foreign_error,
}
use nexcraft.Base.Exec
use nexcraft.Base.Exec.{Exec, ◌>>=◌}
use nexcraft.Base.Dict.{Dict, get}
use nexcraft.Reindex.Queue.{Row, Queue, dequeue_batch, mark_done, mark_failed_retry}

pub record ReindexWorkerStats : Type 0 where
  pub processed : ℕ
  pub succeeded : ℕ
  pub failed : ℕ
  pub skipped : ℕ

abbrev pub no_stats : ReindexWorkerStats
no_stats = record { processed = 0; succeeded = 0; failed = 0; skipped = 0 }

pub record State (P W : Type 0) : Type 0 where
  pub queue : Queue P
  pub world : W
  pub stats : ReindexWorkerStats

pub record ReindexWorker (P W : Type 0) : Type 0 where
  pub handlers : Dict (Row P → W → Option (List ℕ) × W)
  pub commit : W → Option (List ℕ) × W
  pub now : W → ℕ
  pub locked : W → ℕ → Bool
  pub batch_size : ℕ
  pub max_attempts : ℕ
  pub task_kinds : List String

-- `limit or self.batch_size`
abbrev pub batch_limit : Option ℕ → ℕ → ℕ
batch_limit none batch_size = batch_size
batch_limit (some zero) batch_size = batch_size
batch_limit (some (suc n)) batch_size = suc n

-- The queue after a session, by the outcome of its commit.
abbrev pub settle : {P : Type 0} → Option (List ℕ) → Queue P → Queue P → Queue P
settle none before after = after
settle (some error) before after = before

module _ {P W : Type 0} where
  -- `with self.db.session() as session:` around a change of the queue.
  pub session : ReindexWorker P W → (Queue P → Queue P) → State P W → Option (List ℕ) × State P W
  session worker change s =
      let (outcome, world) = worker.commit s.world in
      (outcome, record s { queue = settle outcome s.queue (change s.queue); world = world })

  abbrev pub count_processed : State P W → State P W
  count_processed s = record s { stats = record s.stats { processed = s.stats.processed + 1 } }

  abbrev pub count_succeeded : State P W → State P W
  count_succeeded s = record s { stats = record s.stats { succeeded = s.stats.succeeded + 1 } }

  abbrev pub count_failed : State P W → State P W
  count_failed s = record s { stats = record s.stats { failed = s.stats.failed + 1 } }

  abbrev pub count_skipped : State P W → State P W
  count_skipped s = record s { stats = record s.stats { skipped = s.stats.skipped + 1 } }

  abbrev pub save_done : ReindexWorker P W → Row P → State P W → Option (List ℕ) × State P W
  save_done worker task s = session worker (mark_done task.queue_id (worker.now s.world)) s

  abbrev after_unknown : Option (List ℕ) → Exec (State P W) Unit
  after_unknown none s = (ok tt, count_skipped s)
  after_unknown (some error) s = (err (foreign_error "SQLAlchemyError"), s)

  -- The `except` of `_process_task`; an error of the second session is only logged.
  abbrev pub retry : ReindexWorker P W → Row P → List ℕ → State P W → State P W
  retry worker task error s =
      (session worker
        (mark_failed_retry task.queue_id error worker.max_attempts (worker.now s.world))
        (count_failed s)).1

  abbrev after_done : ReindexWorker P W → Row P → Option (List ℕ) → State P W → State P W
  after_done worker task none s = count_succeeded s
  after_done worker task (some error) s = retry worker task error s

  abbrev after_handler : ReindexWorker P W → Row P → Option (List ℕ) → State P W → State P W
  after_handler worker task none s =
      let (outcome, s') = save_done worker task s in after_done worker task outcome s'
  after_handler worker task (some error) s = retry worker task error s

  abbrev by_handler :
      ReindexWorker P W → Row P → Option (Row P → W → Option (List ℕ) × W) → Exec (State P W) Unit
  by_handler worker task none s =
      let (outcome, s') = save_done worker task s in after_unknown outcome s'
  by_handler worker task (some handler) s =
      let (outcome, world) = handler task s.world in
      (ok tt, after_handler worker task outcome (record s { world = world }))

  unfoldable pub process_task : ReindexWorker P W → Row P → Exec (State P W) Unit
  unfolding session
  process_task worker task s =
      by_handler worker task (get task.task_kind worker.handlers) (count_processed s)

  unfoldable pub process_tasks : ReindexWorker P W → List (Row P) → Exec (State P W) Unit
  unfolding process_task
  process_tasks worker [] s = (ok tt, s)
  process_tasks worker (task ∷ tasks) s =
      (◌>>=◌ (process_task worker task) (λ _. process_tasks worker tasks)) s

  claim_tasks : Option (List ℕ) → List (Row P) → Exec (State P W) (List (Row P))
  claim_tasks none tasks s = (ok tasks, s)
  claim_tasks (some error) tasks s = (err (foreign_error "SQLAlchemyError"), s)

  abbrev pub claimed_tasks : ReindexWorker P W → Option ℕ → State P W → List (Row P) × Queue P
  claimed_tasks worker limit s =
      dequeue_batch (batch_limit limit worker.batch_size) worker.task_kinds (worker.locked s.world)
        (worker.now s.world) s.queue

  unfoldable pub dequeue : ReindexWorker P W → Option ℕ → Exec (State P W) (List (Row P))
  unfolding session claim_tasks
  dequeue worker limit s =
      let (outcome, s') = session worker (λ q. (claimed_tasks worker limit s).1) s in
      claim_tasks outcome (claimed_tasks worker limit s).0 s'

  -- The stats are new in each run. With no tasks the loop does nothing.
  unfoldable pub run_once : ReindexWorker P W → Option ℕ → Exec (State P W) Unit
  unfolding process_tasks dequeue
  run_once worker limit s =
      (◌>>=◌ (dequeue worker limit) (process_tasks worker)) (record s { stats = no_stats })
