-- ===== src/Reindex/Worker/Stats.antt =====
-- The counters of `run_once`.
use nexcraft.Base.{
  ℕ, suc, ◌+◌, ◌≡◌, refl, sym, ap, ◌∙◌, Option, none, some, List, [], ◌∷◌, ok, length, arith,
}
use nexcraft.Base.Exec.{bind-eq-ok}
use nexcraft.Base.Dict.{get}
use nexcraft.Reindex.Queue.{Row}
use nexcraft.Reindex.Worker.{
  ReindexWorkerStats, State, ReindexWorker, session, retry, save_done, after_done, after_handler,
  by_handler, process_task, process_tasks, run_once, dequeue, count_processed, claimed_tasks,
  after_unknown, claim_tasks, no_stats,
}

abbrev total : ReindexWorkerStats → ℕ
total stats = stats.succeeded + stats.failed + stats.skipped

module _ {P W : Type 0} (worker : ReindexWorker P W) where
  -- A task more in the sum, and none in `processed`.
  abbrev One : State P W → State P W → Type 0
  One s s' = (s'.stats.processed ≡ s.stats.processed) × (total s'.stats ≡ suc (total s.stats))

  retry-One : (task : Row P) (error : List ℕ) (s : State P W) → One s (retry worker task error s)
  unfolding session
  retry-One task error s = (refl, omega arith)

  after_done-One :
      (task : Row P) (outcome : Option (List ℕ)) (s : State P W)
      → One s (after_done worker task outcome s)
  after_done-One task none s = (refl, omega arith)
  after_done-One task (some error) s = retry-One task error s

  after_handler-One :
      (task : Row P) (outcome : Option (List ℕ)) (s : State P W)
      → One s (after_handler worker task outcome s)
  unfolding session
  after_handler-One task none s =
      after_done-One task (save_done worker task s).0 (save_done worker task s).1
  after_handler-One task (some error) s = retry-One task error s

  after_unknown-One :
      (outcome : Option (List ℕ)) (s : State P W)
      → (after_unknown outcome s).0 ≡ ok tt
      → One s (after_unknown outcome s).1
  after_unknown-One none s h = (refl, omega arith)
  after_unknown-One (some error) s h = cc

  by_handler-One :
      (task : Row P) (handler : Option (Row P → W → Option (List ℕ) × W)) (s : State P W)
      → (by_handler worker task handler s).0 ≡ ok tt
      → One s (by_handler worker task handler s).1
  unfolding session
  by_handler-One task none s h =
      after_unknown-One (save_done worker task s).0 (save_done worker task s).1 h
  by_handler-One task (some handler) s h =
      after_handler-One task (handler task s.world).0
        (record s { world = (handler task s.world).1 })

  process_tasks-total :
      (tasks : List (Row P)) (s : State P W)
      → (process_tasks worker tasks s).0 ≡ ok tt
      → ((process_tasks worker tasks s).1.stats.processed ≡ s.stats.processed + length tasks)
        × (total (process_tasks worker tasks s).1.stats ≡ total s.stats + length tasks)
  unfolding process_tasks process_task
  process_tasks-total [] s h = (omega arith, omega arith)
  process_tasks-total (task ∷ tasks) s h =
      let (_, first, same) =
        bind-eq-ok (process_task worker task) (λ _. process_tasks worker tasks) s h in
      let s' = (process_task worker task s).1 in
      let one =
        by_handler-One task (get task.task_kind worker.handlers) (count_processed s) first in
      let rest = process_tasks-total tasks s' (sym (ap (λ x. x.0) same) ∙ h) in
      (
        ap (λ x. x.1.stats.processed) same ∙ omega (arith, rest.0, one.0),
        ap (λ x. total x.1.stats) same ∙ omega (arith, rest.1, one.1),
      )

  claim_tasks-ok :
      (outcome : Option (List ℕ)) (found : List (Row P)) (s : State P W) {tasks : List (Row P)}
      → (claim_tasks outcome found s).0 ≡ ok tasks
      → (tasks ≡ found) × ((claim_tasks outcome found s).1 ≡ s)
  unfolding claim_tasks
  claim_tasks-ok none found s h = (cc, refl)
  claim_tasks-ok (some error) found s h = cc

  -- A run that raises nothing has processed each task that it claimed, and counted each exactly once
  -- as succeeded, failed or skipped.
  pub run_once-total :
      (limit : Option ℕ) (s : State P W)
      → (run_once worker limit s).0 ≡ ok tt
      → ((run_once worker limit s).1.stats.processed ≡ length (claimed_tasks worker limit s).0)
        × (total (run_once worker limit s).1.stats ≡ length (claimed_tasks worker limit s).0)
  unfolding run_once dequeue session
  run_once-total limit s h =
      let clean = record s { stats = no_stats } in
      let (tasks, first, same) = bind-eq-ok (dequeue worker limit) (process_tasks worker) clean h in
      let found =
        claim_tasks-ok (worker.commit s.world).0 (claimed_tasks worker limit s).0
          (session worker (λ q. (claimed_tasks worker limit s).1) clean).1 first in
      let rest =
        process_tasks-total tasks (dequeue worker limit clean).1 (sym (ap (λ x. x.0) same) ∙ h) in
      let begin : (dequeue worker limit clean).1.stats ≡ no_stats = ap (λ x. x.stats) found.1 in
      (
        ap (λ x. x.1.stats.processed) same
            ∙ omega (arith, rest.0, ap (λ x. x.processed) begin, ap length found.0),
        ap (λ x. total x.1.stats) same ∙ omega (arith, rest.1, ap total begin, ap length found.0),
      )
