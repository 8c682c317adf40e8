-- ===== src/Reindex/Queue/Settles.antt =====
-- Which tasks are running before and after an operation of the queue.
use nexcraft.Base.{
  ℕ, ◌≡◌, refl, String, Bool, true, false, List, [], ◌∷◌, map, ◌&&◌, arith, any, leb, ◌==◌,
  if◌then◌else◌, Bool-cases, inl, inr,
}
use nexcraft.Reindex.Queue.{
  TaskStatus, running, Row, Queue, has, claim, returning, dequeue_batch, next_batch, on_row,
  mark_done, mark_failed_retry, retried, finished,
}

abbrev pub is_running : TaskStatus → Bool
is_running running = true
is_running _ = false

module _ {P : Type 0} where
  -- Does the table hold a running task of an id?
  abbrev pub runs : Queue P → ℕ → Bool
  runs q id = any (λ r. is_running r.status && (r.queue_id == id)) q.rows

  abbrev pub Settles : Queue P → Queue P → List ℕ → Type 0
  Settles q q' ids = (id : ℕ) → runs q' id ≡ true → (runs q id ≡ true) × (has ids id ≡ false)

  on_row-Settles :
      (id : ℕ) (f : Row P → Row P) (q : Queue P)
      → ((r : Row P) → is_running (f r).status ≡ false)
      → Settles q (on_row id f q) (id ∷ [])
  on_row-Settles id f q stops = go q.rows
    where
      go :
          (rows : List (Row P)) (other : ℕ)
          → any
              (λ r. is_running r.status && (r.queue_id == other))
              (map (λ r. if r.queue_id == id then f r else r) rows)
            ≡ true
          → (any (λ r. is_running r.status && (r.queue_id == other)) rows ≡ true)
            × (has (id ∷ []) other ≡ false)
      go [] other h = cc
      go (r ∷ rows) other h = ground (arith, go rows other, stops r)

  pub mark_done-Settles : (id now : ℕ) (q : Queue P) → Settles q (mark_done id now q) (id ∷ [])
  unfolding mark_done
  mark_done-Settles id now q = on_row-Settles id (finished now) q (λ r. refl)

  pub mark_failed_retry-Settles :
      (id : ℕ) (error : List ℕ) (limit now : ℕ) (q : Queue P)
      → Settles q (mark_failed_retry id error limit now q) (id ∷ [])
  unfolding mark_failed_retry retried
  mark_failed_retry-Settles id error limit now q =
      on_row-Settles id (retried error limit now) q
        (λ r. elim (Bool-cases (leb limit r.attempts)) [ inl e ↦ rw e refl | inr e ↦ rw e refl ])

  claim-Settles :
      (ids : List ℕ) (now : ℕ) (rows : List (Row P)) (id : ℕ)
      → any (λ r. is_running r.status && (r.queue_id == id)) (claim ids now rows) ≡ true
      → has (map (λ r. r.queue_id) (returning ids (claim ids now rows))) id ≡ false
      → any (λ r. is_running r.status && (r.queue_id == id)) rows ≡ true
  unfolding claim returning
  claim-Settles ids now [] id h k = cc
  claim-Settles ids now (r ∷ rows) id h k = ground (arith, claim-Settles ids now rows id)

  -- What runs after a claim and was not returned ran before.
  pub dequeue_batch-running :
      (n : ℕ) (kinds : List String) (locked : ℕ → Bool) (now : ℕ) (q : Queue P) (id : ℕ)
      → runs (dequeue_batch n kinds locked now q).1 id ≡ true
      → has (map (λ r. r.queue_id) (dequeue_batch n kinds locked now q).0) id ≡ false
      → runs q id ≡ true
  unfolding dequeue_batch
  dequeue_batch-running n kinds locked now q id h k =
      claim-Settles (next_batch n kinds locked q.rows) now q.rows id h k
