-- ===== src/Reindex/Queue.antt =====
-- packages/ontology-store/ontology_store/workers/queue.py: the table `reindex_queue` and `QueueDAO`.
-- A payload is of a type of which nothing is known, a text of an error is its list of code points.
-- `locked` says which rows another transaction holds; `SKIP LOCKED` passes these over. Rows of the
-- same time are claimed in the order of the table.
pub mod Claims
pub mod Batches
pub mod Workers
pub mod Attempts
pub mod Settles
use nexcraft.Base.{
  ℕ, zero, suc, ◌+◌, String, Bool, true, false, Option, none, some, List, [], ◌∷◌, ◌++◌, map, not,
  ◌&&◌, ◌||◌, ltb, leb, ◌==◌, str_eq, if◌then◌else◌, length, take, keep, any, count,
}

pub data TaskStatus : Type 0 where
  pending running done failed : TaskStatus

pub record Row (P : Type 0) : Type 0 where
  pub queue_id : ℕ
  pub task_kind : String
  pub payload : P
  pub enqueued_at : ℕ
  pub started_at : Option ℕ
  pub completed_at : Option ℕ
  pub attempts : ℕ
  pub last_error : Option (List ℕ)
  pub status : TaskStatus

-- The table and the next value of its autoincremented key.
pub record Queue (P : Type 0) : Type 0 where
  pub rows : List (Row P)
  pub next_id : ℕ

abbrev pub is_pending : TaskStatus → Bool
is_pending pending = true
is_pending _ = false

-- `task_kind = ANY(:task_kinds)`, a clause that is left out for an empty list.
is_wanted : List String → String → Bool
is_wanted [] kind = true
is_wanted (k ∷ kinds) kind = any (λ x. str_eq x kind) (k ∷ kinds)

abbrev pub has : List ℕ → ℕ → Bool
has ids id = any (λ x. x == id) ids

-- `error[:2000] if error else None`
error_text : List ℕ → Option (List ℕ)
error_text [] = none
error_text (c ∷ cs) = some (take 2000 (c ∷ cs))

module _ {P : Type 0} where
  new_row : ℕ → String → P → ℕ → Row P
  new_row id kind payload now = record {
    queue_id = id;
    task_kind = kind;
    payload = payload;
    enqueued_at = now;
    started_at = none;
    completed_at = none;
    attempts = 0;
    last_error = none;
    status = pending;
  }

  unfoldable pub enqueue : Queue P → String → P → ℕ → ℕ × Queue P
  unfolding new_row
  enqueue q kind payload now = (
    q.next_id,
    record { rows = q.rows ++ new_row q.next_id kind payload now ∷ []; next_id = suc q.next_id },
  )

  -- The rows of `enqueue_many`, and how many there are.
  unfoldable pub enqueue_many : Queue P → List (String × P) → ℕ → ℕ × Queue P
  unfolding enqueue
  enqueue_many q [] now = (0, q)
  enqueue_many q ((kind, payload) ∷ tasks) now =
      let (n, q') = enqueue_many (enqueue q kind payload now).1 tasks now in (suc n, q')

  pub is_eligible : List String → (ℕ → Bool) → Row P → Bool
  unfolding is_wanted
  is_eligible kinds locked r =
      is_pending r.status && is_wanted kinds r.task_kind && not (locked r.queue_id)

  -- `ORDER BY enqueued_at`
  insert_by_time : Row P → List (Row P) → List (Row P)
  insert_by_time r [] = r ∷ []
  insert_by_time r (x ∷ xs) =
      if leb r.enqueued_at x.enqueued_at then r ∷ x ∷ xs else x ∷ insert_by_time r xs

  pub by_time : List (Row P) → List (Row P)
  unfolding insert_by_time
  by_time [] = []
  by_time (r ∷ rs) = insert_by_time r (by_time rs)

  -- The common table expression `next_batch`.
  pub next_batch : ℕ → List String → (ℕ → Bool) → List (Row P) → List ℕ
  unfolding is_eligible by_time
  next_batch batch_size kinds locked rows =
      map (λ r. r.queue_id) (take batch_size (by_time (keep (is_eligible kinds locked) rows)))

  abbrev pub claimed : ℕ → Row P → Row P
  claimed now r = record r { status = running; started_at = some now; attempts = r.attempts + 1 }

  -- The update, and the rows that it returns.
  claim : List ℕ → ℕ → List (Row P) → List (Row P)
  claim ids now [] = []
  claim ids now (r ∷ rs) =
      let rest = claim ids now rs in if has ids r.queue_id then claimed now r ∷ rest else r ∷ rest

  returning : List ℕ → List (Row P) → List (Row P)
  returning ids rows = keep (λ r. has ids r.queue_id) rows

  unfoldable pub dequeue_batch : ℕ → List String → (ℕ → Bool) → ℕ → Queue P → List (Row P) × Queue P
  unfolding next_batch claim returning
  dequeue_batch batch_size kinds locked now q =
      let ids = next_batch batch_size kinds locked q.rows in
      let rows = claim ids now q.rows in (returning ids rows, record q { rows = rows })

  -- A change of the row with an id.
  abbrev pub on_row : ℕ → (Row P → Row P) → Queue P → Queue P
  on_row id f q = record q { rows = map (λ r. if r.queue_id == id then f r else r) q.rows }

  abbrev pub finished : ℕ → Row P → Row P
  finished now r = record r { status = done; completed_at = some now; last_error = none }

  unfoldable pub mark_done : ℕ → ℕ → Queue P → Queue P
  mark_done id now q = on_row id (finished now) q

  pub retried : List ℕ → ℕ → ℕ → Row P → Row P
  unfolding error_text
  retried error max_attempts now r =
      if leb max_attempts r.attempts
      then record r { status = failed; completed_at = some now; last_error = error_text error }
      else record r { status = pending; started_at = none; last_error = error_text error }

  unfoldable pub mark_failed_retry : ℕ → List ℕ → ℕ → ℕ → Queue P → Queue P
  unfolding retried
  mark_failed_retry id error max_attempts now q = on_row id (retried error max_attempts now) q

-- A filter that is not given keeps every row.
abbrev same_status : TaskStatus → TaskStatus → Bool
same_status pending pending = true
same_status running running = true
same_status done done = true
same_status failed failed = true
same_status _ _ = false

-- `if task_kind:`
given : Option String → Option String
given none = none
given (some kind) = if str_eq kind "" then none else some kind

module _ {P : Type 0} where
  fits : Option TaskStatus → Option String → Row P → Bool
  fits none none r = true
  fits (some s) none r = same_status r.status s
  fits none (some kind) r = str_eq r.task_kind kind
  fits (some s) (some kind) r = same_status r.status s && str_eq r.task_kind kind

  unfoldable pub depth : Option TaskStatus → Option String → Queue P → ℕ
  unfolding fits given
  depth status task_kind q = count (fits status (given task_kind)) q.rows
