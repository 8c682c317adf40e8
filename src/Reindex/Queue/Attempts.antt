-- ===== src/Reindex/Queue/Attempts.antt =====
-- The ids of the table are unique and below the next one, and a task is tried no more often than
-- the limit of attempts: kept by every operation of the queue.
use nexcraft.Base.{
  ℕ, suc, ◌≤◌, ◌<◌, ◌≡◌, refl, ◌∙◌, String, Bool, true, false, List, [], ◌∷◌, ◌++◌, map, arith, leb,
  ◌==◌, if◌then◌else◌, any, All, All-append, Bool-cases, inl, inr,
}
use nexcraft.Reindex.Queue.{
  Row, Queue, is_pending, is_eligible, next_batch, has, claimed, claim, dequeue_batch, enqueue,
  new_row, enqueue_many, on_row, mark_done, retried, mark_failed_retry, finished,
}
use nexcraft.Reindex.Queue.Claims.{IsUnique}
use nexcraft.Reindex.Queue.Batches.{ClaimedFrom, next_batch-eligible}

module _ {P : Type 0} where
  -- A row that waits has an attempt left.
  abbrev pub HasAttempts : ℕ → Row P → Type 0
  HasAttempts limit r = (r.attempts ≤ limit) × (is_pending r.status ≡ true → r.attempts < limit)

  pub record WellFormed (limit : ℕ) (q : Queue P) : Type 0 where
    pub unique : IsUnique q.rows
    pub below : All (λ r. r.queue_id < q.next_id) q.rows
    pub attempts : All (HasAttempts limit) q.rows

  -- A change of rows that keeps their ids.
  module _ (f : Row P → Row P) (same : (r : Row P) → (f r).queue_id ≡ r.queue_id) where
    any-map_same :
        (id : ℕ) (rows : List (Row P))
        → any (λ x. x.queue_id == id) (map f rows) ≡ any (λ x. x.queue_id == id) rows
    any-map_same id [] = refl
    any-map_same id (r ∷ rows) = rw (same r) (rw (any-map_same id rows) refl)

    pub map-IsUnique : (rows : List (Row P)) → IsUnique rows → IsUnique (map f rows)
    map-IsUnique [] u = tt
    map-IsUnique (r ∷ rows) u =
        (rw (same r) (any-map_same r.queue_id rows ∙ u.0), map-IsUnique rows u.1)

    pub map-below :
        (n : ℕ) (rows : List (Row P))
        → All (λ r. r.queue_id < n) rows
        → All (λ r. r.queue_id < n) (map f rows)
    map-below n [] h = tt
    map-below n (r ∷ rows) h = (rw (same r) h.0, map-below n rows h.1)

  map-attempts :
      (limit : ℕ) (f : Row P → Row P) (rows : List (Row P))
      → ((r : Row P) → HasAttempts limit r → HasAttempts limit (f r))
      → All (HasAttempts limit) rows
      → All (HasAttempts limit) (map f rows)
  map-attempts limit f [] keeps h = tt
  map-attempts limit f (r ∷ rows) keeps h = (keeps r h.0, map-attempts limit f rows keeps h.1)

  on_row-WellFormed :
      (limit id : ℕ) (f : Row P → Row P) (q : Queue P)
      → ((r : Row P) → (f r).queue_id ≡ r.queue_id)
      → ((r : Row P) → HasAttempts limit r → HasAttempts limit (f r))
      → WellFormed limit q
      → WellFormed limit (on_row id f q)
  on_row-WellFormed limit id f q same keeps h =
      let g : Row P → Row P = λ r. if r.queue_id == id then f r else r in
      let same' : (r : Row P) → (g r).queue_id ≡ r.queue_id = λ r. ground (arith, same r) in
      record {
        unique = map-IsUnique g same' q.rows h.unique;
        below = map-below g same' q.next_id q.rows h.below;
        attempts =
            map-attempts limit g q.rows
              (λ r k. elim (Bool-cases (r.queue_id == id)) [
                | inl e ↦ rw e (keeps r k)
                | inr e ↦ rw e k
              ])
              h.attempts;
      }

  -- The update of `dequeue_batch`, as a change of each row.
  claim-map :
      (ids : List ℕ) (now : ℕ) (rows : List (Row P))
      → claim ids now rows ≡ map (λ r. if has ids r.queue_id then claimed now r else r) rows
  unfolding claim
  claim-map ids now [] = refl
  claim-map ids now (r ∷ rows) = ground (arith, claim-map ids now rows)

  claimed-HasAttempts :
      (limit now : ℕ) (kinds : List String) (locked : ℕ → Bool) (r : Row P)
      → is_eligible kinds locked r ≡ true
      → HasAttempts limit r
      → HasAttempts limit (claimed now r)
  unfolding is_eligible
  claimed-HasAttempts limit now kinds locked r e h =
      let waits : is_pending r.status ≡ true = ground arith in (omega (arith, h.1 waits), λ k. cc)

  claim-attempts :
      (limit now : ℕ) (kinds : List String) (locked : ℕ → Bool) (ids : List ℕ) (rows : List (Row P))
      → All (ClaimedFrom (is_eligible kinds locked) ids) rows
      → All (HasAttempts limit) rows
      → All (HasAttempts limit) (claim ids now rows)
  unfolding claim
  claim-attempts limit now kinds locked ids [] c h = tt
  claim-attempts limit now kinds locked ids (r ∷ rows) c h =
      elim (Bool-cases (has ids r.queue_id)) [
        | inl mine ↦ rw mine (
          claimed-HasAttempts limit now kinds locked r (c.0 mine) h.0,
          claim-attempts limit now kinds locked ids rows c.1 h.1,
        )
        | inr other ↦ rw other (h.0, claim-attempts limit now kinds locked ids rows c.1 h.1)
      ]

  pub dequeue_batch-WellFormed :
      (limit n : ℕ) (kinds : List String) (locked : ℕ → Bool) (now : ℕ) (q : Queue P)
      → WellFormed limit q
      → WellFormed limit (dequeue_batch n kinds locked now q).1
  unfolding dequeue_batch
  dequeue_batch-WellFormed limit n kinds locked now q h =
      let ids = next_batch n kinds locked q.rows in
      let f : Row P → Row P = λ r. if has ids r.queue_id then claimed now r else r in
      let same : (r : Row P) → (f r).queue_id ≡ r.queue_id = λ r. ground arith in
      record {
        unique = rw (claim-map ids now q.rows) (map-IsUnique f same q.rows h.unique);
        below = rw (claim-map ids now q.rows) (map-below f same q.next_id q.rows h.below);
        attempts =
            claim-attempts limit now kinds locked ids q.rows
              (next_batch-eligible n kinds locked q.rows h.unique) h.attempts;
      }

  pub mark_done-WellFormed :
      (limit id now : ℕ) (q : Queue P) → WellFormed limit q → WellFormed limit (mark_done id now q)
  unfolding mark_done
  mark_done-WellFormed limit id now q h =
      on_row-WellFormed limit id (finished now) q (λ r. refl) (λ r k. (k.0, λ e. cc)) h

  retried-HasAttempts :
      (limit : ℕ) (error : List ℕ) (now : ℕ) (r : Row P)
      → HasAttempts limit r
      → HasAttempts limit (retried error limit now r)
  unfolding retried
  retried-HasAttempts limit error now r h = elim (Bool-cases (leb limit r.attempts)) [
    | inl e ↦ rw e (h.0, λ k. cc)
    | inr e ↦ rw e (h.0, λ k. ground arith)
  ]

  pub mark_failed_retry-WellFormed :
      (limit id : ℕ) (error : List ℕ) (now : ℕ) (q : Queue P)
      → WellFormed limit q
      → WellFormed limit (mark_failed_retry id error limit now q)
  unfolding mark_failed_retry retried
  mark_failed_retry-WellFormed limit id error now q h =
      on_row-WellFormed limit id (retried error limit now) q (λ r. ground arith)
        (retried-HasAttempts limit error now) h

  any_below :
      (n : ℕ) (rows : List (Row P))
      → All (λ r. r.queue_id < n) rows
      → any (λ x. n == x.queue_id) rows ≡ false
  any_below n [] h = refl
  any_below n (r ∷ rows) h = ground (arith, h.0, any_below n rows h.1)

  append-IsUnique :
      (rows : List (Row P)) (x : Row P)
      → IsUnique rows
      → any (λ r. x.queue_id == r.queue_id) rows ≡ false
      → IsUnique (rows ++ x ∷ [])
  append-IsUnique [] x u h = (refl, tt)
  append-IsUnique (r ∷ rows) x u h =
      (any_last r.queue_id rows x u.0 (ground arith), append-IsUnique rows x u.1 (ground arith))
    where
      any_last :
          (id : ℕ) (rows : List (Row P)) (x : Row P)
          → any (λ y. y.queue_id == id) rows ≡ false
          → (x.queue_id == id) ≡ false
          → any (λ y. y.queue_id == id) (rows ++ x ∷ []) ≡ false
      any_last id [] x h k = ground arith
      any_last id (r ∷ rows) x h k = ground (arith, any_last id rows x)

  raise_below :
      (n : ℕ) (rows : List (Row P))
      → All (λ r. r.queue_id < n) rows
      → All (λ r. r.queue_id < suc n) rows
  raise_below n [] h = tt
  raise_below n (r ∷ rows) h = (omega (arith, h.0), raise_below n rows h.1)

  pub enqueue-WellFormed :
      (limit : ℕ) (q : Queue P) (kind : String) (payload : P) (now : ℕ)
      → 0 < limit
      → WellFormed limit q
      → WellFormed limit (enqueue q kind payload now).1
  unfolding enqueue new_row
  enqueue-WellFormed limit q kind payload now positive h = record {
    unique =
        append-IsUnique q.rows (new_row q.next_id kind payload now) h.unique
          (any_below q.next_id q.rows h.below);
    below =
        All-append (λ r. r.queue_id < suc q.next_id) q.rows
          (new_row q.next_id kind payload now ∷ []) (raise_below q.next_id q.rows h.below)
          (omega arith, tt);
    attempts =
        All-append (HasAttempts limit) q.rows (new_row q.next_id kind payload now ∷ []) h.attempts
          ((omega arith, λ e. positive), tt);
  }

  pub enqueue_many-WellFormed :
      (limit : ℕ) (q : Queue P) (tasks : List (String × P)) (now : ℕ)
      → 0 < limit
      → WellFormed limit q
      → WellFormed limit (enqueue_many q tasks now).1
  unfolding enqueue_many
  enqueue_many-WellFormed limit q [] now positive h = h
  enqueue_many-WellFormed limit q ((kind, payload) ∷ tasks) now positive h =
      enqueue_many-WellFormed limit (enqueue q kind payload now).1 tasks now positive
        (enqueue-WellFormed limit q kind payload now positive h)
