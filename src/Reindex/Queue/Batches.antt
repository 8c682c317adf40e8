-- ===== src/Reindex/Queue/Batches.antt =====
-- What `dequeue_batch` returns, and two workers in turn.
use nexcraft.Base.{
  ℕ, suc, ◌+◌, ◌≤◌, ◌≡◌, refl, ap, String, Bool, true, false, List, [], ◌∷◌, map, ◌&&◌, ◌||◌, arith,
  ◌==◌, length, length-take-le, take, keep, any, count, All, Bool-cases, inl, inr, ◌⊎◌,
}
use nexcraft.Reindex.Queue.{
  Row, Queue, is_eligible, by_time, next_batch, has, claimed, claim, returning, dequeue_batch,
}
use nexcraft.Reindex.Queue.Claims.{IsUnique, Itself, itself, has-next_batch}

module _ {P : Type 0} where
  abbrev ids_of : List (Row P) → List ℕ
  ids_of = map (λ r. r.queue_id)

  abbrev pub ClaimedFrom : (Row P → Bool) → List ℕ → Row P → Type 0
  ClaimedFrom p ids r = has ids r.queue_id ≡ true → p r ≡ true

  claimed_from :
      (p : Row P → Bool) (ids : List ℕ) (rows all : List (Row P))
      → ((id : ℕ) → has ids id ≡ true → any (λ x. p x && (x.queue_id == id)) all ≡ true)
      → All (Itself p all) rows
      → All (ClaimedFrom p ids) rows
  claimed_from p ids [] all sound h = tt
  claimed_from p ids (r ∷ rows) all sound h =
      (λ e. h.0 (sound r.queue_id e), claimed_from p ids rows all sound h.1)

  -- Every row that is claimed is eligible, if the ids are unique.
  pub next_batch-eligible :
      (n : ℕ) (kinds : List String) (locked : ℕ → Bool) (rows : List (Row P))
      → IsUnique rows
      → All (ClaimedFrom (is_eligible kinds locked) (next_batch n kinds locked rows)) rows
  next_batch-eligible n kinds locked rows u =
      claimed_from (is_eligible kinds locked) (next_batch n kinds locked rows) rows rows
        (has-next_batch n kinds locked rows) (itself (is_eligible kinds locked) rows u)

  abbrev pub IsIn : Row P → List (Row P) → Type 0
  IsIn r [] = ⊥
  IsIn r (x ∷ xs) = (r ≡ x) ⊎ IsIn r xs

  -- A row of the table that passed the test, marked as claimed.
  abbrev pub Marked : (Row P → Bool) → ℕ → List (Row P) → Row P → Type 0
  Marked p now rows r = (old : Row P) × IsIn old rows × (p old ≡ true) × (r ≡ claimed now old)

  Marked-cons :
      (p : Row P → Bool) (now : ℕ) (x : Row P) (rows out : List (Row P))
      → All (Marked p now rows) out
      → All (Marked p now (x ∷ rows)) out
  Marked-cons p now x rows [] h = tt
  Marked-cons p now x rows (r ∷ out) h =
      let ((old, place, fits, same), others) = h in
      ((old, inr place, fits, same), Marked-cons p now x rows out others)

  -- What comes back of a claim: the rows as they were, marked.
  returned-Marked :
      (p : Row P → Bool) (ids : List ℕ) (now : ℕ) (rows : List (Row P))
      → All (ClaimedFrom p ids) rows
      → All (Marked p now rows) (returning ids (claim ids now rows))
  unfolding returning claim
  returned-Marked p ids now [] h = tt
  returned-Marked p ids now (r ∷ rows) h =
      let rest =
        Marked-cons p now r rows (returning ids (claim ids now rows))
          (returned-Marked p ids now rows h.1) in
      elim (Bool-cases (has ids r.queue_id)) [
        | inl mine ↦ rw mine (rw mine ((r, inl refl, h.0 mine, refl), rest))
        | inr other ↦ rw other (rw other rest)
      ]

  count-or :
      (p q : Row P → Bool) (xs : List (Row P))
      → count (λ x. p x || q x) xs ≤ count p xs + count q xs
  count-or p q [] = omega arith
  count-or p q (x ∷ xs) = ground (arith, count-or p q xs)

  count_none :
      (id : ℕ) (xs : List (Row P))
      → any (λ x. x.queue_id == id) xs ≡ false
      → count (λ x. id == x.queue_id) xs ≡ 0
  count_none id [] h = refl
  count_none id (x ∷ xs) h = ground (arith, count_none id xs)

  count_one : (id : ℕ) (xs : List (Row P)) → IsUnique xs → count (λ x. id == x.queue_id) xs ≤ 1
  count_one id [] u = omega arith
  count_one id (x ∷ xs) u = elim (Bool-cases (id == x.queue_id)) [
    | inl same ↦ ground (arith, count_none id xs, u.0)
    | inr other ↦ ground (arith, count_one id xs u.1)
  ]

  count_ids :
      (ids : List ℕ) (xs : List (Row P))
      → IsUnique xs
      → count (λ x. has ids x.queue_id) xs ≤ length ids
  count_ids [] [] u = omega arith
  count_ids [] (x ∷ xs) u = count_ids [] xs u.1
  count_ids (id ∷ ids) xs u = omega (
    arith,
    count-or (λ x. id == x.queue_id) (λ x. has ids x.queue_id) xs,
    count_one id xs u,
    count_ids ids xs u,
  )

  length-returning :
      (ids : List ℕ) (now : ℕ) (rows : List (Row P))
      → length (returning ids (claim ids now rows)) ≡ count (λ x. has ids x.queue_id) rows
  unfolding returning claim
  length-returning ids now [] = refl
  length-returning ids now (r ∷ rows) = ground (arith, length-returning ids now rows)

  length-ids_of : (rows : List (Row P)) → length (ids_of rows) ≡ length rows
  length-ids_of [] = refl
  length-ids_of (r ∷ rows) = ap suc (length-ids_of rows)

  length-next_batch :
      (n : ℕ) (kinds : List String) (locked : ℕ → Bool) (rows : List (Row P))
      → length (next_batch n kinds locked rows) ≤ n
  unfolding next_batch
  length-next_batch n kinds locked rows =
      let l = by_time (keep (is_eligible kinds locked) rows) in
      omega (arith, length-ids_of (take n l), length-take-le n l)

  -- A batch has at most as many tasks as asked for. Each is a row of the table that was pending, of
  -- a wanted kind and locked by nobody, and is now running, started now, with one attempt more and
  -- all else as it was. The ids of the table are unique.
  pub dequeue_batch-Marked :
      (n : ℕ) (kinds : List String) (locked : ℕ → Bool) (now : ℕ) (q : Queue P)
      → IsUnique q.rows
      → (length (dequeue_batch n kinds locked now q).0 ≤ n)
        × All (Marked (is_eligible kinds locked) now q.rows) (dequeue_batch n kinds locked now q).0
  unfolding dequeue_batch
  dequeue_batch-Marked n kinds locked now q u =
      let ids = next_batch n kinds locked q.rows in
      (
        omega (
          arith,
          length-returning ids now q.rows,
          count_ids ids q.rows u,
          length-next_batch n kinds locked q.rows,
        ),
        returned-Marked (is_eligible kinds locked) ids now q.rows
            (next_batch-eligible n kinds locked q.rows u),
      )
