-- ===== src/Reindex/Queue/Workers.antt =====
-- Two workers that call `dequeue_batch` in turn.
use nexcraft.Base.{
  ℕ, ◌≡◌, refl, sym, ◌∙◌, String, Bool, true, false, List, [], ◌∷◌, map, ◌&&◌, arith, ◌==◌, any,
  All, Bool-cases, inl, inr,
}
use nexcraft.Reindex.Queue.{
  Row, Queue, is_eligible, next_batch, has, claim, returning, dequeue_batch,
}
use nexcraft.Reindex.Queue.Claims.{has-next_batch}

true-false : true ≡ false → ⊥
true-false e = cc

module _ {P : Type 0} where
  -- After a claim no row of a claimed id is eligible.
  claim_blocks :
      (ids : List ℕ) (now : ℕ) (kinds : List String) (locked : ℕ → Bool) (rows : List (Row P))
      (id : ℕ)
      → has ids id ≡ true
      → any (λ x. is_eligible kinds locked x && (x.queue_id == id)) (claim ids now rows) ≡ false
  unfolding claim is_eligible
  claim_blocks ids now kinds locked [] id h = refl
  claim_blocks ids now kinds locked (r ∷ rows) id h =
      ground (arith, claim_blocks ids now kinds locked rows id h)

  has-returning :
      (ids : List ℕ) (rows : List (Row P)) (id : ℕ)
      → has ids id ≡ false
      → has (map (λ r. r.queue_id) (returning ids rows)) id ≡ false
  unfolding returning
  has-returning ids [] id h = refl
  has-returning ids (r ∷ rows) id h = ground (arith, has-returning ids rows id h)

  All-returning :
      (ids : List ℕ) (rows : List (Row P))
      → All (λ r. has ids r.queue_id ≡ true) (returning ids rows)
  unfolding returning
  All-returning ids [] = tt
  All-returning ids (r ∷ rows) = elim (Bool-cases (has ids r.queue_id)) [
    | inl mine ↦ rw mine (mine, All-returning ids rows)
    | inr other ↦ rw other (All-returning ids rows)
  ]

  apart :
      (ids other : List ℕ) (rows found : List (Row P))
      → ((id : ℕ) → has ids id ≡ true → has other id ≡ true → ⊥)
      → All (λ r. has other r.queue_id ≡ true) found
      → All (λ r. has (map (λ x. x.queue_id) (returning ids rows)) r.queue_id ≡ false) found
  apart ids other rows [] never h = tt
  apart ids other rows (r ∷ found) never h = (
    elim (Bool-cases (has ids r.queue_id)) [
      | inl mine ↦ absurd (never r.queue_id mine h.0)
      | inr free ↦ has-returning ids rows r.queue_id free
    ],
    apart ids other rows found never h.1,
  )

  -- A task that one call of `dequeue_batch` returns is not among those of the next call, whatever the
  -- sizes, the kinds, the times and the locks of the two are.
  pub dequeue_batch-apart :
      (n n' : ℕ) (kinds kinds' : List String) (locked locked' : ℕ → Bool) (now now' : ℕ)
      (q : Queue P)
      → All
          (λ r.
            has (map (λ x. x.queue_id) (dequeue_batch n kinds locked now q).0) r.queue_id ≡ false)
          (dequeue_batch n' kinds' locked' now' (dequeue_batch n kinds locked now q).1).0
  unfolding dequeue_batch
  dequeue_batch-apart n n' kinds kinds' locked locked' now now' q =
      let ids = next_batch n kinds locked q.rows in
      let rows = claim ids now q.rows in
      let ids' = next_batch n' kinds' locked' rows in
      apart ids ids' rows (returning ids' (claim ids' now' rows))
        (λ id mine other. true-false (
          sym (has-next_batch n' kinds' locked' rows id other)
          ∙ claim_blocks ids now kinds' locked' q.rows id mine))
        (All-returning ids' (claim ids' now' rows))
