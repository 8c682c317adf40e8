-- ===== src/Reindex/Queue/Claims.antt =====
-- Which rows a worker claims: rows that were pending, no more than it asked for, and none that
-- another worker has.
use nexcraft.Base.{
  ℕ, zero, suc, ◌≡◌, refl, ap, sym, ◌∙◌, String, Bool, true, false, List, [], ◌∷◌, map, ◌&&◌, ◌||◌,
  arith, ◌==◌, take, keep, any, All,
}
use nexcraft.Reindex.Queue.{Row, is_eligible, insert_by_time, by_time, next_batch, has}

module _ {P : Type 0} where
  abbrev pub IsUnique : List (Row P) → Type 0
  IsUnique [] = Unit
  IsUnique (r ∷ rs) = (any (λ x. x.queue_id == r.queue_id) rs ≡ false) × IsUnique rs

  any-insert :
      (p : Row P → Bool) (r : Row P) (xs : List (Row P))
      → any p (insert_by_time r xs) ≡ (p r || any p xs)
  unfolding insert_by_time
  any-insert p r [] = refl
  any-insert p r (x ∷ xs) = ground (arith, any-insert p r xs)

  any-by_time : (p : Row P → Bool) (xs : List (Row P)) → any p (by_time xs) ≡ any p xs
  unfolding by_time
  any-by_time p [] = refl
  any-by_time p (x ∷ xs) = any-insert p x (by_time xs) ∙ ap (λ b. p x || b) (any-by_time p xs)

  any-keep : (p q : Row P → Bool) (xs : List (Row P)) → any p (keep q xs) ≡ any (λ x. q x && p x) xs
  any-keep p q [] = refl
  any-keep p q (x ∷ xs) = ground (arith, any-keep p q xs)

  any_of_has-take :
      (n id : ℕ) (xs : List (Row P))
      → has (map (λ r. r.queue_id) (take n xs)) id ≡ true
      → any (λ r. r.queue_id == id) xs ≡ true
  any_of_has-take zero id xs h = cc
  any_of_has-take (suc n) id [] h = cc
  any_of_has-take (suc n) id (x ∷ xs) h = ground (arith, any_of_has-take n id xs)

  -- What is claimed was eligible.
  pub has-next_batch :
      (n : ℕ) (kinds : List String) (locked : ℕ → Bool) (rows : List (Row P)) (id : ℕ)
      → has (next_batch n kinds locked rows) id ≡ true
      → any (λ r. is_eligible kinds locked r && (r.queue_id == id)) rows ≡ true
  unfolding next_batch
  has-next_batch n kinds locked rows id h =
      sym (any-keep (λ r. r.queue_id == id) (is_eligible kinds locked) rows)
      ∙ sym (any-by_time (λ r. r.queue_id == id) (keep (is_eligible kinds locked) rows))
      ∙ any_of_has-take n id (by_time (keep (is_eligible kinds locked) rows)) h

  All-not : (p : Row P → Bool) (xs : List (Row P)) → any p xs ≡ false → All (λ x. p x ≡ false) xs
  All-not p [] h = tt
  All-not p (x ∷ xs) h = (ground arith, All-not p xs (ground arith))

  any_and :
      (p q : Row P → Bool) (xs : List (Row P)) → any (λ x. p x && q x) xs ≡ true → any q xs ≡ true
  any_and p q [] h = cc
  any_and p q (x ∷ xs) h = ground (arith, any_and p q xs)

  -- With ids that are unique, a row is eligible if a row of its id is.
  abbrev pub Itself : (Row P → Bool) → List (Row P) → Row P → Type 0
  Itself p rows r = any (λ x. p x && (x.queue_id == r.queue_id)) rows ≡ true → p r ≡ true

  Itself-after :
      (p : Row P → Bool) (x : Row P) (rows tail : List (Row P))
      → All (λ r. (r.queue_id == x.queue_id) ≡ false) tail
      → All (Itself p rows) tail
      → All (Itself p (x ∷ rows)) tail
  Itself-after p x rows [] other h = tt
  Itself-after p x rows (r ∷ tail) other h =
      (λ e. ground (arith, other.0, h.0), Itself-after p x rows tail other.1 h.1)

  pub itself : (p : Row P → Bool) (rows : List (Row P)) → IsUnique rows → All (Itself p rows) rows
  itself p [] u = tt
  itself p (r ∷ rows) u = (
    λ e. ground (arith, any_and p (λ x. x.queue_id == r.queue_id) rows),
    Itself-after p r rows rows (All-not (λ x. x.queue_id == r.queue_id) rows u.0)
        (itself p rows u.1),
  )
