-- ===== src/Foundry/Chunker/Loop.antt =====
-- When the loop of the chunker ends.
use nexcraft.Base.{
  ℕ, zero, suc, ◌+◌, ◌-◌, ◌≤◌, ◌<◌, ◌≡◌, refl, false, Option, none, some, List, [], ◌∷◌, length,
  leb, arith, Bool-cases, inl, inr,
}
use nexcraft.Foundry.Chunker.{
  Chunk, RecursiveTextChunker, end_of, next_start, chunk_at, prepend, loop, chunk,
}

module _ {A H : Type 0} (c : RecursiveTextChunker A H) (text : List A) where
  prepend-some :
      (x : Chunk A H) (o : Option (List (Chunk A H)))
      → (xs : List (Chunk A H)) × (o ≡ some xs)
      → (xs : List (Chunk A H)) × (prepend c text x o ≡ some xs)
  prepend-some x none (xs, h) = absurd (cc)
  prepend-some x (some ys) h = (x ∷ ys, refl)

  loop-some :
      (fuel start idx : ℕ)
      → c.overlap_chars < c.max_chars
      → length text - start < fuel
      → (xs : List (Chunk A H)) × (loop c text fuel start idx ≡ some xs)
  unfolding loop
  loop-some zero start idx small enough = absurd (omega arith)
  loop-some (suc fuel) start idx small enough = elim (Bool-cases (leb (length text) start)) [
    | inl over ↦ ([], rw over refl)
    | inr more ↦ elim (Bool-cases (leb (length text) (end_of c text start))) [
      | inl last ↦ (chunk_at c text start idx ∷ [], rw (more, last) refl)
      | inr on ↦
          rw (more, on)
            (prepend-some (chunk_at c text start idx)
              (loop c text fuel (next_start c text start) (suc idx))
              (loop-some fuel (next_start c text start) (suc idx) small (ground arith)))
    ]
  ]

  loop-none :
      (fuel start idx : ℕ)
      → c.max_chars ≤ c.overlap_chars
      → start + c.max_chars < length text
      → loop c text fuel start idx ≡ none
  unfolding loop
  loop-none zero start idx large more = refl
  loop-none (suc fuel) start idx large more =
      let rest = loop-none fuel (next_start c text start) (suc idx) large (ground arith) in
      let go : leb (length text) start ≡ false = ground arith in
      let on : leb (length text) (end_of c text start) ≡ false = ground arith in
      rw (go, on, rest) refl

  -- With an overlap below the size of a chunk, the loop ends in at most one round for each character
  -- and one more. With an overlap of at least the size it never ends, for any text longer than a
  -- chunk.
  pub chunk-some :
      (c.overlap_chars < c.max_chars
        → (chunks : List (Chunk A H)) × (chunk c text (suc (length text)) ≡ some chunks))
      × (c.max_chars ≤ c.overlap_chars
          → c.max_chars < length text
          → (fuel : ℕ) → chunk c text fuel ≡ none)
  unfolding chunk
  chunk-some = (
    λ small. loop-some (suc (length text)) 0 0 small (omega arith),
    λ large long fuel. loop-none fuel 0 0 large (omega arith),
  )
