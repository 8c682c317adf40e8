-- ===== src/Foundry/Chunker/Cover.antt =====
-- The chunks cover the text.
use nexcraft.Base.{
  ℕ, zero, suc, ◌+◌, ◌-◌, ◌≤◌, ◌<◌, ◌≡◌, refl, sym, ap, ◌∙◌, false, Option, none, some, List, [],
  ◌∷◌, ◌++◌, length, take, leb, arith, Bool-cases, inl, inr, subst,
}
use nexcraft.Foundry.Chunker.{
  Chunk, RecursiveTextChunker, drop, slice, end_of, next_start, chunk_at, prepend, loop, chunk,
}

module _ {A : Type 0} where
  append-take : (n : ℕ) (xs : List A) → take n xs ++ drop n xs ≡ xs
  append-take zero xs = refl
  append-take (suc n) [] = refl
  append-take (suc n) (x ∷ xs) = ap (λ l. x ∷ l) (append-take n xs)

  drop_nil : (n : ℕ) → drop {A = A} n [] ≡ []
  drop_nil zero = refl
  drop_nil (suc n) = refl

  drop-drop : (n m k : ℕ) (xs : List A) → k ≡ m + n → drop n (drop m xs) ≡ drop k xs
  drop-drop n zero k xs e = ap (λ i. drop i xs) (omega arith)
  drop-drop n (suc m) zero xs e = absurd (omega arith)
  drop-drop n (suc m) (suc k) [] e = drop_nil n
  drop-drop n (suc m) (suc k) (x ∷ xs) e = drop-drop n m k xs (omega arith)

  length-drop : (n : ℕ) (xs : List A) → length (drop n xs) ≡ length xs - n
  length-drop zero xs = omega arith
  length-drop (suc n) [] = omega arith
  length-drop (suc n) (x ∷ xs) = omega (arith, length-drop n xs)

  length-take : (n : ℕ) (xs : List A) → n ≤ length xs → length (take n xs) ≡ n
  length-take zero xs h = refl
  length-take (suc n) [] h = omega arith
  length-take (suc n) (x ∷ xs) h = ap suc (length-take n xs (omega arith))

  drop-append : (n : ℕ) (xs ys : List A) → n ≤ length xs → drop n (xs ++ ys) ≡ drop n xs ++ ys
  drop-append zero xs ys h = refl
  drop-append (suc n) [] ys h = absurd (omega arith)
  drop-append (suc n) (x ∷ xs) ys h = drop-append n xs ys (omega arith)

  drop_all : (n : ℕ) (xs : List A) → length xs ≤ n → drop n xs ≡ []
  drop_all zero [] h = refl
  drop_all zero (x ∷ xs) h = absurd (omega arith)
  drop_all (suc n) [] h = refl
  drop_all (suc n) (x ∷ xs) h = drop_all n xs (omega arith)

module _ {A H : Type 0} where
  -- The texts of chunks without their first `overlap` characters.
  abbrev pub tails : ℕ → List (Chunk A H) → List A
  tails overlap [] = []
  tails overlap (x ∷ xs) = drop overlap x.text ++ tails overlap xs

  -- The first chunk, and what each later one adds to it.
  abbrev pub joined : ℕ → List (Chunk A H) → List A
  joined overlap [] = []
  joined overlap (x ∷ xs) = x.text ++ tails overlap xs

module _ {A H : Type 0} (c : RecursiveTextChunker A H) (text : List A)
    (small : c.overlap_chars < c.max_chars) where
  abbrev overlap : ℕ
  overlap = c.overlap_chars

  abbrev end : ℕ → ℕ
  end = end_of c text

  abbrev Covers : ℕ → List (Chunk A H) → Type 0
  Covers start xs =
      (joined overlap xs ≡ drop start text)
      × (start + overlap ≤ length text → tails overlap xs ≡ drop (start + overlap) text)

  -- A chunk in front of what covers the text from its end on.
  chunk_at-Covers :
      (start idx : ℕ) (xs : List (Chunk A H))
      → start < length text
      → tails overlap xs ≡ drop (end start) text
      → Covers start (chunk_at c text start idx ∷ xs)
  chunk_at-Covers start idx xs more h =
      let piece = slice text start (end start) in
      let on : drop (end start - start) (drop start text) ≡ drop (end start) text =
        drop-drop (end start - start) start (end start) text (omega arith) in
      let whole : piece ++ tails overlap xs ≡ drop start text =
        ap (λ l. piece ++ l) (h ∙ sym on) ∙ append-take (end start - start) (drop start text) in
      let size : length piece ≡ end start - start =
        length-take (end start - start) (drop start text) (omega (arith, length-drop start text)) in
      (
        whole,
        λ fits.
            sym (drop-append overlap piece (tails overlap xs) (omega (arith, size)))
            ∙ ap (drop overlap) whole
            ∙ drop-drop overlap start (start + overlap) text refl,
      )

  prepend-Covers :
      (start idx : ℕ) (o : Option (List (Chunk A H))) {xs : List (Chunk A H)}
      → start < length text
      → ((ys : List (Chunk A H)) → o ≡ some ys → tails overlap ys ≡ drop (end start) text)
      → prepend c text (chunk_at c text start idx) o ≡ some xs
      → Covers start xs
  prepend-Covers start idx none more h e = absurd (cc)
  prepend-Covers start idx (some ys) {xs} more h e =
      let same : chunk_at c text start idx ∷ ys ≡ xs = cc in
      subst (Covers start) same (chunk_at-Covers start idx ys more (h ys refl))

  loop-Covers :
      (fuel start idx : ℕ) {xs : List (Chunk A H)}
      → start < length text
      → loop c text fuel start idx ≡ some xs
      → Covers start xs
  unfolding loop
  loop-Covers zero start idx more h = absurd (cc)
  loop-Covers (suc fuel) start idx {xs} more h =
      let go : leb (length text) start ≡ false = ground arith in
      elim (Bool-cases (leb (length text) (end start))) [
        | inl last ↦
            let same : chunk_at c text start idx ∷ [] ≡ xs = cc (rw (go, last) at h) in
            subst (Covers start) same
              (chunk_at-Covers start idx [] more (sym (drop_all (end start) text (ground arith))))
        | inr on ↦
            prepend-Covers start idx (loop c text fuel (next_start c text start) (suc idx)) more
              (λ ys e.
                let later = loop-Covers fuel (next_start c text start) (suc idx) (ground arith) e in
                later.1 (ground arith) ∙ ap (λ i. drop i text) (ground arith))
              (rw (go, on) at h)
      ]

  -- The chunks of a text give it back: joined, each without the overlap with the one before, they
  -- are the text, when the overlap is below the size of a chunk.
  pub joined-chunk :
      (fuel : ℕ) {xs : List (Chunk A H)} → chunk c text fuel ≡ some xs → joined overlap xs ≡ text
  unfolding chunk
  joined-chunk zero h = absurd (cc)
  joined-chunk (suc fuel) {xs} h = elim (Bool-cases (leb (length text) 0)) [
    | inl none_left ↦
        let e : loop c text (suc fuel) 0 0 ≡ some [] = unfold loop in rw none_left refl in
        let nothing : [] ≡ xs = cc (e, h) in
        ap (joined overlap) (sym nothing) ∙ sym (drop_all 0 text (ground arith))
    | inr more ↦ (loop-Covers (suc fuel) 0 0 (ground arith) h).0
  ]
