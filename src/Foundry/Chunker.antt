-- ===== src/Foundry/Chunker.antt =====
-- packages/ontology-foundry/ontology_foundry/chunkers.py: `RecursiveTextChunker`, on a text as the
-- list of its characters. Counting words and hashing are parameters, and a chunk is named by its
-- number within its document. The loop runs on fuel; Chunker/Loop says how much is enough.
pub mod Loop
pub mod Cover
use nexcraft.Base.{
  ℕ, zero, suc, ◌+◌, ◌-◌, min, Option, none, some, List, [], ◌∷◌, length, take, ltb, leb,
  if◌then◌else◌,
}

pub record Chunk (A H : Type 0) : Type 0 where
  pub number : ℕ
  pub prev : Option ℕ
  pub next : Option ℕ
  pub token_count : ℕ
  pub content_hash : H
  pub text : List A

pub record RecursiveTextChunker (A H : Type 0) : Type 0 where
  pub max_chars : ℕ
  pub overlap_chars : ℕ
  -- `len(piece.split())` and `_hash_text`
  pub count_words : List A → ℕ
  pub hash_text : List A → H

abbrev pub drop {ℓ} : {A : Type ℓ} → ℕ → List A → List A
drop zero xs = xs
drop (suc n) [] = []
drop (suc n) (x ∷ xs) = drop n xs

-- `text[start:end]`
abbrev pub slice : {A : Type 0} → List A → ℕ → ℕ → List A
slice text start end = take (end - start) (drop start text)

abbrev pub previous : ℕ → Option ℕ
previous zero = none
previous (suc n) = some n

abbrev pub at_least_one : ℕ → ℕ
at_least_one zero = 1
at_least_one (suc n) = suc n

module _ {A H : Type 0} (c : RecursiveTextChunker A H) (text : List A) where
  abbrev pub end_of : ℕ → ℕ
  end_of start = min (length text) (start + c.max_chars)

  -- `max(0, end - overlap_chars)`
  abbrev pub next_start : ℕ → ℕ
  next_start start = end_of start - c.overlap_chars

  abbrev pub next_of : ℕ → ℕ → Option ℕ
  next_of start idx =
      let end = end_of start in
      if ltb end (min (length text) ((end + c.max_chars) - c.overlap_chars))
      then some (suc idx)
      else none

  abbrev pub chunk_at : ℕ → ℕ → Chunk A H
  chunk_at start idx =
      let piece = slice text start (end_of start) in
      record {
        number = idx;
        prev = previous idx;
        next = next_of start idx;
        token_count = at_least_one (c.count_words piece);
        content_hash = c.hash_text piece;
        text = piece;
      }

  abbrev pub prepend : Chunk A H → Option (List (Chunk A H)) → Option (List (Chunk A H))
  prepend x none = none
  prepend x (some xs) = some (x ∷ xs)

  -- The loop from `start`, or none if the fuel is used up.
  pub loop : ℕ → ℕ → ℕ → Option (List (Chunk A H))
  loop zero start idx = none
  loop (suc fuel) start idx =
      let rest = loop fuel (next_start start) (suc idx) in
      if leb (length text) start
      then some []
      else if leb (length text) (end_of start)
      then some (chunk_at start idx ∷ [])
      else prepend (chunk_at start idx) rest

  -- `chunk` with some fuel; an empty text returns early.
  unfoldable pub chunk : ℕ → Option (List (Chunk A H))
  unfolding loop
  chunk fuel = loop fuel 0 0
