-- ===== src/Foundry/Tests.antt =====
-- Tests of the chunker on a text of seven characters, and the theorems about it there.
use nexcraft.Base.{
  any, String, true, ℕ, suc, ◌<◌, ◌≤◌, ◌≡◌, refl, none, some, List, [], ◌∷◌, length, arith, map,
  any, not, leb, ◌||◌, false,
}
use nexcraft.Base.Dict
use nexcraft.Foundry.Consensus.{CausalEdgeFinding, edge_consensus}
use nexcraft.Foundry.Consensus.Laws.{is_finding, edge_consensus-voters}
use nexcraft.Foundry.Merge.{EntitySpan, merge_entity_spans}
use nexcraft.Foundry.Merge.Apart.{Apart}
use nexcraft.Foundry.Merge.Greedy.{beaten_by, merge_entity_spans-Apart}
use nexcraft.Foundry.Chunker.{Chunk, RecursiveTextChunker, chunk}
use nexcraft.Foundry.Chunker.Loop.{chunk-some}
use nexcraft.Foundry.Chunker.Cover.{joined, joined-chunk}

-- Chunks of four characters that share one.
abbrev chunker : RecursiveTextChunker ℕ ℕ
chunker = record { max_chars = 4; overlap_chars = 1; count_words = λ t. 0; hash_text = length }

abbrev seven : List ℕ
seven = 10 ∷ 20 ∷ 30 ∷ 40 ∷ 50 ∷ 60 ∷ 70 ∷ []

chunk-some_example :
    (1 < 4 → (chunks : List (Chunk ℕ ℕ)) × (chunk chunker seven (suc (length seven)) ≡ some chunks))
    × (4 ≤ 1 → 4 < length seven → (fuel : ℕ) → chunk chunker seven fuel ≡ none)
chunk-some_example = chunk-some chunker seven

abbrev first : Chunk ℕ ℕ
first = record {
  number = 0;
  prev = none;
  next = some 1;
  token_count = 1;
  content_hash = 4;
  text = 10 ∷ 20 ∷ 30 ∷ 40 ∷ [];
}

abbrev second : Chunk ℕ ℕ
second = record {
  number = 1;
  prev = some 0;
  next = none;
  token_count = 1;
  content_hash = 4;
  text = 40 ∷ 50 ∷ 60 ∷ 70 ∷ [];
}

joined-chunk_example : joined 1 (first ∷ second ∷ []) ≡ seven
unfolding chunk
joined-chunk_example = joined-chunk chunker seven (omega arith) 8 {xs = first ∷ second ∷ []} refl

-- An event, a person within it, and a date after it.
abbrev spans : List EntitySpan
spans =
    record { text = "b"; span_type = "PERSON"; confidence = 990; char_start = 3; char_end = 6 }
    ∷ record { text = "c"; span_type = "DATE"; confidence = 500; char_start = 9; char_end = 12 }
    ∷ record { text = "a"; span_type = "event"; confidence = 700; char_start = 0; char_end = 9 }
    ∷ []

merge_entity_spans_example :
    Apart (merge_entity_spans spans)
    × (any
          (λ s. not (leb s.char_end s.char_start || any (beaten_by s) (merge_entity_spans spans)))
          spans
        ≡ false)
merge_entity_spans_example = merge_entity_spans-Apart spans

starts-merge_entity_spans : map (λ s. s.char_start) (merge_entity_spans spans) ≡ 0 ∷ 9 ∷ []
unfolding merge_entity_spans Dict.get
starts-merge_entity_spans = refl

abbrev found_by : String → CausalEdgeFinding
found_by algorithm = record {
  source = "pay";
  target = "tenure";
  algorithm = algorithm;
  algorithms = [];
}

-- Two algorithms, of which one runs twice.
edge_consensus-voters_example :
    any
      (is_finding "pay" "tenure")
      (edge_consensus ((found_by "pc" ∷ found_by "lingam" ∷ []) ∷ (found_by "pc" ∷ []) ∷ []) 2).0
    ≡ true
edge_consensus-voters_example =
    edge_consensus-voters "pay" "tenure"
      ((found_by "pc" ∷ found_by "lingam" ∷ []) ∷ (found_by "pc" ∷ []) ∷ []) 1
