-- ===== src/Foundry/Merge.antt =====
-- packages/ontology-foundry/ontology_foundry/ner/merge.py: of the entities that overlap the best one
-- is kept. Confidences and scores are whole thousandths where the code has floats.
pub mod Apart
pub mod Greedy
use nexcraft.Base.{
  ℕ, ◌+◌, ◌*◌, String, Bool, Option, none, some, List, [], ◌∷◌, ◌++◌, any, not, ◌&&◌, ◌||◌, ltb,
  leb, ◌==◌, if◌then◌else◌,
}
use nexcraft.Base.Dict
use nexcraft.Base.Dict.{Dict}

-- The fields that the merge reads, and the text.
pub record EntitySpan : Type 0 where
  pub text : String
  pub span_type : String
  pub confidence : ℕ
  pub char_start : ℕ
  pub char_end : ℕ

-- TYPE_SPECIFICITY
abbrev type_specificity : Dict ℕ
type_specificity =
    ("causal_marker", 120)
    ∷ ("quantitative_claim", 95)
    ∷ ("concept", 85)
    ∷ ("attribute", 82)
    ∷ ("event", 80)
    ∷ ("actor_role", 78)
    ∷ ("policy_reference", 76)
    ∷ ("temporal_qualifier", 74)
    ∷ ("entity_name", 72)
    ∷ ("PERSON", 55)
    ∷ ("ORG", 55)
    ∷ ("GPE", 52)
    ∷ ("DATE", 50)
    ∷ ("MONEY", 50)
    ∷ ("CARDINAL", 45)
    ∷ ("PROPER_NOUN", 40)
    ∷ []

base_of : Option ℕ → ℕ
base_of none = 60
base_of (some base) = base

unfoldable pub score : EntitySpan → ℕ
unfolding base_of
score span = base_of (Dict.get span.span_type type_specificity) * 1000 + span.confidence

-- Not after the other in the order of the key `(-score, char_start, char_end)`.
pub leads : EntitySpan → EntitySpan → Bool
leads a b =
    ltb (score b) (score a)
    || (score a == score b
        && (ltb a.char_start b.char_start
            || (a.char_start == b.char_start && leb a.char_end b.char_end)))

-- `sorted` keeps the order of equal keys.
module _ (le : EntitySpan → EntitySpan → Bool) where
  insert : EntitySpan → List EntitySpan → List EntitySpan
  insert x [] = x ∷ []
  insert x (y ∷ ys) = let rest = insert x ys in if le x y then x ∷ y ∷ ys else y ∷ rest

  pub sorted : List EntitySpan → List EntitySpan
  unfolding insert
  sorted [] = []
  sorted (x ∷ xs) = insert x (sorted xs)

abbrev pub overlaps : EntitySpan → EntitySpan → Bool
overlaps span k = not (leb span.char_end k.char_start || leb k.char_end span.char_start)

abbrev pub keep_next : List EntitySpan → EntitySpan → List EntitySpan
keep_next kept span = if any (overlaps span) kept then kept else kept ++ span ∷ []

pub pick : List EntitySpan → List EntitySpan → List EntitySpan
pick kept [] = kept
pick kept (span ∷ spans) = pick (keep_next kept span) spans

abbrev pub by_start : EntitySpan → EntitySpan → Bool
by_start a b = leb a.char_start b.char_start

unfoldable pub merge_entity_spans : List EntitySpan → List EntitySpan
unfolding score leads sorted pick
merge_entity_spans spans = sorted by_start (pick [] (sorted leads spans))
