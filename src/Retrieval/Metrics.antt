-- ===== src/Retrieval/Metrics.antt =====
-- packages/ontology-retrieval/ontology_retrieval/eval/metrics.py. A score is a fraction, kept as its
-- numerator and denominator; a gain that is discounted by the logarithm of its rank is kept as the
-- pair of the two, a sum of such gains as their list. Sets are lists without repetition, and a `k` is
-- not negative.
pub mod Bounds
pub mod Ranks
use nexcraft.Base.{
  ℕ, zero, suc, ◌+◌, ◌-◌, ◌*◌, String, Bool, true, false, Option, none, some, List, [], ◌∷◌, any,
  leb, ltb, ◌||◌, str_eq, if◌then◌else◌, length, take, count, map, sort_by,
}
use nexcraft.Base.Dict.{Dict, get, set}

pub record Score : Type 0 where
  pub num : ℕ
  pub den : ℕ

abbrev pub nothing : Score
nothing = record { num = 0; den = 1 }

-- A grade's gain and the rank that discounts it: `num / log2(rank + 1)`.
pub record Gain : Type 0 where
  pub gain : ℕ
  pub rank : ℕ

-- `x in rel`
abbrev pub among : List String → String → Bool
among rel x = any (str_eq x) rel

-- `set(xs)`
abbrev pub set_of : List String → List String
set_of [] = []
set_of (x ∷ xs) = let rest = set_of xs in if among rest x then rest else x ∷ rest

abbrev pub is_empty : List String → Bool
is_empty [] = true
is_empty (x ∷ xs) = false

abbrev pub hits : List String → List String → ℕ
hits rel top = count (among rel) top

-- `items if k is None else items[:k]`
abbrev pub slice : Option ℕ → List String → List String
slice none items = items
slice (some k) items = take k items

unfoldable pub precision_at_k : List String → List String → ℕ → Score
precision_at_k [] relevant k = nothing
precision_at_k (r ∷ retrieved) relevant zero = nothing
precision_at_k (r ∷ retrieved) relevant (suc k) = record {
  num = hits (set_of relevant) (take (suc k) (r ∷ retrieved));
  den = suc k;
}

unfoldable pub recall_at_k : List String → List String → ℕ → Score
recall_at_k retrieved relevant k =
    let rel = set_of relevant in
    if is_empty rel
    then nothing
    else if leb k 0 || is_empty retrieved
    then nothing
    else record { num = hits rel (take k retrieved); den = length rel }

-- The rank of the first relevant item, from `idx` on.
abbrev pub first_rank : List String → ℕ → List String → Option ℕ
first_rank rel idx [] = none
first_rank rel idx (x ∷ xs) =
    let rest = first_rank rel (suc idx) xs in if among rel x then some idx else rest

abbrev pub reciprocal : Option ℕ → Score
reciprocal none = nothing
reciprocal (some idx) = record { num = 1; den = idx }

unfoldable pub mean_reciprocal_rank : List String → List String → Score
mean_reciprocal_rank retrieved relevant = reciprocal (first_rank (set_of relevant) 1 retrieved)

abbrev pub pow2 : ℕ → ℕ
pow2 zero = 1
pow2 (suc n) = 2 * pow2 n

abbrev pub grade_of : Option ℕ → ℕ
grade_of none = 0
grade_of (some grade) = grade

-- `grades` after the fall back to the relevant items, of grade 1.
abbrev pub all_one : List String → Dict ℕ → Dict ℕ
all_one [] grades = grades
all_one (r ∷ relevant) grades = all_one relevant (set r 1 grades)

unfoldable pub grades_of : Dict ℕ → Option (List String) → Dict ℕ
grades_of (g ∷ grades) relevant = g ∷ grades
grades_of [] none = []
grades_of [] (some relevant) = all_one relevant []

abbrev pub add_gain : ℕ → ℕ → List Gain → List Gain
add_gain zero i total = total
add_gain (suc grade) i total = record { gain = pow2 (suc grade) - 1; rank = i } ∷ total

abbrev pub gains : Dict ℕ → ℕ → List String → List Gain
gains grades i [] = []
gains grades i (rk ∷ items) = add_gain (grade_of (get rk grades)) i (gains grades (suc i) items)

unfoldable pub discounted_cumulative_gain :
    List String → Dict ℕ → Option (List String) → Option ℕ → List Gain
unfolding grades_of
discounted_cumulative_gain retrieved relevance_grades relevant k =
    gains (grades_of relevance_grades relevant) 1 (slice k retrieved)

-- The ideal ranking, by grade from the highest.
unfoldable pub ideal_items : Dict ℕ → List String
ideal_items grades = map (λ kv. kv.0) (sort_by (λ a b. leb b.1 a.1) grades)

-- The gain and the ideal gain of which it is a fraction; none stands for 0.0.
unfoldable pub ndcg :
    List String → Dict ℕ → Option (List String) → Option ℕ → Option (List Gain × List Gain)
unfolding discounted_cumulative_gain grades_of ideal_items
ndcg retrieved relevance_grades relevant k =
    let grades = grades_of relevance_grades relevant in
    divided (discounted_cumulative_gain retrieved grades none k)
      (discounted_cumulative_gain (ideal_items grades) grades none k)
  where
    divided : List Gain → List Gain → Option (List Gain × List Gain)
    divided actual [] = none
    divided actual (g ∷ ideal) = some (actual, g ∷ ideal)

unfoldable pub hit_rate : List String → List String → Option ℕ → Score
hit_rate retrieved relevant k =
    let rel = set_of relevant in
    if any (among rel) (slice k retrieved) then record { num = 1; den = 1 } else nothing

unfoldable pub forbidden_violations : List String → List String → Option ℕ → ℕ
forbidden_violations retrieved forbidden k = hits (set_of forbidden) (slice k retrieved)
