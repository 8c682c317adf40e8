-- ===== src/Foundry/Consensus.antt =====
-- packages/ontology-foundry/ontology_foundry/causal/consensus.py: `edge_consensus`, with the edges of
-- causal/models.py. A dictionary is the list of its items in the order in which they were added, and a
-- set the list of its members.
pub mod Laws
use nexcraft.Base.{
  ℕ, String, Bool, true, false, List, [], ◌∷◌, ◌++◌, ◌&&◌, any, leb, str_eq, if◌then◌else◌, length,
  map, keep, sort_by,
}
use Prim.Native.String.{compare}
use text.Mathlib.Text.{is_le}

-- `CausalEdgeFinding`, of whose diagnostics the list of algorithms is kept.
pub record CausalEdgeFinding : Type 0 where
  pub source : String
  pub target : String
  pub algorithm : String
  pub algorithms : List String

-- The algorithms that found an edge.
pub record Votes : Type 0 where
  pub source : String
  pub target : String
  pub algs : List String

pub record Tally : Type 0 where
  pub source : String
  pub target : String
  pub distinct : ℕ

abbrev pub add_member : String → List String → List String
add_member x xs = if any (str_eq x) xs then xs else xs ++ x ∷ []

abbrev pub is_votes_of : String → String → Votes → Bool
is_votes_of source target v = str_eq v.source source && str_eq v.target target

-- `votes[(e.source, e.target)].add(e.algorithm)`
unfoldable pub vote : CausalEdgeFinding → List Votes → List Votes
vote e [] = record { source = e.source; target = e.target; algs = e.algorithm ∷ [] } ∷ []
vote e (v ∷ votes) =
    let rest = vote e votes in
    if is_votes_of e.source e.target v
    then record v { algs = add_member e.algorithm v.algs } ∷ votes
    else v ∷ rest

unfoldable pub vote_run : List CausalEdgeFinding → List Votes → List Votes
unfolding vote
vote_run [] votes = votes
vote_run (e ∷ run) votes = vote_run run (vote e votes)

unfoldable pub vote_runs : List (List CausalEdgeFinding) → List Votes → List Votes
unfolding vote_run
vote_runs [] votes = votes
vote_runs (run ∷ runs) votes = vote_runs runs (vote_run run votes)

abbrev pub tally : Votes → Tally
tally v = record { source = v.source; target = v.target; distinct = length v.algs }

abbrev pub agreed : Votes → CausalEdgeFinding
agreed v = record {
  source = v.source;
  target = v.target;
  algorithm = "consensus";
  algorithms = sort_by (λ a b. is_le (compare a b)) v.algs;
}

unfoldable pub edge_consensus :
    List (List CausalEdgeFinding) → ℕ → List CausalEdgeFinding × List Tally
unfolding vote_runs
edge_consensus runs min_distinct_algorithms =
    let votes = vote_runs runs [] in
    (map agreed (keep (λ v. leb min_distinct_algorithms (length v.algs)) votes), map tally votes)
