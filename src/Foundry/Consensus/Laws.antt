-- ===== src/Foundry/Consensus/Laws.antt =====
-- Which edges the consensus keeps.
use nexcraft.Base.{
  ◌++◌, str_eq_comm, ℕ, suc, ◌≡◌, refl, ◌∙◌, ap, sym, String, Bool, true, false, List, [], ◌∷◌,
  ◌&&◌, ◌||◌, any, leb, str_eq, eq_iff, if◌then◌else◌, length, map, keep, arith, Bool-cases, inl,
  inr,
}
use nexcraft.Foundry.Consensus.{
  CausalEdgeFinding, Votes, add_member, is_votes_of, vote, vote_run, vote_runs, agreed,
  edge_consensus,
}

both : (a b : Bool) → (a && b) ≡ true → (a ≡ true) × (b ≡ true)
both true true h = (refl, refl)
both true false h = cc
both false b h = cc

module _ (source target : String) where
  abbrev pub is_finding : CausalEdgeFinding → Bool
  is_finding e = str_eq e.source source && str_eq e.target target

  -- A list with a member that it may have already.
  abbrev pub insert_new : String → List String → List String
  insert_new x xs = if any (str_eq x) xs then xs else xs ++ x ∷ []

  -- The algorithms that have found the edge, each once, in the order of their first finding.
  abbrev pub voters : List CausalEdgeFinding → List String → List String
  voters [] algs = algs
  voters (e ∷ run) algs = voters run (if is_finding e then insert_new e.algorithm algs else algs)

  abbrev pub all_voters : List (List CausalEdgeFinding) → List String → List String
  all_voters [] algs = algs
  all_voters (run ∷ runs) algs = all_voters runs (voters run algs)

  -- The votes of the edge, none when it was not found.
  abbrev pub algs_of : List Votes → List String
  algs_of [] = []
  algs_of (v ∷ votes) =
      let rest = algs_of votes in if is_votes_of source target v then v.algs else rest

  algs_of-vote :
      (e : CausalEdgeFinding) (votes : List Votes)
      → algs_of (vote e votes)
        ≡ (if is_finding e then add_member e.algorithm (algs_of votes) else algs_of votes)
  unfolding vote
  algs_of-vote e [] = ground arith
  algs_of-vote e (v ∷ votes) = elim (Bool-cases (is_votes_of e.source e.target v)) [
    | inl hit ↦
        let (s, g) = both (str_eq v.source e.source) (str_eq v.target e.target) hit in
        let same : is_votes_of source target v ≡ is_finding e =
          rw ((eq_iff v.source e.source).0 s, (eq_iff v.target e.target).0 g) refl in
        elim (Bool-cases (is_finding e)) [
          | inl found ↦ rw hit (rw (same ∙ found, found) refl)
          | inr other ↦ rw hit (rw (same ∙ other, other) refl)
        ]
    | inr miss ↦ elim (Bool-cases (is_finding e)) [
      | inl found ↦
          let (s, g) = both (str_eq e.source source) (str_eq e.target target) found in
          let apart : is_votes_of source target v ≡ false =
            rw ((eq_iff e.source source).0 s, (eq_iff e.target target).0 g) at miss in
          rw miss (rw (apart, found) (algs_of-vote e votes ∙ rw found refl))
      | inr other ↦ rw miss (
          rw other (
            ap (λ xs. if is_votes_of source target v then v.algs else xs)
              (algs_of-vote e votes ∙ rw other refl)))
    ]
  ]

  algs_of-vote_run :
      (run : List CausalEdgeFinding) (votes : List Votes)
      → algs_of (vote_run run votes) ≡ voters run (algs_of votes)
  unfolding vote_run
  algs_of-vote_run [] votes = refl
  algs_of-vote_run (e ∷ run) votes =
      algs_of-vote_run run (vote e votes) ∙ ap (voters run) (algs_of-vote e votes)

  algs_of-vote_runs :
      (runs : List (List CausalEdgeFinding)) (votes : List Votes)
      → algs_of (vote_runs runs votes) ≡ all_voters runs (algs_of votes)
  unfolding vote_runs
  algs_of-vote_runs [] votes = refl
  algs_of-vote_runs (run ∷ runs) votes =
      algs_of-vote_runs runs (vote_run run votes)
      ∙ ap (all_voters runs) (algs_of-vote_run run votes)

  -- Somebody has voted for the edge.
  abbrev pub has_votes : List Votes → Bool
  has_votes = any (is_votes_of source target)

  has_votes-vote :
      (e : CausalEdgeFinding) (votes : List Votes)
      → is_finding e ≡ false
      → has_votes (vote e votes) ≡ has_votes votes
  unfolding vote
  has_votes-vote e [] other = rw other refl
  has_votes-vote e (v ∷ votes) other = elim (Bool-cases (is_votes_of e.source e.target v)) [
    | inl hit ↦ rw hit refl
    | inr miss ↦ rw miss (ap (λ b. is_votes_of source target v || b) (has_votes-vote e votes other))
  ]

  no_agreed :
      (p : Votes → Bool) (votes : List Votes)
      → has_votes votes ≡ false
      → any is_finding (map agreed (keep p votes)) ≡ false
  no_agreed p [] h = refl
  no_agreed p (v ∷ votes) h = elim (Bool-cases (is_votes_of source target v)) [
    | inl here ↦ cc (rw here at h)
    | inr away ↦ elim (Bool-cases (p v)) [
      | inl kept ↦ rw kept (rw away (no_agreed p votes (rw away at h)))
      | inr dropped ↦ rw dropped (no_agreed p votes (rw away at h))
    ]
  ]

-- Every edge has one item.
abbrev pub HasUniqueEdges : List Votes → Type 0
HasUniqueEdges [] = Unit
HasUniqueEdges (v ∷ votes) = (has_votes v.source v.target votes ≡ false) × HasUniqueEdges votes

vote-HasUniqueEdges :
    (e : CausalEdgeFinding) (votes : List Votes)
    → HasUniqueEdges votes
    → HasUniqueEdges (vote e votes)
unfolding vote
vote-HasUniqueEdges e [] u = (refl, tt)
vote-HasUniqueEdges e (v ∷ votes) u = elim (Bool-cases (is_votes_of e.source e.target v)) [
  | inl hit ↦ rw hit u
  | inr miss ↦ rw miss (
    has_votes-vote v.source v.target e votes
          (rw (str_eq_comm e.source v.source, str_eq_comm e.target v.target) miss)
        ∙ u.0,
    vote-HasUniqueEdges e votes u.1,
  )
]

vote_run-HasUniqueEdges :
    (run : List CausalEdgeFinding) (votes : List Votes)
    → HasUniqueEdges votes
    → HasUniqueEdges (vote_run run votes)
unfolding vote_run
vote_run-HasUniqueEdges [] votes u = u
vote_run-HasUniqueEdges (e ∷ run) votes u =
    vote_run-HasUniqueEdges run (vote e votes) (vote-HasUniqueEdges e votes u)

vote_runs-HasUniqueEdges :
    (runs : List (List CausalEdgeFinding)) (votes : List Votes)
    → HasUniqueEdges votes
    → HasUniqueEdges (vote_runs runs votes)
unfolding vote_runs
vote_runs-HasUniqueEdges [] votes u = u
vote_runs-HasUniqueEdges (run ∷ runs) votes u =
    vote_runs-HasUniqueEdges runs (vote_run run votes) (vote_run-HasUniqueEdges run votes u)

module _ (source target : String) where
  agreed_of_unique :
      (n : ℕ) (votes : List Votes)
      → HasUniqueEdges votes
      → any (is_finding source target) (map agreed (keep (λ v. leb (suc n) (length v.algs)) votes))
        ≡ leb (suc n) (length (algs_of source target votes))
  agreed_of_unique n [] u = ground arith
  agreed_of_unique n (v ∷ votes) u = elim (Bool-cases (is_votes_of source target v)) [
    | inl here ↦
        let (s, g) = both (str_eq v.source source) (str_eq v.target target) here in
        let alone : has_votes source target votes ≡ false =
          rw ((eq_iff v.source source).0 s, (eq_iff v.target target).0 g) at u.0 in
        elim (Bool-cases (leb (suc n) (length v.algs))) [
          | inl enough ↦ rw (enough, here) (rw enough refl)
          | inr few ↦ rw few (rw here (no_agreed source target _ votes alone ∙ sym few))
        ]
    | inr away ↦ elim (Bool-cases (leb (suc n) (length v.algs))) [
      | inl enough ↦ rw enough (rw away (agreed_of_unique n votes u.1))
      | inr few ↦ rw few (rw away (agreed_of_unique n votes u.1))
    ]
  ]

  -- With a threshold of at least one: an edge is among those agreed on exactly when at least that many
  -- algorithms have found it, each counted once, in whatever runs and however often.
  pub edge_consensus-voters :
      (runs : List (List CausalEdgeFinding)) (n : ℕ)
      → any (is_finding source target) (edge_consensus runs (suc n)).0
        ≡ leb (suc n) (length (all_voters source target runs []))
  unfolding edge_consensus
  edge_consensus-voters runs n =
      agreed_of_unique n (vote_runs runs []) (vote_runs-HasUniqueEdges runs [] tt)
      ∙ ap (λ algs. leb (suc n) (length algs)) (algs_of-vote_runs source target runs [])
