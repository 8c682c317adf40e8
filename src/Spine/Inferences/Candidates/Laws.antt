-- ===== src/Spine/Inferences/Candidates/Laws.antt =====
-- What a batch of causal candidates leaves as it is, and what it does with a candidate that stands
-- twice in it.
use nexcraft.Base.{
  ℕ, suc, ◌+◌, ◌≡◌, refl, ◌∙◌, ap, String, Bool, true, Option, none, some, List, [], ◌∷◌, ◌++◌, map,
  arith, eq_refl, count, count-append,
}
use nexcraft.Spine.Table
use nexcraft.Spine.Table.{change, map-change}
use nexcraft.Spine.Models.{Session}
use nexcraft.Spine.Models.Derived.{CausalCandidate}
use nexcraft.Spine.Inferences.{audit}
use nexcraft.Spine.Inferences.Candidates.{
  CandidateIn, is_candidate, new_candidate, refresh_candidate, put_candidate,
  upsert_causal_candidate, count_candidate, upsert_causal_candidates,
}

new_candidate-is_candidate :
    (J : Type 0) (c : CandidateIn) (pk now : ℕ)
    → is_candidate c (new_candidate {J = J} c pk now) ≡ true
unfolding new_candidate
new_candidate-is_candidate J c pk now =
    ground
      (arith, eq_refl c.asset_rk, eq_refl c.subject_ref, eq_refl c.predicate, eq_refl c.object_ref)

module _ {J : Type 0} (actor : String) where
  -- What an operator or the validator has decided about a candidate.
  abbrev pub verdict : CausalCandidate J → ℕ × String × Option J × Option ℕ
  verdict c = (c.candidate_id, c.status, c.validation_diagnostics, c.validated_at)

  put_candidate-verdict :
      (c : CandidateIn) (now : ℕ) (o : Option (CausalCandidate J)) (s : Session J)
      → map verdict (put_candidate actor c now o s).candidates.stored
        ≡ map verdict s.candidates.stored
  unfolding put_candidate audit
  put_candidate-verdict c now none s = refl
  put_candidate-verdict c now (some existing) s =
      map-change verdict (is_candidate c) (refresh_candidate c now) s.candidates.stored
        (λ r. unfold refresh_candidate in refl)

  -- However often the enrichment runs, the rows that are stored keep their ids, their status and what
  -- the validator wrote, in their order.
  pub verdict-upsert_causal_candidates :
      (items : List CandidateIn) (now : ℕ) (counts : ℕ × ℕ) (s : Session J)
      → map verdict (upsert_causal_candidates actor items now counts s).1.candidates.stored
        ≡ map verdict s.candidates.stored
  unfolding upsert_causal_candidates upsert_causal_candidate
  verdict-upsert_causal_candidates [] now counts s = refl
  verdict-upsert_causal_candidates (c ∷ items) now counts s =
      verdict-upsert_causal_candidates items now
        (count_candidate (Table.find (is_candidate c) s.candidates) counts)
        (upsert_causal_candidate actor c now s)
      ∙ put_candidate-verdict c now (Table.find (is_candidate c) s.candidates) s

  count_two :
      (p : CausalCandidate J → Bool) (xs : List (CausalCandidate J)) (a b : CausalCandidate J)
      → p a ≡ true
      → p b ≡ true
      → count p ((xs ++ a ∷ []) ++ b ∷ []) ≡ count p xs + 2
  count_two p xs a b ha hb =
      count-append p (xs ++ a ∷ []) (b ∷ [])
      ∙ ap (λ n. n + count p (b ∷ [])) (count-append p xs (a ∷ []))
      ∙ rw (ha, hb) (omega arith)

  -- A candidate that is not stored and stands twice in a batch is added twice, with one natural key:
  -- the constraint of the table refuses the session when it is flushed.
  pub upsert_causal_candidates-twice :
      (c : CandidateIn) (now : ℕ) (s : Session J)
      → Table.find (is_candidate c) s.candidates ≡ none
      → let after = upsert_causal_candidates actor (c ∷ c ∷ []) now (0, 0) s in
        (after.0 ≡ (2, 0))
        × (count (is_candidate c) after.1.candidates.added
            ≡ count (is_candidate c) s.candidates.added + 2)
  unfolding upsert_causal_candidates upsert_causal_candidate count_candidate put_candidate audit
  upsert_causal_candidates-twice c now s absent =
      let first = new_candidate c s.next_pk now in
      let second = new_candidate c (suc s.next_pk) now in
      rw absent (
        rw absent (
          refl,
          count_two (is_candidate c) s.candidates.added first second
              (new_candidate-is_candidate J c s.next_pk now)
              (new_candidate-is_candidate J c (suc s.next_pk) now),
        ))
