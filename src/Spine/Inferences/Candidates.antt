-- ===== src/Spine/Inferences/Candidates.antt =====
-- dao/inferences.py: the causal candidates of `InferenceDAO`. The items of a batch are given as the
-- arguments of the single upsert.
pub mod Laws
use nexcraft.Base.{
  ℕ, suc, ◌+◌, String, ◌<>◌, Bool, true, false, Option, none, some, List, [], ◌∷◌, any, leb, ◌==◌,
  ◌&&◌, ◌||◌, str_eq, if◌then◌else◌, Result, ok, err, value_error, foreign_error, take, keep,
  sort_by,
}
use nexcraft.Base.Exec.{Exec}
use nexcraft.Spine.Table
use nexcraft.Spine.Table.{Table}
use nexcraft.Spine.Models.{Session}
use nexcraft.Spine.Models.Derived.{CausalCandidate, DataProtectionHint}
use nexcraft.Spine.Inferences.{or_text, or_list, or_else, or_given, text_of, audit}

abbrev pub same_candidate :
    {J : Type 0} → String → String → String → String → CausalCandidate J → Bool
same_candidate asset_rk subject_ref predicate object_ref c =
    str_eq c.asset_rk asset_rk
    && str_eq c.subject_ref subject_ref
    && str_eq c.predicate predicate
    && str_eq c.object_ref object_ref

-- The arguments of `upsert_causal_candidate`.
pub record CandidateIn : Type 0 where
  pub asset_rk : String
  pub subject_ref : String
  pub predicate : String
  pub object_ref : String
  pub evidence_columns : List String
  pub mechanism_hint : String
  pub confidence : Option ℕ
  pub rationale : Option String
  pub provenance : String

abbrev pub is_decision : String → Bool
is_decision d = str_eq d "validated" || str_eq d "rejected" || str_eq d "inconclusive"

module _ {J : Type 0} where
  new_candidate : CandidateIn → ℕ → ℕ → CausalCandidate J
  new_candidate c pk now = record {
    candidate_id = pk;
    asset_rk = c.asset_rk;
    subject_ref = c.subject_ref;
    predicate = c.predicate;
    object_ref = c.object_ref;
    evidence_columns = c.evidence_columns;
    mechanism_hint = or_text c.mechanism_hint none;
    confidence = c.confidence;
    status = "proposed";
    provenance = c.provenance;
    rationale = c.rationale;
    validation_diagnostics = none;
    validated_at = none;
    created_at = now;
    updated_at = now;
  }

  -- The status stays.
  refresh_candidate : CandidateIn → ℕ → CausalCandidate J → CausalCandidate J
  refresh_candidate c now existing = record existing {
    evidence_columns = or_list c.evidence_columns existing.evidence_columns;
    mechanism_hint = or_text c.mechanism_hint existing.mechanism_hint;
    confidence = or_else c.confidence existing.confidence;
    rationale = or_given c.rationale existing.rationale;
    provenance = c.provenance;
    updated_at = now;
  }

  abbrev pub is_candidate : CandidateIn → CausalCandidate J → Bool
  is_candidate c = same_candidate c.asset_rk c.subject_ref c.predicate c.object_ref

  count_candidate : Option (CausalCandidate J) → ℕ × ℕ → ℕ × ℕ
  count_candidate none (inserted, updated) = (suc inserted, updated)
  count_candidate (some existing) (inserted, updated) = (inserted, suc updated)

  decided : String → Option J → ℕ → CausalCandidate J → CausalCandidate J
  decided decision diagnostics now row = record row {
    status = decision;
    validation_diagnostics = or_else diagnostics row.validation_diagnostics;
    validated_at = some now;
    updated_at = now;
  }

  -- `like` is LIKE of the database, with a pattern that ends in a percent sign.
  in_scope : (String → String → Bool) → Option String → List String → CausalCandidate J → Bool
  in_scope like prefix (rk ∷ asset_rks) c = any (str_eq c.asset_rk) (rk ∷ asset_rks)
  in_scope like none [] c = true
  in_scope like (some prefix) [] c = str_eq prefix "" || like c.asset_rk (prefix <> "%")

  unfoldable pub list_pending_causal_candidates :
      (String → String → Bool)
      → Option String
      → List String
      → ℕ
      → Session J
      → List (CausalCandidate J)
  unfolding in_scope
  list_pending_causal_candidates like prefix asset_rks limit s = take limit (
      sort_by (λ a b. leb a.created_at b.created_at)
        (keep (λ c. str_eq c.status "proposed" && in_scope like prefix asset_rks c)
          s.candidates.stored))

module _ {J : Type 0} (actor : String) where
  put_candidate : CandidateIn → ℕ → Option (CausalCandidate J) → Session J → Session J
  unfolding audit new_candidate refresh_candidate
  put_candidate c now none s =
      audit actor "create" "causal_candidate"
        ("causal:" <> c.asset_rk <> ":" <> c.subject_ref <> "->" <> c.object_ref)
        (record s {
          candidates = Table.add (new_candidate c s.next_pk now) s.candidates;
          next_pk = suc s.next_pk;
        })
  put_candidate c now (some existing) s = record s {
    candidates = Table.update (is_candidate c) (refresh_candidate c now) s.candidates;
  }

  unfoldable pub upsert_causal_candidate : CandidateIn → ℕ → Session J → Session J
  unfolding put_candidate
  upsert_causal_candidate c now s = put_candidate c now (Table.find (is_candidate c) s.candidates) s

  -- `upsert_causal_candidates`: how many were inserted and updated, and the session.
  unfoldable pub upsert_causal_candidates :
      List CandidateIn → ℕ → ℕ × ℕ → Session J → (ℕ × ℕ) × Session J
  unfolding upsert_causal_candidate count_candidate
  upsert_causal_candidates [] now counts s = (counts, s)
  upsert_causal_candidates (c ∷ items) now counts s =
      upsert_causal_candidates items now
        (count_candidate (Table.find (is_candidate c) s.candidates) counts)
        (upsert_causal_candidate c now s)

  decide : ℕ → String → Option J → ℕ → Option (CausalCandidate J) → Session J → Bool × Session J
  unfolding audit decided
  decide candidate_id decision diagnostics now none s = (false, s)
  decide candidate_id decision diagnostics now (some row) s = (
    true,
    audit actor "update" "causal_candidate"
        ("causal:" <> row.asset_rk <> ":" <> row.subject_ref <> "->" <> row.object_ref)
        (record s {
          candidates =
              Table.update (λ c. c.candidate_id == candidate_id) (decided decision diagnostics now)
                s.candidates;
        }),
  )

  -- Whether a row was there, for the row that the source returns.
  unfoldable pub apply_validation_result : ℕ → String → Option J → ℕ → Exec (Session J) Bool
  unfolding decide
  apply_validation_result candidate_id decision diagnostics now s =
      let (there, s') =
        decide candidate_id decision diagnostics now
          (Table.find (λ c. c.candidate_id == candidate_id) s.candidates) s in
      if is_decision decision then (ok there, s') else (err value_error, s)
