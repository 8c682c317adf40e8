-- ===== src/Spine/Tests/Records.antt =====
-- The theorems about candidates, types of relations, cards and profiles on the session.
use nexcraft.Base.{ℕ, ◌≡◌, refl, String, Bool, true, none, some, [], ◌∷◌, map, ok, keep, str_eq}
use nexcraft.Spine.Models.{flush_all}
use nexcraft.Spine.Inferences.Candidates.{CandidateIn, upsert_causal_candidates}
use nexcraft.Spine.Inferences.Candidates.Laws.{verdict, verdict-upsert_causal_candidates}
use nexcraft.Spine.Relations.{RelationTypeIn}
use nexcraft.Spine.Cards.{Hashing, CardIn, put_card, upsert_card, inserted, unchanged}
use nexcraft.Spine.Cards.Laws.{upsert_card-again}
use nexcraft.Spine.Stats.{TableSampleFacts}
use nexcraft.Spine.Stats.Laws.{HoldsBack}
use nexcraft.Spine.Stats.Samples.{attach_sampled_values, clear_sampled_values}
use nexcraft.Spine.Stats.Samples.Laws.{Steps-HoldsBack, attached, cleared, next, none_left}
use nexcraft.Spine.Stats.Samples.Gate.{is_blocked, attach_sampled_values-gate}
use nexcraft.Spine.Tests.{column_stat, store}

abbrev found_again : CandidateIn
found_again = record {
  asset_rk = "staff";
  subject_ref = "pay";
  predicate = "raises";
  object_ref = "tenure";
  evidence_columns = "pay" ∷ [];
  mechanism_hint = "";
  confidence = some 800;
  rationale = none;
  provenance = "llm";
}

-- The candidate stays rejected.
verdict-upsert_causal_candidates_example :
    map
      (verdict "etl")
      (upsert_causal_candidates "etl"
        (found_again ∷ found_again ∷ [])
        9
        (0, 0)
        store).1.candidates.stored
    ≡ (1, "rejected", none, some 7) ∷ []
verdict-upsert_causal_candidates_example =
    verdict-upsert_causal_candidates "etl" (found_again ∷ found_again ∷ []) 9 (0, 0) store

abbrev induced : ℕ → RelationTypeIn
induced n = record {
  predicate = "works_in";
  domain = "person";
  range_type = "team";
  inverse = none;
  functional = true;
  confidence = none;
  evidence_count = n;
  surfaces = "works in" ∷ [];
  provenance = "induced";
}

abbrev note : CardIn ℕ
note = record {
  org_id = "acme";
  kind = "metric";
  card_id = "m1";
  body = "tenure";
  frontmatter = none;
  layer = "tenant";
  title = none;
  aliases = [];
  markings = [];
  origin = "ui";
  source_path = none;
}

abbrev hash : Hashing ℕ
hash = record { dumps = λ frontmatter body. body; sha256 = λ text. text }

abbrev retitled : CardIn ℕ
retitled = record note { title = some "Pay, by grade" }

note_inserted : (upsert_card "etl" hash note 3 store).0 ≡ ok inserted
unfolding upsert_card put_card
note_inserted = refl

-- Another actor writes the note under another title.
upsert_card-again_example :
    upsert_card "curator" hash retitled 8 (flush_all (upsert_card "etl" hash note 3 store).1)
    ≡ (ok unchanged, flush_all (upsert_card "etl" hash note 3 store).1)
upsert_card-again_example =
    upsert_card-again hash "etl" "curator" note retitled 3 8 store refl note_inserted refl refl refl
      refl refl

abbrev facts : TableSampleFacts ℕ
facts = record {
  table_rk = "staff";
  population_row_count = some 12;
  sample_row_count = some 1;
  source_system = none;
  sample_description = none;
  sample_rows = 7 ∷ [];
  extra_metadata = none;
}

abbrev gate : String → Bool
gate rk = str_eq rk "grade"

attach_sampled_values-gate_example :
    keep
      (is_blocked gate)
      (attach_sampled_values "etl" facts
        (("name", 1 ∷ []) ∷ ("grade", 2 ∷ []) ∷ [])
        gate
        9
        store).1.column_stats.stored
    ≡ column_stat "name" ∷ []
attach_sampled_values-gate_example =
    attach_sampled_values-gate "etl" facts (("name", 1 ∷ []) ∷ ("grade", 2 ∷ []) ∷ []) gate 9 store

store_holds : HoldsBack store
store_holds = record {
  stored_tables = ((λ e. refl), tt);
  added_tables = tt;
  stored_columns = ((λ e. refl), ((λ e. refl), tt));
  added_columns = tt;
}

Steps-HoldsBack_example :
    HoldsBack
      (clear_sampled_values "etl" "staff" 10
        (attach_sampled_values "etl" facts
          (("name", 1 ∷ []) ∷ ("grade", 2 ∷ []) ∷ [])
          gate
          9
          store).1).1
Steps-HoldsBack_example =
    Steps-HoldsBack "etl"
      (next (attached facts (("name", 1 ∷ []) ∷ ("grade", 2 ∷ []) ∷ []) gate 9 store)
        (next (cleared "staff" 10 _) (none_left _)))
      store_holds
