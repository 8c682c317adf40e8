-- ===== src/Spine/Models/Derived.antt =====
-- The rows of db/inference_models.py, db/relation_models.py, db/card_models.py and
-- db/stats_models.py. Confidences are whole thousandths;
-- `J` is a value of a JSON column or another float.
use nexcraft.Base.{ℕ, String, Bool, Option, List}

pub record CausalCandidate (J : Type 0) : Type 0 where
  pub candidate_id : ℕ
  pub asset_rk : String
  pub subject_ref : String
  pub predicate : String
  pub object_ref : String
  pub evidence_columns : List String
  pub mechanism_hint : Option String
  pub confidence : Option ℕ
  pub status : String
  pub provenance : String
  pub rationale : Option String
  pub validation_diagnostics : Option J
  pub validated_at : Option ℕ
  pub created_at : ℕ
  pub updated_at : ℕ

pub record DataProtectionHint (J : Type 0) : Type 0 where
  pub asset_rk : String
  pub rls_predicates : List String
  pub cls_columns : List String
  pub rationale : Option String
  pub provenance : String
  pub status : String
  pub extra : Option J
  pub updated_at : ℕ

pub record RelationType : Type 0 where
  pub relation_type_pk : ℕ
  pub org_id : String
  pub predicate : String
  pub domain : String
  pub range_type : String
  pub inverse : Option String
  pub functional : Bool
  pub confidence : Option ℕ
  pub evidence_count : ℕ
  -- the distinct surfaces in order; the column joins them by commas
  pub surfaces : Option (List String)
  pub provenance : String
  pub updated_at : ℕ

pub record Card (J : Type 0) : Type 0 where
  pub card_pk : ℕ
  pub org_id : String
  pub kind : String
  pub card_id : String
  pub layer : String
  pub title : Option String
  pub body : String
  pub frontmatter : Option J
  pub aliases : List String
  pub markings : List String
  pub origin : String
  pub deprecated : Bool
  pub deprecated_at : Option ℕ
  pub source_path : Option String
  pub content_hash : String
  pub updated_at : ℕ

pub record CardRef (J : Type 0) : Type 0 where
  pub from_card_pk : ℕ
  pub to_kind : String
  pub to_card_id : String
  pub relation : String
  pub extra : Option J

pub record TableStat (J : Type 0) : Type 0 where
  pub table_rk : String
  pub population_row_count : Option ℕ
  pub sample_row_count : Option ℕ
  pub source_system : Option String
  pub sample_description : Option String
  pub sample_rows : List J
  pub samples_persisted : Bool
  pub extra_metadata : Option J
  pub updated_at : ℕ

pub record ColumnStat (J : Type 0) : Type 0 where
  pub column_rk : String
  pub table_rk : String
  pub n_rows : ℕ
  pub null_rate : J
  pub distinct_count : Option ℕ
  pub mean : Option J
  pub std : Option J
  pub min_value : Option J
  pub max_value : Option J
  pub cardinality_tier : Option String
  pub top_frequencies : List J
  pub samples_persisted : Bool
  pub declared_type : Option String
  pub role_hint : Option String
  pub stats_are_approximate : Bool
  pub updated_at : ℕ
