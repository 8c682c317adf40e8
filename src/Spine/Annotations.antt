-- ===== src/Spine/Annotations.antt =====
-- dao/annotations.py: `AnnotationDAO`, which writes the annotations of an asset and keeps what a more
-- trusted source wrote. Of two provenances of one time the query may return either; here it is the
-- first.
pub mod Fields
pub mod Laws
use nexcraft.Base.{
  ℕ, suc, String, Bool, true, false, Option, none, some, List, [], ◌∷◌, ltb, ◌&&◌, ◌||◌, str_eq,
  if◌then◌else◌, Result, ok, err, value_error,
}
use text.Mathlib.Text.{starts_with}
use nexcraft.Base.Exec.{Exec}
use nexcraft.Spine.Table
use nexcraft.Spine.Table.{Table}
use nexcraft.Spine.Models.{
  TableExt, AssetAnnotationProvenance, Session, add_audit, enqueue_asset_reindex,
}

-- `_FIELDS`
pub data AnnotationField : Type 0 where
  concepts key_areas causal_relations : AnnotationField

abbrev pub field_name : AnnotationField → String
field_name concepts = "concepts"
field_name key_areas = "key_areas"
field_name causal_relations = "causal_relations"

-- `getattr` and `setattr` of a row with the name of a field.
abbrev pub field_of : AnnotationField → TableExt → List String
field_of concepts row = row.concepts
field_of key_areas row = row.key_areas
field_of causal_relations row = row.causal_relations

abbrev pub set_field : AnnotationField → List String → ℕ → TableExt → TableExt
set_field concepts value now row = record row { concepts = value; updated_at = now }
set_field key_areas value now row = record row { key_areas = value; updated_at = now }
set_field causal_relations value now row = record row { causal_relations = value; updated_at = now }

pub record AssetAnnotations : Type 0 where
  pub asset_rk : String
  pub concepts : List String
  pub key_areas : List String
  pub causal_relations : List String
  pub confidence : ℕ
  pub rationale : String
  pub source : String
  pub source_model : Option String
  pub written_at : ℕ
  pub written_by : String

abbrev pub proposed : AssetAnnotations → AnnotationField → List String
proposed anno concepts = anno.concepts
proposed anno key_areas = anno.key_areas
proposed anno causal_relations = anno.causal_relations

-- `_trust`
unfoldable pub trust : String → ℕ
trust source =
    if str_eq source "human"
    then 3
    else if starts_with source "rule_"
    then 2
    else if str_eq source "llm_enrichment"
    then 1
    else 0

pub data Outcome : Type 0 where
  applied skipped_clobber noop_empty : Outcome

abbrev pub later :
    AssetAnnotationProvenance → Option AssetAnnotationProvenance → Option AssetAnnotationProvenance
later r none = some r
later r (some q) = if ltb r.written_at q.written_at then some q else some r

-- `order_by(desc(written_at)).limit(1)`
abbrev pub newest :
    (AssetAnnotationProvenance → Bool)
    → List AssetAnnotationProvenance
    → Option AssetAnnotationProvenance
newest p [] = none
newest p (r ∷ rs) = let rest = newest p rs in if p r then later r rest else rest

abbrev pub is_about : String → AnnotationField → AssetAnnotationProvenance → Bool
is_about asset_rk field r = str_eq r.asset_rk asset_rk && str_eq r.field (field_name field)

abbrev pub is_more_trusted : Option AssetAnnotationProvenance → String → Bool
is_more_trusted none source = false
is_more_trusted (some prior) source = ltb (trust source) (trust prior.source)

-- `anno.written_by or self.actor`
abbrev pub writer : String → String → String
writer written_by actor = if str_eq written_by "" then actor else written_by

abbrev pub provenance_of : String → AssetAnnotations → AnnotationField → AssetAnnotationProvenance
provenance_of actor anno field = record {
  asset_rk = anno.asset_rk;
  field = field_name field;
  source = anno.source;
  source_model = anno.source_model;
  confidence = anno.confidence;
  rationale = anno.rationale;
  written_by = writer anno.written_by actor;
  written_at = anno.written_at;
}

abbrev pub is_applied : Outcome → Bool
is_applied applied = true
is_applied _ = false

module _ {J : Type 0} (actor : String) where
  unfoldable pub latest_provenance :
      String → AnnotationField → Session J → Option AssetAnnotationProvenance
  latest_provenance asset_rk field s = newest (is_about asset_rk field) s.provenances.stored

  -- `_audit_apply` and `_audit_skip`
  abbrev pub audit_field : String → AssetAnnotations → AnnotationField → Session J → Session J
  audit_field action anno field s =
      add_audit
        (record {
          actor = writer anno.written_by actor;
          action = action;
          tier = "asset_annotation";
          entity_uid = anno.asset_rk;
          field_path = some (field_name field);
        })
        s

  abbrev pub apply_field :
      AssetAnnotations → AnnotationField → List String → ℕ → Session J → Session J
  apply_field anno field value now s = audit_field "update" anno field (record s {
    table_exts =
        Table.update (λ r. str_eq r.table_rk anno.asset_rk) (set_field field value now)
          s.table_exts;
    provenances = Table.add (provenance_of actor anno field) s.provenances;
  })

  -- One round of the loop over the fields.
  abbrev pub write_value :
      AssetAnnotations → AnnotationField → ℕ → Session J → List String → Outcome × Session J
  write_value anno field now s [] = (noop_empty, s)
  write_value anno field now s (v ∷ value) =
      if is_more_trusted (latest_provenance anno.asset_rk field s) anno.source
      then (skipped_clobber, audit_field "sync_skipped_clobber" anno field s)
      else (applied, apply_field anno field (v ∷ value) now s)

  pub write_field : AssetAnnotations → AnnotationField → ℕ → Session J → Outcome × Session J
  unfolding latest_provenance trust
  write_field anno field now s = write_value anno field now s (proposed anno field)

  -- The outcomes by field, and the reindexing of an asset that changed.
  write_fields : AssetAnnotations → ℕ → Session J → (Outcome × Outcome × Outcome) × Session J
  unfolding write_field
  write_fields anno now s =
      let (o₁, s₁) = write_field anno concepts now s in
      let (o₂, s₂) = write_field anno key_areas now s₁ in
      let (o₃, s₃) = write_field anno causal_relations now s₂ in
      (
        (o₁, o₂, o₃),
        if is_applied o₁ || is_applied o₂ || is_applied o₃
            then enqueue_asset_reindex anno.asset_rk "table" now s₃
            else s₃,
      )

  write_to : AssetAnnotations → ℕ → Option TableExt → Exec (Session J) (Outcome × Outcome × Outcome)
  unfolding write_fields
  write_to anno now none s = (err value_error, s)
  write_to anno now (some target) s =
      let (outcomes, s') = write_fields anno now s in (ok outcomes, s')

  unfoldable pub write : AssetAnnotations → ℕ → Exec (Session J) (Outcome × Outcome × Outcome)
  unfolding write_to
  write anno now s =
      write_to anno now (Table.find (λ r. str_eq r.table_rk anno.asset_rk) s.table_exts) s
