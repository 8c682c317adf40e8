-- ===== src/Spine/Hierarchy/Invariants.antt =====
-- What holds of a session and is kept by each kind of write is kept by a whole document.
pub mod Placing
use nexcraft.Base.{
  ℕ, ◌≡◌, refl, ◌∙◌, ap, sym, String, ◌<>◌, Bool, true, false, Option, none, some, List, [], ◌∷◌,
  if◌then◌else◌, Result, ok, err, Error, ◌⊎◌, str_eq, Bool-cases, inl, inr, Option-cases,
}
use nexcraft.Base.Dict.{Dict}
use nexcraft.Base.Exec
use nexcraft.Base.Exec.{Exec}
use nexcraft.Spine.Table
use nexcraft.Spine.Table.{Table}
use nexcraft.Spine.Models.{
  Payload, TableMetadata, LineageEdge, SchemaCatalog, Source, Session, flush_all, enqueue_task,
}
use nexcraft.Spine.Inferences.{one_or_none, is_edge, audit}
use nexcraft.Spine.Hierarchy.{
  CatalogIn, is_catalog, catalog_uid, put_catalog, upsert_catalog, is_source,
}
use nexcraft.Spine.Hierarchy.Places.{
  cluster_rk_of, if_missing, is_database, is_cluster, is_schema, is_link, is_ext,
  ensure_database_metadata, ensure_cluster_metadata, ensure_schema_metadata, link,
  ensure_schema_catalog_link, put_schema_ext, upsert_schema_ext,
}
use nexcraft.Spine.Hierarchy.Rows.{
  MdlColumn, MdlModel, Texts, text_or, put_table, is_table_rk, is_column_rk, is_table_ext,
  is_column_ext, put_table_ext, put_column, put_column_ext, reference_of,
}
use nexcraft.Spine.Hierarchy.Models.{
  Target, table_target, column_target, describe, upsert_table_ext, upsert_column, upsert_columns,
  put_edge, upsert_lineage_edge, add_reference, add_references, put_model, write_model,
  upsert_model,
}
use nexcraft.Spine.Hierarchy.Models.Frame.{frame, describe-frame, describe-sources}
use nexcraft.Spine.Hierarchy.Documents.{
  MdlDocument, link_source, bind_catalog, place_schema, upsert_models, upsert_document,
  upsert_mdl_document,
}
use nexcraft.Spine.Hierarchy.Invariants.Placing.{IsPlaceable, place_schema-keeps}

pub found_cases :
    {A : Type 0} (r : Result (Option A))
    → ((e : Error) × (r ≡ err e)) ⊎ ((o : Option A) × (r ≡ ok o))
found_cases (err e) = inl (e, refl)
found_cases (ok o) = inr (o, refl)

-- What a call keeps and what comes after it keeps, both keep.
pub bind-keeps :
    {S A B : Type 0} (P : S → Type 0) (m : Exec S A) (f : A → Exec S B) (s : S)
    → P (m s).1
    → ((a : A) (t : S) → P t → P (f a t).1)
    → P (Exec.◌>>=◌ m f s).1
bind-keeps {A = A} {B = B} P m f s p after = go (m s).0
  where
    go : (r : Result A) → P (Exec.resume r f (m s).1).1
    go (ok a) = after a (m s).1 p
    go (err e) = p

module _ {J : Type 0} where
  -- What the writing of the models keeps, when it keeps the property at each row.
  pub record IsWritable (P : Session J → Type 0) : Type 0 where
    pub placeable : IsPlaceable P
    pub queued :
        (kind : String) (payload : Payload) (now : ℕ) {s : Session J}
        → P s
        → P (enqueue_task kind payload now s)
    pub table_put :
        (model : MdlModel) (schema_rk : String) {s : Session J} (t : Session J)
        → frame t
          ≡ frame (record s {
            tables =
                put_table model schema_rk (Table.find (is_table_rk model.rk) s.tables) s.tables;
          })
        → t.sources ≡ s.sources
        → P s
        → P (flush_all t)
    pub table_ext_put :
        (texts : Texts) (model : MdlModel) (inline : Bool) (now : ℕ) {s : Session J}
        → s.table_exts.added ≡ []
        → P s
        → P (upsert_table_ext texts model inline now s)
    pub column_put :
        (col : MdlColumn) (table_rk : String) {s : Session J}
        → P s
        → P (
            flush_all (record s {
              columns =
                  put_column col table_rk (Table.find (is_column_rk col.rk) s.columns) s.columns;
            }))
    pub column_ext_put :
        (col : MdlColumn) (now : ℕ) {s : Session J}
        → s.column_exts.added ≡ []
        → P s
        → P (record s {
          column_exts =
              put_column_ext col now
                (Table.find (is_column_ext col.rk) s.column_exts)
                s.column_exts;
        })
    pub edge_put :
        (from_rk to_rk edge_kind evidence_kind : String) (confidence : Option ℕ)
        (evidence_ref : Option String) (o : Option LineageEdge) {s : Session J}
        → one_or_none (is_edge from_rk to_rk edge_kind) s.lineage.stored ≡ ok o
        → P s
        → P (put_edge from_rk to_rk edge_kind evidence_kind confidence evidence_ref o s)

  module _ (P : Session J → Type 0) (keeps : IsWritable P) where
    describe-keeps :
        (target : Target) (rk : String) (description provenance : Option String) (s : Session J)
        → P s
        → P (describe target rk description provenance s)
    describe-keeps target rk description provenance s =
        keeps.placeable.framed (sym (describe-frame target rk description provenance s))
          (sym (describe-sources target rk description provenance s))

    flushed_empty : (t : Session J) → (flush_all t).column_exts.added ≡ []
    unfolding flush_all
    flushed_empty t = refl

    upsert_column-keeps :
        (col : MdlColumn) (table_rk : String) (now : ℕ) (s : Session J)
        → P s
        → P (upsert_column col table_rk now s)
    unfolding upsert_column
    upsert_column-keeps col table_rk now s p = keeps.queued "qdrant_field" _ now (
        keeps.column_ext_put col now
          (ap (λ f. f.4.added)
              (describe-frame column_target col.rk col.description col.description_provenance _)
            ∙ flushed_empty _)
          (describe-keeps column_target col.rk col.description col.description_provenance _
            (keeps.column_put col table_rk p)))

    upsert_columns-keeps :
        (cols : List MdlColumn) (table_rk : String) (now : ℕ) (s : Session J)
        → P s
        → P (upsert_columns cols table_rk now s)
    unfolding upsert_columns
    upsert_columns-keeps [] table_rk now s p = p
    upsert_columns-keeps (col ∷ cols) table_rk now s p =
        upsert_columns-keeps cols table_rk now (upsert_column col table_rk now s)
          (upsert_column-keeps col table_rk now s p)

    queued_empty :
        (kind : String) (payload : Payload) (now : ℕ) (t : Session J)
        → (enqueue_task kind payload now t).table_exts.added ≡ []
    unfolding enqueue_task flush_all
    queued_empty kind payload now t = refl

    pub write_model-keeps :
        (actor : String) (texts : Texts) (model : MdlModel) (schema_rk : String) (inline : Bool)
        (now : ℕ) (s : Session J)
        → P s
        → P (write_model actor texts model schema_rk inline now s)
    unfolding write_model put_model audit
    write_model-keeps actor texts model schema_rk inline now s p =
        upsert_columns-keeps model.columns model.rk now _ (
          keeps.table_ext_put texts model inline now
            (ap (λ f. f.2.added)
                (describe-frame table_target model.rk model.description model.description_provenance
                  _)
              ∙ queued_empty "qdrant_asset" _ now _)
            (describe-keeps table_target model.rk model.description model.description_provenance _
              (keeps.queued "qdrant_asset" _ now (keeps.table_put model schema_rk _ refl refl p))))

    pub upsert_lineage_edge-keeps :
        (from_rk to_rk edge_kind evidence_kind : String) (confidence : Option ℕ)
        (evidence_ref : Option String) (s : Session J)
        → P s
        → P (upsert_lineage_edge from_rk to_rk edge_kind evidence_kind confidence evidence_ref s).1
    unfolding upsert_lineage_edge
    upsert_lineage_edge-keeps from_rk to_rk edge_kind evidence_kind confidence evidence_ref s p =
        elim (found_cases (one_or_none (is_edge from_rk to_rk edge_kind) s.lineage.stored)) [
          | inl (e, h) ↦ rw h p
          | inr (o, h) ↦
              rw h
                (keeps.edge_put from_rk to_rk edge_kind evidence_kind confidence evidence_ref o h p)
        ]

    pub add_reference-keeps :
        (texts : Texts) (rk schema_rk : String) (o : Option String) (s : Session J)
        → P s
        → P (add_reference texts rk schema_rk o s).1
    unfolding add_reference
    add_reference-keeps texts rk schema_rk none s p = p
    add_reference-keeps texts rk schema_rk (some target) s p =
        upsert_lineage_edge-keeps rk (texts.before_last_slash schema_rk <> "/" <> target)
          "depends_on" "declared_fk" none none s p

    pub add_references-keeps :
        (texts : Texts) (cols : List MdlColumn) (rk schema_rk : String) (s : Session J)
        → P s
        → P (add_references texts cols rk schema_rk s).1
    unfolding add_references
    add_references-keeps texts [] rk schema_rk s p = p
    add_references-keeps texts (col ∷ cols) rk schema_rk s p =
        bind-keeps P (add_reference texts rk schema_rk (reference_of texts col)) _ s
          (add_reference-keeps texts rk schema_rk (reference_of texts col) s p)
          (λ u t q. add_references-keeps texts cols rk schema_rk t q)

    pub upsert_models-keeps :
        (actor : String) (texts : Texts) (models : List MdlModel) (schema_rk : String)
        (inline : Bool) (now : ℕ) (s : Session J)
        → P s
        → P (upsert_models actor texts models schema_rk inline now s).1
    unfolding upsert_models upsert_model
    upsert_models-keeps actor texts [] schema_rk inline now s p = p
    upsert_models-keeps actor texts (model ∷ models) schema_rk inline now s p =
        bind-keeps P (upsert_model actor texts model schema_rk inline now) _ s
          (add_references-keeps texts model.columns model.rk schema_rk _
            (write_model-keeps actor texts model schema_rk inline now s p))
          (λ u t q.
            bind-keeps P (upsert_models actor texts models schema_rk inline now) _ t
              (upsert_models-keeps actor texts models schema_rk inline now t q) (λ touched w r. r))

    pub upsert_mdl_document-keeps :
        (actor : String) (texts : Texts) (defaults : Dict J) (doc : MdlDocument)
        (source_id : Option String) (inline : Bool) (now : ℕ) (s : Session J)
        → ((source : Source J)
            → Table.find (is_source (text_or source_id doc.source_id)) s.sources ≡ some source
            → (t : Session J) → P t
            → P (
                link_source source
                  (cluster_rk_of (text_or source_id doc.source_id) source.kind doc.catalog)
                  t))
        → P s
        → P (upsert_mdl_document actor texts defaults doc source_id inline now s).1
    unfolding upsert_mdl_document upsert_document
    upsert_mdl_document-keeps actor texts defaults doc source_id inline now s linked p =
        let sid = text_or source_id doc.source_id in
        elim (Option-cases (Table.find (is_source sid) s.sources)) [
          | inl missing ↦ rw missing p
          | inr (source, found) ↦ rw found (
              upsert_models-keeps actor texts doc.models _ inline now _ (
                place_schema-keeps P keeps.placeable actor defaults sid source doc now s
                  (linked source found) p))
        ]
