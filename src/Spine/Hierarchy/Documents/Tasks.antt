-- ===== src/Spine/Hierarchy/Documents/Tasks.antt =====
-- The tasks that `upsert_mdl_document` queues.
use nexcraft.Base.{
  ℕ, ◌≡◌, refl, ◌∙◌, ap, sym, String, ◌<>◌, Bool, Option, none, some, List, [], ◌∷◌, ◌++◌, map,
  if◌then◌else◌, ok, Option-cases, inl, inr,
}
use nexcraft.Base.Dict.{Dict}
use nexcraft.Base.Exec.{bind-eq-ok}
use nexcraft.Reindex.Queue.{Queue, enqueue, enqueue_many}
use nexcraft.Spine.Table
use nexcraft.Spine.Models.{
  Payload, Session, flush_all, enqueue_task, LineageEdge, asset_payload, field_payload,
}
use nexcraft.Spine.Inferences.{one_or_none, is_edge, audit}
use nexcraft.Spine.Hierarchy.{is_source}
use nexcraft.Spine.Hierarchy.Rows.{MdlColumn, MdlModel, Texts, text_or, reference_of}
use nexcraft.Spine.Hierarchy.Models.{
  column_target, table_target, upsert_table_ext, upsert_column, upsert_columns, put_edge,
  upsert_lineage_edge, add_reference, add_references, put_model, write_model, upsert_model,
}
use nexcraft.Spine.Hierarchy.Models.Frame.{describe-frame}
use nexcraft.Spine.Hierarchy.Invariants.{found_cases, bind-keeps}
use nexcraft.Spine.Hierarchy.Invariants.Placing.{IsPlaceable, link_source-keeps, place_schema-keeps}
use nexcraft.Spine.Hierarchy.Documents.{
  MdlDocument, place_schema, upsert_models, upsert_document, upsert_mdl_document,
}

-- The task of a table or view, and those of its columns.
abbrev pub column_tasks : String → List MdlColumn → List (String × Payload)
column_tasks rk [] = []
column_tasks rk (col ∷ cols) =
    ("qdrant_field", field_payload col.rk rk "column") ∷ column_tasks rk cols

abbrev pub model_tasks : List MdlModel → List (String × Payload)
model_tasks [] = []
model_tasks (model ∷ models) =
    ("qdrant_asset", asset_payload model.rk (if model.is_view then "view" else "table"))
    ∷ (column_tasks model.rk model.columns ++ model_tasks models)

pub append-enqueue_many :
    (q : Queue Payload) (xs ys : List (String × Payload)) (now : ℕ)
    → (enqueue_many q (xs ++ ys) now).1 ≡ (enqueue_many (enqueue_many q xs now).1 ys now).1
unfolding enqueue_many
append-enqueue_many q [] ys now = refl
append-enqueue_many q ((kind, payload) ∷ xs) ys now =
    append-enqueue_many (enqueue q kind payload now).1 xs ys now

module _ {J : Type 0} where
  upsert_columns-queue :
      (cols : List MdlColumn) (rk : String) (now : ℕ) (s : Session J)
      → (upsert_columns cols rk now s).queue ≡ (enqueue_many s.queue (column_tasks rk cols) now).1
  unfolding upsert_columns upsert_column enqueue_many flush_all enqueue_task
  upsert_columns-queue [] rk now s = refl
  upsert_columns-queue (col ∷ cols) rk now s =
      upsert_columns-queue cols rk now (upsert_column col rk now s)
      ∙ ap
          (λ q.
            (enqueue_many (enqueue q "qdrant_field" (field_payload col.rk rk "column") now).1
              (column_tasks rk cols) now).1)
          (ap (λ f. f.0)
            (describe-frame column_target col.rk col.description col.description_provenance _))

  write_model-queue :
      (actor : String) (texts : Texts) (model : MdlModel) (schema_rk : String) (inline : Bool)
      (now : ℕ) (s : Session J)
      → (write_model actor texts model schema_rk inline now s).queue
        ≡ (enqueue_many
            (enqueue s.queue "qdrant_asset"
              (asset_payload model.rk (if model.is_view then "view" else "table"))
              now).1
            (column_tasks model.rk model.columns)
            now).1
  unfolding write_model put_model audit upsert_table_ext flush_all enqueue_task
  write_model-queue actor texts model schema_rk inline now s =
      upsert_columns-queue model.columns model.rk now _
      ∙ ap (λ q. (enqueue_many q (column_tasks model.rk model.columns) now).1)
          (ap (λ f. f.0)
            (describe-frame table_target model.rk model.description model.description_provenance _))

  put_edge-queue :
      (from_rk to_rk edge_kind evidence_kind : String) (confidence : Option ℕ)
      (evidence_ref : Option String) (o : Option LineageEdge) (s : Session J)
      → (put_edge from_rk to_rk edge_kind evidence_kind confidence evidence_ref o s).queue ≡ s.queue
  unfolding put_edge flush_all
  put_edge-queue from_rk to_rk edge_kind evidence_kind confidence evidence_ref none s = refl
  put_edge-queue from_rk to_rk edge_kind evidence_kind confidence evidence_ref (some edge) s = refl

  add_reference-queue :
      (texts : Texts) (rk schema_rk : String) (o : Option String) (s : Session J)
      → (add_reference texts rk schema_rk o s).1.queue ≡ s.queue
  unfolding add_reference upsert_lineage_edge
  add_reference-queue texts rk schema_rk none s = refl
  add_reference-queue texts rk schema_rk (some target) s =
      let to_rk = texts.before_last_slash schema_rk <> "/" <> target in
      elim (found_cases (one_or_none (is_edge rk to_rk "depends_on") s.lineage.stored)) [
        | inl (e, h) ↦ rw h refl
        | inr (o, h) ↦ rw h (put_edge-queue rk to_rk "depends_on" "declared_fk" none none o s)
      ]

  add_references-queue :
      (texts : Texts) (cols : List MdlColumn) (rk schema_rk : String) (s : Session J)
      → (add_references texts cols rk schema_rk s).1.queue ≡ s.queue
  unfolding add_references
  add_references-queue texts [] rk schema_rk s = refl
  add_references-queue texts (col ∷ cols) rk schema_rk s =
      bind-keeps (λ t. t.queue ≡ s.queue)
        (add_reference texts rk schema_rk (reference_of texts col)) _ s
        (add_reference-queue texts rk schema_rk (reference_of texts col) s)
        (λ u t q. add_references-queue texts cols rk schema_rk t ∙ q)

  upsert_models-queue :
      (actor : String) (texts : Texts) (models : List MdlModel) (schema_rk : String) (inline : Bool)
      (now : ℕ) (s : Session J) {touched : List String}
      → (upsert_models actor texts models schema_rk inline now s).0 ≡ ok touched
      → (touched ≡ map MdlModel.rk models)
        × ((upsert_models actor texts models schema_rk inline now s).1.queue
            ≡ (enqueue_many s.queue (model_tasks models) now).1)
  unfolding upsert_models upsert_model enqueue_many
  upsert_models-queue actor texts [] schema_rk inline now s returned = (cc, refl)
  upsert_models-queue actor texts (model ∷ models) schema_rk inline now s returned =
      let first = upsert_model actor texts model schema_rk inline now in
      let (u, one, step) = bind-eq-ok first _ s returned in
      let (rks, two, step') =
        bind-eq-ok (upsert_models actor texts models schema_rk inline now) _ (first s).1
          (sym (ap (λ r. r.0) step) ∙ returned) in
      let (rest, queue) =
        upsert_models-queue actor texts models schema_rk inline now (first s).1 two in
      let written = write_model actor texts model schema_rk inline now s in
      (
        cc (sym (ap (λ r. r.0) (step ∙ step')) ∙ returned),
        ap (λ r. r.1.queue) (step ∙ step')
            ∙ queue
            ∙ ap (λ q. (enqueue_many q (model_tasks models) now).1)
                (add_references-queue texts model.columns model.rk schema_rk written
                  ∙ write_model-queue actor texts model schema_rk inline now s)
            ∙ sym (
                append-enqueue_many _ (column_tasks model.rk model.columns) (model_tasks models)
                  now),
      )

  queue_placeable : (q : Queue Payload) → IsPlaceable {J = J} (λ t. t.queue ≡ q)
  unfolding flush_all
  queue_placeable q = record {
    framed = λ {s} {t} e same p. sym (ap (λ f. f.0) e) ∙ p;
    flushed = λ {s} p. p;
  }

module _ {J : Type 0} (actor : String) (texts : Texts) (defaults : Dict J) where
  -- A document that is written returns the rks of its models and has queued, in their order, the task
  -- of each model and after it one for each of its columns, and nothing else.
  pub upsert_mdl_document-tasks :
      (doc : MdlDocument) (source_id : Option String) (inline : Bool) (now : ℕ) (s : Session J)
      {touched : List String}
      → (upsert_mdl_document actor texts defaults doc source_id inline now s).0 ≡ ok touched
      → (touched ≡ map MdlModel.rk doc.models)
        × ((upsert_mdl_document actor texts defaults doc source_id inline now s).1.queue
            ≡ (enqueue_many s.queue (model_tasks doc.models) now).1)
  unfolding upsert_mdl_document upsert_document
  upsert_mdl_document-tasks doc source_id inline now s returned =
      let sid = text_or source_id doc.source_id in
      elim (Option-cases (Table.find (is_source sid) s.sources)) [
        | inl missing ↦ cc (rw missing at returned)
        | inr (source, found) ↦
            let (schema_rk, placed) = place_schema actor defaults sid source doc now s in
            let (touched, queue) =
              upsert_models-queue actor texts doc.models schema_rk inline now placed
                (rw found at returned) in
            rw found (
              touched,
              queue
                  ∙ ap (λ q. (enqueue_many q (model_tasks doc.models) now).1)
                      (place_schema-keeps (λ t. t.queue ≡ s.queue) (queue_placeable s.queue) actor
                        defaults sid source doc now s
                        (link_source-keeps (λ t. t.queue ≡ s.queue)
                          (λ u v e p. sym (ap (λ f. f.0) e) ∙ p) source _)
                        refl),
            )
      ]
