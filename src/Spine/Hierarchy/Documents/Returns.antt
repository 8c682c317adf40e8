-- ===== src/Spine/Hierarchy/Documents/Returns.antt =====
-- No query for an edge in `upsert_mdl_document` finds two, so that none raises.
use nexcraft.Base.{
  ℕ, ◌≡◌, refl, ◌∙◌, ap, sym, subst, String, ◌<>◌, Bool, Option, none, some, List, [], ◌∷◌, ◌++◌,
  map, append-nil, ok,
}
use nexcraft.Base.Dict.{Dict}
use nexcraft.Spine.Table
use nexcraft.Spine.Table.{Table, rows, change}
use nexcraft.Spine.Table.Unique.{IsUnique, append-IsUnique, change-IsUnique}
use nexcraft.Spine.Models.{Session, Source, LineageEdge, flush_all, enqueue_task}
use nexcraft.Spine.Inferences.{one_or_none, is_edge}
use nexcraft.Spine.Hierarchy.{is_source}
use nexcraft.Spine.Hierarchy.Rows.{MdlColumn, MdlModel, Texts, text_or, reference_of}
use nexcraft.Spine.Hierarchy.Models.{
  upsert_table_ext, put_edge, upsert_lineage_edge, add_reference, add_references, write_model,
  upsert_model,
}
use nexcraft.Spine.Hierarchy.Models.Frame.{frame}
use nexcraft.Spine.Hierarchy.Invariants.{
  IsWritable, write_model-keeps, add_reference-keeps, add_references-keeps,
}
use nexcraft.Spine.Hierarchy.Invariants.Placing.{link_source-keeps, place_schema-keeps}
use nexcraft.Spine.Hierarchy.Documents.{
  MdlDocument, upsert_models, upsert_document, upsert_mdl_document,
}
use nexcraft.Spine.Hierarchy.Models.Edges.{
  same_edge, same_edge_comm, one_or_none_of_unique, one_or_none-absent,
}

module _ {J : Type 0} where
  -- The edges are stored, and no two have the same ends and kind.
  pub record HasUniqueEdges (s : Session J) : Type 0 where
    pub flushed : s.lineage.added ≡ []
    pub unique : IsUnique same_edge s.lineage.stored

  framed-HasUniqueEdges :
      {s t : Session J} → frame s ≡ frame t → HasUniqueEdges s → HasUniqueEdges t
  framed-HasUniqueEdges e h = record {
    flushed = subst (λ f. f.5.added ≡ []) e h.flushed;
    unique = subst (λ f. IsUnique same_edge f.5.stored) e h.unique;
  }

  flushed-HasUniqueEdges : {s : Session J} → HasUniqueEdges s → HasUniqueEdges (flush_all s)
  unfolding flush_all
  flushed-HasUniqueEdges {s} h = record {
    flushed = refl;
    unique =
        subst (IsUnique same_edge)
          (sym (ap (λ xs. s.lineage.stored ++ xs) h.flushed ∙ append-nil _)) h.unique;
  }

  put_edge-HasUniqueEdges :
      (from_rk to_rk edge_kind evidence_kind : String) (confidence : Option ℕ)
      (evidence_ref : Option String) (o : Option LineageEdge) (s : Session J)
      → one_or_none (is_edge from_rk to_rk edge_kind) s.lineage.stored ≡ ok o
      → HasUniqueEdges s
      → HasUniqueEdges (put_edge from_rk to_rk edge_kind evidence_kind confidence evidence_ref o s)
  unfolding put_edge flush_all
  put_edge-HasUniqueEdges from_rk to_rk edge_kind evidence_kind confidence evidence_ref none s
        absent h =
      record {
        flushed = refl;
        unique = rw h.flushed (
            append-IsUnique same_edge s.lineage.stored _ same_edge_comm
              (one_or_none-absent (is_edge from_rk to_rk edge_kind) s.lineage.stored absent)
              h.unique);
      }
  put_edge-HasUniqueEdges from_rk to_rk edge_kind evidence_kind confidence evidence_ref (some edge)
        s found h =
      record {
        flushed = h.flushed;
        unique =
            change-IsUnique same_edge (is_edge from_rk to_rk edge_kind) _ s.lineage.stored
              (λ a b. refl) (λ a b. refl) h.unique;
      }

  edges_writable : IsWritable {J = J} HasUniqueEdges
  unfolding upsert_table_ext enqueue_task
  edges_writable = record {
    placeable = record {
      framed = λ e same h. framed-HasUniqueEdges e h;
      flushed = flushed-HasUniqueEdges;
    };
    queued = λ kind payload now {s} h.
        let h' = flushed-HasUniqueEdges h in record { flushed = h'.flushed; unique = h'.unique };
    table_put = λ model schema_rk {s} t e same h. flushed-HasUniqueEdges {s = t} (record {
      flushed = subst (λ f. f.5.added ≡ []) (sym e) h.flushed;
      unique = subst (λ f. IsUnique same_edge f.5.stored) (sym e) h.unique;
    });
    table_ext_put =
        λ texts model inline now {s} e h. record { flushed = h.flushed; unique = h.unique };
    column_put = λ col table_rk {s} h.
        flushed-HasUniqueEdges (record { flushed = h.flushed; unique = h.unique });
    column_ext_put = λ col now {s} e h. record { flushed = h.flushed; unique = h.unique };
    edge_put = λ from_rk to_rk edge_kind evidence_kind confidence evidence_ref o {s} found h.
        put_edge-HasUniqueEdges from_rk to_rk edge_kind evidence_kind confidence evidence_ref o s
          found h;
  }

  add_reference-returns :
      (texts : Texts) (rk schema_rk : String) (o : Option String) (s : Session J)
      → HasUniqueEdges s
      → (add_reference texts rk schema_rk o s).0 ≡ ok tt
  unfolding add_reference upsert_lineage_edge
  add_reference-returns texts rk schema_rk none s h = refl
  add_reference-returns texts rk schema_rk (some target) s h =
      let to_rk = texts.before_last_slash schema_rk <> "/" <> target in
      let (o, found) = one_or_none_of_unique rk to_rk "depends_on" s.lineage.stored h.unique in
      rw found refl

  add_references-returns :
      (texts : Texts) (cols : List MdlColumn) (rk schema_rk : String) (s : Session J)
      → HasUniqueEdges s
      → (add_references texts cols rk schema_rk s).0 ≡ ok tt
  unfolding add_references
  add_references-returns texts [] rk schema_rk s h = refl
  add_references-returns texts (col ∷ cols) rk schema_rk s h =
      let reference = reference_of texts col in
      rw (add_reference-returns texts rk schema_rk reference s h) (
        add_references-returns texts cols rk schema_rk _
          (add_reference-keeps HasUniqueEdges edges_writable texts rk schema_rk reference s h))

  upsert_models-returns :
      (actor : String) (texts : Texts) (models : List MdlModel) (schema_rk : String) (inline : Bool)
      (now : ℕ) (s : Session J)
      → HasUniqueEdges s
      → (upsert_models actor texts models schema_rk inline now s).0 ≡ ok (map MdlModel.rk models)
  unfolding upsert_models upsert_model
  upsert_models-returns actor texts [] schema_rk inline now s h = refl
  upsert_models-returns actor texts (model ∷ models) schema_rk inline now s h =
      let written = write_model actor texts model schema_rk inline now s in
      let h' =
        write_model-keeps HasUniqueEdges edges_writable actor texts model schema_rk inline now s
          h in
      rw (add_references-returns texts model.columns model.rk schema_rk written h') (
        rw
          (upsert_models-returns actor texts models schema_rk inline now _ (
            add_references-keeps HasUniqueEdges edges_writable texts model.columns model.rk
              schema_rk written h'))
          refl)

module _ {J : Type 0} (actor : String) (texts : Texts) (defaults : Dict J) where
  -- When the source of a document is stored and the stored edges differ in their ends or their kind,
  -- with none waiting for a flush, and if no flush fails, the document is written to its end: the
  -- result is the list of the rks of its models.
  pub upsert_mdl_document-returns :
      (doc : MdlDocument) (source_id : Option String) (inline : Bool) (now : ℕ) (s : Session J)
      {source : Source J}
      → Table.find (is_source (text_or source_id doc.source_id)) s.sources ≡ some source
      → HasUniqueEdges s
      → (upsert_mdl_document actor texts defaults doc source_id inline now s).0
        ≡ ok (map MdlModel.rk doc.models)
  unfolding upsert_mdl_document upsert_document
  upsert_mdl_document-returns doc source_id inline now s {source} found h = rw found (
      upsert_models-returns actor texts doc.models _ inline now _ (
        place_schema-keeps HasUniqueEdges edges_writable.placeable actor defaults
          (text_or source_id doc.source_id) source doc now s
          (link_source-keeps HasUniqueEdges (λ u v e p. framed-HasUniqueEdges e p) source _) h))
