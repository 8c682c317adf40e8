-- ===== src/Spine/Hierarchy/Documents/Keys.antt =====
-- The keys of the rows that a document writes.
use nexcraft.Base.{ℕ, ◌≡◌, refl, sym, subst, String, Bool, Option, none, some, []}
use nexcraft.Base.Dict.{Dict}
use nexcraft.Spine.Models.{
  Payload, TableMetadata, TableExt, ColumnMetadata, ColumnExt, LineageEdge, Session, flush_all,
  enqueue_task,
}
use nexcraft.Spine.Hierarchy.Rows.{Texts}
use nexcraft.Spine.Hierarchy.Models.{put_edge, upsert_table_ext}
use nexcraft.Spine.Hierarchy.Models.Frame.{frame}
use nexcraft.Spine.Hierarchy.Invariants.Placing.{link_source-keeps}
use nexcraft.Spine.Hierarchy.Invariants.{IsWritable, upsert_mdl_document-keeps}
use nexcraft.Spine.Hierarchy.Documents.{MdlDocument, upsert_mdl_document}
use nexcraft.Spine.Hierarchy.Rows.Keys.{
  HasUniqueKeys, flush-HasUniqueKeys, put_table-HasUniqueKeys, put_column-HasUniqueKeys,
  put_column_ext-HasUniqueKeys, put_table_ext-HasUniqueKeys,
}

module _ {J : Type 0} where
  -- No primary key of the tables, the columns and their extensions stands twice in the session; rows
  -- of tables and columns do not wait for a flush.
  pub record IsKeyed (s : Session J) : Type 0 where
    pub tables_flushed : s.tables.added ≡ []
    pub columns_flushed : s.columns.added ≡ []
    pub tables_unique : HasUniqueKeys TableMetadata.rk s.tables
    pub table_exts_unique : HasUniqueKeys TableExt.table_rk s.table_exts
    pub columns_unique : HasUniqueKeys ColumnMetadata.rk s.columns
    pub column_exts_unique : HasUniqueKeys ColumnExt.column_rk s.column_exts

  framed-IsKeyed : {s t : Session J} → frame s ≡ frame t → IsKeyed s → IsKeyed t
  framed-IsKeyed e k = record {
    tables_flushed = subst (λ f. f.1.added ≡ []) e k.tables_flushed;
    columns_flushed = subst (λ f. f.3.added ≡ []) e k.columns_flushed;
    tables_unique = subst (λ f. HasUniqueKeys TableMetadata.rk f.1) e k.tables_unique;
    table_exts_unique = subst (λ f. HasUniqueKeys TableExt.table_rk f.2) e k.table_exts_unique;
    columns_unique = subst (λ f. HasUniqueKeys ColumnMetadata.rk f.3) e k.columns_unique;
    column_exts_unique = subst (λ f. HasUniqueKeys ColumnExt.column_rk f.4) e k.column_exts_unique;
  }

  flush_all-IsKeyed :
      (s : Session J)
      → HasUniqueKeys TableMetadata.rk s.tables
      → HasUniqueKeys TableExt.table_rk s.table_exts
      → HasUniqueKeys ColumnMetadata.rk s.columns
      → HasUniqueKeys ColumnExt.column_rk s.column_exts
      → IsKeyed (flush_all s)
  unfolding flush_all
  flush_all-IsKeyed s tables table_exts columns column_exts = record {
    tables_flushed = refl;
    columns_flushed = refl;
    tables_unique = flush-HasUniqueKeys TableMetadata.rk s.tables tables;
    table_exts_unique = flush-HasUniqueKeys TableExt.table_rk s.table_exts table_exts;
    columns_unique = flush-HasUniqueKeys ColumnMetadata.rk s.columns columns;
    column_exts_unique = flush-HasUniqueKeys ColumnExt.column_rk s.column_exts column_exts;
  }

  flushed-IsKeyed : {s : Session J} → IsKeyed s → IsKeyed (flush_all s)
  flushed-IsKeyed {s} k =
      flush_all-IsKeyed s k.tables_unique k.table_exts_unique k.columns_unique k.column_exts_unique

  put_edge-IsKeyed :
      (from_rk to_rk edge_kind evidence_kind : String) (confidence : Option ℕ)
      (evidence_ref : Option String) (o : Option LineageEdge) (s : Session J)
      → IsKeyed s
      → IsKeyed (put_edge from_rk to_rk edge_kind evidence_kind confidence evidence_ref o s)
  unfolding put_edge
  put_edge-IsKeyed from_rk to_rk edge_kind evidence_kind confidence evidence_ref none s k =
      flush_all-IsKeyed _ k.tables_unique k.table_exts_unique k.columns_unique k.column_exts_unique
  put_edge-IsKeyed from_rk to_rk edge_kind evidence_kind confidence evidence_ref (some edge) s k =
      record {
        tables_flushed = k.tables_flushed;
        columns_flushed = k.columns_flushed;
        tables_unique = k.tables_unique;
        table_exts_unique = k.table_exts_unique;
        columns_unique = k.columns_unique;
        column_exts_unique = k.column_exts_unique;
      }

  enqueue_task-IsKeyed :
      (kind : String) (payload : Payload) (now : ℕ) {s : Session J}
      → IsKeyed s
      → IsKeyed (enqueue_task kind payload now s)
  unfolding enqueue_task
  enqueue_task-IsKeyed kind payload now {s} k =
      let flushed = flushed-IsKeyed k in
      record {
        tables_flushed = flushed.tables_flushed;
        columns_flushed = flushed.columns_flushed;
        tables_unique = flushed.tables_unique;
        table_exts_unique = flushed.table_exts_unique;
        columns_unique = flushed.columns_unique;
        column_exts_unique = flushed.column_exts_unique;
      }

  IsKeyed-writable : IsWritable {J = J} IsKeyed
  unfolding upsert_table_ext
  IsKeyed-writable = record {
    placeable = record { framed = λ e same k. framed-IsKeyed e k; flushed = flushed-IsKeyed };
    queued = enqueue_task-IsKeyed;
    table_put = λ model schema_rk {s} t e same k.
        flush_all-IsKeyed t
          (subst (λ f. HasUniqueKeys TableMetadata.rk f.1) (sym e)
            (put_table-HasUniqueKeys model schema_rk s.tables k.tables_flushed k.tables_unique))
          (subst (λ f. HasUniqueKeys TableExt.table_rk f.2) (sym e) k.table_exts_unique)
          (subst (λ f. HasUniqueKeys ColumnMetadata.rk f.3) (sym e) k.columns_unique)
          (subst (λ f. HasUniqueKeys ColumnExt.column_rk f.4) (sym e) k.column_exts_unique);
    table_ext_put = λ texts model inline now {s} flushed k. record {
      tables_flushed = k.tables_flushed;
      columns_flushed = k.columns_flushed;
      tables_unique = k.tables_unique;
      table_exts_unique =
          put_table_ext-HasUniqueKeys texts model inline now s.table_exts flushed
            k.table_exts_unique;
      columns_unique = k.columns_unique;
      column_exts_unique = k.column_exts_unique;
    };
    column_put = λ col table_rk {s} k.
        flush_all-IsKeyed _ k.tables_unique k.table_exts_unique
          (put_column-HasUniqueKeys col table_rk s.columns k.columns_flushed k.columns_unique)
          k.column_exts_unique;
    column_ext_put = λ col now {s} flushed k. record {
      tables_flushed = k.tables_flushed;
      columns_flushed = k.columns_flushed;
      tables_unique = k.tables_unique;
      table_exts_unique = k.table_exts_unique;
      columns_unique = k.columns_unique;
      column_exts_unique =
          put_column_ext-HasUniqueKeys col now s.column_exts flushed k.column_exts_unique;
    };
    edge_put = λ from_rk to_rk edge_kind evidence_kind confidence evidence_ref o {s} h k.
        put_edge-IsKeyed from_rk to_rk edge_kind evidence_kind confidence evidence_ref o s k;
  }

module _ {J : Type 0} (actor : String) (texts : Texts) (defaults : Dict J) where
  -- A session without two rows of one primary key has none after a document, whatever the document
  -- holds, models and columns of one rk included, and whether it raises: the queries always come after
  -- the flush that they need.
  pub upsert_mdl_document-IsKeyed :
      (doc : MdlDocument) (source_id : Option String) (inline : Bool) (now : ℕ) (s : Session J)
      → IsKeyed s
      → IsKeyed (upsert_mdl_document actor texts defaults doc source_id inline now s).1
  upsert_mdl_document-IsKeyed doc source_id inline now s k =
      upsert_mdl_document-keeps IsKeyed IsKeyed-writable actor texts defaults doc source_id inline
        now s (λ source found. link_source-keeps IsKeyed (λ u v e p. framed-IsKeyed e p) source _) k
