-- ===== src/Spine/Hierarchy/Models.antt =====
-- dao/hierarchy.py: what `HierarchyDAO` writes for one model of an MDL document. The queueing of a task
-- never fails here, so the except branch around it is never taken.
pub mod Edges
pub mod Frame
use nexcraft.Base.{
  ℕ, String, ◌<>◌, Bool, true, false, Option, none, some, List, [], ◌∷◌, not, ◌&&◌, map, keep, take,
  str_eq, if◌then◌else◌, Result, ok, err,
}
use nexcraft.Base.Exec
use nexcraft.Base.Exec.{Exec}
use nexcraft.Spine.Table
use nexcraft.Spine.Table.{Table}
use nexcraft.Spine.Models.{
  Description, TableMetadata, TableExt, ColumnMetadata, ColumnExt, LineageEdge, Session, flush_all,
  enqueue_asset_reindex, enqueue_field_reindex,
}
use nexcraft.Spine.Hierarchy.Rows.{
  MdlColumn, MdlModel, Texts, action_of, put_table, text_or, write_description, is_table_rk,
  is_column_rk, is_table_ext, is_column_ext, put_table_ext, put_column, put_column_ext,
  reference_of,
}
use nexcraft.Spine.Inferences.{one_or_none, or_else, text_of, is_edge, audit}

pub data Target : Type 0 where
  table_target column_target : Target

module _ {J : Type 0} where
  unfoldable pub upsert_description : Target → String → String → String → Session J → Session J
  upsert_description table_target rk description source s =
      if str_eq source "user"
      then record s {
        table_descriptions = write_description rk description source s.table_descriptions;
      }
      else record s {
        table_programmatic_descriptions =
            write_description rk description source s.table_programmatic_descriptions;
      }
  upsert_description column_target rk description source s =
      if str_eq source "user"
      then record s {
        column_descriptions = write_description rk description source s.column_descriptions;
      }
      else record s {
        column_programmatic_descriptions =
            write_description rk description source s.column_programmatic_descriptions;
      }

  -- `if description: self._upsert_description(...)`
  unfoldable pub describe : Target → String → Option String → Option String → Session J → Session J
  unfolding upsert_description
  describe target rk description provenance s =
      if str_eq (text_of description) ""
      then s
      else upsert_description target rk (text_of description) (text_or provenance "user") s

  unfoldable pub upsert_table_ext : Texts → MdlModel → Bool → ℕ → Session J → Session J
  unfolding put_table_ext
  upsert_table_ext texts model inline now s = record s {
    table_exts =
        put_table_ext texts model inline now (Table.find (is_table_ext model.rk) s.table_exts)
          s.table_exts;
  }

  unfoldable pub upsert_column : MdlColumn → String → ℕ → Session J → Session J
  unfolding put_column describe put_column_ext
  upsert_column col table_rk now s =
      let stored = flush_all (record s {
        columns = put_column col table_rk (Table.find (is_column_rk col.rk) s.columns) s.columns;
      }) in
      let described =
        describe column_target col.rk col.description col.description_provenance stored in
      let extended = record described {
        column_exts =
            put_column_ext col now (Table.find (is_column_ext col.rk) described.column_exts)
              described.column_exts;
      } in
      enqueue_field_reindex col.rk table_rk "column" now extended

  unfoldable pub upsert_columns : List MdlColumn → String → ℕ → Session J → Session J
  unfolding upsert_column
  upsert_columns [] table_rk now s = s
  upsert_columns (col ∷ cols) table_rk now s =
      upsert_columns cols table_rk now (upsert_column col table_rk now s)

  -- What is done with the edge that the query finds.
  unfoldable pub put_edge :
      String
      → String
      → String
      → String
      → Option ℕ
      → Option String
      → Option LineageEdge
      → Session J
      → Session J
  put_edge from_rk to_rk edge_kind evidence_kind confidence evidence_ref none s =
      flush_all (record s {
        lineage =
            Table.add
              (record {
                from_rk = from_rk;
                from_kind = "table";
                to_rk = to_rk;
                to_kind = "table";
                edge_kind = edge_kind;
                evidence_kind = evidence_kind;
                evidence_ref = evidence_ref;
                confidence = confidence;
                predicate_id = none;
                active = true;
              })
              s.lineage;
      })
  put_edge from_rk to_rk edge_kind evidence_kind confidence evidence_ref (some existing) s =
      record s {
        lineage =
            Table.update (is_edge from_rk to_rk edge_kind)
              (λ e. record e { active = true; confidence = or_else confidence e.confidence })
              s.lineage;
      }

  unfoldable pub upsert_lineage_edge :
      String → String → String → String → Option ℕ → Option String → Exec (Session J) (Unit {0})
  unfolding put_edge
  upsert_lineage_edge from_rk to_rk edge_kind evidence_kind confidence evidence_ref s =
      go (one_or_none (is_edge from_rk to_rk edge_kind) s.lineage.stored)
    where
      go : Result (Option LineageEdge) → Result (Unit {0}) × Session J
      go (err e) = (err e, s)
      go (ok existing) =
          (ok tt, put_edge from_rk to_rk edge_kind evidence_kind confidence evidence_ref existing s)

module _ {J : Type 0} (texts : Texts) where
  unfoldable pub add_reference : String → String → Option String → Exec (Session J) (Unit {0})
  unfolding upsert_lineage_edge
  add_reference rk schema_rk none s = (ok tt, s)
  add_reference rk schema_rk (some target) s =
      upsert_lineage_edge rk (texts.before_last_slash schema_rk <> "/" <> target) "depends_on"
        "declared_fk" none none s

  -- The foreign keys of the columns.
  unfoldable pub add_references : List MdlColumn → String → String → Exec (Session J) (Unit {0})
  unfolding add_reference reference_of
  add_references [] rk schema_rk s = (ok tt, s)
  add_references (col ∷ cols) rk schema_rk s =
      (Exec.◌>>=◌ (add_reference rk schema_rk (reference_of texts col))
          (λ u. add_references cols rk schema_rk))
        s

module _ {J : Type 0} (actor : String) where
  unfoldable pub put_model : MdlModel → String → Option TableMetadata → Session J → Session J
  unfolding audit put_table
  put_model model schema_rk o s =
      audit actor (action_of o) "T4" model.rk
        (record s { tables = put_table model schema_rk o s.tables })

  -- What is written before the foreign keys.
  unfoldable pub write_model : Texts → MdlModel → String → Bool → ℕ → Session J → Session J
  unfolding put_model describe upsert_table_ext upsert_columns
  write_model texts model schema_rk inline now s =
      let stored =
        flush_all (put_model model schema_rk (Table.find (is_table_rk model.rk) s.tables) s) in
      let queued =
        enqueue_asset_reindex model.rk (if model.is_view then "view" else "table") now stored in
      let described =
        describe table_target model.rk model.description model.description_provenance queued in
      upsert_columns model.columns model.rk now (upsert_table_ext texts model inline now described)

  unfoldable pub upsert_model : Texts → MdlModel → String → Bool → ℕ → Exec (Session J) (Unit {0})
  unfolding write_model add_references
  upsert_model texts model schema_rk inline now s =
      add_references texts model.columns model.rk schema_rk
        (write_model texts model schema_rk inline now s)
