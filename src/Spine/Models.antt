-- ===== src/Spine/Models.antt =====
-- The rows of db/models.py, and the state of a session. Columns that no operation here reads or
-- writes, and times of creation, are left out; of an audit the old and new values are. `J` is a value
-- of a JSON column. Confidences are whole thousandths.
pub mod Derived
use nexcraft.Base.{ℕ, String, Bool, Option, List, []}
use nexcraft.Base.Dict.{Dict}
use nexcraft.Reindex.Queue.{Queue, enqueue}
use nexcraft.Spine.Table
use nexcraft.Spine.Table.{Table, flush}
use nexcraft.Spine.Models.Derived.{
  CausalCandidate, DataProtectionHint, RelationType, Card, CardRef, TableStat, ColumnStat,
}

-- `Organization`, with the columns that the payload of an upsert sets by name.
pub record Organization (J : Type 0) : Type 0 where
  pub org_id : String
  pub columns : Dict J
  pub updated_at : ℕ

pub record DatabaseMetadata : Type 0 where
  pub rk : String
  pub name : String

pub record ClusterMetadata : Type 0 where
  pub rk : String
  pub name : String
  pub database_rk : String

pub record SchemaMetadata : Type 0 where
  pub rk : String
  pub name : String
  pub cluster_rk : String

pub record TableMetadata : Type 0 where
  pub rk : String
  pub name : String
  pub schema_rk : String
  pub is_view : Bool

pub record ColumnMetadata : Type 0 where
  pub rk : String
  pub name : String
  pub table_rk : String
  pub col_type : String
  pub is_nullable : Bool

-- A row of one of the four tables of descriptions, for the table or column `owner_rk`.
pub record Description : Type 0 where
  pub rk : String
  pub owner_rk : String
  pub description : String
  pub source : String

pub record Source (J : Type 0) : Type 0 where
  pub source_id : String
  pub org_id : String
  pub kind : String
  pub cluster_rk : Option String
  pub columns : Dict J
  pub updated_at : ℕ

pub record Catalog (J : Type 0) : Type 0 where
  pub catalog_uid : String
  pub source_id : String
  pub catalog_name : String
  pub display_name : String
  pub columns : Dict J
  pub updated_at : ℕ

pub record SchemaCatalog : Type 0 where
  pub schema_rk : String
  pub catalog_uid : String

pub record SchemaExt (J : Type 0) : Type 0 where
  pub schema_rk : String
  pub display_name : String
  pub columns : Dict J
  pub updated_at : ℕ

pub record TableExt : Type 0 where
  pub table_rk : String
  pub display_name : String
  pub lifecycle_stage : String
  pub is_materialized : Bool
  pub materialization_kind : String
  pub view_definition : Option String
  pub view_depends_on : List String
  pub concepts : List String
  pub key_areas : List String
  pub causal_relations : List String
  pub updated_at : ℕ

pub record ColumnExt : Type 0 where
  pub column_rk : String
  pub display_name : Option String
  pub is_business_key : Bool
  pub references_path : Option String
  pub updated_at : ℕ

pub record LineageEdge : Type 0 where
  pub from_rk : String
  pub from_kind : String
  pub to_rk : String
  pub to_kind : String
  pub edge_kind : String
  pub evidence_kind : String
  pub evidence_ref : Option String
  pub confidence : Option ℕ
  pub predicate_id : Option ℕ
  pub active : Bool

pub record AssetAnnotationProvenance : Type 0 where
  pub asset_rk : String
  pub field : String
  pub source : String
  pub source_model : Option String
  pub confidence : ℕ
  pub rationale : String
  pub written_by : String
  pub written_at : ℕ

pub record HierarchyAudit : Type 0 where
  pub actor : String
  pub action : String
  pub tier : String
  pub entity_uid : String
  pub field_path : Option String

-- The payloads of workers/queue.py.
pub data Payload : Type 0 where
  asset_payload : (asset_rk asset_kind : String) → Payload
  card_payload : (tenant_id card_id card_kind : String) → Payload
  field_payload : (column_rk parent_rk field_kind : String) → Payload

-- A session over the whole store.
pub record Session (J : Type 0) : Type 0 where
  pub organizations : Table (Organization J)
  pub sources : Table (Source J)
  pub catalogs : Table (Catalog J)
  pub databases : Table DatabaseMetadata
  pub clusters : Table ClusterMetadata
  pub schemas : Table SchemaMetadata
  pub schema_catalogs : Table SchemaCatalog
  pub schema_exts : Table (SchemaExt J)
  pub tables : Table TableMetadata
  pub table_exts : Table TableExt
  pub columns : Table ColumnMetadata
  pub column_exts : Table ColumnExt
  pub table_descriptions : Table Description
  pub table_programmatic_descriptions : Table Description
  pub column_descriptions : Table Description
  pub column_programmatic_descriptions : Table Description
  pub lineage : Table LineageEdge
  pub provenances : Table AssetAnnotationProvenance
  pub audits : Table HierarchyAudit
  pub candidates : Table (CausalCandidate J)
  pub hints : Table (DataProtectionHint J)
  pub relation_types : Table RelationType
  pub cards : Table (Card J)
  pub card_refs : Table (CardRef J)
  pub table_stats : Table (TableStat J)
  pub column_stats : Table (ColumnStat J)
  pub queue : Queue Payload
  -- the next value of the autoincremented keys
  pub next_pk : ℕ

module _ {J : Type 0} where
  unfoldable pub flush_all : Session J → Session J
  flush_all s = record s {
    organizations = flush s.organizations;
    sources = flush s.sources;
    catalogs = flush s.catalogs;
    databases = flush s.databases;
    clusters = flush s.clusters;
    schemas = flush s.schemas;
    schema_catalogs = flush s.schema_catalogs;
    schema_exts = flush s.schema_exts;
    tables = flush s.tables;
    table_exts = flush s.table_exts;
    columns = flush s.columns;
    column_exts = flush s.column_exts;
    table_descriptions = flush s.table_descriptions;
    table_programmatic_descriptions = flush s.table_programmatic_descriptions;
    column_descriptions = flush s.column_descriptions;
    column_programmatic_descriptions = flush s.column_programmatic_descriptions;
    lineage = flush s.lineage;
    provenances = flush s.provenances;
    audits = flush s.audits;
    candidates = flush s.candidates;
    hints = flush s.hints;
    relation_types = flush s.relation_types;
    cards = flush s.cards;
    card_refs = flush s.card_refs;
    table_stats = flush s.table_stats;
    column_stats = flush s.column_stats;
  }

  -- `QueueDAO.enqueue` in the session, which flushes it.
  unfoldable pub enqueue_task : String → Payload → ℕ → Session J → Session J
  enqueue_task kind payload now s =
      let s' = flush_all s in record s' { queue = (enqueue s.queue kind payload now).1 }

  abbrev pub enqueue_asset_reindex : String → String → ℕ → Session J → Session J
  enqueue_asset_reindex asset_rk asset_kind now s =
      enqueue_task "qdrant_asset" (asset_payload asset_rk asset_kind) now s

  abbrev pub enqueue_card_reindex : String → String → String → ℕ → Session J → Session J
  enqueue_card_reindex tenant_id card_id card_kind now s =
      enqueue_task "qdrant_card" (card_payload tenant_id card_id card_kind) now s

  abbrev pub enqueue_field_reindex : String → String → String → ℕ → Session J → Session J
  enqueue_field_reindex column_rk parent_rk field_kind now s =
      enqueue_task "qdrant_field" (field_payload column_rk parent_rk field_kind) now s

  abbrev pub add_audit : HierarchyAudit → Session J → Session J
  add_audit a s = record s { audits = Table.add a s.audits }
