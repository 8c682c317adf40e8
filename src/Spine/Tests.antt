-- ===== src/Spine/Tests.antt =====
-- A session of the spine with one source, one table and its annotations, and a document.
mod Documents
mod Records
use nexcraft.Base.{
  ℕ, String, Bool, true, false, Option, none, some, List, [], ◌∷◌, str_eq, if◌then◌else◌,
}
use nexcraft.Spine.Table.{Table}
use nexcraft.Spine.Models.{
  Session, Source, TableExt, TableMetadata, LineageEdge, AssetAnnotationProvenance,
}
use nexcraft.Spine.Models.Derived.{CausalCandidate, RelationType, ColumnStat, TableStat}
use nexcraft.Spine.Annotations.{AssetAnnotations}
use nexcraft.Spine.Hierarchy.Rows.{Texts, MdlColumn, MdlModel}
use nexcraft.Spine.Hierarchy.Documents.{MdlDocument}

abbrev pub no_rows : {R : Type 0} → Table R
no_rows = record { stored = []; added = [] }

abbrev pub holding : {R : Type 0} → R → Table R
holding r = record { stored = r ∷ []; added = [] }

abbrev pub warehouse : Source ℕ
warehouse = record {
  source_id = "wh";
  org_id = "acme";
  kind = "postgres";
  cluster_rk = none;
  columns = [];
  updated_at = 0;
}

abbrev pub staff : TableMetadata
staff = record { rk = "staff"; name = "staff"; schema_rk = "postgres://wh/hr"; is_view = false }

abbrev pub staff_ext : TableExt
staff_ext = record {
  table_rk = "staff";
  display_name = "Staff";
  lifecycle_stage = "production";
  is_materialized = false;
  materialization_kind = "table";
  view_definition = none;
  view_depends_on = [];
  concepts = "person" ∷ [];
  key_areas = "hiring" ∷ [];
  causal_relations = [];
  updated_at = 1;
}

abbrev pub edge : LineageEdge
edge = record {
  from_rk = "staff";
  from_kind = "table";
  to_rk = "team";
  to_kind = "table";
  edge_kind = "depends_on";
  evidence_kind = "declared_fk";
  evidence_ref = none;
  confidence = none;
  predicate_id = none;
  active = true;
}

abbrev pub by_human : AssetAnnotationProvenance
by_human = record {
  asset_rk = "staff";
  field = "key_areas";
  source = "human";
  source_model = none;
  confidence = 1000;
  rationale = "";
  written_by = "ann";
  written_at = 5;
}

abbrev pub proposal : CausalCandidate ℕ
proposal = record {
  candidate_id = 1;
  asset_rk = "staff";
  subject_ref = "pay";
  predicate = "raises";
  object_ref = "tenure";
  evidence_columns = [];
  mechanism_hint = none;
  confidence = some 400;
  rationale = none;
  provenance = "llm";
  status = "rejected";
  validation_diagnostics = none;
  validated_at = some 7;
  created_at = 1;
  updated_at = 7;
}

abbrev pub works_in : RelationType
works_in = record {
  relation_type_pk = 3;
  org_id = "acme";
  predicate = "works_in";
  domain = "person";
  range_type = "team";
  inverse = none;
  functional = true;
  confidence = some 900;
  evidence_count = 4;
  surfaces = none;
  provenance = "induced";
  updated_at = 2;
}

abbrev pub column_stat : String → ColumnStat ℕ
column_stat rk = record {
  column_rk = rk;
  table_rk = "staff";
  n_rows = 10;
  null_rate = 0;
  distinct_count = some 3;
  mean = none;
  std = none;
  min_value = none;
  max_value = none;
  cardinality_tier = some "low";
  top_frequencies = [];
  samples_persisted = false;
  declared_type = none;
  role_hint = none;
  stats_are_approximate = false;
  updated_at = 1;
}

abbrev pub table_stat : TableStat ℕ
table_stat = record {
  table_rk = "staff";
  population_row_count = some 10;
  sample_row_count = none;
  source_system = none;
  sample_description = none;
  sample_rows = [];
  samples_persisted = false;
  extra_metadata = none;
  updated_at = 1;
}

abbrev pub store : Session ℕ
store = record {
  organizations = no_rows;
  sources = holding warehouse;
  catalogs = no_rows;
  databases = no_rows;
  clusters = no_rows;
  schemas = no_rows;
  schema_catalogs = no_rows;
  schema_exts = no_rows;
  tables = holding staff;
  table_exts = holding staff_ext;
  columns = no_rows;
  column_exts = no_rows;
  table_descriptions = no_rows;
  table_programmatic_descriptions = no_rows;
  column_descriptions = no_rows;
  column_programmatic_descriptions = no_rows;
  lineage = holding edge;
  provenances = holding by_human;
  audits = no_rows;
  candidates = holding proposal;
  hints = no_rows;
  relation_types = holding works_in;
  cards = no_rows;
  card_refs = no_rows;
  table_stats = holding table_stat;
  column_stats = record { stored = column_stat "name" ∷ column_stat "grade" ∷ []; added = [] };
  queue = record { rows = []; next_id = 1 };
  next_pk = 20;
}

-- Texts that can be split in one place.
abbrev pub texts : Texts
texts = record {
  split = λ sep text. if str_eq text "hr.team.rk" then "hr" ∷ "team" ∷ "rk" ∷ [] else text ∷ [];
  before_last_slash = λ text. "postgres://wh";
  capitalize = λ text. text;
}

abbrev pub column : String → Option String → MdlColumn
column rk references = record {
  name = rk;
  col_type = "text";
  not_null = true;
  rk = rk;
  display_name = none;
  description = some "given";
  description_provenance = some "llm";
  is_primary_key = false;
  references = references;
}

abbrev pub model : String → MdlModel
model rk = record {
  name = rk;
  rk = rk;
  description = some "given";
  description_provenance = none;
  is_view = false;
  materialization_kind = "table";
  is_materialized = false;
  view_definition = none;
  columns =
      column "team" (some "hr.team.rk")
      ∷ column "boss" (some "hr.team.rk")
      ∷ column "team" none
      ∷ [];
  concepts = "other" ∷ [];
  key_areas = [];
  causal_relations = [];
}

-- A table that is stored, and another one twice.
abbrev pub document : MdlDocument
document = record {
  source_id = "wh";
  catalog = some "main";
  schema_name = "hr";
  models = model "staff" ∷ model "desk" ∷ model "desk" ∷ [];
}

abbrev pub from_llm : AssetAnnotations
from_llm = record {
  asset_rk = "staff";
  concepts = "worker" ∷ [];
  key_areas = "cost" ∷ [];
  causal_relations = [];
  confidence = 600;
  rationale = "";
  source = "llm_enrichment";
  source_model = none;
  written_at = 9;
  written_by = "";
}
