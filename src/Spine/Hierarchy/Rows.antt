-- ===== src/Spine/Hierarchy/Rows.antt =====
-- schemas/mdl.py, and the rows that `HierarchyDAO` of dao/hierarchy.py writes for one model of an MDL
-- document. The operations of texts are a parameter.
pub mod Keys
use nexcraft.Base.{
  ℕ, String, ◌<>◌, Bool, false, Option, none, some, List, [], ◌∷◌, not, map, keep, str_eq,
  if◌then◌else◌,
}
use nexcraft.Spine.Table
use nexcraft.Spine.Table.{Table}
use nexcraft.Spine.Models.{Description, TableMetadata, TableExt, ColumnMetadata, ColumnExt}
use nexcraft.Spine.Inferences.{text_of}

pub record MdlColumn : Type 0 where
  pub name : String
  pub col_type : String
  pub not_null : Bool
  pub rk : String
  pub display_name : Option String
  pub description : Option String
  pub description_provenance : Option String
  pub is_primary_key : Bool
  pub references : Option String

pub record MdlViewDefinition : Type 0 where
  pub query : String
  pub depends_on : List String

pub record MdlModel : Type 0 where
  pub name : String
  pub rk : String
  pub description : Option String
  pub description_provenance : Option String
  pub is_view : Bool
  pub materialization_kind : String
  pub is_materialized : Bool
  pub view_definition : Option MdlViewDefinition
  pub columns : List MdlColumn
  pub concepts : List String
  pub key_areas : List String
  pub causal_relations : List String

-- `str.split` at a character, `rsplit` at the last `/`, of which the part before it is taken, and
-- `capitalize`.
pub record Texts : Type 0 where
  pub split : String → String → List String
  pub before_last_slash : String → String
  pub capitalize : String → String

abbrev join : String → List String → String
join sep [] = ""
join sep (x ∷ []) = x
join sep (x ∷ y ∷ xs) = x <> sep <> join sep (y ∷ xs)

unfoldable pub display_from_name : Texts → String → String
display_from_name texts name =
    join " " (map texts.capitalize (keep (λ p. not (str_eq p "")) (texts.split "_" name)))

-- `text or default` for texts that may be None.
abbrev pub text_or : Option String → String → String
text_or none d = d
text_or (some x) d = if str_eq x "" then d else x

abbrev query_of : Option MdlViewDefinition → Option String
query_of none = none
query_of (some v) = some v.query

abbrev depends_on_of : Option MdlViewDefinition → List String
depends_on_of none = []
depends_on_of (some v) = v.depends_on

abbrev pub is_table_rk : String → TableMetadata → Bool
is_table_rk rk t = str_eq t.rk rk

abbrev pub is_table_ext : String → TableExt → Bool
is_table_ext rk t = str_eq t.table_rk rk

abbrev pub is_column_rk : String → ColumnMetadata → Bool
is_column_rk rk t = str_eq t.rk rk

abbrev pub is_column_ext : String → ColumnExt → Bool
is_column_ext rk t = str_eq t.column_rk rk

abbrev is_description : String → Description → Bool
is_description rk d = str_eq d.rk rk

abbrev put_description :
    String → String → String → Option Description → Table Description → Table Description
put_description asset_rk description source none t =
    Table.add
      (record {
        rk = asset_rk <> "::desc::" <> source;
        owner_rk = asset_rk;
        description = description;
        source = source;
      })
      t
put_description asset_rk description source (some existing) t =
    Table.update (is_description (asset_rk <> "::desc::" <> source))
      (λ d. record d { description = description }) t

-- The write to the table that the target and the source choose.
abbrev pub write_description : String → String → String → Table Description → Table Description
write_description asset_rk description source t =
    put_description asset_rk description source
      (Table.find (is_description (asset_rk <> "::desc::" <> source)) t) t

abbrev pub action_of : Option TableMetadata → String
action_of none = "create"
action_of (some existing) = "update"

unfoldable pub put_table :
    MdlModel → String → Option TableMetadata → Table TableMetadata → Table TableMetadata
put_table model schema_rk none t =
    Table.add
      (record { rk = model.rk; name = model.name; schema_rk = schema_rk; is_view = model.is_view })
      t
put_table model schema_rk (some existing) t =
    Table.update (is_table_rk model.rk)
      (λ x. record x { name = model.name; schema_rk = schema_rk; is_view = model.is_view }) t

-- The keywords that `_upsert_table_ext` sets on a row.
unfoldable pub set_model : Texts → MdlModel → TableExt → TableExt
unfolding display_from_name
set_model texts model ext = record ext {
  display_name = display_from_name texts model.name;
  lifecycle_stage = "production";
  is_materialized = model.is_materialized;
  materialization_kind = model.materialization_kind;
  view_definition = query_of model.view_definition;
  view_depends_on = depends_on_of model.view_definition;
}

unfoldable pub new_table_ext : Texts → MdlModel → Bool → ℕ → TableExt
unfolding set_model
new_table_ext texts model inline now = set_model texts model (record {
  table_rk = model.rk;
  display_name = "";
  lifecycle_stage = "";
  is_materialized = false;
  materialization_kind = "";
  view_definition = none;
  view_depends_on = [];
  concepts = if inline then model.concepts else [];
  key_areas = if inline then model.key_areas else [];
  causal_relations = if inline then model.causal_relations else [];
  updated_at = now;
})

unfoldable pub put_table_ext :
    Texts → MdlModel → Bool → ℕ → Option TableExt → Table TableExt → Table TableExt
unfolding new_table_ext set_model
put_table_ext texts model inline now none t = Table.add (new_table_ext texts model inline now) t
put_table_ext texts model inline now (some existing) t =
    Table.update (is_table_ext model.rk)
      (λ ext. record (set_model texts model ext) { updated_at = now }) t

unfoldable pub put_column :
    MdlColumn → String → Option ColumnMetadata → Table ColumnMetadata → Table ColumnMetadata
put_column col table_rk none t =
    Table.add
      (record {
        rk = col.rk;
        name = col.name;
        table_rk = table_rk;
        col_type = col.col_type;
        is_nullable = not col.not_null;
      })
      t
put_column col table_rk (some existing) t =
    Table.update (is_column_rk col.rk)
      (λ c. record c { name = col.name; col_type = col.col_type; is_nullable = not col.not_null }) t

unfoldable pub put_column_ext : MdlColumn → ℕ → Option ColumnExt → Table ColumnExt → Table ColumnExt
put_column_ext col now none t =
    Table.add
      (record {
        column_rk = col.rk;
        display_name = col.display_name;
        is_business_key = col.is_primary_key;
        references_path = col.references;
        updated_at = now;
      })
      t
put_column_ext col now (some existing) t =
    Table.update (is_column_ext col.rk)
      (λ c. record c {
        display_name = col.display_name;
        is_business_key = col.is_primary_key;
        references_path = col.references;
        updated_at = now;
      })
      t

-- The parts of a reference give the table it names; the first two hold no dot.
abbrev pub target_of : List String → Option String
target_of [] = none
target_of (x ∷ []) = none
target_of (schema ∷ table ∷ rest) = some (schema <> "/" <> table)

unfoldable pub reference_of : Texts → MdlColumn → Option String
reference_of texts col =
    let reference = text_of col.references in
    if str_eq reference "" then none else target_of (texts.split "." reference)
