-- ===== src/Pipeline/RunState.antt =====
-- packages/ontology-pipeline/ontology_pipeline/state.py: the state of the runs, and the file that
-- keeps it. JSON and the hash are parameters, and a text of JSON is of a type `T` of which nothing is known.
pub mod Laws
use nexcraft.Base.{ℕ, String, Bool, Option, none, some, List, [], ◌∷◌, map, sort_by}
use Prim.Native.String.{compare}
use text.Mathlib.Text.{is_le}
use nexcraft.Base.Dict
use nexcraft.Base.Dict.{Dict}

-- What `content_hash` reads of a table and of its columns.
pub record ColumnInfo : Type 0 where
  pub name : String
  pub sql_type : String
  pub nullable : Bool
  pub description : Option String
  pub is_primary_key : Bool
  pub references_table : Option String
  pub references_column : Option String

pub record TableInfo : Type 0 where
  pub schema_name : String
  pub name : String
  pub is_view : Bool
  pub view_definition : Option String
  pub description : Option String
  pub primary_key : List String
  pub columns : List ColumnInfo

-- `payload` of `content_hash`: a table with its key and its columns sorted.
abbrev pub payload : TableInfo → TableInfo
payload table = record table {
  primary_key = sort_by (λ a b. is_le (compare a b)) table.primary_key;
  columns = sort_by (λ a b. is_le (compare a.name b.name)) table.columns;
}

abbrev pub content_hash : (TableInfo → String) → (String → String) → TableInfo → String
content_hash dumps sha256 table = sha256 (dumps (payload table))

pub record Entry : Type 0 where
  pub content_hash_value : String
  pub last_outcome : String
  pub last_seen_at : ℕ

abbrev pub Sources : Type 0
Sources = Dict (Dict (Dict Entry))

-- `_state`
pub record State : Type 0 where
  pub format_version : ℕ
  pub sources : Sources
  pub updated_at : Option ℕ

-- An object that a file holds; keys that it lacks are none.
pub record Document : Type 0 where
  pub format_version : Option ℕ
  pub sources : Option Sources
  pub updated_at : Option ℕ

-- `json.loads` is none when it raises or gives no object.
pub record Json (T : Type 0) : Type 0 where
  pub dumps : State → T
  pub loads : T → Option Document

-- The file of the state and the temporary file beside it.
pub record Files (T : Type 0) : Type 0 where
  pub path : Option T
  pub tmp : Option T

abbrev pub fresh : State
fresh = record { format_version = 1; sources = []; updated_at = none }

-- `setdefault`
abbrev pub set_default : {A : Type 0} → Option A → A → A
set_default none d = d
set_default (some x) d = x

abbrev pub complete : Option Document → State
complete none = fresh
complete (some document) = record {
  format_version = set_default document.format_version 1;
  sources = set_default document.sources [];
  updated_at = document.updated_at;
}

abbrev pub read_text : {T : Type 0} → Json T → Option T → State
read_text json none = fresh
read_text json (some text) = complete (json.loads text)

unfoldable pub load : {T : Type 0} → Json T → Files T → State
load json files = read_text json files.path

-- `.get(key, {})`
abbrev pub get_dict : {V : Type 0} → String → Dict (Dict V) → Dict V
get_dict k d = set_default (Dict.get k d) []

abbrev pub hash_of : Option Entry → Option String
hash_of none = none
hash_of (some entry) = some entry.content_hash_value

unfoldable pub lookup : String → String → String → State → Option String
lookup source_id schema table state =
    hash_of (Dict.get table (get_dict schema (get_dict source_id state.sources)))

unfoldable pub record_table : String → String → String → String → String → ℕ → State → State
record_table source_id schema table hash outcome now state =
    let per_source = get_dict source_id state.sources in
    let per_schema =
      Dict.set table
        (record { content_hash_value = hash; last_outcome = outcome; last_seen_at = now })
        (get_dict schema per_source) in
    record state {
      sources = Dict.set source_id (Dict.set schema per_schema per_source) state.sources;
    }

-- What `flush` does to the files, one call after another.
pub data Write (T : Type 0) : Type 0 where
  write_tmp : T → Write T
  replace : Write T

abbrev pub apply_write : {T : Type 0} → Write T → Files T → Files T
apply_write (write_tmp text) files = record files { tmp = some text }
apply_write replace files = record { path = files.tmp; tmp = none }

abbrev pub stamped : ℕ → State → State
stamped now state = record state { updated_at = some now }

abbrev pub flush_writes : {T : Type 0} → Json T → ℕ → State → List (Write T)
flush_writes json now state = write_tmp (json.dumps (stamped now state)) ∷ replace ∷ []

abbrev pub apply_all : {T : Type 0} → List (Write T) → Files T → Files T
apply_all [] files = files
apply_all (w ∷ writes) files = apply_all writes (apply_write w files)

unfoldable pub flush : {T : Type 0} → Json T → ℕ → State → Files T → Files T
flush json now state files = apply_all (flush_writes json now state) files
