-- ===== src/Federation/Catalog.antt =====
-- packages/nexcraft/nexcraft/catalog: the catalog over a management store and the one in
-- memory.
pub mod Yaml
use nexcraft.Base.{
  String, Option, none, some, List, str_eq, keep, map, Result, ok, err, configuration_error,
}
use nexcraft.Base.Dict
use nexcraft.Base.Dict.{Dict}
use nexcraft.Base.Exec
use nexcraft.Base.Exec.{Exec, ◌>>=◌}
use nexcraft.Federation.Core.{ConnectionDetails, SourceDescriptor}
use nexcraft.Federation.Store.{ManagementStore}

-- The protocol `Catalog`.
pub record Catalog (V W : Type 0) : Type 0 where
  pub get_source : String → Exec W (SourceDescriptor V)
  pub list_sources : Option String → Exec W (List (SourceDescriptor V))

module _ {V : Type 0} where
  -- `_to_descriptor`
  abbrev pub to_descriptor : ConnectionDetails V → SourceDescriptor V
  to_descriptor row = record {
    source_id = row.source_id;
    kind = row.kind;
    display_name = row.display_name;
    tenant_id = row.tenant_id;
    config = row.config;
    tags = row.tags;
  }

  -- DBCatalog
  unfoldable pub db_catalog : {W : Type 0} → ManagementStore V W → Catalog V W
  db_catalog store = record {
    get_source = λ source_id.
        store.get_connection_details source_id >>= λ row. Exec.pure (to_descriptor row);
    list_sources = λ tenant_id.
        store.list_connection_details tenant_id >>= λ rows. Exec.pure (map to_descriptor rows);
  }

  found : Option (SourceDescriptor V) → Result (SourceDescriptor V)
  found none = err configuration_error
  found (some desc) = ok desc

  -- InMemoryCatalog
  unfoldable pub get_source : Dict (SourceDescriptor V) → String → Result (SourceDescriptor V)
  unfolding found
  get_source sources source_id = found (Dict.get source_id sources)

  unfoldable pub list_sources :
      Dict (SourceDescriptor V) → Option String → List (SourceDescriptor V)
  list_sources sources none = Dict.values sources
  list_sources sources (some tenant_id) =
      keep (λ s. str_eq s.tenant_id tenant_id) (Dict.values sources)
