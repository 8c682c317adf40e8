-- ===== src/Spine/Hierarchy.antt =====
-- dao/hierarchy.py: `HierarchyDAO`, the rows of organizations, sources and catalogs. schemas/identity.py: what they are given as; the fields that no operation reads
-- by name are `columns`.
pub mod Places
pub mod Rows
pub mod Models
pub mod Documents
pub mod Invariants
use nexcraft.Base.{
  ℕ, String, ◌<>◌, Bool, Option, none, some, List, [], ◌∷◌, ◌&&◌, not, str_eq, if◌then◌else◌,
}
use nexcraft.Base.Dict.{Dict, set}
use nexcraft.Spine.Table
use nexcraft.Spine.Table.{Table}
use nexcraft.Spine.Models.{
  Organization, Source, Catalog, DatabaseMetadata, ClusterMetadata, SchemaMetadata, SchemaCatalog,
  SchemaExt, Session, flush_all,
}
use nexcraft.Spine.Inferences.{or_else, audit}

pub record OrganizationIn (J : Type 0) : Type 0 where
  pub org_id : String
  pub columns : Dict J

pub record SourceIn (J : Type 0) : Type 0 where
  pub source_id : String
  pub org_id : String
  pub kind : String
  pub columns : Dict J

pub record CatalogIn (J : Type 0) : Type 0 where
  pub source_id : String
  pub catalog_name : String
  pub display_name : Option String
  pub columns : Dict J

-- CatalogIn.catalog_uid
abbrev pub catalog_uid : String → String → String
catalog_uid source_id catalog_name = source_id <> "::catalog::" <> catalog_name

abbrev given : Option String → String → String
given none y = y
given (some x) y = x

module _ {J : Type 0} where
  -- `for k, v in payload.items(): setattr(existing, k, v)`
  unfoldable pub set_all : Dict J → Dict J → Dict J
  set_all [] columns = columns
  set_all ((k, v) ∷ payload) columns = set_all payload (set k v columns)

  abbrev is_organization : String → Organization J → Bool
  is_organization org_id o = str_eq o.org_id org_id

  abbrev pub is_source : String → Source J → Bool
  is_source source_id o = str_eq o.source_id source_id

  abbrev pub is_catalog : String → Catalog J → Bool
  is_catalog uid c = str_eq c.catalog_uid uid

  refresh_organization : OrganizationIn J → ℕ → Organization J → Organization J
  unfolding set_all
  refresh_organization org now existing = record existing {
    columns = set_all org.columns existing.columns;
    updated_at = now;
  }

  refresh_source : SourceIn J → Option String → ℕ → Source J → Source J
  unfolding set_all
  refresh_source source cluster_rk now existing = record existing {
    org_id = source.org_id;
    kind = source.kind;
    cluster_rk = or_else cluster_rk existing.cluster_rk;
    columns = set_all source.columns existing.columns;
    updated_at = now;
  }

  refresh_catalog : CatalogIn J → ℕ → Catalog J → Catalog J
  unfolding set_all
  refresh_catalog catalog now existing = record existing {
    source_id = catalog.source_id;
    catalog_name = catalog.catalog_name;
    display_name = given catalog.display_name catalog.catalog_name;
    columns = set_all catalog.columns existing.columns;
    updated_at = now;
  }

module _ {J : Type 0} (actor : String) where
  put_organization : OrganizationIn J → ℕ → Option (Organization J) → Session J → Session J
  unfolding refresh_organization audit
  put_organization org now none s = audit actor "create" "T0" org.org_id (
      flush_all (record s {
        organizations =
            Table.add (record { org_id = org.org_id; columns = org.columns; updated_at = now })
              s.organizations;
      }))
  put_organization org now (some existing) s = audit actor "update" "T0" org.org_id (record s {
    organizations =
        Table.update (is_organization org.org_id) (refresh_organization org now) s.organizations;
  })

  unfoldable pub upsert_organization : OrganizationIn J → ℕ → Session J → Session J
  unfolding put_organization
  upsert_organization org now s =
      put_organization org now (Table.find (is_organization org.org_id) s.organizations) s

  put_source : SourceIn J → Option String → ℕ → Option (Source J) → Session J → Session J
  unfolding refresh_source audit
  put_source source cluster_rk now none s = audit actor "create" "T1" source.source_id (
      flush_all (record s {
        sources =
            Table.add
              (record {
                source_id = source.source_id;
                org_id = source.org_id;
                kind = source.kind;
                cluster_rk = cluster_rk;
                columns = source.columns;
                updated_at = now;
              })
              s.sources;
      }))
  put_source source cluster_rk now (some existing) s =
      audit actor "update" "T1" source.source_id (record s {
        sources =
            Table.update (is_source source.source_id) (refresh_source source cluster_rk now)
              s.sources;
      })

  unfoldable pub upsert_source : SourceIn J → Option String → ℕ → Session J → Session J
  unfolding put_source
  upsert_source source cluster_rk now s =
      put_source source cluster_rk now (Table.find (is_source source.source_id) s.sources) s

  unfoldable pub put_catalog : CatalogIn J → String → ℕ → Option (Catalog J) → Session J → Session J
  unfolding refresh_catalog audit
  put_catalog catalog uid now none s = audit actor "create" "T2" uid (record s {
    catalogs =
        Table.add
          (record {
            catalog_uid = uid;
            source_id = catalog.source_id;
            catalog_name = catalog.catalog_name;
            display_name = given catalog.display_name catalog.catalog_name;
            columns = catalog.columns;
            updated_at = now;
          })
          s.catalogs;
  })
  put_catalog catalog uid now (some existing) s = audit actor "update" "T2" uid (record s {
    catalogs = Table.update (is_catalog uid) (refresh_catalog catalog now) s.catalogs;
  })

  unfoldable pub upsert_catalog : CatalogIn J → ℕ → Session J → Session J
  unfolding put_catalog
  upsert_catalog catalog now s =
      let uid = catalog_uid catalog.source_id catalog.catalog_name in
      put_catalog catalog uid now (Table.find (is_catalog uid) s.catalogs) s
