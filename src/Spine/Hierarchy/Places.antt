-- ===== src/Spine/Hierarchy/Places.antt =====
-- dao/hierarchy.py: the rows of `HierarchyDAO` that place a schema: its database, its cluster, its
-- catalog.
use nexcraft.Base.{ℕ, String, ◌<>◌, Bool, Option, none, some, str_eq, if◌then◌else◌}
use nexcraft.Base.Dict.{Dict}
use nexcraft.Spine.Table
use nexcraft.Spine.Models.{
  DatabaseMetadata, ClusterMetadata, SchemaMetadata, SchemaCatalog, SchemaExt, Session, flush_all,
}
use nexcraft.Spine.Inferences.{audit}
use nexcraft.Spine.Hierarchy.{set_all}

-- ClusterMetadata.rk
abbrev cluster_suffix : Option String → String
cluster_suffix none = ""
cluster_suffix (some catalog) = if str_eq catalog "" then "" else "." <> catalog

abbrev pub cluster_rk_of : String → String → Option String → String
cluster_rk_of source_id kind catalog = kind <> "://" <> source_id <> cluster_suffix catalog

abbrev pub is_database : String → DatabaseMetadata → Bool
is_database rk d = str_eq d.rk rk

abbrev pub is_cluster : String → ClusterMetadata → Bool
is_cluster rk d = str_eq d.rk rk

abbrev pub is_schema : String → SchemaMetadata → Bool
is_schema rk d = str_eq d.rk rk

abbrev pub is_link : String → SchemaCatalog → Bool
is_link rk d = str_eq d.schema_rk rk

module _ {J : Type 0} where
  abbrev pub is_ext : String → SchemaExt J → Bool
  is_ext rk d = str_eq d.schema_rk rk

  -- `if self.s.get(...) is None`
  abbrev pub if_missing : {R : Type 0} → Option R → (Session J → Session J) → Session J → Session J
  if_missing none create s = create s
  if_missing (some row) create s = s

  unfoldable pub ensure_database_metadata : String → Session J → Session J
  ensure_database_metadata kind s =
      if_missing (Table.find (is_database kind) s.databases)
        (λ t.
          flush_all
            (record t { databases = Table.add (record { rk = kind; name = kind }) t.databases }))
        s

  -- The rk of the row that the source returns, with the session.
  unfoldable pub ensure_cluster_metadata :
      String → String → Option String → Session J → String × Session J
  unfolding ensure_database_metadata
  ensure_cluster_metadata source_id kind catalog s =
      let rk = cluster_rk_of source_id kind catalog in
      (
        rk,
        if_missing (Table.find (is_cluster rk) s.clusters)
            (λ t.
              let t' = ensure_database_metadata kind t in
              flush_all (record t' {
                clusters =
                    Table.add (record { rk = rk; name = source_id; database_rk = kind })
                      t'.clusters;
              }))
            s,
      )

  unfoldable pub ensure_schema_metadata : String → String → Session J → String × Session J
  ensure_schema_metadata cluster_rk schema_name s =
      let rk = cluster_rk <> "/" <> schema_name in
      (
        rk,
        if_missing (Table.find (is_schema rk) s.schemas)
            (λ t. flush_all (record t {
              schemas =
                  Table.add (record { rk = rk; name = schema_name; cluster_rk = cluster_rk })
                    t.schemas;
            }))
            s,
      )

  unfoldable pub link : String → String → Option SchemaCatalog → Session J → Session J
  link schema_rk uid none s = flush_all (record s {
    schema_catalogs =
        Table.add (record { schema_rk = schema_rk; catalog_uid = uid }) s.schema_catalogs;
  })
  link schema_rk uid (some existing) s = if str_eq existing.catalog_uid uid then s else record s {
    schema_catalogs =
        Table.update (is_link schema_rk) (λ l. record l { catalog_uid = uid }) s.schema_catalogs;
  }

  unfoldable pub ensure_schema_catalog_link : String → String → Session J → Session J
  unfolding link
  ensure_schema_catalog_link schema_rk uid s =
      link schema_rk uid (Table.find (is_link schema_rk) s.schema_catalogs) s

  refresh_schema_ext : String → Dict J → ℕ → SchemaExt J → SchemaExt J
  unfolding set_all
  refresh_schema_ext display_name kwargs now existing = record existing {
    display_name = display_name;
    columns = set_all kwargs existing.columns;
    updated_at = now;
  }

module _ {J : Type 0} (actor : String) where
  unfoldable pub put_schema_ext :
      String → String → Dict J → ℕ → Option (SchemaExt J) → Session J → Session J
  unfolding refresh_schema_ext audit
  put_schema_ext schema_rk display_name kwargs now none s =
      audit actor "create" "T3" schema_rk (record s {
        schema_exts =
            Table.add
              (record {
                schema_rk = schema_rk;
                display_name = display_name;
                columns = kwargs;
                updated_at = now;
              })
              s.schema_exts;
      })
  put_schema_ext schema_rk display_name kwargs now (some existing) s =
      audit actor "update" "T3" schema_rk (record s {
        schema_exts =
            Table.update (is_ext schema_rk) (refresh_schema_ext display_name kwargs now)
              s.schema_exts;
      })

  unfoldable pub upsert_schema_ext : String → String → Dict J → ℕ → Session J → Session J
  unfolding put_schema_ext
  upsert_schema_ext schema_rk display_name kwargs now s =
      put_schema_ext schema_rk display_name kwargs now (Table.find (is_ext schema_rk) s.schema_exts)
        s
