-- ===== src/Spine/Hierarchy/Invariants/Placing.antt =====
-- What is kept by the writes that place the schema of a document.
use nexcraft.Base.{
  ℕ, ◌≡◌, refl, String, ◌<>◌, Option, none, some, [], str_eq, Bool-cases, inl, inr, Option-cases,
}
use nexcraft.Base.Dict.{Dict}
use nexcraft.Spine.Table
use nexcraft.Spine.Table.{Table}
use nexcraft.Spine.Models.{SchemaCatalog, Source, Session, flush_all}
use nexcraft.Spine.Inferences.{audit}
use nexcraft.Spine.Hierarchy.{CatalogIn, is_catalog, catalog_uid, put_catalog, upsert_catalog}
use nexcraft.Spine.Hierarchy.Places.{
  cluster_rk_of, if_missing, is_database, is_cluster, is_schema, ensure_database_metadata,
  ensure_cluster_metadata, ensure_schema_metadata, link, ensure_schema_catalog_link, put_schema_ext,
  upsert_schema_ext,
}
use nexcraft.Spine.Hierarchy.Models.Frame.{frame}
use nexcraft.Spine.Hierarchy.Documents.{MdlDocument, link_source, bind_catalog, place_schema}

module _ {J : Type 0} where
  -- What the placing of a schema keeps.
  pub record IsPlaceable (P : Session J → Type 0) : Type 0 where
    pub framed : {s t : Session J} → frame s ≡ frame t → s.sources ≡ t.sources → P s → P t
    pub flushed : {s : Session J} → P s → P (flush_all s)

  -- What only looks at the rows of a document and the queue is kept when a source gets its cluster.
  pub link_source-keeps :
      (P : Session J → Type 0)
      → ((s t : Session J) → frame s ≡ frame t → P s → P t)
      → (source : Source J) (cluster_rk : String) (s : Session J) → P s
      → P (link_source source cluster_rk s)
  unfolding link_source
  link_source-keeps P alike source cluster_rk s p = elim (Option-cases source.cluster_rk) [
    | inl e ↦ rw e (alike s _ refl p)
    | inr (rk, e) ↦ rw e p
  ]

  module _ (P : Session J → Type 0) (keeps : IsPlaceable P) where
    keep_missing :
        {R : Type 0} (o : Option R) (create : Session J → Session J) (s : Session J)
        → ((t : Session J) → P t → P (create t))
        → P s
        → P (if_missing o create s)
    keep_missing none create s creates p = creates s p
    keep_missing (some row) create s creates p = p

    ensure_cluster_metadata-keeps :
        (source_id kind : String) (catalog : Option String) (s : Session J)
        → P s
        → P (ensure_cluster_metadata source_id kind catalog s).1
    unfolding ensure_cluster_metadata ensure_database_metadata
    ensure_cluster_metadata-keeps source_id kind catalog s =
        keep_missing (Table.find (is_cluster (cluster_rk_of source_id kind catalog)) s.clusters) _ s
          (λ t p. keeps.flushed (
            keeps.framed refl refl (
              keep_missing (Table.find (is_database kind) t.databases) _ t
                (λ u q. keeps.flushed (keeps.framed refl refl q)) p)))

    ensure_schema_metadata-keeps :
        (cluster_rk schema_name : String) (s : Session J)
        → P s
        → P (ensure_schema_metadata cluster_rk schema_name s).1
    unfolding ensure_schema_metadata
    ensure_schema_metadata-keeps cluster_rk schema_name s =
        keep_missing (Table.find (is_schema (cluster_rk <> "/" <> schema_name)) s.schemas) _ s
          (λ t p. keeps.flushed (keeps.framed refl refl p))

    link-keeps :
        (schema_rk uid : String) (o : Option SchemaCatalog) (s : Session J)
        → P s
        → P (link schema_rk uid o s)
    unfolding link
    link-keeps schema_rk uid none s p = keeps.flushed (keeps.framed refl refl p)
    link-keeps schema_rk uid (some existing) s p =
        elim (Bool-cases (str_eq existing.catalog_uid uid)) [
          | inl same ↦ rw same p
          | inr other ↦ rw other (keeps.framed refl refl p)
        ]

    put_catalog-keeps :
        (actor : String) (catalog : CatalogIn J) (uid : String) (now : ℕ) (o : Option _)
        (s : Session J)
        → P s
        → P (put_catalog actor catalog uid now o s)
    unfolding put_catalog audit
    put_catalog-keeps actor catalog uid now none s p = keeps.framed refl refl p
    put_catalog-keeps actor catalog uid now (some existing) s p = keeps.framed refl refl p

    upsert_catalog-keeps :
        (actor : String) (catalog : CatalogIn J) (now : ℕ) (s : Session J)
        → P s
        → P (upsert_catalog actor catalog now s)
    unfolding upsert_catalog
    upsert_catalog-keeps actor catalog now s =
        put_catalog-keeps actor catalog (catalog_uid catalog.source_id catalog.catalog_name) now _ s

    put_schema_ext-keeps :
        (actor schema_rk display_name : String) (kwargs : Dict J) (now : ℕ) (o : Option _)
        (s : Session J)
        → P s
        → P (put_schema_ext actor schema_rk display_name kwargs now o s)
    unfolding put_schema_ext audit
    put_schema_ext-keeps actor schema_rk display_name kwargs now none s p = keeps.framed refl refl p
    put_schema_ext-keeps actor schema_rk display_name kwargs now (some existing) s p =
        keeps.framed refl refl p

    bind_catalog-keeps :
        (actor : String) (defaults : Dict J) (source_id schema_rk : String)
        (catalog : Option String) (now : ℕ) (s : Session J)
        → P s
        → P (bind_catalog actor defaults source_id schema_rk catalog now s)
    unfolding bind_catalog ensure_schema_catalog_link
    bind_catalog-keeps actor defaults source_id schema_rk none now s p = p
    bind_catalog-keeps actor defaults source_id schema_rk (some catalog) now s p =
        link-keeps schema_rk (catalog_uid source_id catalog) _ _ (
          keep_missing (Table.find (is_catalog (catalog_uid source_id catalog)) s.catalogs) _ s
            (upsert_catalog-keeps actor _ now) p)

    pub place_schema-keeps :
        (actor : String) (defaults : Dict J) (sid : String) (source : Source J) (doc : MdlDocument)
        (now : ℕ) (s : Session J)
        → ((t : Session J)
            → P t
            → P (link_source source (cluster_rk_of sid source.kind doc.catalog) t))
        → P s
        → P (place_schema actor defaults sid source doc now s).1
    unfolding place_schema upsert_schema_ext
    place_schema-keeps actor defaults sid source doc now s linked p =
        let cluster = ensure_cluster_metadata sid source.kind doc.catalog s in
        let schema =
          ensure_schema_metadata cluster.0 doc.schema_name
            (link_source source cluster.0 cluster.1) in
        put_schema_ext-keeps actor schema.0 doc.schema_name [] now _ _ (
          bind_catalog-keeps actor defaults sid schema.0 doc.catalog now schema.1 (
            ensure_schema_metadata-keeps cluster.0 doc.schema_name _ (
              unfold ensure_cluster_metadata in
              linked cluster.1 (ensure_cluster_metadata-keeps sid source.kind doc.catalog s p))))
