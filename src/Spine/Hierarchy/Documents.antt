-- ===== src/Spine/Hierarchy/Documents.antt =====
-- dao/hierarchy.py: `HierarchyDAO.upsert_mdl_document`, for a document of schemas/mdl.py. Its flushes
-- never fail here, so a result is that of a run whose flushes succeed.
pub mod Annotations
pub mod Keys
pub mod Tasks
pub mod Returns
pub mod Clusters
use nexcraft.Base.{
  ℕ, String, ◌<>◌, Bool, Option, none, some, List, [], ◌∷◌, str_eq, if◌then◌else◌, Result, ok, err,
  value_error,
}
use nexcraft.Base.Exec
use nexcraft.Base.Exec.{Exec}
use nexcraft.Spine.Table
use nexcraft.Spine.Models.{Source, Session}
use nexcraft.Spine.Hierarchy.{catalog_uid, is_source, is_catalog, upsert_catalog}
use nexcraft.Spine.Hierarchy.Places.{
  if_missing, ensure_cluster_metadata, ensure_schema_metadata, ensure_schema_catalog_link,
  upsert_schema_ext,
}
use nexcraft.Spine.Hierarchy.Rows.{MdlModel, Texts, text_or}
use nexcraft.Spine.Hierarchy.Models.{upsert_model}
use nexcraft.Base.Dict.{Dict}

pub record MdlDocument : Type 0 where
  pub source_id : String
  pub catalog : Option String
  pub schema_name : String
  pub models : List MdlModel

module _ {J : Type 0} where
  -- `if source.cluster_rk is None: source.cluster_rk = cluster.rk`
  unfoldable pub link_source : Source J → String → Session J → Session J
  link_source source cluster_rk s = go source.cluster_rk
    where
      go : Option String → Session J
      go none = record s {
        sources =
            Table.update (is_source source.source_id)
              (λ x. record x { cluster_rk = some cluster_rk }) s.sources;
      }
      go (some rk) = s

module _ {J : Type 0} (actor : String) where
  -- `defaults` are the other fields of a `CatalogIn`.
  unfoldable pub bind_catalog : Dict J → String → String → Option String → ℕ → Session J → Session J
  bind_catalog defaults source_id schema_rk none now s = s
  bind_catalog defaults source_id schema_rk (some catalog) now s =
      let uid = catalog_uid source_id catalog in
      ensure_schema_catalog_link schema_rk uid (
        if_missing (Table.find (is_catalog uid) s.catalogs)
          (upsert_catalog actor
            (record {
              source_id = source_id;
              catalog_name = catalog;
              display_name = none;
              columns = defaults;
            })
            now)
          s)

  -- Everything before the models, with the rk of the schema.
  unfoldable pub place_schema :
      Dict J → String → Source J → MdlDocument → ℕ → Session J → String × Session J
  unfolding link_source bind_catalog
  place_schema defaults sid source doc now s =
      let (cluster_rk, s1) = ensure_cluster_metadata sid source.kind doc.catalog s in
      let (schema_rk, s2) =
        ensure_schema_metadata cluster_rk doc.schema_name (link_source source cluster_rk s1) in
      (
        schema_rk,
        upsert_schema_ext actor schema_rk doc.schema_name [] now
            (bind_catalog defaults sid schema_rk doc.catalog now s2),
      )

  -- The rks of the models that were written.
  unfoldable pub upsert_models :
      Texts → List MdlModel → String → Bool → ℕ → Exec (Session J) (List String)
  unfolding upsert_model
  upsert_models texts [] schema_rk inline now s = (ok [], s)
  upsert_models texts (model ∷ models) schema_rk inline now s =
      (Exec.◌>>=◌ (upsert_model actor texts model schema_rk inline now) (λ u.
          Exec.◌>>=◌ (upsert_models texts models schema_rk inline now)
            (λ touched. Exec.pure (model.rk ∷ touched))))
        s

  unfoldable pub upsert_document :
      Texts
      → Dict J
      → String
      → MdlDocument
      → Bool
      → ℕ
      → Option (Source J)
      → Exec (Session J) (List String)
  unfolding place_schema upsert_models
  upsert_document texts defaults sid doc inline now none s = (err value_error, s)
  upsert_document texts defaults sid doc inline now (some source) s =
      let (schema_rk, s') = place_schema defaults sid source doc now s in
      upsert_models texts doc.models schema_rk inline now s'

  unfoldable pub upsert_mdl_document :
      Texts → Dict J → MdlDocument → Option String → Bool → ℕ → Exec (Session J) (List String)
  unfolding upsert_document
  upsert_mdl_document texts defaults doc source_id inline now s =
      let sid = text_or source_id doc.source_id in
      upsert_document texts defaults sid doc inline now (Table.find (is_source sid) s.sources) s
