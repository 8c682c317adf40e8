-- ===== src/Spine/Tests/Documents.antt =====
-- The theorems about documents and annotations on the session.
use nexcraft.Base.{ℕ, ◌<◌, ◌≡◌, refl, true, none, some, [], ◌∷◌, map, arith, ok}
use nexcraft.Reindex.Queue.{enqueue_many}
use nexcraft.Spine.Annotations.{key_areas, trust}
use nexcraft.Spine.Annotations.Laws.{Stands, write_all, write_all-Stands}
use nexcraft.Spine.Hierarchy.Rows.{MdlModel}
use nexcraft.Spine.Hierarchy.Documents.{upsert_mdl_document}
use nexcraft.Spine.Hierarchy.Places.{cluster_rk_of}
use nexcraft.Spine.Models.{Session}
use nexcraft.Spine.Hierarchy.Documents.Clusters.{AreApart, upsert_mdl_document-AreApart}
use nexcraft.Spine.Hierarchy.Documents.Keys.{IsKeyed, upsert_mdl_document-IsKeyed}
use nexcraft.Spine.Hierarchy.Documents.Returns.{HasUniqueEdges, upsert_mdl_document-returns}
use nexcraft.Spine.Hierarchy.Documents.Tasks.{model_tasks, upsert_mdl_document-tasks}
use nexcraft.Spine.Tests.{warehouse, staff_ext, by_human, store, texts, document, from_llm}

llm_lower : trust "llm_enrichment" < trust "human"
unfolding trust
llm_lower = omega arith

store-Stands : Stands "etl" "staff" key_areas ("hiring" ∷ []) by_human store
store-Stands = record {
  row = staff_ext;
  found = refl;
  holds = refl;
  newest_stored = refl;
  none_added = refl;
}

write_all-Stands_example :
    Stands "etl" "staff" key_areas
      ("hiring" ∷ [])
      by_human
      (write_all "etl" ((from_llm, 10) ∷ (from_llm, 11) ∷ []) store)
write_all-Stands_example =
    write_all-Stands "etl" "staff" key_areas ("hiring" ∷ []) by_human
      ((from_llm, 10) ∷ (from_llm, 11) ∷ []) store ((λ e. llm_lower), ((λ e. llm_lower), tt))
      store-Stands

store-IsKeyed : IsKeyed store
store-IsKeyed = record {
  tables_flushed = refl;
  columns_flushed = refl;
  tables_unique = (refl, tt);
  table_exts_unique = (refl, tt);
  columns_unique = tt;
  column_exts_unique = tt;
}

upsert_mdl_document-IsKeyed_example :
    IsKeyed (upsert_mdl_document "etl" texts [] document none true 9 store).1
upsert_mdl_document-IsKeyed_example =
    upsert_mdl_document-IsKeyed "etl" texts [] document none true 9 store store-IsKeyed

store_edges : HasUniqueEdges store
store_edges = record { flushed = refl; unique = (refl, tt) }

document_returns :
    (upsert_mdl_document "etl" texts [] document none true 9 store).0
    ≡ ok ("staff" ∷ "desk" ∷ "desk" ∷ [])
document_returns =
    upsert_mdl_document-returns "etl" texts [] document none true 9 store refl store_edges

-- A second source, which has its cluster.
abbrev two_sources : Session ℕ
two_sources = record store {
  sources = record {
    stored =
        warehouse
        ∷ record warehouse { source_id = "mart"; cluster_rk = some "postgres://mart" }
        ∷ [];
    added = [];
  };
}

upsert_mdl_document-AreApart_example :
    AreApart (upsert_mdl_document "etl" texts [] document none true 9 two_sources).1.sources
upsert_mdl_document-AreApart_example =
    upsert_mdl_document-AreApart "etl" texts [] document none true 9 two_sources refl
      (refl, (refl, (refl, tt))) (λ free. refl)

-- Two sources whose documents name one cluster.
cluster_rk_of-clash : cluster_rk_of "a" "postgres" (some "b") ≡ cluster_rk_of "a.b" "postgres" none
cluster_rk_of-clash = refl

upsert_mdl_document-tasks_example :
    (("staff" ∷ "desk" ∷ "desk" ∷ []) ≡ map MdlModel.rk document.models)
    × ((upsert_mdl_document "etl" texts [] document none true 9 store).1.queue
        ≡ (enqueue_many store.queue (model_tasks document.models) 9).1)
upsert_mdl_document-tasks_example =
    upsert_mdl_document-tasks "etl" texts [] document none true 9 store document_returns
