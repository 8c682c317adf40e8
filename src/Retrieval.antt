-- ===== src/Retrieval.antt =====
-- packages/ontology-retrieval/ontology_retrieval: the cache of the retrieval pipeline and the metrics of its evaluation.
pub mod Cache
pub mod Metrics
mod Tests
