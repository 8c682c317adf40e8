-- ===== src/Pipeline.antt =====
-- packages/ontology-pipeline/ontology_pipeline: what a pipeline keeps of its runs.
pub mod RunState
mod Tests
