-- ===== src/Foundry.antt =====
-- packages/ontology-foundry/ontology_foundry: the splitting of documents and the
-- merging of entities and of causal edges.
pub mod Chunker
pub mod Merge
pub mod Consensus
mod Tests
