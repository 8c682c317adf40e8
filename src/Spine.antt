-- ===== src/Spine.antt =====
-- packages/ontology-store/ontology_store: the tables of the ontology store (db) and the objects that
-- read and write them (dao).
pub mod Table
pub mod Models
pub mod Annotations
pub mod Inferences
pub mod Relations
pub mod Cards
pub mod Stats
pub mod Hierarchy
mod Tests
