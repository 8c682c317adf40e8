-- ===== src/Reindex.antt =====
-- packages/ontology-store: the queue of reindexing tasks and the worker that drains it.
pub mod Queue
pub mod Worker
mod Tests
