-- ===== src/Lib.antt =====
-- The federated query engine of nexcraft, and the stores and the ontology that work beside it.
--
-- packages/nexcraft answers SQL over many sources: the router looks a source up in a catalog,
-- takes the executor of the source's kind, gets a connection from the provider, and streams record
-- batches back, within the budgets of the query's context. packages/nexcraft-driver runs queries
-- in the background and keeps their states. packages/ontology-store keeps the ontology: the
-- hierarchy from sources to columns that the MDL documents of packages/ontology-pipeline give,
-- their annotations, cards and profiles, and a table of tasks by which their changes reach the
-- vector index.
--
-- Base: shared names, results, dictionaries in order of insertion, lists on native numbers, and
-- methods that change a state and may raise (Base.Exec: the state comes back beside the error
-- too).
--
-- Federation, packages/nexcraft/nexcraft:
--   Core: core/context.py, core/descriptors.py and the records of connection/management.py.
--   Store: InMemoryManagementStore of connection/management.py; Secrets: NullSecretResolver.
--   Catalog: catalog/db.py and catalog/inmemory.py; Catalog.Yaml: catalog/yaml_catalog.py.
--   Sizing: StaticPoolConfig of connection/pool_config.py.
--   Provider: PooledConnectionProvider of connection/pooled.py, each call on its own;
-- Provider.Builds: `_get_or_build_pool` by many tasks at once, as a list of turns between awaits.
--   Router: router.py, over a catalog, a provider and executors that are parameters;
-- Router.Tenancy puts it over DBCatalog and the provider of one store, Router.Balance counts
-- connections over any provider, and Router.Pooled, with Provider.Counted, fits the pooled one to
-- it.
--   Stream: the pump of streaming/cancellable_stream.py, what it puts into the queue;
-- Stream.Channel: pump, bounded queue, reader and deadline as a list of turns, with the cleanup of
-- a stream whose deadline ended a wait, and `execute_to_table` of client.py.
--
-- Driver, packages/nexcraft-driver/nexcraft_driver: AsyncStore is InProcessAsyncQueryStore of
-- async_store.py. An event is a call of a method (submit, cancel, aclose, purge_spool) or a point
-- at which the task of a query goes on.
--
-- Reindex, packages/ontology-store/ontology_store: Queue is the table reindex_queue with QueueDAO
-- of workers/queue.py, Worker is `run_once` and `_process_task` of ReindexWorker in
-- workers/reindex.py with `session` of db/engine.py.
--
-- Spine, packages/ontology-store/ontology_store: db and dao, the tables of the ontology and the
-- objects that read and write them. Table is a table as a session sees it that does not flush by
-- itself: the rows that queries find, and those that wait for the next flush. Models: the rows of
-- db/*_models.py and db/models.py, the session over all of them, with the queue. Annotations:
-- dao/annotations.py. Inferences: dao/inferences.py, with Candidates and Hints. Relations:
-- dao/relations.py. Cards: dao/cards.py. Stats: dao/stats.py, with Samples for the values behind
-- the gate. Hierarchy: dao/hierarchy.py, with Places for the rows that place a schema, Rows and
-- Models for one model of a document of schemas/mdl.py, Documents for a whole one, and Invariants,
-- by which what each kind of write keeps is kept by a document.
--
-- Retrieval, packages/ontology-retrieval/ontology_retrieval: Cache is LRUCache of
-- pipeline/cache.py; a method is one step, since it holds the lock throughout. Metrics is
-- eval/metrics.py.
--
-- Pipeline, packages/ontology-pipeline/ontology_pipeline: RunState is state.py, with the file that
-- keeps the state.
--
-- Foundry, packages/ontology-foundry/ontology_foundry: Chunker is RecursiveTextChunker of
-- chunkers.py, on lists of characters; Merge is merge_entity_spans of ner/merge.py; Consensus is
-- edge_consensus of causal/consensus.py.
--
-- What is outside acts on a world of which nothing is known, and is a parameter: drivers and their
-- pools, the parser of YAML, PyArrow's batches, the handlers of the worker and the commits of the
-- database, the clock. Where a theorem needs more of it, a record of hypotheses says so (IsCounted
-- for connections, IsPool and IsQuiet for what lies under the pooled provider, Closing for pools,
-- RoundTrips for JSON), and the tests give one that holds.
--
-- Only the loop of the chunker runs on fuel: one unit for each character and one more are enough
-- when the overlap is below the size of a chunk, and no fuel is enough otherwise. The other loops
-- are recursions on the lists that they walk, and waiting is a list of turns, over all of which
-- the theorems range.
--
-- A flush in Spine stores what waits and never fails: constraints of the database are not checked
-- by it, so a theorem that speaks of a result speaks of runs whose flushes succeed, and theorems
-- say where keys stay unique and when two sources keep apart in source.cluster_rk. The except
-- branch around the queueing of a task in Hierarchy is never taken. A query for a key takes the
-- first row that has it, and one for the ends and kind of an edge, which are not the whole of a
-- constraint, raises on a second one.
--
-- Not modelled: the texts of exceptions, logs, the values that audits of the spine keep, the
-- vector store, readers that abandon a stream, the configuration of pools from YAML, secrets from
-- the environment, the asyncpg adapter, the HTTP and Flight servers, the pipelines around language
-- models, and the jobs on Temporal. Times are whole milliseconds (in the cache, seconds) and
-- confidences thousandths where the code has floats.
pub mod Base
pub mod Federation
pub mod Driver
pub mod Reindex
pub mod Retrieval
pub mod Foundry
pub mod Spine
pub mod Pipeline
