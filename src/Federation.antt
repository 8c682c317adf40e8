-- ===== src/Federation.antt =====
-- packages/nexcraft: the federated query engine. One module for each part; the proofs about a part
-- stand in the modules below its own.
pub mod Core
pub mod Store
pub mod Catalog
pub mod Sizing
pub mod Secrets
pub mod Provider
pub mod Router
pub mod Stream
mod Tests
