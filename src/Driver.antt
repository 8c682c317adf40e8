-- ===== src/Driver.antt =====
-- packages/nexcraft-driver: the queries that run in the background of the Flight server.
pub mod AsyncStore
mod Tests
