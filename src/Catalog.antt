-- ===== src/Catalog.antt =====
-- webapp/src/lib/catalog-repository.ts: the catalog that serves the requests.
pub mod Objects
pub mod Lifecycle
pub mod Validation
pub mod Source
