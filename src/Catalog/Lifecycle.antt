-- ===== src/Catalog/Lifecycle.antt =====
-- `CatalogLifecycle` of webapp/src/lib/catalog-repository.ts. Between two `await`s nothing else
-- runs, so each stretch of code between them is a function on the state.
pub mod State
pub mod Reading
pub mod Refresh
pub mod Events
pub mod Accounts
pub mod Reads
pub mod Settling
