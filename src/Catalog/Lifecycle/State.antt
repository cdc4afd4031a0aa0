-- ===== src/Catalog/Lifecycle/State.antt =====
-- The state of `CatalogLifecycle` in webapp/src/lib/catalog-repository.ts, and what it tells.
use hifld_next.Common.{
  ℕ, String, Bool, List, [], Option, none, some, get_or, is_some, Result, fail_if, not, ◌||◌,
}

-- A repository object, known by its number, with the generation of its metadata.
pub record Repository : Type 0 where
  pub object : ℕ
  pub catalog_generation : String

-- What `#sourceSnapshot` finds, before `write` copies it.
pub record SourceSnapshot : Type 0 where
  pub fingerprint : String
  pub url : Option String

-- The promise that `#refreshing` holds, by the `await` at which `#refreshImpl` stands.
pub data Refreshing : Type 0 where
  idle fetching : Refreshing
  making_directory copying renaming : SourceSnapshot → Refreshing

pub record CatalogLifecycle : Type 0 where
  pub repository : Option Repository
  pub directory : Option String
  pub fingerprint : Option String
  pub last_successful_refresh : Option String
  pub last_error : Option String
  pub active_url : Option String
  pub refreshing : Refreshing
  pub leases : List (ℕ × ℕ)
  pub retired : List ℕ

-- The lifecycle with what stands around it: the objects made so far, the calls of their `close`, in
-- order, and the reads that have begun and not ended, by the repository that each was given.
pub record System : Type 0 where
  pub life : CatalogLifecycle
  pub made : ℕ
  pub closes : List ℕ
  pub reads : List ℕ

-- `CatalogRuntimeStatus`
pub record CatalogRuntimeStatus : Type 0 where
  pub generation : Option String
  pub last_successful_refresh : Option String
  pub last_error : Option String

pub record Snapshot : Type 0 where
  pub repository : Repository
  pub catalog_url : Option String
  pub generation : String

-- A repository that was made of the renamed file, and the time by the clock.
pub record Opened : Type 0 where
  pub catalog_generation : String
  pub time : String

-- `new CatalogLifecycle(source)`
unfoldable pub new_lifecycle : CatalogLifecycle
new_lifecycle = record {
  repository = none;
  directory = none;
  fingerprint = none;
  last_successful_refresh = none;
  last_error = none;
  active_url = none;
  refreshing = idle;
  leases = [];
  retired = [];
}

unfoldable pub new_system : System
unfolding new_lifecycle
new_system = record { life = new_lifecycle; made = 0; closes = []; reads = [] }

abbrev generation_of : Option Repository → Option String
generation_of none = none
generation_of (some r) = some r.catalog_generation

unfoldable pub status : CatalogLifecycle → CatalogRuntimeStatus
status l = record {
  generation = generation_of l.repository;
  last_successful_refresh = l.last_successful_refresh;
  last_error = l.last_error;
}

-- `start` once its refresh has ended.
unfoldable pub start_result : Bool → CatalogLifecycle → Result (Unit {0})
start_result refreshed l =
    fail_if (not refreshed || not (is_some l.repository))
      (get_or l.last_error "Catalog is unavailable")

-- What `withSnapshot` passes to the read; none where there is no repository.
unfoldable pub snapshot : CatalogLifecycle → Option Snapshot
snapshot l = elim l.repository [
  | none ↦ none
  | some r ↦
      some
        (record { repository = r; catalog_url = l.active_url; generation = r.catalog_generation })
]
