-- ===== src/Catalog/Validation.antt =====
-- `validateCatalogDatabase` of webapp/src/lib/catalog-repository.ts: what a database file must hold
-- before it may serve requests.
use hifld_next.Common.{
  ℕ, String, not, ◌==◌, eq_iff, eqb, List, [], ◌∷◌, any, Option, none, some, Result, ok, fail,
  fail_if, ◌>>=◌, ◌>>◌, >>=-eq-ok, fail_if->>-eq-ok, fail_if-eq-ok, >>-eq-ok, ok_inj, ◌∙◌, ◌≡◌, ap,
  sym, arith, ◌⊎◌, ◌↔◌,
}

-- `CatalogMetadata`
pub record CatalogMetadata : Type 0 where
  pub schema_version : ℕ
  pub catalog_generation : String
  pub created_at : String
  pub portolan_profile_uri : String
  pub root_href : String
  pub root_title : String

-- What the database answers to each statement, once its schema has parsed it; a row that is missing
-- is none.
pub record Database : Type 0 where
  pub application_id : Result ℕ
  pub user_version : Result ℕ
  pub quick_check : Result String
  pub metadata_row : Option (Result CatalogMetadata)

pub record CatalogValidation : Type 0 where
  pub generation : String
  pub created_at : String

abbrev pub catalog_application_id : ℕ
catalog_application_id = 1212761676

abbrev pub catalog_supported_schema_versions : List ℕ
catalog_supported_schema_versions = 1 ∷ 2 ∷ []

unfoldable pub quick_check : Database → Result (Unit {0})
quick_check db = do
  answer ← db.quick_check
  fail_if (not (answer == "ok")) "Catalog SQLite quick_check failed"

unfoldable pub catalog_metadata : Database → Result CatalogMetadata
catalog_metadata db = elim db.metadata_row [
  | none ↦ fail "Catalog SQLite metadata is missing"
  | some row ↦ row
]

unfoldable pub validate_catalog_database : Database → Result CatalogValidation
validate_catalog_database db = do
  application_id ← db.application_id
  fail_if (not (eqb application_id catalog_application_id))
      "Unsupported catalog SQLite application ID"
  schema_version ← db.user_version
  fail_if (not (any (eqb schema_version) catalog_supported_schema_versions))
      "Unsupported catalog SQLite schema version"
  quick_check db
  metadata ← catalog_metadata db
  fail_if (not (eqb metadata.schema_version schema_version))
      "Catalog metadata schema version does not match SQLite schema version"
  ok (record { generation = metadata.catalog_generation; created_at = metadata.created_at })

-- A database that may serve requests as that generation.
pub record IsCatalog (db : Database) (v : CatalogValidation) : Type 0 where
  pub metadata : CatalogMetadata
  pub application : db.application_id ≡ ok catalog_application_id
  pub supported : (metadata.schema_version ≡ 1) ⊎ (metadata.schema_version ≡ 2)
  pub version : db.user_version ≡ ok metadata.schema_version
  pub checked : db.quick_check ≡ ok "ok"
  pub row : db.metadata_row ≡ some (ok metadata)
  pub generation : v.generation ≡ metadata.catalog_generation
  pub created_at : v.created_at ≡ metadata.created_at

quick_check-eq-ok : (db : Database) → quick_check db ≡ ok tt → db.quick_check ≡ ok "ok"
unfolding quick_check
quick_check-eq-ok db h =
    let (answer, e, tested) = >>=-eq-ok db.quick_check _ h in
    let same = fail_if-eq-ok (not (answer == "ok")) _ tested in
    e ∙ ap ok ((eq_iff answer "ok").0 (ground (arith, same)))

catalog_metadata-eq-ok :
    (db : Database) (m : CatalogMetadata)
    → catalog_metadata db ≡ ok m
    → db.metadata_row ≡ some (ok m)
unfolding catalog_metadata
catalog_metadata-eq-ok db m h = ground arith

validate_catalog_database-IsCatalog :
    (db : Database) (v : CatalogValidation) → validate_catalog_database db ≡ ok v → IsCatalog db v
unfolding validate_catalog_database
validate_catalog_database-IsCatalog db v h =
    let (a, ea, h1) = >>=-eq-ok db.application_id _ h in
    let (good_a, h2) = fail_if->>-eq-ok (not (eqb a catalog_application_id)) _ _ h1 in
    let (u, eu, h3) = >>=-eq-ok db.user_version _ h2 in
    let (good_u, h4) =
      fail_if->>-eq-ok (not (any (eqb u) catalog_supported_schema_versions)) _ _ h3 in
    let (checked, h5) = >>-eq-ok (quick_check db) _ h4 in
    let (m, em, h6) = >>=-eq-ok (catalog_metadata db) _ h5 in
    let (good_m, h7) = fail_if->>-eq-ok (not (eqb m.schema_version u)) _ _ h6 in
    let row = catalog_metadata-eq-ok db m em in
    let quick = quick_check-eq-ok db checked in
    record {
      metadata = m;
      application = ground arith;
      supported = ground arith;
      version = ground arith;
      checked = quick;
      row = row;
      generation = ap (λ (w : CatalogValidation). w.generation) (sym (ok_inj _ v h7));
      created_at = ap (λ (w : CatalogValidation). w.created_at) (sym (ok_inj _ v h7));
    }

IsCatalog-validate_catalog_database :
    (db : Database) (v : CatalogValidation) → IsCatalog db v → validate_catalog_database db ≡ ok v
unfolding validate_catalog_database quick_check catalog_metadata
IsCatalog-validate_catalog_database db v c =
    rw (c.application, c.version, c.checked, c.row) (ground (arith, c))

-- A database is accepted, with a generation and a date, just when its application id is the
-- catalog's, its user version is 1 or 2 and that of its metadata, its quick check is ok, and the
-- generation and the date are those of its metadata.
pub validate_catalog_database_iff :
    (db : Database) (v : CatalogValidation) → (validate_catalog_database db ≡ ok v) ↔ IsCatalog db v
validate_catalog_database_iff db v =
    (validate_catalog_database-IsCatalog db v, IsCatalog-validate_catalog_database db v)
