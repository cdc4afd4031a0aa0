-- ===== src/Dataset/Schema.antt =====
-- webapp/src/components/dataset/schemaSources.ts: the source whose columns are shown for a version.
pub mod Laws
use hifld_next.Common.{
  ℕ, ◌+◌, String, Bool, true, false, not, ◌||◌, ◌&&◌, ◌==◌, eq_iff, eq_refl, eqb, ltb, List, [],
  ◌∷◌, ◌++◌, map, any, filter, length, insert, All, Option, none, some, is_some, get_or,
  if◌then◌else◌, Bool-cases, inl, inr, ◌≡◌, refl, sym, ap, ◌∙◌, arith,
}
use hifld_next.Js.{Js}
use hifld_next.Js.Sort.{sort, insert_sorted}
use hifld_next.Dataset.Sources.{
  DatasetSource, DatasetFormat, Metadata, version_of, has_columns, column_count, is_after,
}
use hifld_next.Dataset.Best.{leftmost_best, better, is_some-leftmost_best, sort-All}

pub record SchemaSourceSelection : Type 0 where
  pub source : DatasetSource
  pub format_type : String
  pub format_name : String

pub record SchemaSummary : Type 0 where
  pub column_count : ℕ
  pub feature_count : Option ℕ
  pub geometry_type : Option String
  pub invalid_geometry_count : Option ℕ
  pub quality_check_passed : Option Bool
  pub columns_hash : Option String

pub record SchemaCandidate : Type 0 where
  pub selection : SchemaSourceSelection
  pub score : ℕ

unfoldable pub schema_source_score : DatasetFormat → DatasetSource → ℕ
schema_source_score format_entry source =
    (if has_columns source then 100 else 0)
    + (if format_entry.format_type == "geoparquet" then 10 else 0)
    + (elim source.source_metadata [
      | none ↦ 0
      | some metadata ↦ if is_some metadata.feature_count then 1 else 0
    ])

unfoldable pub get_schema_candidate : DatasetFormat → DatasetSource → SchemaCandidate
get_schema_candidate format_entry source = record {
  selection = record {
    source = source;
    format_type = format_entry.format_type;
    format_name = format_entry.format_name;
  };
  score = schema_source_score format_entry source;
}

abbrev pub is_of_version : String → DatasetSource → Bool
is_of_version version source = version_of source == version && has_columns source

-- The candidates among the sources that pass a test, in order.
abbrev pub candidates_where : (DatasetSource → Bool) → List DatasetFormat → List SchemaCandidate
candidates_where accepts [] = []
candidates_where accepts (format_entry ∷ rest) =
    map (get_schema_candidate format_entry) (filter accepts format_entry.sources)
    ++ candidates_where accepts rest

unfoldable pub get_schema_candidates_for_version :
    Option (List DatasetFormat) → String → List SchemaCandidate
get_schema_candidates_for_version formats version =
    candidates_where (is_of_version version) (get_or formats [])

abbrev pub score_of : SchemaCandidate → ℕ
score_of c = c.score

-- The sign of `right.score - left.score`.
abbrev pub scores_less : SchemaCandidate → SchemaCandidate → Bool
scores_less left right = ltb (score_of left) (score_of right)

abbrev pub head : {A : Type 0} → List A → Option A
head [] = none
head (x ∷ xs) = some x

abbrev pub selection_of : Option SchemaCandidate → Option SchemaSourceSelection
selection_of none = none
selection_of (some c) = some c.selection

unfoldable pub get_best_schema_source_for_version :
    Option (List DatasetFormat) → Option String → Option SchemaSourceSelection
get_best_schema_source_for_version formats none = none
get_best_schema_source_for_version formats (some version) =
    selection_of (head (sort scores_less (get_schema_candidates_for_version formats version)))

-- The loops of `getSchemaVersionOptions`: each version once, at its first place.
unfoldable pub add_schema_versions :
    List (String × String) → List DatasetSource → List (String × String)
add_schema_versions m [] = m
add_schema_versions m (source ∷ sources) =
    add_schema_versions
      (if has_columns source then insert (version_of source) (version_of source) m else m) sources

unfoldable pub add_formats : List (String × String) → List DatasetFormat → List (String × String)
add_formats m [] = m
add_formats m (format_entry ∷ rest) = add_formats (add_schema_versions m format_entry.sources) rest

module _ (js : Js) where
  unfoldable pub get_schema_version_options : Option (List DatasetFormat) → List String
  get_schema_version_options formats =
      sort (is_after js) (map (λ (e : String × String). e.1) (add_formats [] (get_or formats [])))

  unfoldable pub get_latest_schema_version : Option (List DatasetFormat) → Option String
  get_latest_schema_version formats = head (get_schema_version_options formats)

  unfoldable pub has_schema_metadata : Option (List DatasetFormat) → Bool
  has_schema_metadata formats = not (eqb (length (get_schema_version_options formats)) 0)

abbrev metadata_field : {B : Type 0} → (Metadata → Option B) → Option Metadata → Option B
metadata_field read none = none
metadata_field read (some metadata) = read metadata

unfoldable pub get_schema_summary : Option Metadata → SchemaSummary
get_schema_summary metadata = record {
  column_count = elim metadata [ none ↦ 0 | some m ↦ column_count m ];
  feature_count = metadata_field (λ m. m.feature_count) metadata;
  geometry_type = metadata_field (λ m. m.geometry_type) metadata;
  invalid_geometry_count = metadata_field (λ m. m.invalid_geometry_count) metadata;
  quality_check_passed = metadata_field (λ m. m.quality_check_passed) metadata;
  columns_hash = metadata_field (λ m. m.columns_hash) metadata;
}
