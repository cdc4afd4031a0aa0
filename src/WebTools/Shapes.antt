-- ===== src/WebTools/Shapes.antt =====
-- webapp/src/lib/webmcp/catalogShapes.ts: what an agent reads of a file, cut to what it takes.
pub mod Cut
pub mod Numbered
use hifld_next.Common.{
  ℕ, zero, suc, ◌+◌, String, Bool, true, false, not, ◌||◌, ◌&&◌, ◌==◌, eqb, leb, if◌then◌else◌,
  List, [], ◌∷◌, ◌++◌, map, any, length, concat, is_some, Option, none, some, get_or,
}
use hifld_next.Dataset.Sources.{
  ColumnSchema, Metadata, StorageLocation, SourceType, file, api, DatasetSource, DatasetFormat,
  version_of, location_field, column_count,
}

abbrev pub max_serialized_catalog_result : ℕ
max_serialized_catalog_result = 1500

pub record QuerySourceRef : Type 0 where
  pub alias : String
  pub collection_slug : String
  pub dataset_slug : String
  pub file_slug : String
  pub version : String
  pub asset_key : String
  pub storage_location_slug : Option String

-- `SpatialSummarySchema`, by the fields that the model's metadata has.
pub record SpatialSummary : Type 0 where
  pub feature_count : Option ℕ
  pub geometry_type : Option String
  pub invalid_geometry_count : Option ℕ
  pub quality_check_passed : Option Bool
  pub columns_hash : Option String
  pub column_count : ℕ
  pub columns_available : Bool

pub record CatalogSource : Type 0 where
  pub asset_key : String
  pub version : String
  pub source_type : SourceType
  pub summary : Option SpatialSummary
  pub query_source : Option QuerySourceRef

pub record CatalogFormat : Type 0 where
  pub format_type : String
  pub name : String
  pub sources : List CatalogSource

-- `CatalogDatasetFileResponse`: `R` stands for the identities and the links, which no step reads,
-- and `T` for the value of a tag.
pub record CatalogFileShape (R T : Type 0) : Type 0 where
  pub identities : R
  pub tags : List (String × T)
  pub formats : List CatalogFormat
  pub query_sources : List QuerySourceRef
  pub truncated : Bool

unfoldable pub summary_of : Metadata → SpatialSummary
summary_of metadata = record {
  feature_count = metadata.feature_count;
  geometry_type = metadata.geometry_type;
  invalid_geometry_count = metadata.invalid_geometry_count;
  quality_check_passed = metadata.quality_check_passed;
  columns_hash = metadata.columns_hash;
  column_count = column_count metadata;
  columns_available = is_some metadata.columns;
}

abbrev source_summary : Option Metadata → Option SpatialSummary
source_summary none = none
source_summary (some metadata) = some (summary_of metadata)

abbrev is_file : SourceType → Bool
is_file file = true
is_file api = false

-- The slugs of the collection, the dataset and the file that the references name.
pub record Slugs : Type 0 where
  pub collection_slug : String
  pub dataset_slug : String
  pub file_slug : String

-- `sourceIndex` and `querySources` of the loop.
pub record Numbering : Type 0 where
  pub source_index : ℕ
  pub query_sources : List QuerySourceRef

-- `querySources.push(querySource); sourceIndex += 1;`
abbrev pub number_source : Option QuerySourceRef → Numbering → Numbering
number_source none s = s
number_source (some query_source) s = record {
  source_index = s.source_index + 1;
  query_sources = s.query_sources ++ query_source ∷ [];
}

-- `location_version` is `source.location.version`.
module _ (print : ℕ → String) (location_version : DatasetSource → Option String)
    (slugs : Slugs) where
  abbrev pub alias_at : ℕ → String
  alias_at i = concat ("source_" ∷ print i ∷ [])

  abbrev source_version : DatasetSource → String
  source_version source = get_or source.version (get_or (location_version source) "1")

  abbrev reference : ℕ → DatasetSource → Option String → Option QuerySourceRef
  reference i source none = none
  reference i source (some asset_key) = some (record {
    alias = alias_at i;
    collection_slug = slugs.collection_slug;
    dataset_slug = slugs.dataset_slug;
    file_slug = slugs.file_slug;
    version = version_of source;
    asset_key = asset_key;
    storage_location_slug = location_field (λ (l : StorageLocation). l.slug) source;
  })

  unfoldable pub query_source_of : ℕ → String → DatasetSource → Option QuerySourceRef
  query_source_of i format_type source =
      if format_type == "geoparquet" && is_file source.source_type
      then reference i source source.asset_key
      else none

  unfoldable pub shape_source : String → DatasetSource → ℕ → CatalogSource
  unfolding summary_of query_source_of
  shape_source format_type source i = record {
    asset_key = get_or source.asset_key format_type;
    version = source_version source;
    source_type = source.source_type;
    summary = source_summary source.source_metadata;
    query_source = query_source_of i format_type source;
  }

  unfoldable pub shape_sources :
      String → List DatasetSource → Numbering → List CatalogSource × Numbering
  unfolding shape_source
  shape_sources format_type [] s = ([], s)
  shape_sources format_type (source ∷ sources) s =
      let shaped = shape_source format_type source s.source_index in
      let (more, s') = shape_sources format_type sources (number_source shaped.query_source s) in
      (shaped ∷ more, s')

  unfoldable pub shape_formats : List DatasetFormat → Numbering → List CatalogFormat × Numbering
  unfolding shape_sources
  shape_formats [] s = ([], s)
  shape_formats (entry ∷ formats) s =
      let (sources, s') = shape_sources entry.format_type entry.sources s in
      let (more, s'') = shape_formats formats s' in
      (
        record { format_type = entry.format_type; name = entry.format_name; sources = sources }
            ∷ more,
        s'',
      )

-- `pop()`
abbrev pub without_last : {A : Type 0} → List A → List A
without_last [] = []
without_last (x ∷ []) = []
without_last (x ∷ y ∷ xs) = x ∷ without_last (y ∷ xs)

abbrev has_summary : CatalogFormat → Bool
has_summary entry = any (λ (s : CatalogSource). is_some s.summary) entry.sources

abbrev clear_summary : CatalogSource → CatalogSource
clear_summary source = record source { summary = none }

abbrev pub clear_summaries : CatalogFormat → CatalogFormat
clear_summaries entry = record entry { sources = map clear_summary entry.sources }

-- `size` is the length of the JSON text of a shape.
module _ {R T : Type 0} (size : CatalogFileShape R T → ℕ) where
  abbrev pub shape_fits : CatalogFileShape R T → Bool
  shape_fits shape = leb (size shape) max_serialized_catalog_result

  abbrev pub mark : Bool → CatalogFileShape R T → CatalogFileShape R T
  mark cut shape = if cut then record shape { truncated = true } else shape

  -- The loop, with a step for each format, and whether it has cut any.
  unfoldable pub pop_formats : ℕ → Bool → CatalogFileShape R T → Bool × CatalogFileShape R T
  pop_formats zero cut shape = (cut, shape)
  pop_formats (suc n) cut shape =
      let rest = pop_formats n true (record shape { formats = without_last shape.formats }) in
      if eqb (length shape.formats) 0 || shape_fits shape then (cut, shape) else rest

  unfoldable pub bound_file_shape : CatalogFileShape R T → CatalogFileShape R T
  unfolding pop_formats
  bound_file_shape value =
      let cut = any has_summary value.formats in
      let candidate = record value { formats = map clear_summaries value.formats } in
      let untagged = record candidate { tags = [] } in
      let (cut', popped) =
        pop_formats (length candidate.formats) (cut || not (eqb (length value.tags) 0)) untagged in
      if shape_fits value
      then value
      else if shape_fits candidate
      then mark cut candidate
      else mark cut' popped

  -- `shapeDatasetFileResponse`, from the identities and links.
  unfoldable pub shape_dataset_file_response :
      (ℕ → String)
      → (DatasetSource → Option String)
      → Slugs
      → R
      → List (String × T)
      → List DatasetFormat
      → CatalogFileShape R T
  unfolding bound_file_shape shape_formats
  shape_dataset_file_response print location_version slugs identities tags formats =
      let (shaped, numbered) =
        shape_formats print location_version slugs formats
          (record { source_index = 0; query_sources = [] }) in
      bound_file_shape (record {
        identities = identities;
        tags = tags;
        formats = shaped;
        query_sources = numbered.query_sources;
        truncated = false;
      })
