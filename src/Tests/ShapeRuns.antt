-- ===== src/Tests/ShapeRuns.antt =====
-- The shape of a file with two formats, of which the cut leaves one.
use hifld_next.Common.{ℕ, ◌*◌, String, false, List, [], ◌∷◌, length, none, some, ◌≡◌, refl}
use hifld_next.Dataset.Sources.{file, file_location, DatasetSource, DatasetFormat}
use hifld_next.WebTools.Shapes.{
  CatalogFileShape, Slugs, bound_file_shape, shape_dataset_file_response,
}
use hifld_next.WebTools.Shapes.Cut.{IsCutOf, bound_file_shape-IsCutOf}
use hifld_next.WebTools.Shapes.Numbered.{
  references_from, queryable, shape_dataset_file_response-references,
}

-- A thousand units for each format.
abbrev size : CatalogFileShape String String → ℕ
size shape = length shape.formats * 1000

abbrev two_formats : CatalogFileShape String String
two_formats = record {
  identities = "roads";
  tags = [];
  formats =
      record { format_type = "geoparquet"; name = "GeoParquet"; sources = [] }
      ∷ record { format_type = "pmtiles"; name = "PMTiles"; sources = [] }
      ∷ [];
  query_sources = [];
  truncated = false;
}

bound_file_shape-IsCutOf_example : IsCutOf size two_formats (bound_file_shape size two_formats)
bound_file_shape-IsCutOf_example = bound_file_shape-IsCutOf size two_formats refl

one_left : length (bound_file_shape size two_formats).formats ≡ 1
unfolding bound_file_shape
one_left = refl

abbrev parquet_file : DatasetSource
parquet_file = record {
  id = "s1";
  asset_key = some "data";
  version = some "2025";
  url = none;
  storage_uri = none;
  source_type = file;
  location = file_location "roads.parquet";
  source_metadata = none;
  storage_location = none;
}

abbrev formats : List DatasetFormat
formats =
    record {
      format_type = "geoparquet";
      format_name = "GeoParquet";
      sources = parquet_file ∷ parquet_file ∷ [];
    }
    ∷ []

abbrev slugs : Slugs
slugs = record { collection_slug = "transport"; dataset_slug = "roads"; file_slug = "roads" }

abbrev print : ℕ → String
print n = "n"

shape_dataset_file_response-references_example :
    (shape_dataset_file_response size print (λ s. none) slugs "roads" [] formats).query_sources
    ≡ references_from print (λ s. none) slugs 0 (queryable formats)
shape_dataset_file_response-references_example =
    shape_dataset_file_response-references print (λ s. none) slugs size "roads" [] formats
