-- ===== src/Tests/DatasetRuns.antt =====
-- The sources of a file with two versions, and a link that names two of them.
use hifld_next.Common.{
  String, ◌==◌, List, [], ◌∷◌, any, count, All, Option, none, some, if◌then◌else◌, ◌≡◌, refl,
}
use hifld_next.Js.Sort.{sort, insert_sorted}
use hifld_next.Layers.{SourceDescriptor}
use hifld_next.Dataset.Sources.{
  DatasetSource, DatasetFormat, Metadata, SourceType, file_location, version_of, has_columns,
}
use hifld_next.Dataset.Compare.{
  candidate_version, version_candidates, get_comparable_version_sources, IsBest,
  get_comparable_version_sources-IsBest,
}
use hifld_next.Dataset.Best.{leftmost_best}
use hifld_next.Dataset.Schema.{
  get_best_schema_source_for_version, get_schema_version_options, get_latest_schema_version,
  add_formats, add_schema_versions, selection_of, score_of,
}
use hifld_next.Dataset.Schema.Laws.{
  schema_version, schema_candidates, get_best_schema_source_for_version_best,
}
use hifld_next.Dataset.Descriptors.{
  FilePlace, descriptor_for_source, encode_source_descriptor_list, decode_source_descriptor_list,
}
use hifld_next.Dataset.Descriptors.RoundTrip.{IsDescriptor, decode_source_descriptor_list_inverts}
use hifld_next.Tests.Engine.{engine}
use hifld_next.Tests.LinkCodec.{link_codec, link_codec-IsCodec}

abbrev metadata : Metadata
metadata = record {
  feature_count = some 3;
  geometry_type = some "Point";
  invalid_geometry_count = none;
  quality_check_passed = none;
  columns_hash = none;
  columns = some (record { name = "id"; column_type = "int" } ∷ []);
}

abbrev source : String → Option Metadata → DatasetSource
source version described = record {
  id = version;
  asset_key = some "data";
  version = some version;
  url = none;
  storage_uri = none;
  source_type = SourceType.file;
  location = file_location "data.parquet";
  source_metadata = described;
  storage_location = none;
}

abbrev formats : List DatasetFormat
formats =
    record {
      format_type = "pmtiles";
      format_name = "PMTiles";
      sources = source "1" none ∷ source "2" none ∷ [];
    }
    ∷ record {
      format_type = "geoparquet";
      format_name = "GeoParquet";
      sources = source "1" (some metadata) ∷ [];
    }
    ∷ []

get_comparable_version_sources-IsBest_example :
    let sources = get_comparable_version_sources engine (some formats) in
    ((version : String)
      → count (λ s. version_of s == version) sources
        ≡ (if any (λ c. candidate_version c == version) (version_candidates formats) then 1 else 0))
    × All (IsBest engine formats) sources
get_comparable_version_sources-IsBest_example = get_comparable_version_sources-IsBest engine formats

get_best_schema_source_for_version_best_example :
    get_best_schema_source_for_version (some formats) (some "1")
    ≡ selection_of (leftmost_best schema_version score_of "1" (schema_candidates (some formats)))
get_best_schema_source_for_version_best_example =
    get_best_schema_source_for_version_best "1" (some formats)

is_latest : get_latest_schema_version engine (some formats) ≡ some "1"
unfolding get_latest_schema_version get_schema_version_options add_formats add_schema_versions
    has_columns sort insert_sorted
is_latest = refl

abbrev place : FilePlace
place = record { collection_slug = "c"; dataset_slug = "d"; file_slug = "f" }

abbrev descriptor : SourceDescriptor
descriptor = record {
  collection_slug = "c";
  dataset_slug = "d";
  file_slug = "f";
  version = "2";
  asset_key = "data";
  storage_location_slug = none;
}

is_described : descriptor_for_source place (source "2" none) ≡ some descriptor
unfolding descriptor_for_source
is_described = refl

descriptor-IsDescriptor : IsDescriptor descriptor
descriptor-IsDescriptor = record {
  collection_slug = refl;
  dataset_slug = refl;
  file_slug = refl;
  version = refl;
  asset_key = refl;
  storage_location_slug = λ slug e. cc;
}

decode_source_descriptor_list_inverts_example :
    decode_source_descriptor_list link_codec
      (encode_source_descriptor_list link_codec (descriptor ∷ descriptor ∷ []))
    ≡ descriptor ∷ descriptor ∷ []
decode_source_descriptor_list_inverts_example =
    decode_source_descriptor_list_inverts link_codec link_codec-IsCodec
      (descriptor ∷ descriptor ∷ []) (descriptor-IsDescriptor, (descriptor-IsDescriptor, tt))
