-- ===== src/Tests/TreeRuns.antt =====
-- The files of a partitioned source: their tree, and the preview that is shown first.
use mathlib.Core.List.{Perm}
use hifld_next.Common.{String, List, [], ◌∷◌, none, some, ◌≡◌}
use hifld_next.Dataset.Sources.{DatasetSource, DatasetFormat, SourceType, file_location}
use hifld_next.Dataset.GeoparquetTree.{build_geoparquet_source_tree}
use hifld_next.Dataset.GeoparquetTree.Leaves.{leaves, files_of, build_geoparquet_source_tree_files}
use hifld_next.Dataset.ParquetPreview.{
  concrete_parquet_preview_options, default_parquet_preview_selection,
}
use hifld_next.Dataset.ParquetPreview.Start.{
  IsShown, id_of, start_id, default_parquet_preview_selection-IsShown,
}
use hifld_next.Tests.Engine.{engine}

abbrev source : String → String → DatasetSource
source id path = record {
  id = id;
  asset_key = some "data";
  version = some "1";
  url = some "https://example.org/data.parquet";
  storage_uri = none;
  source_type = SourceType.file;
  location = file_location path;
  source_metadata = none;
  storage_location = some (record { id = "b"; slug = none; name = "Bucket"; config = none });
}

abbrev sources : List DatasetSource
sources =
    source "1" "hifld/geoparquet/state=CA/part-0.parquet"
    ∷ source "2" "hifld/geoparquet/state=AK/part-0.parquet"
    ∷ source "3" "hifld/geoparquet/state=CA/*.parquet"
    ∷ []

build_geoparquet_source_tree_files_example :
    Perm (leaves (build_geoparquet_source_tree engine sources)) (files_of [] sources)
build_geoparquet_source_tree_files_example = build_geoparquet_source_tree_files engine sources

abbrev format_entry : DatasetFormat
format_entry = record { format_type = "geoparquet"; format_name = "GeoParquet"; sources = sources }

default_parquet_preview_selection-IsShown_example :
    let selection =
      default_parquet_preview_selection engine
        (some format_entry)
        (some (source "2" "hifld/geoparquet/state=AK/part-0.parquet")) in
    IsShown engine (some format_entry) selection
    × (id_of selection
        ≡ start_id
            (some (source "2" "hifld/geoparquet/state=AK/part-0.parquet"))
            (concrete_parquet_preview_options engine (some format_entry)))
default_parquet_preview_selection-IsShown_example =
    default_parquet_preview_selection-IsShown engine (some format_entry)
      (some (source "2" "hifld/geoparquet/state=AK/part-0.parquet"))
