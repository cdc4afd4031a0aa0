-- ===== src/Dataset/ParquetPreview.antt =====
-- webapp/src/components/dataset/parquetPreviewOptions.ts: the single Parquet files of a format that a
-- preview offers, and the one it starts with.
pub mod Start
use Prim.Native.Nat.{Ordering}
use hifld_next.Common.{
  ℕ, String, Bool, true, false, not, ◌||◌, ◌&&◌, ◌==◌, eqb, if◌then◌else◌, List, [], ◌∷◌, filter,
  filter_map, find, join, Option, none, some, get_or,
}
use hifld_next.Js.{Js}
use hifld_next.Js.Sort.{sort}
use hifld_next.Js.Patterns.{has_code, is_suffix}
use hifld_next.Js.Paths.{split, segments}
use hifld_next.VersionLabel.{compare_version_values}
use hifld_next.Dataset.Sources.{
  DatasetSource, DatasetFormat, StorageLocation, Location, file_location, api_location, version_of,
}
use hifld_next.Dataset.Urls.{build_source_file_url}

pub record ParquetPreviewSelection : Type 0 where
  pub storage_location_id : String
  pub version : String
  pub source_id : String

pub record ParquetPreviewOption : Type 0 where
  pub storage_location_id : String
  pub version : String
  pub source_id : String
  pub file_name : String
  pub url : String
  pub storage_location_name : String
  pub path : String

-- `isFileLocation` and the path
abbrev pub path_of : Location → Option String
path_of (file_location path) = some path
path_of (api_location address) = none

unfoldable pub source_path : DatasetSource → Option String
source_path source = path_of source.location

-- `/^[^=]+=[^=]+$/`
abbrev is_pair : List String → Bool
is_pair (name ∷ value ∷ []) = not (name == "") && not (value == "")
is_pair _ = false

unfoldable pub is_partition : String → Bool
unfolding split
is_partition segment = is_pair (split b'=' segment)

-- From the first segment that is a partition.
unfoldable pub from_partition : List String → List String
unfolding is_partition
from_partition [] = []
from_partition (part ∷ parts) =
    let rest = from_partition parts in if is_partition part then part ∷ parts else rest

abbrev pub last_or : List String → String → String
last_or [] other = other
last_or (part ∷ parts) other = last_or parts part

unfoldable pub parquet_file_label : String → String
unfolding segments from_partition
parquet_file_label path = elim (from_partition (segments path)) [
  | [] ↦ last_or (segments path) "data.parquet"
  | part ∷ parts ↦ join "/" (part ∷ parts)
]

abbrev or_else : Ordering → Ordering → Ordering
or_else Ordering.eq other = other
or_else first other = first

abbrev is_gt : Ordering → Bool
is_gt Ordering.gt = true
is_gt _ = false

abbrev sources_of : Option DatasetFormat → List DatasetSource
sources_of none = []
sources_of (some format_entry) = format_entry.sources

-- Where the option is in the place, of the version.
abbrev pub is_at : String → String → ParquetPreviewOption → Bool
is_at location_id version option =
    option.storage_location_id == location_id && option.version == version

abbrev option_of_source :
    Option DatasetSource → List ParquetPreviewOption → Option ParquetPreviewOption
option_of_source none options = none
option_of_source (some source) options = find (λ option. option.source_id == source.id) options

abbrev pub or_first :
    Option ParquetPreviewOption → List ParquetPreviewOption → Option ParquetPreviewOption
or_first (some option) options = some option
or_first none [] = none
or_first none (option ∷ options) = some option

abbrev pub selection_of_option : Option ParquetPreviewOption → Option ParquetPreviewSelection
selection_of_option none = none
selection_of_option (some option) = some (record {
  storage_location_id = option.storage_location_id;
  version = option.version;
  source_id = option.source_id;
})

module _ (js : Js) where
  -- The guards, for the path, the address and the place that the source has.
  abbrev option_of :
      DatasetSource
      → Option String
      → Option String
      → Option StorageLocation
      → Option ParquetPreviewOption
  option_of source none url place = none
  option_of source (some path) none place = none
  option_of source (some path) (some url) none = none
  option_of source (some path) (some url) (some place) =
      if path == ""
        || url == ""
        || has_code b'*' path
        || not (is_suffix ".parquet" (js.to_lower_case path))
      then none
      else if place.id == "" || place.name == ""
      then none
      else some (record {
        storage_location_id = place.id;
        storage_location_name = place.name;
        version = version_of source;
        source_id = source.id;
        url = url;
        path = path;
        file_name = parquet_file_label path;
      })

  unfoldable pub parquet_preview_option_from_source : DatasetSource → Option ParquetPreviewOption
  unfolding source_path
  parquet_preview_option_from_source source =
      option_of source (source_path source) (build_source_file_url source) source.storage_location

  -- The comparison function.
  unfoldable pub option_after : ParquetPreviewOption → ParquetPreviewOption → Bool
  option_after left right = is_gt (
      or_else (compare_version_values js left.version right.version) (
        or_else (js.locale_compare left.storage_location_name right.storage_location_name)
          (js.locale_compare left.file_name right.file_name)))

  unfoldable pub concrete_parquet_preview_options : Option DatasetFormat → List ParquetPreviewOption
  unfolding parquet_preview_option_from_source option_after
  concrete_parquet_preview_options format_entry =
      sort option_after (filter_map parquet_preview_option_from_source (sources_of format_entry))

  unfoldable pub parquet_preview_options_for_selection :
      Option DatasetFormat → String → String → List ParquetPreviewOption
  parquet_preview_options_for_selection format_entry location_id version =
      filter (is_at location_id version) (concrete_parquet_preview_options format_entry)

  unfoldable pub default_parquet_preview_selection :
      Option DatasetFormat → Option DatasetSource → Option ParquetPreviewSelection
  default_parquet_preview_selection format_entry selected_source =
      let options = concrete_parquet_preview_options format_entry in
      selection_of_option (or_first (option_of_source selected_source options) options)
