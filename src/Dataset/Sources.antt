-- ===== src/Dataset/Sources.antt =====
-- The formats and sources of a file, after webapp/src/lib/api-client.ts, by the fields that the views
-- read.
use Prim.Native.Nat.{Ordering}
use hifld_next.Common.{
  ℕ, String, Bool, true, false, not, eqb, List, length, Option, none, some, get_or,
}
use hifld_next.Js.{Js}
use hifld_next.VersionLabel.{compare_version_values}

pub record ColumnSchema : Type 0 where
  pub name : String
  pub column_type : String

-- `SpatialDatasetFileMetadata`
pub record Metadata : Type 0 where
  pub feature_count : Option ℕ
  pub geometry_type : Option String
  pub invalid_geometry_count : Option ℕ
  pub quality_check_passed : Option Bool
  pub columns_hash : Option String
  pub columns : Option (List ColumnSchema)

-- `UrlStorageLocationConfig`, by the fields that the addresses read
pub record StorageConfig : Type 0 where
  pub storage_type : Option String
  pub base_url : String
  pub bucket : String
  pub endpoint_url : Option String

pub record StorageLocation : Type 0 where
  pub id : String
  pub slug : Option String
  pub name : String
  pub config : Option StorageConfig

pub data SourceType : Type 0 where
  file api : SourceType

-- `DatasetSourceLocation`: a file by its path, or an API by its address.
pub data Location : Type 0 where
  file_location : String → Location
  api_location : String → Location

-- A version that is a number is given as its text.
pub record DatasetSource : Type 0 where
  pub id : String
  pub asset_key : Option String
  pub version : Option String
  pub url : Option String
  pub storage_uri : Option String
  pub source_type : SourceType
  pub location : Location
  pub source_metadata : Option Metadata
  pub storage_location : Option StorageLocation

pub record DatasetFormat : Type 0 where
  pub format_type : String
  pub format_name : String
  pub sources : List DatasetSource

-- `String(source.version ?? "1")`
abbrev pub version_of : DatasetSource → String
version_of source = get_or source.version "1"

-- `source.storage_location?.slug` and the like
abbrev pub location_field : {B : Type 0} → (StorageLocation → Option B) → DatasetSource → Option B
location_field read source = elim source.storage_location [ none ↦ none | some l ↦ read l ]

abbrev pub column_count : Metadata → ℕ
column_count metadata = elim metadata.columns [ none ↦ 0 | some columns ↦ length columns ]

-- `source.source_metadata?.columns?.length`, as a condition
unfoldable pub has_columns : DatasetSource → Bool
has_columns source = elim source.source_metadata [
  | none ↦ false
  | some metadata ↦ not (eqb (column_count metadata) 0)
]

-- Where `compareVersionValues` sorts the first version after the second.
abbrev pub is_after : Js → String → String → Bool
is_after js a b = elim (compare_version_values js a b) [ Ordering.gt ↦ true | _ ↦ false ]
