-- ===== src/WebTools/Versions.antt =====
-- webapp/src/lib/webmcp/versionComparisonTool.ts: two versions of a file side by side, by their
-- metadata and their columns.
pub mod Names
use Prim.Native.Nat.{Ordering}
use hifld_next.Common.{
  ℕ, String, Bool, true, false, not, ◌||◌, ◌&&◌, ◌==◌, ltb, if◌then◌else◌, List, [], ◌∷◌, length,
  take, filter, filter_map, add_all, lookup, insert, keys, Option, none, some, get_or, is_some,
}
use hifld_next.Js.{
  Js, Value, Fields, undefined, null, bool, num, bigint, str, arr, obj, end, get_field,
}
use hifld_next.Js.Sort.{sort}
use hifld_next.Js.Patterns.{text_take}
use hifld_next.Dataset.Sources.{ColumnSchema}

abbrev pub max_comparison_columns : ℕ
max_comparison_columns = 25

abbrev max_metadata_string_length : ℕ
max_metadata_string_length = 240

abbrev metadata_keys : List String
metadata_keys =
    "description" ∷ "feature_count" ∷ "bounds" ∷ "geometry_type" ∷ "size_bytes"
    ∷ "quality_check_passed" ∷ "invalid_geometry_count" ∷ "columns_hash" ∷ []

-- A source by what the comparison reads: its version, and its metadata with a version of its own,
-- the compared fields and the columns.
pub record VersionMetadata (N : Type 0) : Type 0 where
  pub version : String
  pub fields : Fields N
  pub columns : Option (List ColumnSchema)

pub record VersionSource (N : Type 0) : Type 0 where
  pub version : Option String
  pub metadata : Option (VersionMetadata N)

pub record MetadataChange (N : Type 0) : Type 0 where
  pub key : String
  pub left : Value N
  pub right : Value N

pub record FileVersionComparison (N : Type 0) : Type 0 where
  pub left_version : String
  pub right_version : String
  pub changed_metadata : List (MetadataChange N)
  pub added_columns : List String
  pub removed_columns : List String
  pub changed_columns : List String
  pub truncated : Bool

abbrev metadata_version : {N : Type 0} → Option (VersionMetadata N) → String
metadata_version none = "1"
metadata_version (some metadata) = metadata.version

unfoldable pub source_version : {N : Type 0} → VersionSource N → String
source_version source = get_or source.version (metadata_version source.metadata)

-- Slices are of ASCII texts.
unfoldable pub metadata_value : {N : Type 0} → Value N → Value N
unfolding text_take
metadata_value (arr items) = arr items
metadata_value (str s) = str (text_take max_metadata_string_length s)
metadata_value (num n) = num n
metadata_value (bool b) = bool b
metadata_value _ = null

abbrev field_of : {N : Type 0} → Option (VersionMetadata N) → String → Value N
field_of none key = undefined
field_of (some metadata) key = get_field metadata.fields key

abbrev columns_of : {N : Type 0} → Option (VersionMetadata N) → List ColumnSchema
columns_of none = []
columns_of (some metadata) = get_or metadata.columns []

abbrev pub columns : {N : Type 0} → VersionSource N → List ColumnSchema
columns source = columns_of source.metadata

-- `new Map(columns.map((column) => [column.name, column]))`, on top of the entries so far
unfoldable pub column_map :
    List (String × ColumnSchema) → List ColumnSchema → List (String × ColumnSchema)
column_map m [] = m
column_map m (column ∷ rest) = column_map (insert column.name column m) rest

abbrev pub differ : Option ColumnSchema → Option ColumnSchema → Bool
differ none right = false
differ (some left) none = false
differ (some left) (some right) = not (left.column_type == right.column_type)

abbrev pub is_added : Option ColumnSchema → Option ColumnSchema → Bool
is_added left right = not (is_some left) && is_some right

abbrev pub is_removed : Option ColumnSchema → Option ColumnSchema → Bool
is_removed left right = is_some left && not (is_some right)

unfoldable pub bounded_columns : List String → List String × Bool
bounded_columns values =
    (take max_comparison_columns values, ltb max_comparison_columns (length values))

module _ (js : Js) where
  abbrev same_value : Value js.Number → Value js.Number → Bool
  same_value left right = js.json_stringify left == js.json_stringify right

  abbrev change_of :
      VersionSource js.Number → VersionSource js.Number → String → Option (MetadataChange js.Number)
  change_of left_source right_source key =
      let left = metadata_value (field_of left_source.metadata key) in
      let right = metadata_value (field_of right_source.metadata key) in
      if same_value left right
      then none
      else some (record { key = key; left = left; right = right })

  abbrev pub name_after : String → String → Bool
  name_after l r = elim (js.locale_compare l r) [ Ordering.gt ↦ true | _ ↦ false ]

  unfoldable pub compare_file_versions :
      VersionSource js.Number → VersionSource js.Number → FileVersionComparison js.Number
  unfolding source_version metadata_value column_map bounded_columns add_all sort
  compare_file_versions left_source right_source =
      let left_columns = column_map [] (columns left_source) in
      let right_columns = column_map [] (columns right_source) in
      let names = sort name_after (add_all (keys left_columns) (keys right_columns)) in
      let chosen = λ (test : Option ColumnSchema → Option ColumnSchema → Bool).
        bounded_columns
          (filter (λ name. test (lookup name left_columns) (lookup name right_columns)) names) in
      let added = chosen is_added in
      let removed = chosen is_removed in
      let changed = chosen differ in
      record {
        left_version = source_version left_source;
        right_version = source_version right_source;
        changed_metadata = filter_map (change_of left_source right_source) metadata_keys;
        added_columns = added.0;
        removed_columns = removed.0;
        changed_columns = changed.0;
        truncated = added.1 || removed.1 || changed.1;
      }
