-- ===== src/Diff/Build.antt =====
-- `buildFeatureDiff`: the comparison of a selection, with its summary.
pub mod Laws
use Prim.Native.Nat.{Ordering}
use hifld_next.Common.{
  ℕ, String, Bool, true, false, not, ◌||◌, ◌&&◌, ◌==◌, eqb, leb, ltb, if◌then◌else◌, Option, none,
  some, List, [], ◌∷◌, ◌++◌, includes, map, filter, length, lookup, is_some, any, find, get_or,
}
use hifld_next.Js.{Js}
use hifld_next.Js.Sort.{sort}
use hifld_next.Selection.Features.{SelectedMapFeature}
use hifld_next.Diff.Model.{
  CatalogFeature, CellIndex, DiffCell, DiffColumn, DiffOptions, DiffResult, DiffRow, DiffSort,
  DiffSummary, FeatureDiffStatus, unchanged, changed, left_only, right_only, possible_match, asc,
  desc, SortDirection, MatchKeyPair,
}
use hifld_next.Diff.Versions.{
  all_property_keys, catalog_features, column_of, comparable_versions,
  default_feature_diff_match_key_pairs, for_version, is_positive,
}
use hifld_next.Diff.Cells.{is_unchanged}
use hifld_next.Diff.Matching.{build_rows}

abbrev pub empty_summary : ℕ → DiffSummary
empty_summary selected = record {
  selected = selected;
  matched = 0;
  changed = 0;
  left_only = 0;
  right_only = 0;
  possible_matches = 0;
}

-- `STATUS_SORT_ORDER`
unfoldable pub status_sort_order : FeatureDiffStatus → ℕ
status_sort_order changed = 0
status_sort_order possible_match = 1
status_sort_order left_only = 2
status_sort_order right_only = 3
status_sort_order unchanged = 4

-- `a === b` on statuses.
abbrev pub has_status : FeatureDiffStatus → FeatureDiffStatus → Bool
has_status changed changed = true
has_status possible_match possible_match = true
has_status left_only left_only = true
has_status right_only right_only = true
has_status unchanged unchanged = true
has_status _ _ = false

abbrev pub cell_sort_value : Option DiffCell → String
cell_sort_value none = ""
cell_sort_value (some cell) =
    if cell.left_present then cell.left else if cell.right_present then cell.right else ""

module _ {js : Js} where
  abbrev pub is_matched : DiffRow js → Bool
  is_matched row = is_some row.left && is_some row.right

  abbrev pub rows_with : FeatureDiffStatus → List (DiffRow js) → ℕ
  rows_with status rows = length (filter (λ (row : DiffRow js). has_status row.status status) rows)

  unfoldable pub summarize : List (DiffRow js) → ℕ → DiffSummary
  summarize rows selected = record {
    selected = selected;
    matched = length (filter is_matched rows);
    changed = rows_with changed rows;
    left_only = rows_with left_only rows;
    right_only = rows_with right_only rows;
    possible_matches = rows_with possible_match rows;
  }

  unfoldable pub feature_sort_value : DiffRow js → String → String
  feature_sort_value row column = cell_sort_value (lookup column row.cells)

-- Whether `sign * direction` is positive.
abbrev pub directed : SortDirection → Ordering → Bool
directed asc Ordering.gt = true
directed desc Ordering.lt = true
directed _ _ = false

-- The sign of `a - b` on the ranks.
abbrev pub sign_of_ranks : ℕ → ℕ → Ordering
sign_of_ranks a b = if ltb a b then Ordering.lt else if ltb b a then Ordering.gt else Ordering.eq

-- The versions that are compared: a requested one that the selection lacks gives way.
abbrev pub left_of : List String → String → Option String
left_of versions requested =
    if includes versions requested
    then some requested
    else elim versions [ [] ↦ none | v ∷ _ ↦ some v ]

abbrev pub differs_from : Option String → String → Bool
differs_from none v = true
differs_from (some l) v = not (v == l)

abbrev pub right_of : List String → String → Option String → Option String
right_of versions requested left =
    if includes versions requested then some requested else find (differs_from left) versions

module _ (js : Js) (base_compare : String → String → Ordering) where
  -- The comparison of two rows; `base_compare` is `localeCompare` with its options.
  unfoldable pub row_order : DiffSort → DiffRow js → DiffRow js → Ordering
  unfolding status_sort_order feature_sort_value
  row_order sort_by l r =
      if sort_by.column == "status"
      then sign_of_ranks (status_sort_order l.status) (status_sort_order r.status)
      else if sort_by.column == "confidence"
      then (if js.lt l.confidence r.confidence
          then Ordering.lt
          else if js.lt r.confidence l.confidence
          then Ordering.gt
          else Ordering.eq)
      else base_compare (feature_sort_value l sort_by.column) (feature_sort_value r sort_by.column)

  unfoldable pub sort_rows : List (DiffRow js) → Option DiffSort → List (DiffRow js)
  sort_rows rows none = rows
  sort_rows rows (some sort_by) =
      sort (λ l r. directed sort_by.direction (row_order sort_by l r)) rows

  abbrev pub cannot_compare : String → ℕ → DiffResult js
  cannot_compare reason selected = record {
    can_compare = false;
    reason = some reason;
    left_version = none;
    right_version = none;
    columns = [];
    rows = [];
    summary = empty_summary selected;
  }

  module _ (cells : CellIndex js) where
    unfoldable pub compare_versions :
        List (CatalogFeature js) → DiffOptions js → ℕ → String → String → DiffResult js
    compare_versions known options selected left_version right_version =
        let columns = map column_of (all_property_keys js known) in
        let defaults = default_feature_diff_match_key_pairs js known left_version right_version in
        let pairs =
          if ltb 0 (length options.match_key_pairs) then options.match_key_pairs else defaults in
        let rows =
          build_rows js cells pairs options.s2_level (for_version js left_version known)
            (for_version js right_version known) columns in
        let sorted_rows = sort_rows rows options.sort in
        record {
          can_compare = true;
          reason = none;
          left_version = some left_version;
          right_version = some right_version;
          columns = columns;
          rows = sorted_rows;
          summary = summarize sorted_rows selected;
        }

    -- `!leftVersion || !rightVersion || leftVersion === rightVersion`
    unfoldable pub compare_chosen :
        List (CatalogFeature js)
        → DiffOptions js
        → ℕ
        → Option String
        → Option String
        → DiffResult js
    unfolding compare_versions
    compare_chosen known options selected (some l) (some r) =
        if l == "" || r == "" || l == r
        then cannot_compare "Choose two different versions to compare." selected
        else compare_versions known options selected l r
    compare_chosen known options selected _ _ =
        cannot_compare "Choose two different versions to compare." selected

    -- The comparison, once the versions of the selection are known.
    unfoldable pub compare_found :
        List (CatalogFeature js) → DiffOptions js → ℕ → Option (List String) → DiffResult js
    compare_found known options selected none =
        cannot_compare "Select features from exactly two versions of the same dataset file."
          selected
    compare_found known options selected (some versions) =
        let left = left_of versions options.left_version in
        if options.left_version == options.right_version
        then cannot_compare "Select features from exactly two versions of the same dataset file."
            selected
        else compare_chosen known options selected left
            (right_of versions options.right_version left)

    unfoldable pub build_feature_diff :
        List (SelectedMapFeature js) → DiffOptions js → DiffResult js
    build_feature_diff features options =
        let known = catalog_features js features in
        compare_found known options (length features)
          (comparable_versions js (map (λ f. f.feature) known))
