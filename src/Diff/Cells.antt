-- ===== src/Diff/Cells.antt =====
-- The rows of a comparison and their cells.
pub mod Laws
use hifld_next.Common.{
  ℕ, String, Bool, true, false, not, ◌||◌, ◌&&◌, ◌==◌, if◌then◌else◌, Option, none, some, List, [],
  ◌∷◌, lookup, insert, any, concat, get_or,
}
use hifld_next.Js.{Js, whole}
use hifld_next.Diff.Model.{
  CatalogFeature, CandidateScore, DiffCell, DiffCells, DiffColumn, DiffRow, FeatureDiffStatus,
  unchanged, changed, left_only, right_only, possible_match, FeatureMatchMethod, no_match,
  CellStatus, same, differs, added, removed,
}
use hifld_next.Diff.Scoring.{has_feature_property, feature_property}

unfoldable pub cell_status : String → String → Bool → Bool → CellStatus
cell_status left right left_present right_present =
    if not left_present && not right_present
    then same
    else if not left_present && right_present
    then added
    else if left_present && not right_present
    then removed
    else if left == right
    then same
    else differs

abbrev pub is_unchanged : CellStatus → Bool
is_unchanged same = true
is_unchanged _ = false

-- `Object.values(cells).some((cell) => cell.status !== "unchanged")`
abbrev pub has_change : DiffCells → Bool
has_change = any (λ e. not (is_unchanged e.1.status))

pub data Side : Type 0 where
  left_side right_side : Side

module _ {js : Js} where
  -- The sides of a cell, where a feature may be missing.
  abbrev pub present_in : Option (CatalogFeature js) → String → Bool
  present_in none k = false
  present_in (some f) k = has_feature_property f k

  abbrev pub value_in : Option (CatalogFeature js) → String → String
  value_in none k = ""
  value_in (some f) k = if has_feature_property f k then feature_property f k else ""

  unfoldable pub cell_of :
      Option (CatalogFeature js) → Option (CatalogFeature js) → String → DiffCell
  cell_of left right k = record {
    left = value_in left k;
    right = value_in right k;
    left_present = present_in left k;
    right_present = present_in right k;
    status =
        cell_status (value_in left k) (value_in right k) (present_in left k) (present_in right k);
  }

  -- The loop of `buildCells`, onto what it has written.
  unfoldable pub build_cells_onto :
      DiffCells
      → Option (CatalogFeature js)
      → Option (CatalogFeature js)
      → List DiffColumn
      → DiffCells
  build_cells_onto cells left right [] = cells
  build_cells_onto cells left right (column ∷ columns) =
      build_cells_onto (insert column.key (cell_of left right column.key) cells) left right columns

  unfoldable pub build_cells :
      Option (CatalogFeature js) → Option (CatalogFeature js) → List DiffColumn → DiffCells
  build_cells left right columns = build_cells_onto [] left right columns

module _ (js : Js) where
  unfoldable pub row_status :
      Option (CatalogFeature js)
      → Option (CatalogFeature js)
      → js.Number
      → DiffCells
      → FeatureDiffStatus
  row_status none right confidence cells = right_only
  row_status (some l) none confidence cells = left_only
  row_status (some l) (some r) confidence cells =
      if js.lt confidence (js.literal 9 10)
      then possible_match
      else if has_change cells
      then changed
      else unchanged

  unfoldable pub matched_row :
      CatalogFeature js
      → CatalogFeature js
      → js.Number
      → FeatureMatchMethod
      → List DiffColumn
      → DiffRow js
  matched_row left right score method columns =
      let cells = build_cells (some left) (some right) columns in
      record {
        id = concat (left.feature.id ∷ ":" ∷ right.feature.id ∷ []);
        status = row_status (some left) (some right) score cells;
        match_method = method;
        confidence = score;
        left = some left;
        right = some right;
        cells = cells;
      }

  unfoldable pub unmatched_row : CatalogFeature js → Side → List DiffColumn → DiffRow js
  unmatched_row feature left_side columns = record {
    id = concat ("left" ∷ ":" ∷ feature.feature.id ∷ []);
    status = left_only;
    match_method = no_match;
    confidence = whole js 0;
    left = some feature;
    right = none;
    cells = build_cells (some feature) none columns;
  }
  unmatched_row feature right_side columns = record {
    id = concat ("right" ∷ ":" ∷ feature.feature.id ∷ []);
    status = right_only;
    match_method = no_match;
    confidence = whole js 0;
    left = none;
    right = some feature;
    cells = build_cells none (some feature) columns;
  }
