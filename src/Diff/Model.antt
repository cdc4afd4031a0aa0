-- ===== src/Diff/Model.antt =====
-- The data of featureDiff.ts, and the cell library that featureSpatialIndex.ts calls.
use hifld_next.Common.{ℕ, String, Bool, List, ◌∷◌, [], ◌++◌, Option}
use hifld_next.Js.{Js}
use hifld_next.Selection.Features.{SelectedMapFeature, LngLat, CatalogOrigin}

abbrev pub geometry_match_column : String
geometry_match_column = "__geometry__"

abbrev pub stable_identifier_fields : List String
stable_identifier_fields = "OBJECTID" ∷ "ID" ∷ "id" ∷ "objectid" ∷ "fid" ∷ "facility_id" ∷ []

abbrev pub default_match_key_fields : List String
default_match_key_fields = stable_identifier_fields ++ ("NAME" ∷ "name" ∷ [])

pub data FeatureDiffStatus : Type 0 where
  unchanged changed left_only right_only possible_match : FeatureDiffStatus

pub data FeatureMatchMethod : Type 0 where
  key fuzzy s2 no_match : FeatureMatchMethod

pub data CellStatus : Type 0 where
  same differs added removed : CellStatus

pub data SortDirection : Type 0 where
  asc desc : SortDirection

pub record MatchKeyPair : Type 0 where
  pub id : String
  pub left : String
  pub right : String

pub record DiffSort : Type 0 where
  pub column : String
  pub direction : SortDirection

pub record DiffColumn : Type 0 where
  pub key : String
  pub label : String

pub record DiffCell : Type 0 where
  pub left : String
  pub right : String
  pub left_present : Bool
  pub right_present : Bool
  pub status : CellStatus

abbrev pub DiffCells : Type 0
DiffCells = List (String × DiffCell)

module _ (js : Js) where
  -- A selected feature that comes from the catalog: `CatalogSelectedMapFeature`.
  pub record CatalogFeature : Type 0 where
    pub feature : SelectedMapFeature js
    pub origin : CatalogOrigin

  pub record DiffOptions : Type 0 where
    pub left_version : String
    pub right_version : String
    pub match_key_pairs : List MatchKeyPair
    pub s2_level : js.Number
    pub sort : Option DiffSort

  pub record DiffRow : Type 0 where
    pub id : String
    pub status : FeatureDiffStatus
    pub match_method : FeatureMatchMethod
    pub confidence : js.Number
    pub left : Option CatalogFeature
    pub right : Option CatalogFeature
    pub cells : DiffCells

  pub record CandidateScore : Type 0 where
    pub score : js.Number
    pub method : FeatureMatchMethod

  pub record ColumnScore : Type 0 where
    pub score : js.Number
    pub method : FeatureMatchMethod
    pub weight : js.Number
    pub is_stable_identifier : Bool

  pub record CandidateScoreAccumulator : Type 0 where
    pub total_weight : js.Number
    pub weighted_score : js.Number
    pub has_stable_identifier_exact_match : Bool
    pub has_stable_identifier_disagreement : Bool
    pub scores : List ColumnScore

  -- The cell library: the token of the cell at a level that holds a point, and its neighbours'.
  pub record CellIndex : Type 0 where
    pub max_level : js.Number
    pub token : LngLat js → js.Number → String
    pub neighbors : LngLat js → js.Number → List String

pub record DiffSummary : Type 0 where
  pub selected : ℕ
  pub matched : ℕ
  pub changed : ℕ
  pub left_only : ℕ
  pub right_only : ℕ
  pub possible_matches : ℕ

pub record DiffResult (js : Js) : Type 0 where
  pub can_compare : Bool
  pub reason : Option String
  pub left_version : Option String
  pub right_version : Option String
  pub columns : List DiffColumn
  pub rows : List (DiffRow js)
  pub summary : DiffSummary
