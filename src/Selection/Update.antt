-- ===== src/Selection/Update.antt =====
-- `updateSelectedFeatures`: a selection replaced or extended, without repeats and within the cap.
pub mod Laws
use hifld_next.Common.{String, Bool, List, [], ◌∷◌, ◌++◌}
use hifld_next.Js.{Js}
use hifld_next.Intake.{Intake, take_all, start}
use hifld_next.Selection.Features.{SelectedMapFeature}

pub data FeatureSelectionMode : Type 0 where
  replace append : FeatureSelectionMode

pub record FeatureSelectionUpdate (js : Js) : Type 0 where
  pub rows : List (SelectedMapFeature js)
  pub was_capped : Bool

module _ {js : Js} where
  abbrev pub feature_id : SelectedMapFeature js → String
  feature_id f = f.id

  abbrev pub feature_layer : SelectedMapFeature js → String
  feature_layer f = f.loaded_layer_id

  abbrev pub candidates :
      List (SelectedMapFeature js)
      → List (SelectedMapFeature js)
      → FeatureSelectionMode
      → List (SelectedMapFeature js)
  candidates current incoming replace = incoming
  candidates current incoming append = current ++ incoming

  unfoldable pub update_selected_features :
      List (SelectedMapFeature js)
      → List (SelectedMapFeature js)
      → FeatureSelectionMode
      → FeatureSelectionUpdate js
  update_selected_features current incoming mode =
      let done = take_all feature_id feature_layer start (candidates current incoming mode) in
      record { rows = done.rows; was_capped = done.was_capped }
