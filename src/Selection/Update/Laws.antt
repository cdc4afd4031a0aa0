-- ===== src/Selection/Update/Laws.antt =====
-- What a selection holds after an update.
use mathlib.Core.List.{Sublist}
use hifld_next.Common.{◌≤◌, String, true, false, List, ◌++◌, map, Distinct, ◌≡◌, refl, ◌↔◌, arith}
use hifld_next.Js.{Js}
use hifld_next.Intake.{take_all, start, max_selected_features}
use hifld_next.Intake.Bounds.{in_group, start-IsValid, take_all-IsValid}
use hifld_next.Intake.Capped.{IsDropped, was_capped_iff}
use hifld_next.Intake.Order.{take_all-append, take_all-sublist, take_all_fits, take_all_extends}
use hifld_next.Selection.Features.{SelectedMapFeature}
use hifld_next.Selection.Update.{
  FeatureSelectionMode, replace, append, feature_id, feature_layer, candidates,
  update_selected_features,
}

module _ {js : Js} where
  -- A selection that the state may hold: no feature twice, and no layer past the cap.
  pub record IsSelection (rows : List (SelectedMapFeature js)) : Type 0 where
    pub distinct : Distinct (map feature_id rows)
    pub bounded :
        (layer : String) → in_group feature_id feature_layer layer rows ≤ max_selected_features

  module _ (current incoming : List (SelectedMapFeature js)) (mode : FeatureSelectionMode) where
    -- Whatever was selected before and whatever comes in, the new selection holds no feature id
    -- twice and at most 100 features of each layer, and it is a sublist of the candidates.
    pub update_selected_features-IsSelection :
        IsSelection (update_selected_features current incoming mode).rows
        × Sublist
            (update_selected_features current incoming mode).rows
            (candidates current incoming mode)
    unfolding update_selected_features
    update_selected_features-IsSelection =
        let v =
          take_all-IsValid feature_id feature_layer start (candidates current incoming mode)
            (start-IsValid feature_id feature_layer) in
        (
          record { distinct = v.distinct; bounded = v.bounded },
          take_all-sublist feature_id feature_layer start (candidates current incoming mode),
        )

    -- The cap is reported just when some candidate was left out for it: no row has its id, and its
    -- layer has its full 100 rows.
    pub update_selected_features-was_capped :
        ((update_selected_features current incoming mode).was_capped ≡ true)
        ↔ IsDropped feature_id feature_layer
            (update_selected_features current incoming mode).rows
            (candidates current incoming mode)
    unfolding update_selected_features
    update_selected_features-was_capped =
        was_capped_iff feature_id feature_layer (candidates current incoming mode)

  -- To replace a selection by features without repeats and within the cap selects just these, in
  -- order, and reports no cap.
  pub update_selected_features_fits :
      (current rows : List (SelectedMapFeature js))
      → IsSelection rows
      → update_selected_features current rows replace ≡ record { rows = rows; was_capped = false }
  unfolding update_selected_features
  update_selected_features_fits current rows h =
      let (same, capped) =
        take_all_fits feature_id feature_layer start rows (start-IsValid feature_id feature_layer)
          (λ k. refl) h.distinct h.bounded in
      ground (arith, same, capped)

  -- To append to a selection without repeats and within the cap keeps all of its rows, in front and
  -- in order.
  pub update_selected_features_extends :
      (current incoming : List (SelectedMapFeature js))
      → IsSelection current
      → (added : List (SelectedMapFeature js)) × ((update_selected_features current incoming
            append).rows
          ≡ current ++ added)
  unfolding update_selected_features
  update_selected_features_extends current incoming h =
      let (same, capped) =
        take_all_fits feature_id feature_layer start current
          (start-IsValid feature_id feature_layer) (λ k. refl) h.distinct h.bounded in
      let (added, e) =
        take_all_extends feature_id feature_layer (take_all feature_id feature_layer start current)
          incoming in
      (added, rw (take_all-append, e, same))
