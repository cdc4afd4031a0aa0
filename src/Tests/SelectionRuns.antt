-- ===== src/Tests/SelectionRuns.antt =====
-- Selections of one and two features.
use mathlib.Core.List.{Sublist}
use hifld_next.Common.{String, List, [], ◌∷◌, none, refl, arith}
use hifld_next.Selection.Features.{SelectedMapFeature, query}
use hifld_next.Selection.Update.{append, candidates, update_selected_features}
use hifld_next.Selection.Update.Laws.{IsSelection, update_selected_features-IsSelection}
use hifld_next.Tests.Engine.{engine}

abbrev picked : String → SelectedMapFeature engine
picked id = record {
  id = id;
  loaded_layer_id = "query:1";
  layer_name = "Query";
  source_layer_id = "hifld";
  feature_id = id;
  centroid = none;
  properties = [];
  origin = query "1";
}

abbrev one_picked : List (SelectedMapFeature engine)
one_picked = picked "a" ∷ []

abbrev two_picked : List (SelectedMapFeature engine)
two_picked = picked "a" ∷ picked "b" ∷ []

one_picked-IsSelection : IsSelection one_picked
one_picked-IsSelection = record { distinct = (refl, tt); bounded = λ layer. ground arith }

update_selected_features-IsSelection_example :
    IsSelection (update_selected_features one_picked two_picked append).rows
    × Sublist
        (update_selected_features one_picked two_picked append).rows
        (candidates one_picked two_picked append)
update_selected_features-IsSelection_example =
    update_selected_features-IsSelection one_picked two_picked append
