-- ===== src/Tests/McpRuns.antt =====
-- A map whose refresh and preparation are answered after the next tool result.
use hifld_next.Common.{ℕ, String, true, List, [], ◌∷◌, all, lookup, none, some, ◌≡◌, refl}
use hifld_next.McpApp.Model.{
  MapView, MapResult, McpMap, QueryLayer, PreparingLayer, query_layer, preparing_layer, preparing,
  new_map, is_expired, tokens_onto,
}
use hifld_next.McpApp.Handlers.{
  map_content, on_tool_result, accept_map_result, begin_preparation, publish, refresh_expired_token,
  refresh_map, refresh_answered, take_refresh,
}
use hifld_next.McpApp.Events.{
  Event, tool_result, refresh_ended, prepare_ended, report_ended, status_ended, rejected,
  unsupported, token_expired, step, run,
}
use hifld_next.McpApp.Prepare.{prepared_layer, prepare_answered, prepared_result, replace}
use hifld_next.McpApp.Tokens.{IsConsistent, run-IsConsistent}
use hifld_next.McpApp.Late.{is_late, OnlyRefreshing, run_late}

abbrev layer : QueryLayer
layer = record { query_id = "q"; query_token = "t"; layer_name = "Stations"; expires_at = 100 }

abbrev waiting : PreparingLayer
waiting = record {
  layer_id = "preparing-0";
  layer_name = "Stations";
  preparation_status = preparing;
  preparation_error = none;
}

abbrev view : MapView
view = record { title = "Map"; basemap = "street"; worker_url = "https://w"; camera = none }

abbrev prepared_map : MapResult
prepared_map = record {
  view = view;
  layers = query_layer layer ∷ [];
  map_spec = record { has_query = true ∷ [] };
}

abbrev waiting_map : MapResult
waiting_map = record {
  view = view;
  layers = preparing_layer waiting ∷ [];
  map_spec = record { has_query = true ∷ [] };
}

abbrev shown_first : List Event
shown_first = tool_result 1 (map_content waiting_map) ∷ []

run-IsConsistent_example : IsConsistent (
    run
      (tool_result 1 (map_content waiting_map)
        ∷ prepare_ended 2 1 0 (prepared_layer layer)
        ∷ token_expired "q" "t"
        ∷ [])
      new_map)
run-IsConsistent_example = run-IsConsistent (
    tool_result 1 (map_content waiting_map)
    ∷ prepare_ended 2 1 0 (prepared_layer layer)
    ∷ token_expired "q" "t"
    ∷ [])

abbrev first_map : McpMap
first_map = run shown_first new_map

abbrev late : List Event
late =
    prepare_ended 5 1 0 (prepared_layer layer)
    ∷ refresh_ended 6 1 none
    ∷ report_ended "failed" 1 rejected
    ∷ status_ended 1 unsupported
    ∷ []

are_late : all (is_late first_map.map_sequence first_map.controllers) late ≡ true
unfolding run step new_map on_tool_result accept_map_result begin_preparation publish
are_late = refl

run_late_example :
    OnlyRefreshing
      (step (tool_result 4 (map_content prepared_map)) first_map)
      (run late (step (tool_result 4 (map_content prepared_map)) first_map))
run_late_example = run_late 4 (map_content prepared_map) first_map late are_late

abbrev named : String → String → ℕ → QueryLayer
named id token expires_at = record {
  query_id = id;
  query_token = token;
  layer_name = id;
  expires_at = expires_at;
}

abbrev pending : String → PreparingLayer
pending name = record waiting { layer_name = name }

-- The token of the first layer expires while the second one is being prepared: the refresh brings a
-- new token, and then the end of the preparation brings the old one back.
abbrev refreshed_while_preparing : List Event
refreshed_while_preparing =
    tool_result 1 (
      map_content (record waiting_map {
        layers = preparing_layer (pending "a") ∷ preparing_layer (pending "b") ∷ [];
        map_spec = record { has_query = true ∷ true ∷ [] };
      }))
    ∷ prepare_ended 2 1 0 (prepared_layer (named "a" "old" 10))
    ∷ token_expired "a" "old"
    ∷ refresh_ended 12 1 (
        some (
          map_content (record prepared_map {
            layers = query_layer (named "a" "new" 100) ∷ query_layer (named "b" "other" 100) ∷ [];
          })))
    ∷ prepare_ended 13 1 1 (prepared_layer (named "b" "late" 100))
    ∷ []

old_token_returns : lookup "a" (run refreshed_while_preparing new_map).tokens ≡ some "old"
unfolding run step new_map on_tool_result accept_map_result begin_preparation publish
    prepare_answered prepared_result replace refresh_expired_token refresh_map refresh_answered
    take_refresh is_expired tokens_onto
old_token_returns = refl
