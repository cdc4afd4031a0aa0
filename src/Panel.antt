-- ===== src/Panel.antt =====
-- webapp/src/components/map/mapDataPanelState.ts: the panel below the map.
use hifld_next.Common.{Bool, true, false, ◌&&◌, if◌then◌else◌, ◌≡◌, refl, arith}

pub data MapDataPanelMode : Type 0 where
  query selected : MapDataPanelMode

pub record MapDataPanelState : Type 0 where
  pub is_open : Bool
  pub mode : MapDataPanelMode

pub data MapDataPanelEvent : Type 0 where
  toggle_query_results features_selected show_query show_selected collapse : MapDataPanelEvent
  features_cleared : Bool → MapDataPanelEvent

abbrev pub initial_map_data_panel_state : MapDataPanelState
initial_map_data_panel_state = record { is_open = false; mode = query }

abbrev pub is_query : MapDataPanelMode → Bool
is_query query = true
is_query selected = false

unfoldable pub reduce_map_data_panel_state :
    MapDataPanelState → MapDataPanelEvent → MapDataPanelState
reduce_map_data_panel_state state toggle_query_results =
    if state.is_open && is_query state.mode
    then record { is_open = false; mode = state.mode }
    else record { is_open = true; mode = query }
reduce_map_data_panel_state state features_selected = record { is_open = true; mode = selected }
reduce_map_data_panel_state state show_selected = record { is_open = true; mode = selected }
reduce_map_data_panel_state state (features_cleared has_query_results) =
    if has_query_results
    then record { is_open = true; mode = query }
    else record { is_open = false; mode = selected }
reduce_map_data_panel_state state show_query = record { is_open = true; mode = query }
reduce_map_data_panel_state state collapse = record { is_open = false; mode = state.mode }

-- The events that show the selected features.
abbrev pub shows_selected : MapDataPanelEvent → Bool
shows_selected features_selected = true
shows_selected show_selected = true
shows_selected _ = false

-- The panel shows the selected features.
abbrev pub is_showing_selected : MapDataPanelState → Bool
is_showing_selected state = if is_query state.mode then false else state.is_open

-- After an event the panel shows the selected features just when the event is a selection or a
-- request to show it, whatever the panel showed before.
pub reduce_shows_selected :
    (state : MapDataPanelState) (event : MapDataPanelEvent)
    → is_showing_selected (reduce_map_data_panel_state state event) ≡ shows_selected event
unfolding reduce_map_data_panel_state
reduce_shows_selected state toggle_query_results = ground arith
reduce_shows_selected state features_selected = refl
reduce_shows_selected state show_query = refl
reduce_shows_selected state show_selected = refl
reduce_shows_selected state collapse = ground arith
reduce_shows_selected state (features_cleared true) = refl
reduce_shows_selected state (features_cleared false) = refl
