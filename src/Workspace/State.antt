-- ===== src/Workspace/State.antt =====
-- The state that the commands of useMapWorkspaceCommands.ts change, and the commands.
use hifld_next.Common.{
  String, Bool, not, ◌&&◌, ◌==◌, if◌then◌else◌, List, [], ◌∷◌, ◌++◌, map, any, filter, includes,
  add, filter_map, lookup, insert, concat, Option, none, some, Result, ok, fail, fail_if, ◌>>=◌,
  ◌>>◌,
}
use hifld_next.Js.{Js}
use hifld_next.Layers.{LoadedMapLayer, LayerKind, catalog_pmtiles, query_mvt}
use hifld_next.Workspace.Layer.{
  LayerSort, catalog_layer, query_layer, MapLayerSummary, DatasetLayerInput, BasemapMode,
  assert_valid_add_dataset_layer, assert_valid_layer_removal, assert_valid_layer_visibility,
  assert_valid_layer_order, assert_valid_basemap,
}
use hifld_next.Workspace.Style.{StyleLayerTarget, LayerStyle}

module _ (js : Js) where
  pub record VectorLayer : Type 0 where
    pub loaded_layer_id : String
    pub target : StyleLayerTarget js

  -- `layers` and `layer_styles` are the state with every update taken in; `rendered` and
  -- `rendered_styles` are what the references held at the last render.
  pub record Workspace : Type 0 where
    pub layers : List (LoadedMapLayer js)
    pub rendered : List (LoadedMapLayer js)
    pub vector_layers : List (VectorLayer)
    pub layer_styles : List (String × LayerStyle js)
    pub rendered_styles : List (String × LayerStyle js)
    pub pending : List String
    pub catalog_added : List (LoadedMapLayer js)
    pub basemap : BasemapMode

  abbrev pub layer_id : LoadedMapLayer js → String
  layer_id layer = layer.id

  abbrev pub ids : List (LoadedMapLayer js) → List String
  ids = map layer_id

  abbrev pub sort_of : LayerKind js → LayerSort
  sort_of (catalog_pmtiles c) = catalog_layer
  sort_of (query_mvt q) = query_layer

  abbrev pub summary : LoadedMapLayer js → MapLayerSummary
  summary layer = record {
    id = layer.id;
    label = layer.label;
    kind = sort_of layer.kind;
    visible = layer.visible;
  }

  abbrev pub summaries : List (LoadedMapLayer js) → List MapLayerSummary
  summaries = map summary

  -- A render: the references take the state.
  unfoldable pub render : List VectorLayer → Workspace → Workspace
  render vector_layers w = record w {
    rendered = w.layers;
    vector_layers = vector_layers;
    rendered_styles = w.layer_styles;
  }

  abbrev with_pending : List String → Workspace → Workspace
  with_pending pending w = record w { pending = pending }

  abbrev with_layers : List (LoadedMapLayer js) → Workspace → Workspace
  with_layers layers w = record w { layers = layers }

  abbrev pub with_styles : List (String × LayerStyle js) → Workspace → Workspace
  with_styles layer_styles w = record w { layer_styles = layer_styles }

  abbrev log_catalog : LoadedMapLayer js → Workspace → Workspace
  log_catalog layer w = record {
    layers = w.layers;
    rendered = w.rendered;
    vector_layers = w.vector_layers;
    layer_styles = w.layer_styles;
    rendered_styles = w.rendered_styles;
    pending = w.pending;
    catalog_added = elim layer.kind [
      | catalog_pmtiles c ↦ w.catalog_added ++ layer ∷ []
      | query_mvt q ↦ w.catalog_added
    ];
    basemap = w.basemap;
  }

  -- `addDatasetLayer` up to its `await`.
  unfoldable pub begin_add : DatasetLayerInput → Workspace → Result Workspace
  begin_add input w = do
    assert_valid_add_dataset_layer input (summaries w.rendered)
    fail_if (includes w.pending input.layer_id)
        (concat ("layer " ∷ input.layer_id ∷ " is already being added" ∷ []))
    ok (with_pending (add w.pending input.layer_id) w)

  -- The updater that takes the new layer in.
  unfoldable pub append_layer :
      LoadedMapLayer js → List (LoadedMapLayer js) → List (LoadedMapLayer js)
  append_layer resolved previous =
      if any (λ (l : LoadedMapLayer js). l.id == resolved.id) previous
      then previous
      else previous ++ resolved ∷ []

  abbrev pub unresolved : String
  unresolved = "The requested map layer could not be resolved."

  -- `addDatasetLayer` after its `await` of `resolved`, which fails where the promise is rejected.
  -- `finally` takes the id off the pending ones however the call ends.
  unfoldable pub take_resolved :
      DatasetLayerInput → Result (Option (LoadedMapLayer js)) → Workspace → Result Workspace
  take_resolved input (fail m) w = fail m
  take_resolved input (ok none) w = fail unresolved
  take_resolved input (ok (some resolved)) w = do
    fail_if (not (resolved.id == input.layer_id)) unresolved
    assert_valid_add_dataset_layer (record { layer_id = resolved.id; label = resolved.label })
        (summaries w.rendered)
    ok (log_catalog resolved (with_layers (append_layer resolved w.layers) w))

  unfoldable pub end_pending : String → Workspace → Workspace
  end_pending id w = with_pending (filter (λ k. not (k == id)) w.pending) w

  unfoldable pub finish_add :
      DatasetLayerInput
      → Result (Option (LoadedMapLayer js))
      → Workspace
      → Workspace × Result (Unit {0})
  finish_add input resolved w = elim (take_resolved input resolved w) [
    | ok changed ↦ (end_pending input.layer_id changed, ok tt)
    | fail m ↦ (end_pending input.layer_id w, fail m)
  ]

  -- `delete next[layer.id]` for each style layer of the removed layer
  unfoldable pub without_styles :
      String → List VectorLayer → List (String × LayerStyle js) → List (String × LayerStyle js)
  without_styles removed vector_layers styles =
      filter
        (λ (entry : String × LayerStyle js). not (
          any (λ (v : VectorLayer). v.loaded_layer_id == removed && v.target.id == entry.0)
            vector_layers))
        styles

  unfoldable pub remove_layer : String → Workspace → Result Workspace
  remove_layer removed w = do
    assert_valid_layer_removal removed (summaries w.rendered)
    ok (
        with_styles (without_styles removed w.vector_layers w.layer_styles)
          (with_layers (filter (λ (l : LoadedMapLayer js). not (l.id == removed)) w.layers) w))

  unfoldable pub show : String → Bool → LoadedMapLayer js → LoadedMapLayer js
  show shown visible l =
      if l.id == shown
      then record {
        id = l.id;
        name = l.name;
        label = l.label;
        dataset_name = l.dataset_name;
        storage_location_name = l.storage_location_name;
        map_source_id = l.map_source_id;
        visible = visible;
        opacity = l.opacity;
        bounds = l.bounds;
        kind = l.kind;
      }
      else l

  unfoldable pub set_layer_visibility : String → Bool → Workspace → Result Workspace
  set_layer_visibility shown visible w = do
    assert_valid_layer_visibility shown visible (summaries w.rendered)
    ok (with_layers (map (show shown visible) w.layers) w)

  -- `new Map(current.map((layer) => [layer.id, layer]))`, onto a map
  unfoldable pub index_by_id :
      List (LoadedMapLayer js)
      → List (String × LoadedMapLayer js)
      → List (String × LoadedMapLayer js)
  index_by_id [] m = m
  index_by_id (l ∷ ls) m = index_by_id ls (insert l.id l m)

  -- The list that `reorderLayers` sets.
  unfoldable pub reordered : List String → List (LoadedMapLayer js) → List (LoadedMapLayer js)
  reordered layer_ids current =
      let by_id = index_by_id current [] in filter_map (λ id. lookup id by_id) layer_ids

  unfoldable pub reorder_layers : List String → Workspace → Result Workspace
  reorder_layers layer_ids w = do
    assert_valid_layer_order layer_ids (summaries w.rendered)
    ok (with_layers (reordered layer_ids w.rendered) w)

  unfoldable pub set_basemap : String → Workspace → Result Workspace
  set_basemap name w = do mode ← assert_valid_basemap name; ok (record w { basemap = mode })
