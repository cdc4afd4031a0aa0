-- ===== src/Tests/WorkspaceRuns.antt =====
-- Commands on a map with two layers.
use hifld_next.Common.{
  String, true, List, [], ◌∷◌, map, none, some, ok, ◌≡◌, ◌↔◌, refl, arith, add_all,
}
use hifld_next.Js.{whole}
use hifld_next.Layers.{LoadedMapLayer, query_mvt, ready}
use hifld_next.Workspace.Layer.{summary_id, street, assert_valid_layer_order}
use hifld_next.Workspace.Order.{IsOrderOf, assert_valid_layer_order_iff}
use hifld_next.Js.Patterns.{has_part, is_prefix}
use hifld_next.Workspace.Style.{
  StyleLayerTarget, LayerStyleUpdate, validate_style_keys, validate_style_fields, numeric_field,
  validate_color_field, lacks_numeric, is_other, is_mode, validate_breaks, is_increasing, le,
  any_below, any_above, validate_scale, increasing_from,
}
use hifld_next.Workspace.Style.Accept.{
  assert_valid_layer_style_update, validate_style_breaks_and_palette, validate_given_breaks,
  validate_style_ranges, is_out_of_range, supports, validate_style_geometry,
}
use hifld_next.Workspace.Style.Breaks.{
  IsTotal, IsAcceptable, assert_valid_layer_style_update-IsAcceptable,
}
use hifld_next.Workspace.State.{Workspace, summaries, reorder_layers, reordered, index_by_id}
use hifld_next.Workspace.Invariant.{IsWorkspace}
use hifld_next.Workspace.Steps.{stay, next, ordered, Steps-IsWorkspace}
use hifld_next.Tests.Engine.{engine, engine-IsOrdered}

abbrev pub layer : String → LoadedMapLayer engine
layer id = record {
  id = id;
  name = "Query";
  label = "Query";
  dataset_name = none;
  storage_location_name = none;
  map_source_id = "source";
  visible = true;
  opacity = engine.literal 82 100;
  bounds = none;
  kind = query_mvt (record {
    query_id = id;
    source_aliases = [];
    geometry_column = "geom";
    tile_template = "/tiles";
    source_layer_id = "hifld";
    scalar_fields = [];
    status = ready;
  });
}

abbrev holding : List (LoadedMapLayer engine) → Workspace engine
holding layers = record {
  layers = layers;
  rendered = layer "a" ∷ layer "b" ∷ [];
  vector_layers = [];
  layer_styles = [];
  rendered_styles = [];
  pending = [];
  catalog_added = [];
  basemap = street;
}

abbrev before : Workspace engine
before = holding (layer "a" ∷ layer "b" ∷ [])

abbrev after : Workspace engine
after = holding (layer "b" ∷ layer "a" ∷ [])

abbrev swapped : List String
swapped = "b" ∷ "a" ∷ []

is_reordered : reorder_layers engine swapped before ≡ ok after
unfolding reorder_layers reordered index_by_id assert_valid_layer_order add_all
is_reordered = refl

Steps-IsWorkspace_example : IsWorkspace engine after
Steps-IsWorkspace_example =
    Steps-IsWorkspace engine before after
      (next before after after (ordered swapped is_reordered) (stay after))
      (record { layers = (refl, (refl, tt)); rendered = (refl, (refl, tt)); pending = tt })

assert_valid_layer_order_iff_example :
    (assert_valid_layer_order swapped (summaries engine before.layers) ≡ ok tt)
    ↔ IsOrderOf swapped (map summary_id (summaries engine before.layers))
assert_valid_layer_order_iff_example =
    assert_valid_layer_order_iff swapped (summaries engine before.layers)

engine-IsTotal : IsTotal engine
engine-IsTotal a b h k = ground arith

abbrev pub target : StyleLayerTarget engine
target = record {
  id = "a";
  fields = "beds" ∷ [];
  numeric_fields =
      record { name = "beds"; min = some (whole engine 0); max = some (whole engine 9) } ∷ [];
  scalar_fields = none;
  geometry_type = none;
}

abbrev by_beds : LayerStyleUpdate engine
by_beds = record {
  keys = "colorProperty" ∷ "breaks" ∷ [];
  color_mode = some "numeric";
  color_property = some (some "beds");
  color_scheme = none;
  breaks = some (whole engine 2 ∷ whole engine 5 ∷ []);
  break_mode = none;
  opacity = none;
  radius = none;
  line_width = none;
  radius_property = none;
  line_width_property = none;
  radius_scale = none;
  line_width_scale = none;
}

is_accepted : assert_valid_layer_style_update engine target by_beds ≡ ok tt
unfolding assert_valid_layer_style_update validate_style_keys validate_style_fields numeric_field
    validate_color_field lacks_numeric is_other is_mode validate_breaks is_increasing le any_below
    any_above validate_scale increasing_from validate_style_breaks_and_palette validate_given_breaks
    validate_style_ranges is_out_of_range supports validate_style_geometry has_part is_prefix
is_accepted = refl

assert_valid_layer_style_update-IsAcceptable_example : IsAcceptable engine target by_beds
assert_valid_layer_style_update-IsAcceptable_example =
    assert_valid_layer_style_update-IsAcceptable engine target by_beds engine-IsOrdered
      engine-IsTotal is_accepted
