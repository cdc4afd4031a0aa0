-- ===== src/Tests/CommandRuns.antt =====
-- A removal, a new style and a camera.
use hifld_next.Common.{String, List, [], ◌∷◌, none, some, ok, ◌≡◌, refl}
use hifld_next.Js.Trim.{trim, trim_start, trim_end, is_space}
use hifld_next.Workspace.Layer.{street, layer_by_id, assert_valid_layer_removal}
use hifld_next.Js.Patterns.{has_part, is_prefix}
use hifld_next.Workspace.Style.{
  LayerStyle, LayerStyleUpdate, validate_style_keys, validate_style_fields, numeric_field,
  validate_color_field, lacks_numeric, is_other, is_mode, validate_scale,
}
use hifld_next.Workspace.Style.Accept.{
  assert_valid_layer_style_update, is_out_of_range, apply_style_update,
  validate_style_breaks_and_palette, validate_given_breaks, validate_style_ranges, supports,
  validate_style_geometry,
}
use hifld_next.Workspace.Camera.{
  MapCameraInput, given, camera_target, bad_bounds, bad_center, bad_layer_ids, bad_feature_id,
  validate_camera_target, not_finite, out_of_pitch, is_negative, validate_camera_options,
  assert_valid_camera_input,
}
use hifld_next.Workspace.State.{Workspace, VectorLayer, remove_layer, without_styles}
use hifld_next.Workspace.Styling.{
  default_style, effective_update, restyle, set_layer_style, color_mode, reset_breaks,
}
use hifld_next.Tests.Engine.{engine}
use hifld_next.Tests.WorkspaceRuns.{layer, target}

abbrev styled : List (String × LayerStyle engine)
styled = ("a", default_style engine) ∷ []

abbrev vector_layer : VectorLayer engine
vector_layer = record { loaded_layer_id = "a"; target = target }

abbrev loaded : Workspace engine
loaded = record {
  layers = layer "a" ∷ [];
  rendered = layer "a" ∷ [];
  vector_layers = vector_layer ∷ [];
  layer_styles = styled;
  rendered_styles = styled;
  pending = [];
  catalog_added = [];
  basemap = street;
}

abbrev emptied : Workspace engine
emptied = record loaded { layers = []; layer_styles = [] }

is_removed : remove_layer engine "a" loaded ≡ ok emptied
unfolding remove_layer without_styles assert_valid_layer_removal layer_by_id trim trim_start
    trim_end is_space
is_removed = refl

abbrev camera : MapCameraInput engine
camera = record {
  target = none;
  bounds = none;
  center = none;
  layer_ids = none;
  feature_id = some "f";
  zoom = none;
  bearing = none;
  pitch = none;
  padding = none;
}

is_camera : assert_valid_camera_input engine camera ≡ ok tt
unfolding assert_valid_camera_input camera_target given validate_camera_target
    validate_camera_options bad_bounds bad_center bad_layer_ids bad_feature_id not_finite
    out_of_pitch is_negative is_out_of_range trim trim_start trim_end is_space
is_camera = refl

abbrev plasma : LayerStyleUpdate engine
plasma = record {
  keys = "colorScheme" ∷ [];
  color_mode = none;
  color_property = none;
  color_scheme = some "plasma";
  breaks = none;
  break_mode = none;
  opacity = none;
  radius = none;
  line_width = none;
  radius_property = none;
  line_width_property = none;
  radius_scale = none;
  line_width_scale = none;
}

abbrev plasma_style : LayerStyle engine
plasma_style = record (default_style engine) {
  color_mode = some "categorical";
  color_scheme = "plasma";
}

abbrev recolored : Workspace engine
recolored = record loaded { layer_styles = ("a", plasma_style) ∷ [] }

is_recolored : set_layer_style engine "a" plasma loaded ≡ ok recolored
unfolding set_layer_style effective_update restyle color_mode reset_breaks apply_style_update
    assert_valid_layer_style_update validate_style_keys validate_style_fields numeric_field
    validate_color_field lacks_numeric is_other is_mode validate_scale
    validate_style_breaks_and_palette validate_given_breaks validate_style_ranges is_out_of_range
    supports validate_style_geometry has_part is_prefix
is_recolored = refl
