-- ===== src/Workspace/Style/Accept.antt =====
-- `assertValidLayerStyleUpdate`, and what an accepted update changes.
use hifld_next.Common.{
  String, Bool, true, false, not, ◌||◌, ◌&&◌, ◌==◌, List, [], ◌∷◌, map, concat, join, Option, none,
  some, get_or, is_some, Result, ok, fail_if, ◌>>=◌, ◌>>◌,
}
use hifld_next.Js.{Js, whole}
use hifld_next.Js.Patterns.{has_part}
use hifld_next.Workspace.Style.{
  NumericFieldSummary, StyleLayerTarget, LayerStyleUpdate, LayerStyle, is_other, validate_breaks,
  is_mode, validate_scale, validate_style_keys, validate_style_fields,
}

module _ (js : Js) where
  abbrev pub palettes : List String
  palettes =
      "blues" ∷ "greens" ∷ "oranges" ∷ "purples" ∷ "viridis" ∷ "plasma" ∷ "rdyblu" ∷ "rdyg"
      ∷ "tableau10" ∷ "set3" ∷ []

  unfoldable pub validate_given_breaks :
      Option (List js.Number) → Option (NumericFieldSummary js) → Result (Unit {0})
  validate_given_breaks none field = ok tt
  validate_given_breaks (some breaks) field = validate_breaks js breaks field

  unfoldable pub validate_style_breaks_and_palette :
      LayerStyleUpdate js → Option (NumericFieldSummary js) → Result (Unit {0})
  validate_style_breaks_and_palette update color_field = do
    fail_if (is_other js palettes update.color_scheme)
        (concat ("palette " ∷ get_or update.color_scheme "" ∷ " is invalid" ∷ []))
    fail_if (is_other js ("auto" ∷ "manual" ∷ []) update.break_mode) "break mode is invalid"
    fail_if (is_other js ("numeric" ∷ "categorical" ∷ []) update.color_mode) "color mode is invalid"
    fail_if (is_mode js "categorical" update.color_mode && is_some update.breaks)
        "categorical colors do not use numeric breaks"
    validate_given_breaks update.breaks color_field

  -- `value !== undefined && (!Number.isFinite(value) || value < minimum || value > maximum)`
  unfoldable pub is_out_of_range : js.Number → js.Number → Option js.Number → Bool
  is_out_of_range minimum maximum none = false
  is_out_of_range minimum maximum (some value) =
      not (js.is_finite value) || js.lt value minimum || js.lt maximum value

  unfoldable pub validate_style_ranges : LayerStyleUpdate js → Result (Unit {0})
  validate_style_ranges update = do
    fail_if (is_out_of_range (whole js 0) (whole js 1) update.opacity)
        "opacity must be within its valid range"
    fail_if (is_out_of_range (whole js 1) (whole js 12) update.radius)
        "radius must be within its valid range"
    fail_if (is_out_of_range (whole js 1) (whole js 8) update.line_width)
        "line width must be within its valid range"
    validate_scale js update.radius_scale "radius"
    validate_scale js update.line_width_scale "line width"

  -- Whether layers of the geometry take a style for `part`: `point` or `line`.
  unfoldable pub supports : Option String → String → Bool
  unfolding has_part
  supports none part = true
  supports (some given) part =
      let geometry_type = js.to_lower_case given in
      geometry_type == ""
      || geometry_type == "mixed"
      || geometry_type == "geometry"
      || has_part geometry_type part

  unfoldable pub validate_style_geometry :
      StyleLayerTarget js → LayerStyleUpdate js → Result (Unit {0})
  validate_style_geometry target update = do
    fail_if (is_some update.radius_scale && not (supports target.geometry_type "point"))
        "radius scale is only valid for point geometry"
    fail_if (is_some update.line_width_scale && not (supports target.geometry_type "line"))
        "line width scale is only valid for line geometry"

  unfoldable pub assert_valid_layer_style_update :
      StyleLayerTarget js → LayerStyleUpdate js → Result (Unit {0})
  assert_valid_layer_style_update target update = do
    validate_style_keys js update.keys
    color_field ← validate_style_fields js target update
    validate_style_breaks_and_palette update color_field
    validate_style_ranges update
    validate_style_geometry target update

  unfoldable pub apply_style_update : LayerStyle js → LayerStyleUpdate js → LayerStyle js
  apply_style_update style update = record {
    color_mode = elim update.color_mode [ none ↦ style.color_mode | some m ↦ some m ];
    color_property = get_or update.color_property style.color_property;
    color_scheme = get_or update.color_scheme style.color_scheme;
    breaks_text = elim update.breaks [
      | none ↦ style.breaks_text
      | some bs ↦ join ", " (map js.print bs)
    ];
    break_mode = get_or update.break_mode style.break_mode;
    opacity = get_or update.opacity style.opacity;
    radius = get_or update.radius style.radius;
    line_width = get_or update.line_width style.line_width;
    radius_property = get_or update.radius_property style.radius_property;
    line_width_property = get_or update.line_width_property style.line_width_property;
    radius_scale = get_or update.radius_scale style.radius_scale;
    line_width_scale = get_or update.line_width_scale style.line_width_scale;
  }
