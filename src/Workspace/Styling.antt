-- ===== src/Workspace/Styling.antt =====
-- `setLayerStyle`, with `DEFAULT_STYLE` of viewer/utils.ts and `colorMode` of
-- viewer/layerColorStyle.ts.
pub mod Kept
use hifld_next.Common.{
  ℕ, String, Bool, true, false, not, ◌||◌, ◌&&◌, ◌==◌, if◌then◌else◌, List, [], ◌∷◌, any, find,
  lookup, insert, concat, Option, none, some, get_or, is_some, Result, ok, fail, ◌>>=◌, ◌>>◌,
}
use hifld_next.Js.{Js, whole}
use hifld_next.Workspace.Style.{StyleLayerTarget, LayerStyle, LayerStyleUpdate, NumericFieldSummary}
use hifld_next.Workspace.Style.Accept.{assert_valid_layer_style_update, apply_style_update}
use hifld_next.Workspace.State.{VectorLayer, Workspace, with_styles}

module _ (js : Js) where
  abbrev pub default_style : LayerStyle js
  default_style = record {
    color_mode = none;
    color_property = none;
    color_scheme = "viridis";
    breaks_text = "";
    break_mode = "auto";
    opacity = js.literal 7 10;
    radius = whole js 4;
    line_width = whole js 2;
    radius_property = none;
    line_width_property = none;
    radius_scale = "linear";
    line_width_scale = "linear";
  }

  abbrev pub is_numeric : StyleLayerTarget js → Option String → Bool
  is_numeric target none = false
  is_numeric target (some property) =
      any (λ (f : NumericFieldSummary js). f.name == property) target.numeric_fields

  abbrev pub mode_of : StyleLayerTarget js → Option String → String
  mode_of target property = if is_numeric target property then "numeric" else "categorical"

  unfoldable pub color_mode : StyleLayerTarget js → LayerStyle js → String
  color_mode target style = get_or style.color_mode (mode_of target style.color_property)

  -- `a !== b` on properties, which are texts or null
  abbrev pub differs : Option String → Option String → Bool
  differs none none = false
  differs (some a) (some b) = not (a == b)
  differs _ _ = true

  abbrev pub style_of : String → List (String × LayerStyle js) → LayerStyle js
  style_of id styles = get_or (lookup id styles) default_style

  -- `effective`: the update with the property and the mode it amounts to.
  unfoldable pub effective_update :
      StyleLayerTarget js → LayerStyle js → LayerStyleUpdate js → LayerStyleUpdate js
  effective_update target current update =
      let property = get_or update.color_property current.color_property in
      let kept = if is_some update.color_property then none else current.color_mode in
      record {
        keys = "colorProperty" ∷ "colorMode" ∷ update.keys;
        color_mode = some (get_or update.color_mode (get_or kept (mode_of target property)));
        color_property = some property;
        color_scheme = update.color_scheme;
        breaks = update.breaks;
        break_mode = update.break_mode;
        opacity = update.opacity;
        radius = update.radius;
        line_width = update.line_width;
        radius_property = update.radius_property;
        line_width_property = update.line_width_property;
        radius_scale = update.radius_scale;
        line_width_scale = update.line_width_scale;
      }

  unfoldable pub reset_breaks : LayerStyle js → LayerStyle js
  reset_breaks style = record {
    color_mode = style.color_mode;
    color_property = style.color_property;
    color_scheme = style.color_scheme;
    breaks_text = "";
    break_mode = "auto";
    opacity = style.opacity;
    radius = style.radius;
    line_width = style.line_width;
    radius_property = style.radius_property;
    line_width_property = style.line_width_property;
    radius_scale = style.radius_scale;
    line_width_scale = style.line_width_scale;
  }

  -- The updater: breaks of another property or mode are not kept.
  unfoldable pub restyle : StyleLayerTarget js → LayerStyleUpdate js → LayerStyle js → LayerStyle js
  restyle target effective style =
      let reset =
        differs (get_or effective.color_property none) style.color_property
        || differs effective.color_mode (some (color_mode target style)) in
      apply_style_update js (if reset then reset_breaks style else style) effective

  unfoldable pub set_layer_style :
      String → LayerStyleUpdate js → Workspace js → Result (Workspace js)
  set_layer_style style_layer_id update w =
      elim (find (λ (v : VectorLayer js). v.target.id == style_layer_id) w.vector_layers) [
        | none ↦ fail (concat ("style layer " ∷ style_layer_id ∷ " does not exist" ∷ []))
        | some v ↦ (do
          let effective =
              effective_update v.target (style_of style_layer_id w.rendered_styles) update
          assert_valid_layer_style_update js v.target effective
          ok (
              with_styles js
                (insert style_layer_id
                  (restyle v.target effective (style_of style_layer_id w.layer_styles))
                  w.layer_styles)
                w))
      ]
