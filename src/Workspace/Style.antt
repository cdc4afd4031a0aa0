-- ===== src/Workspace/Style.antt =====
-- The validation of a style update, and the update itself.
pub mod Accept
pub mod Breaks
use hifld_next.Common.{
  ℕ, String, Bool, true, false, not, ◌||◌, ◌&&◌, ◌==◌, eqb, if◌then◌else◌, List, [], ◌∷◌, map, any,
  all, find, length, includes, concat, join, Option, none, some, get_or, is_some, Result, ok, fail,
  fail_if, ◌>>=◌, ◌>>◌,
}
use hifld_next.Js.{Js, whole}
use hifld_next.Js.Patterns.{has_part}

module _ (js : Js) where
  pub record NumericFieldSummary : Type 0 where
    pub name : String
    pub min : Option js.Number
    pub max : Option js.Number

  -- Of a scalar field the commands read the name.
  pub record StyleLayerTarget : Type 0 where
    pub id : String
    pub fields : List String
    pub numeric_fields : List NumericFieldSummary
    pub scalar_fields : Option (List String)
    pub geometry_type : Option String

  -- An update as the caller sends it, with its keys. A property that is null is `some none`.
  pub record LayerStyleUpdate : Type 0 where
    pub keys : List String
    pub color_mode : Option String
    pub color_property : Option (Option String)
    pub color_scheme : Option String
    pub breaks : Option (List js.Number)
    pub break_mode : Option String
    pub opacity : Option js.Number
    pub radius : Option js.Number
    pub line_width : Option js.Number
    pub radius_property : Option (Option String)
    pub line_width_property : Option (Option String)
    pub radius_scale : Option String
    pub line_width_scale : Option String

  pub record LayerStyle : Type 0 where
    pub color_mode : Option String
    pub color_property : Option String
    pub color_scheme : String
    pub breaks_text : String
    pub break_mode : String
    pub opacity : js.Number
    pub radius : js.Number
    pub line_width : js.Number
    pub radius_property : Option String
    pub line_width_property : Option String
    pub radius_scale : String
    pub line_width_scale : String

  unfoldable pub numeric_field :
      StyleLayerTarget → Option (Option String) → Result (Option NumericFieldSummary)
  numeric_field target (some (some property)) = do
    fail_if (not (includes target.fields property)) (concat ("unknown field " ∷ property ∷ []))
    ok (find (λ (f : NumericFieldSummary). f.name == property) target.numeric_fields)
  numeric_field target _ = ok none

  -- `a <= b`
  unfoldable pub le : js.Number → js.Number → Bool
  le a b = js.lt a b || js.eq a b

  -- The loop of `validateBreaks`, after the break `previous`.
  unfoldable pub increasing_from : js.Number → List js.Number → Bool
  increasing_from previous [] = true
  increasing_from previous (b ∷ bs) = not (le b previous) && increasing_from b bs

  unfoldable pub is_increasing : List js.Number → Bool
  unfolding increasing_from
  is_increasing [] = true
  is_increasing (b ∷ bs) = increasing_from b bs

  abbrev pub minimum_of : Option NumericFieldSummary → Option js.Number
  minimum_of none = none
  minimum_of (some f) = f.min

  abbrev pub maximum_of : Option NumericFieldSummary → Option js.Number
  maximum_of none = none
  maximum_of (some f) = f.max

  unfoldable pub any_below : Option js.Number → List js.Number → Bool
  any_below none breaks = false
  any_below (some minimum) breaks = any (λ b. js.lt b minimum) breaks

  unfoldable pub any_above : Option js.Number → List js.Number → Bool
  any_above none breaks = false
  any_above (some maximum) breaks = any (λ b. js.lt maximum b) breaks

  unfoldable pub validate_breaks : List js.Number → Option NumericFieldSummary → Result (Unit {0})
  validate_breaks breaks field = do
    fail_if (any (λ b. not (js.is_finite b)) breaks) "breaks must contain finite numbers"
    fail_if (not (is_increasing breaks)) "breaks must be strictly increasing"
    fail_if (any_below (minimum_of field) breaks) "breaks must be within the field range"
    fail_if (any_above (maximum_of field) breaks) "breaks must be within the field range"

  -- `value !== undefined && !known.includes(value)`
  unfoldable pub is_other : List String → Option String → Bool
  is_other known none = false
  is_other known (some value) = not (includes known value)

  unfoldable pub validate_scale : Option String → String → Result (Unit {0})
  validate_scale scale name =
      fail_if (is_other ("linear" ∷ "sqrt" ∷ "log" ∷ []) scale)
        (concat (name ∷ " scale is invalid" ∷ []))

  abbrev pub known_style_keys : List String
  known_style_keys =
      "colorProperty" ∷ "colorScheme" ∷ "colorMode" ∷ "breaks" ∷ "breakMode" ∷ "opacity" ∷ "radius"
      ∷ "lineWidth" ∷ "radiusProperty" ∷ "lineWidthProperty" ∷ "radiusScale" ∷ "lineWidthScale" ∷ []

  unfoldable pub validate_style_keys : List String → Result (Unit {0})
  validate_style_keys [] = ok tt
  validate_style_keys (key ∷ keys) =
      fail_if (not (includes known_style_keys key)) (concat ("unsupported style field " ∷ key ∷ []))
      >> validate_style_keys keys

  -- A property that is named but has no numeric field.
  unfoldable pub lacks_numeric : Option (Option String) → Option NumericFieldSummary → Bool
  lacks_numeric (some (some property)) none = true
  lacks_numeric _ _ = false

  abbrev pub property_text : Option (Option String) → String
  property_text (some (some property)) = property
  property_text _ = ""

  unfoldable pub is_mode : String → Option String → Bool
  is_mode mode none = false
  is_mode mode (some m) = m == mode

  unfoldable pub validate_color_field :
      StyleLayerTarget → LayerStyleUpdate → Option NumericFieldSummary → Result (Unit {0})
  validate_color_field target update color_field =
      let property = property_text update.color_property in
      if lacks_numeric update.color_property color_field
      then (do
        fail_if (is_mode "numeric" update.color_mode)
            (concat ("field " ∷ property ∷ " is not numeric" ∷ []))
        fail_if (not (includes (get_or target.scalar_fields []) property))
            (concat ("field " ∷ property ∷ " is not scalar" ∷ [])))
      else ok tt

  unfoldable pub validate_style_fields :
      StyleLayerTarget → LayerStyleUpdate → Result (Option NumericFieldSummary)
  validate_style_fields target update = do
    color_field ← numeric_field target update.color_property
    radius_field ← numeric_field target update.radius_property
    line_width_field ← numeric_field target update.line_width_property
    validate_color_field target update color_field
    fail_if (lacks_numeric update.radius_property radius_field)
        (concat ("field " ∷ property_text update.radius_property ∷ " is not numeric" ∷ []))
    fail_if (lacks_numeric update.line_width_property line_width_field)
        (concat ("field " ∷ property_text update.line_width_property ∷ " is not numeric" ∷ []))
    ok color_field
