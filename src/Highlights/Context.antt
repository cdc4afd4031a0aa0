-- ===== src/Highlights/Context.antt =====
-- `highlightContextText` and `updateHighlightContext` of dataset-mcp/ui/src/mcp/highlightContext.ts:
-- the text about a highlight, in which the properties come from the data and are not to be trusted.
use Prim.Native.String
use Prim.Native.String.{[], ◌∷◌}
use text.Mathlib.TextLemmas.{nil-append, cons-append}
use hifld_next.Common.{
  ℕ, String, Bool, true, false, not, ◌||◌, ◌&&◌, eqb, if◌then◌else◌, List, [], ◌∷◌, ◌++◌, map,
  Option, none, some, concat, join, Result, ok, fail, ◌≡◌, refl, arith,
}
use hifld_next.Js.Patterns.{replace_all, has_code}
use hifld_next.Js.{Js, Fields, str, obj, end, field}
use hifld_next.Selection.Features.{LngLat, SelectedFeatureProperties}
use hifld_next.Highlights.Features.{HighlightedMapFeature, MapHighlightSnapshot}

unfoldable pub escape_marks : String → String
escape_marks text =
    replace_all b'&' "\\u0026" (replace_all b'>' "\\u003e" (replace_all b'<' "\\u003c" text))

has_code-append :
    (mark : ℕ) (s t : String) → has_code mark (String.◌++◌ s t) ≡ has_code mark s || has_code mark t
has_code-append mark [] t = rw (nil-append t) refl
has_code-append mark (c ∷ s) t = rw (cons-append c s t) (ground (arith, has_code-append mark s t))

-- An escaped character is gone, and no other one comes in.
has_code-replace_all :
    (mark other : ℕ) (escape text : String)
    → has_code other escape ≡ false
    → has_code other (replace_all mark escape text) ≡ (not (eqb mark other) && has_code other text)
unfolding replace_all
has_code-replace_all mark other escape [] h = ground arith
has_code-replace_all mark other escape (c ∷ s) h = ground (
  arith,
  has_code-replace_all mark other escape s h,
  has_code-append other escape (replace_all mark escape s),
)

module _ (js : Js) where
  abbrev properties_value : SelectedFeatureProperties → Fields js.Number
  properties_value [] = end
  properties_value ((k, v) ∷ rest) = field k (str v) (properties_value rest)

  unfoldable pub serialized_untrusted_properties : SelectedFeatureProperties → String
  serialized_untrusted_properties properties =
      escape_marks (js.json_stringify (obj (properties_value properties)))

  abbrev quoted : String → String
  quoted s = js.json_stringify (str s)

  abbrev bracketed : List js.Number → String
  bracketed ns = concat ("[" ∷ join ", " (map js.print ns) ∷ "]" ∷ [])

  abbrev when_given : Option String → String → List String
  when_given none name = []
  when_given (some s) name = concat ("  " ∷ name ∷ ": " ∷ quoted s ∷ []) ∷ []

  abbrev centroid_text : Option (LngLat js) → String
  centroid_text none = "null"
  centroid_text (some c) = bracketed (c.lng ∷ c.lat ∷ [])

  -- The lines of one feature.
  unfoldable pub feature_lines : HighlightedMapFeature js → List String
  unfolding serialized_untrusted_properties
  feature_lines f =
      "- selected_feature:" ∷ concat ("  id: " ∷ quoted f.id ∷ []) ∷ []
      ++ (when_given f.query_id "query_id"
          ++ (when_given f.layer_id "layer_id"
              ++ concat ("  layer_name: " ∷ quoted f.layer_name ∷ [])
                ∷ concat ("  source_layer_id: " ∷ quoted f.source_layer_id ∷ [])
                ∷ concat ("  feature_id: " ∷ quoted f.feature_id ∷ [])
                ∷ concat ("  centroid: " ∷ centroid_text f.centroid ∷ [])
                ∷ "  <untrusted-map-properties encoding=\"json\">"
                ∷ concat ("  " ∷ serialized_untrusted_properties f.properties ∷ [])
                ∷ "  </untrusted-map-properties>"
                ∷ []))

  abbrev features_lines : List (HighlightedMapFeature js) → List String
  features_lines [] = []
  features_lines (f ∷ fs) = feature_lines f ++ features_lines fs

  abbrev count_label : ℕ → String
  count_label n = if eqb n 1 then "feature" else "features"

  abbrev capped_lines : Bool → List String
  capped_lines true = "The selection was capped at 100 features per map layer." ∷ []
  capped_lines false = []

  abbrev bounds_lines : Option (List js.Number) → List String
  bounds_lines none = []
  bounds_lines (some ns) = concat ("Selection bounds: " ∷ bracketed ns ∷ "." ∷ []) ∷ []

  module _ (show_count : ℕ → String) where
    unfoldable pub highlight_context_text : MapHighlightSnapshot js → String
    highlight_context_text snapshot = join "\n" (
        concat (
            "Map highlight selection: "
            ∷ show_count snapshot.selected_feature_count
            ∷ " "
            ∷ count_label snapshot.selected_feature_count
            ∷ " selected."
            ∷ [])
          ∷ concat ("map_title: " ∷ quoted snapshot.map_title ∷ [])
          ∷ capped_lines snapshot.was_capped
        ++ (bounds_lines snapshot.selection_bounds ++ features_lines snapshot.selected_features))

    -- What the host takes in: texts, structured content, both or none.
    pub record Capability : Type 0 where
      pub text : Bool
      pub structured_content : Bool

    pub data UpdateStatus : Type 0 where
      updated unsupported rejected : UpdateStatus

    -- What the host is sent.
    pub record ModelContext : Type 0 where
      pub content : Option String
      pub map_highlight : Option (MapHighlightSnapshot js)

    abbrev only_if {ℓ} : {A : Type ℓ} → Bool → A → Option A
    only_if true a = some a
    only_if false a = none

    abbrev settled : Result (Unit {0}) → UpdateStatus
    settled (ok tt) = updated
    settled (fail message) = rejected

    -- What is sent, if anything, and the status; `send` is the host's answer. No application and no
    -- capability are none.
    unfoldable pub update_highlight_context :
        Option Capability
        → (ModelContext → Result (Unit {0}))
        → MapHighlightSnapshot js
        → Option ModelContext × UpdateStatus
    update_highlight_context none send snapshot = (none, unsupported)
    update_highlight_context (some capability) send snapshot =
        if not capability.text && not capability.structured_content
        then (none, unsupported)
        else (let context : ModelContext = record {
          content = only_if capability.text (highlight_context_text snapshot);
          map_highlight = only_if capability.structured_content snapshot;
        } in
            (some context, settled (send context)))

  -- Whatever the text of the properties is, what is written between the tags of the untrusted
  -- properties has no <, no > and no &.
  pub serialized_untrusted_properties_escapes :
      (properties : SelectedFeatureProperties)
      → let text = serialized_untrusted_properties properties in
        (has_code b'<' text ≡ false) × (has_code b'>' text ≡ false) × (has_code b'&' text ≡ false)
  unfolding serialized_untrusted_properties escape_marks
  serialized_untrusted_properties_escapes properties =
      let text = js.json_stringify (obj (properties_value properties)) in
      let without_less = replace_all b'<' "\\u003c" text in
      let without_more = replace_all b'>' "\\u003e" without_less in
      ground (
        arith,
        has_code-replace_all b'<' b'<' "\\u003c" text refl,
        has_code-replace_all b'>' b'<' "\\u003e" without_less refl,
        has_code-replace_all b'>' b'>' "\\u003e" without_less refl,
        has_code-replace_all b'&' b'<' "\\u0026" without_more refl,
        has_code-replace_all b'&' b'>' "\\u0026" without_more refl,
        has_code-replace_all b'&' b'&' "\\u0026" without_more refl,
      )
