-- ===== src/Tests/HighlightRuns.antt =====
-- Two highlighted features of which one has a property to hide, and a text with marks to escape.
use Prim.Native.String.{[]}
use hifld_next.Common.{◌≤◌, String, true, false, [], ◌∷◌, map, All, Distinct, none, some, ◌≡◌, ◌↔◌}
use hifld_next.Js.Patterns.{has_code}
use hifld_next.Js.{Js, str, null, end, field}
use hifld_next.Intake.{max_selected_features}
use hifld_next.Intake.Bounds.{in_group}
use hifld_next.Intake.Capped.{IsDropped}
use hifld_next.Selection.Geometry.{point}
use hifld_next.Selection.Normalize.{MapGeoJsonFeature, text_id}
use hifld_next.Highlights.Hidden.{Patterns}
use hifld_next.Highlights.Features.{
  HighlightedQueryLayer, feature_key, count_key, normalize_highlighted_features,
}
use hifld_next.Highlights.Laws.{
  ShowsPublic, highlightable, normalize_highlighted_features-IsDistinct,
  normalize_highlighted_features-ShowsPublic,
}
use hifld_next.Highlights.Context.{
  serialized_untrusted_properties, serialized_untrusted_properties_escapes,
}
use hifld_next.Tests.Engine.{engine}

abbrev patterns : Patterns
patterns = record {
  wkt_geometry = λ s. false;
  geojson_geometry = λ s. false;
  mvt_tile_url = λ s. false;
}

abbrev query_layer : HighlightedQueryLayer
query_layer = record {
  map_source_id = "query:1";
  query_id = some "1";
  layer_id = "layer";
  layer_name = "Query";
  source_layer_id = "hifld";
}

abbrev rendered : String → MapGeoJsonFeature engine
rendered key = record {
  id = some (text_id key);
  source = some "query:1";
  source_layer = none;
  layer_id = "fill";
  layer_source_layer = none;
  properties = field "__hifld_feature_key" (str key) (
      field "name" (str "Station")
        (field "query_token" (str "secret") (field "note" (str "select 1") end)));
  geometry = point null;
}

normalize_highlighted_features-IsDistinct_example :
    let s =
      normalize_highlighted_features engine patterns
        (rendered "a" ∷ rendered "b" ∷ rendered "a" ∷ [])
        (query_layer ∷ []) in
    Distinct (map (feature_key engine patterns) s.features)
    × ((group : String)
        → in_group (feature_key engine patterns) (count_key engine patterns) group s.features
          ≤ max_selected_features)
    × ((s.was_capped ≡ true)
        ↔ IsDropped (feature_key engine patterns) (count_key engine patterns) s.features (
            highlightable engine patterns
              (rendered "a" ∷ rendered "b" ∷ rendered "a" ∷ [])
              (query_layer ∷ [])))
normalize_highlighted_features-IsDistinct_example =
    normalize_highlighted_features-IsDistinct engine patterns
      (rendered "a" ∷ rendered "b" ∷ rendered "a" ∷ []) (query_layer ∷ [])

normalize_highlighted_features-ShowsPublic_example :
    All
      (ShowsPublic engine patterns)
      (normalize_highlighted_features engine patterns
        (rendered "a" ∷ rendered "b" ∷ [])
        (query_layer ∷ [])).features
normalize_highlighted_features-ShowsPublic_example =
    normalize_highlighted_features-ShowsPublic engine patterns (rendered "a" ∷ rendered "b" ∷ [])
      (query_layer ∷ [])

-- An engine that prints a text with marks.
abbrev marking : Js
marking = record engine { json_stringify = λ v. "{\"a\":\"</b>&\"}" }

serialized_untrusted_properties_escapes_example :
    let text = serialized_untrusted_properties marking (("a", "</b>&") ∷ []) in
    (has_code b'<' text ≡ false) × (has_code b'>' text ≡ false) × (has_code b'&' text ≡ false)
serialized_untrusted_properties_escapes_example =
    serialized_untrusted_properties_escapes marking (("a", "</b>&") ∷ [])
