-- ===== src/Highlights/Features.antt =====
-- `normalizeHighlightedFeatures` and `snapshotMapHighlights` of mapSelection.ts.
use Prim.Native.Nat.{Ordering}
use hifld_next.Common.{
  String, Bool, true, false, not, ◌||◌, ◌&&◌, ◌==◌, if◌then◌else◌, List, [], ◌∷◌, map, Option, none,
  some, get_or, is_some, concat, lookup, insert, length, ℕ,
}
use hifld_next.Js.{
  Js, undefined, bigint, Value, Values, Fields, null, bool, num, str, arr, nil, cons, end, field,
  get_field, whole, as_number, as_text,
}
use hifld_next.Js.Sort.{sort}
use hifld_next.Intake.{Intake, offer, start}
use hifld_next.Selection.Features.{
  LngLat, SelectedFeatureProperties, is_query_mvt_reserved_property, query_mvt_feature_key_property,
  query_mvt_centroid_lng_property, query_mvt_centroid_lat_property,
}
use hifld_next.Selection.Geometry.{geometry_value, point_centroid}
use hifld_next.Selection.Normalize.{MapGeoJsonFeature, print_id, within}
use hifld_next.Highlights.Hidden.{
  Patterns, is_private_property_name, contains_sensitive_feature_data,
}
use hifld_next.Highlights.Fragment.{fragment_id}

pub record HighlightedQueryLayer : Type 0 where
  pub map_source_id : String
  pub query_id : Option String
  pub layer_id : String
  pub layer_name : String
  pub source_layer_id : String

module _ (js : Js) where
  pub record HighlightedMapFeature : Type 0 where
    pub id : String
    pub query_id : Option String
    pub layer_id : Option String
    pub layer_name : String
    pub source_layer_id : String
    pub feature_id : String
    pub centroid : Option (LngLat js)
    pub properties : SelectedFeatureProperties

  pub record HighlightedFeatureSelection : Type 0 where
    pub features : List HighlightedMapFeature
    pub was_capped : Bool

  unfoldable pub stringify_property_value : Value js.Number → String
  stringify_property_value null = ""
  stringify_property_value undefined = ""
  stringify_property_value (bigint n) = ""
  stringify_property_value (str s) = s
  stringify_property_value (num n) = js.print n
  stringify_property_value (bool true) = "true"
  stringify_property_value (bool false) = "false"
  stringify_property_value v = js.json_stringify v

  -- `featureId` of an id: `id:${String(feature.id)}`, or the hash of the shape and the properties.
  property_entries : SelectedFeatureProperties → Values js.Number
  property_entries [] = nil
  property_entries ((k, v) ∷ rest) =
      cons (arr (cons (str k) (cons (str v) nil))) (property_entries rest)

  abbrev after_key : String × String → String × String → Bool
  after_key a b = elim (js.locale_compare a.0 b.0) [ Ordering.gt ↦ true | _ ↦ false ]

  module _ (patterns : Patterns) where
    -- Whether `normalizeProperties` writes a property.
    unfoldable pub is_shown : String → Value js.Number → Bool
    is_shown k v =
        not (is_query_mvt_reserved_property k)
        && not (is_private_property_name k)
        && not (contains_sensitive_feature_data patterns v)

    -- The loop of `normalizeProperties`, onto what it has written.
    unfoldable pub normalize_onto :
        SelectedFeatureProperties → Fields js.Number → SelectedFeatureProperties
    normalize_onto out end = out
    normalize_onto out (field k v fs) =
        normalize_onto (if is_shown k v then insert k (stringify_property_value v) out else out) fs

    abbrev pub normalize_properties : Fields js.Number → SelectedFeatureProperties
    normalize_properties fs = normalize_onto [] fs

    internal_centroid : Fields js.Number → Option (LngLat js)
    internal_centroid properties =
        pick (as_number js (get_field properties query_mvt_centroid_lng_property))
          (as_number js (get_field properties query_mvt_centroid_lat_property))
      where
        pick : Option js.Number → Option js.Number → Option (LngLat js)
        pick (some longitude) (some latitude) =
            if not (js.is_finite longitude)
              || not (js.is_finite latitude)
              || not (within js (js.minus (whole js 180)) (whole js 180) longitude)
              || not (within js (js.minus (whole js 90)) (whole js 90) latitude)
            then none
            else some (record { lng = longitude; lat = latitude })
        pick _ _ = none

    internal_feature_key : Fields js.Number → Option String
    internal_feature_key properties =
        elim (as_text js (get_field properties query_mvt_feature_key_property)) [
          | none ↦ none
          | some key ↦ if key == "" then none else some key
        ]

    centroid_for_feature : MapGeoJsonFeature js → Option (LngLat js)
    unfolding internal_centroid
    centroid_for_feature f = elim (internal_centroid f.properties) [
      | some c ↦ some c
      | none ↦ point_centroid js f.geometry
    ]

    stable_external_feature_id : MapGeoJsonFeature js → String
    unfolding property_entries
    stable_external_feature_id f = elim f.id [
      | some id ↦ concat ("id:" ∷ print_id js id ∷ [])
      | none ↦ fragment_id (
          js.json_stringify (
            arr (
              cons (geometry_value js f.geometry) (
                cons (arr (property_entries (sort after_key (normalize_properties f.properties))))
                  nil))))
    ]

    -- `featureId`, where the loop goes on with the feature.
    unfoldable pub highlighted_id : HighlightedQueryLayer → MapGeoJsonFeature js → Option String
    unfolding internal_feature_key stable_external_feature_id
    highlighted_id layer f = elim layer.query_id [
      | some q ↦ if is_some f.id then internal_feature_key f.properties else none
      | none ↦ some (stable_external_feature_id f)
    ]

    abbrev layer_key : HighlightedQueryLayer → String
    layer_key layer = elim layer.query_id [
      | some q ↦ concat ("query:" ∷ q ∷ [])
      | none ↦ concat ("external:" ∷ layer.layer_id ∷ [])
    ]

    -- The feature that the loop would take of a rendered one in a layer.
    unfoldable pub highlight_in :
        HighlightedQueryLayer → MapGeoJsonFeature js → Option HighlightedMapFeature
    unfolding highlighted_id centroid_for_feature
    highlight_in layer f = elim (highlighted_id layer f) [
      | none ↦ none
      | some feature_id ↦
          let source_layer_id = get_or f.source_layer layer.source_layer_id in
          some (record {
            id = concat (layer_key layer ∷ ":" ∷ source_layer_id ∷ ":" ∷ feature_id ∷ []);
            query_id = layer.query_id;
            layer_id = elim layer.query_id [ some q ↦ none | none ↦ some layer.layer_id ];
            layer_name = layer.layer_name;
            source_layer_id = source_layer_id;
            feature_id = feature_id;
            centroid = centroid_for_feature f;
            properties = normalize_properties f.properties;
          })
    ]

    -- `new Map(layers.map((layer) => [layer.mapSourceId, layer]))`, onto a map
    unfoldable pub layers_by_map_source_id :
        List (String × HighlightedQueryLayer)
        → List HighlightedQueryLayer
        → List (String × HighlightedQueryLayer)
    layers_by_map_source_id m [] = m
    layers_by_map_source_id m (l ∷ ls) = layers_by_map_source_id (insert l.map_source_id l m) ls

    unfoldable pub highlight :
        List (String × HighlightedQueryLayer) → MapGeoJsonFeature js → Option HighlightedMapFeature
    unfolding highlight_in
    highlight layers f = elim (lookup (get_or f.source "") layers) [
      | none ↦ none
      | some layer ↦ highlight_in layer f
    ]

    abbrev pub feature_key : HighlightedMapFeature → String
    feature_key f = f.id

    -- `countKey`: a feature has the query id of its layer, or else the layer's id.
    abbrev pub count_key : HighlightedMapFeature → String
    count_key f = get_or f.query_id (get_or f.layer_id "")

    -- One round of the loop, of what became of a rendered feature, and the loop.
    abbrev pub highlight_next :
        Option HighlightedMapFeature → Intake HighlightedMapFeature → Intake HighlightedMapFeature
    highlight_next none s = s
    highlight_next (some x) s = offer feature_key count_key s x

    unfoldable pub highlight_all :
        List (String × HighlightedQueryLayer)
        → Intake HighlightedMapFeature
        → List (MapGeoJsonFeature js)
        → Intake HighlightedMapFeature
    highlight_all layers s [] = s
    highlight_all layers s (f ∷ fs) =
        highlight_all layers (highlight_next (highlight layers f) s) fs

    unfoldable pub normalize_highlighted_features :
        List (MapGeoJsonFeature js) → List HighlightedQueryLayer → HighlightedFeatureSelection
    normalize_highlighted_features features layers =
        let done = highlight_all (layers_by_map_source_id [] layers) start features in
        record { features = done.rows; was_capped = done.was_capped }

  -- The fields of a highlighted feature, under the names of the snapshot.
  pub record MapHighlightSnapshot : Type 0 where
    pub map_title : String
    pub selected_feature_count : ℕ
    pub was_capped : Bool
    pub selection_bounds : Option (List js.Number)
    pub selected_features : List HighlightedMapFeature

  -- Of a feature's two ids, the snapshot has the query's, or else the layer's.
  abbrev snapshot_feature : HighlightedMapFeature → HighlightedMapFeature
  snapshot_feature f = record f { layer_id = elim f.query_id [ some q ↦ none | none ↦ f.layer_id ] }

  unfoldable pub snapshot_map_highlights :
      String → List HighlightedMapFeature → Bool → Option (List js.Number) → MapHighlightSnapshot
  snapshot_map_highlights map_title features was_capped selection_bounds = record {
    map_title = map_title;
    selected_feature_count = length features;
    was_capped = was_capped;
    selection_bounds = selection_bounds;
    selected_features = map snapshot_feature features;
  }
