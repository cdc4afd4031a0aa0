-- ===== src/Selection/Normalize.antt =====
-- From the features that the map renders to selected features.
use hifld_next.Common.{
  String, Bool, true, false, List, [], ◌∷◌, Option, none, some, get_or, join, lookup, insert,
  if◌then◌else◌, not, ◌&&◌, ◌==◌, filter_map,
}
use hifld_next.Js.{
  Js, Value, Fields, undefined, null, bool, num, bigint, str, obj, end, field, get_field, whole,
  as_number, as_text,
}
use hifld_next.Js.Trim.{trim}
use hifld_next.Layers.{LoadedMapLayer, catalog_pmtiles, query_mvt}
use hifld_next.Selection.Features.{
  SelectedMapFeature, SelectedFeatureProperties, LngLat, catalog, query,
  is_query_mvt_reserved_property, query_mvt_feature_key_property, query_mvt_centroid_lng_property,
  query_mvt_centroid_lat_property,
}
use hifld_next.Selection.Geometry.{Geometry, geometry_value, centroid_for_geometry, point_centroid}

module _ (js : Js) where
  pub data FeatureId : Type 0 where
    text_id : String → FeatureId
    number_id : js.Number → FeatureId

  -- `MapGeoJSONFeature`: an identifier or a name that is null, undefined or no text is `none`,
  -- and properties that are null are `end`.
  pub record MapGeoJsonFeature : Type 0 where
    pub id : Option FeatureId
    pub source : Option String
    pub source_layer : Option String
    pub layer_id : String
    pub layer_source_layer : Option String
    pub properties : Fields js.Number
    pub geometry : Geometry js

  source_layer_for_feature : MapGeoJsonFeature → String
  source_layer_for_feature f = choose f.source_layer f.layer_source_layer
    where
      choose : Option String → Option String → String
      choose none none = f.layer_id
      choose none (some l) = l
      choose (some s) none = if s == "" then f.layer_id else s
      choose (some s) (some l) = if s == "" then l else s

  unfoldable pub print_id : FeatureId → String
  print_id (text_id s) = s
  print_id (number_id n) = js.print n

  feature_key : MapGeoJsonFeature → String → String
  unfolding print_id geometry_value
  feature_key f source_layer_id = elim f.id [
    | some id ↦ print_id id
    | none ↦ js.json_stringify (
        obj (
          field "sourceLayerId" (str source_layer_id) (
            field "properties" (obj f.properties)
              (field "geometry" (geometry_value js f.geometry) end))))
  ]

  query_feature_key : MapGeoJsonFeature → Option String
  query_feature_key f = elim (as_text js (get_field f.properties query_mvt_feature_key_property)) [
    | none ↦ none
    | some value ↦ if trim value == "" then none else some (trim value)
  ]

  stringify_property_value : Value js.Number → String
  stringify_property_value null = ""
  stringify_property_value undefined = ""
  stringify_property_value (str s) = s
  stringify_property_value (num n) = js.print n
  stringify_property_value (bool true) = "true"
  stringify_property_value (bool false) = "false"
  stringify_property_value (bigint n) = js.print_bigint n
  stringify_property_value v = js.json_stringify v

  -- The loop of `normalizeProperties`, onto what it has written.
  normalize_onto : SelectedFeatureProperties → Fields js.Number → Bool → SelectedFeatureProperties
  unfolding stringify_property_value is_query_mvt_reserved_property
  normalize_onto out end strip = out
  normalize_onto out (field k v fs) strip =
      normalize_onto
        (if strip && is_query_mvt_reserved_property k
          then out
          else insert k (stringify_property_value v) out)
        fs strip

  unfoldable pub normalize_properties : Fields js.Number → Bool → SelectedFeatureProperties
  unfolding normalize_onto
  normalize_properties fs strip = normalize_onto [] fs strip

  -- `minimum <= value && value <= maximum`, of a finite value.
  abbrev pub within : js.Number → js.Number → js.Number → Bool
  within minimum maximum value = not (js.lt value minimum) && not (js.lt maximum value)

  is_coordinate : js.Number → js.Number → Bool
  is_coordinate lng lat =
      js.is_finite lng
      && js.is_finite lat
      && within (js.minus (whole js 180)) (whole js 180) lng
      && within (js.minus (whole js 90)) (whole js 90) lat

  query_centroid_for_feature : MapGeoJsonFeature → Option (LngLat js)
  unfolding point_centroid is_coordinate
  query_centroid_for_feature f =
      pick (as_number js (get_field f.properties query_mvt_centroid_lng_property))
        (as_number js (get_field f.properties query_mvt_centroid_lat_property))
    where
      pick : Option js.Number → Option js.Number → Option (LngLat js)
      pick (some lng) (some lat) =
          if is_coordinate lng lat
          then some (record { lng = lng; lat = lat })
          else point_centroid js f.geometry
      pick _ _ = point_centroid js f.geometry

  -- The last layer of a map source, as `new Map(...)` keeps it.
  layers_by_map_source_id :
      List (String × LoadedMapLayer js)
      → List (LoadedMapLayer js)
      → List (String × LoadedMapLayer js)
  layers_by_map_source_id m [] = m
  layers_by_map_source_id m (l ∷ ls) = layers_by_map_source_id (insert l.map_source_id l m) ls

  abbrev colons : List String → String
  colons = join ":"

  normalize_in_layer : MapGeoJsonFeature → LoadedMapLayer js → Option (SelectedMapFeature js)
  unfolding source_layer_for_feature feature_key query_feature_key normalize_properties
      query_centroid_for_feature
  normalize_in_layer f layer = elim layer.kind [
    | query_mvt q ↦ elim (query_feature_key f) [
      | none ↦ none
      | some feature_id ↦
          let source_layer_id = source_layer_for_feature f in
          some (record {
            id = colons ("query" ∷ q.query_id ∷ source_layer_id ∷ feature_id ∷ []);
            loaded_layer_id = layer.id;
            layer_name = layer.name;
            source_layer_id = source_layer_id;
            feature_id = feature_id;
            centroid = query_centroid_for_feature f;
            properties = normalize_properties f.properties true;
            origin = query q.query_id;
          })
    ]
    | catalog_pmtiles c ↦
        let source_layer_id = source_layer_for_feature f in
        let feature_id = feature_key f source_layer_id in
        some (record {
          id = colons (layer.id ∷ source_layer_id ∷ feature_id ∷ []);
          loaded_layer_id = layer.id;
          layer_name = layer.name;
          source_layer_id = source_layer_id;
          feature_id = feature_id;
          centroid = centroid_for_geometry js f.geometry;
          properties = normalize_properties f.properties false;
          origin = catalog (record {
            collection_slug = c.descriptor.collection_slug;
            dataset_slug = c.descriptor.dataset_slug;
            file_slug = c.descriptor.file_slug;
            version = c.descriptor.version;
            asset_key = c.descriptor.asset_key;
            storage_location_slug = c.descriptor.storage_location_slug;
          });
        })
  ]

  normalize_selected_feature :
      MapGeoJsonFeature → List (String × LoadedMapLayer js) → Option (SelectedMapFeature js)
  unfolding normalize_in_layer
  normalize_selected_feature f layers = elim (lookup (get_or f.source "") layers) [
    | none ↦ none
    | some layer ↦ normalize_in_layer f layer
  ]

  unfoldable pub normalize_selected_features :
      List MapGeoJsonFeature → List (LoadedMapLayer js) → List (SelectedMapFeature js)
  unfolding normalize_selected_feature layers_by_map_source_id
  normalize_selected_features features loaded_layers =
      filter_map (λ f. normalize_selected_feature f (layers_by_map_source_id [] loaded_layers))
        features
