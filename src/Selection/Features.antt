-- ===== src/Selection/Features.antt =====
-- The selected features of featureSelection.ts, and the properties that packages/map-core/src/queryMvt.ts reserves.
use hifld_next.Common.{String, Bool, true, false, List, [], ◌∷◌, Option, includes}
use hifld_next.Js.{Js}

-- packages/map-core/src/queryMvt.ts
abbrev pub query_mvt_feature_key_property : String
query_mvt_feature_key_property = "__hifld_feature_key"

abbrev pub query_mvt_centroid_lng_property : String
query_mvt_centroid_lng_property = "__hifld_centroid_lng"

abbrev pub query_mvt_centroid_lat_property : String
query_mvt_centroid_lat_property = "__hifld_centroid_lat"

abbrev pub query_mvt_reserved_property_names : List String
query_mvt_reserved_property_names =
    "_mcp_feature_id" ∷ "__hifld_feature_hash" ∷ query_mvt_feature_key_property
    ∷ query_mvt_centroid_lng_property ∷ query_mvt_centroid_lat_property ∷ []

unfoldable pub is_query_mvt_reserved_property : String → Bool
is_query_mvt_reserved_property name = includes query_mvt_reserved_property_names name

abbrev pub SelectedFeatureProperties : Type 0
SelectedFeatureProperties = List (String × String)

-- The fields of `CatalogSelectedMapFeature` beyond the common ones.
pub record CatalogOrigin : Type 0 where
  pub collection_slug : String
  pub dataset_slug : String
  pub file_slug : String
  pub version : String
  pub asset_key : String
  pub storage_location_slug : Option String

pub data Origin : Type 0 where
  catalog : CatalogOrigin → Origin
  query : String → Origin

module _ (js : Js) where
  pub record LngLat : Type 0 where
    pub lng : js.Number
    pub lat : js.Number

  pub record SelectedMapFeature : Type 0 where
    pub id : String
    pub loaded_layer_id : String
    pub layer_name : String
    pub source_layer_id : String
    pub feature_id : String
    pub centroid : Option LngLat
    pub properties : SelectedFeatureProperties
    pub origin : Origin

abbrev pub is_catalog : Origin → Bool
is_catalog (catalog c) = true
is_catalog (query q) = false

module _ {js : Js} where
  abbrev pub is_catalog_selected_map_feature : SelectedMapFeature js → Bool
  is_catalog_selected_map_feature f = is_catalog f.origin
