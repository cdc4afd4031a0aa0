-- ===== src/Layers.antt =====
-- webapp/src/components/map/multiLayerSources.ts and sourceDescriptors.ts: the layers that a map
-- holds, from a catalog source or from a query.
use hifld_next.Common.{
  String, Bool, true, List, [], ◌∷◌, if◌then◌else◌, Option, none, some, get_or, join, concat,
  Result, ok, fail_if, ◌>>◌, ◌||◌, ◌==◌,
}
use hifld_next.Js.{Js, Value, Values, num, nil, cons}
use hifld_next.Js.Trim.{trim, is_blank}

pub record SourceDescriptor : Type 0 where
  pub collection_slug : String
  pub dataset_slug : String
  pub file_slug : String
  pub version : String
  pub asset_key : String
  pub storage_location_slug : Option String

unfoldable pub source_descriptor_id : SourceDescriptor → String
source_descriptor_id d = join ":" (
    d.collection_slug
    ∷ d.dataset_slug
    ∷ d.file_slug
    ∷ d.version
    ∷ d.asset_key
    ∷ get_or d.storage_location_slug "default"
    ∷ [])

pub data QueryMapLayerStatus : Type 0 where
  loading ready error : QueryMapLayerStatus

module _ (js : Js) where
  pub record MapBounds : Type 0 where
    pub min_x : js.Number
    pub min_y : js.Number
    pub max_x : js.Number
    pub max_y : js.Number

  pub record QueryScalarFieldMetadata : Type 0 where
    pub name : String
    pub logical_type : String
    pub nullable : Bool
    pub min : Option js.Number
    pub max : Option js.Number

  -- The fields of `QueryMvtLayer` beyond those of every layer.
  pub record QueryMvt : Type 0 where
    pub query_id : String
    pub source_aliases : List String
    pub geometry_column : String
    pub tile_template : String
    pub source_layer_id : String
    pub scalar_fields : List QueryScalarFieldMetadata
    pub status : QueryMapLayerStatus

  -- Those of `CatalogPmtilesLayer`; of its metadata the program reads the bounds.
  pub record CatalogPmtiles : Type 0 where
    pub descriptor : SourceDescriptor
    pub source_metadata : Option (Option (Values js.Number))
    pub pmtiles_url : String

  pub data LayerKind : Type 0 where
    catalog_pmtiles : CatalogPmtiles → LayerKind
    query_mvt : QueryMvt → LayerKind

  pub record LoadedMapLayer : Type 0 where
    pub id : String
    pub name : String
    pub label : String
    pub dataset_name : Option String
    pub storage_location_name : Option String
    pub map_source_id : String
    pub visible : Bool
    pub opacity : js.Number
    pub bounds : Option MapBounds
    pub kind : LayerKind

  -- A finite number; `typeof value !== "number" || !Number.isFinite(value)` fails.
  unfoldable pub finite_number : Value js.Number → Option js.Number
  finite_number (num n) = if js.is_finite n then some n else none
  finite_number _ = none

  unfoldable pub four_numbers : Values js.Number → Option MapBounds
  unfolding finite_number
  four_numbers (cons a (cons b (cons c (cons d nil)))) = elim (finite_number a) [
    | none ↦ none
    | some min_x ↦ elim (finite_number b) [
      | none ↦ none
      | some min_y ↦ elim (finite_number c) [
        | none ↦ none
        | some max_x ↦ elim (finite_number d) [
          | none ↦ none
          | some max_y ↦
              some (record { min_x = min_x; min_y = min_y; max_x = max_x; max_y = max_y })
        ]
      ]
    ]
  ]
  four_numbers _ = none

  unfoldable pub bounds_from_metadata : Option (Option (Values js.Number)) → Option MapBounds
  unfolding four_numbers
  bounds_from_metadata (some (some values)) = elim (four_numbers values) [
    | none ↦ none
    | some b ↦ if js.lt b.max_x b.min_x || js.lt b.max_y b.min_y then none else some b
  ]
  bounds_from_metadata _ = none

  pub record LoadedMapLayerInput : Type 0 where
    pub descriptor : SourceDescriptor
    pub name : String
    pub dataset_name : Option String
    pub storage_location_name : Option String
    pub pmtiles_url : String
    pub source_metadata : Option (Option (Values js.Number))

  unfoldable pub build_loaded_map_layer : LoadedMapLayerInput → LoadedMapLayer
  unfolding bounds_from_metadata
  build_loaded_map_layer input =
      let id = source_descriptor_id input.descriptor in
      record {
        id = id;
        name = input.name;
        label = input.name;
        dataset_name = input.dataset_name;
        storage_location_name = input.storage_location_name;
        map_source_id = concat ("source-" ∷ id ∷ []);
        visible = true;
        opacity = js.literal 82 100;
        bounds = bounds_from_metadata input.source_metadata;
        kind = catalog_pmtiles (record {
          descriptor = input.descriptor;
          source_metadata = input.source_metadata;
          pmtiles_url = input.pmtiles_url;
        });
      }

  pub record QueryMvtLayerInput : Type 0 where
    pub query_id : String
    pub label : String
    pub source_aliases : List String
    pub geometry_column : String
    pub tile_template : String
    pub source_layer_id : Option String
    pub scalar_fields : Option (List QueryScalarFieldMetadata)
    pub bounds : Option MapBounds
    pub status : Option QueryMapLayerStatus

  -- `text?.trim() || fallback`
  abbrev trimmed_or : Option String → String → String
  trimmed_or none fallback = fallback
  trimmed_or (some s) fallback = if is_blank s then fallback else trim s

  unfoldable pub build_query_mvt_layer : QueryMvtLayerInput → Result LoadedMapLayer
  build_query_mvt_layer input = do
    let query_id = trim input.query_id
    let label = trim input.label
    fail_if (query_id == "") "queryId must not be empty"
    fail_if (label == "") "query layer label must not be empty"
    fail_if (is_blank input.geometry_column) "query geometry column must not be empty"
    fail_if (is_blank input.tile_template) "query tile template must not be empty"
    ok (record {
      id = concat ("query:" ∷ query_id ∷ []);
      name = label;
      label = label;
      dataset_name = none;
      storage_location_name = none;
      map_source_id = concat ("source-query-" ∷ query_id ∷ []);
      visible = true;
      opacity = js.literal 82 100;
      bounds = input.bounds;
      kind = query_mvt (record {
        query_id = query_id;
        source_aliases = input.source_aliases;
        geometry_column = input.geometry_column;
        tile_template = input.tile_template;
        source_layer_id = trimmed_or input.source_layer_id "hifld";
        scalar_fields = get_or input.scalar_fields [];
        status = get_or input.status loading;
      });
    })
