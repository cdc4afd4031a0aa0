-- ===== src/Pages.antt =====
-- webapp/src/components/map/queryResults.ts: the pages of a query's result, and its map layer.
use hifld_next.Common.{
  ℕ, ◌+◌, String, Bool, true, not, ◌&&◌, ◌||◌, ◌==◌, eqb, ltb, if◌then◌else◌, List, [], ◌∷◌, ◌++◌,
  map, filter, length, length-append, concat, Option, none, some, Result, ok, ◌>>=◌, ◌≡◌, arith,
}
use hifld_next.Js.{Js, Fields}
use hifld_next.Js.Patterns.{text_take}
use hifld_next.Layers.{
  MapBounds, LoadedMapLayer, QueryScalarFieldMetadata, ready, build_query_mvt_layer,
}
use hifld_next.Selection.Features.{is_query_mvt_reserved_property}

pub record QueryColumn : Type 0 where
  pub name : String
  pub type : String
  pub nullable : Bool

module _ (js : Js) where
  pub record QueryMapConfiguration : Type 0 where
    pub tile_url : String
    pub geometry_column : String
    pub source_layer : String
    pub initial_bounds : Option (MapBounds js)

  -- Of a page the fields that the functions read or change; the others are the next page's.
  pub record PublicQueryPage : Type 0 where
    pub query_id : String
    pub columns : List QueryColumn
    pub rows : List (Fields js.Number)
    pub offset : ℕ
    pub returned_count : ℕ
    pub has_more : Bool
    pub map_configuration : Option QueryMapConfiguration

  unfoldable pub can_set_query_result_page : PublicQueryPage → Bool
  can_set_query_result_page page = page.has_more || ltb 0 page.offset

  -- Whether `next` goes on where `current` ends.
  unfoldable pub goes_on : PublicQueryPage → PublicQueryPage → Bool
  goes_on current next =
      current.query_id == next.query_id && eqb next.offset (current.offset + length current.rows)

  unfoldable pub append_query_page : PublicQueryPage → PublicQueryPage → PublicQueryPage
  append_query_page current next = if not (goes_on current next) then next else record next {
    rows = current.rows ++ next.rows;
    offset = current.offset;
    returned_count = current.returned_count + next.returned_count;
  }

  -- `scalarFields(columns, geometryColumn)`
  unfoldable pub scalar_fields : List QueryColumn → String → List (QueryScalarFieldMetadata js)
  scalar_fields columns geometry_column =
      map
        (λ (c : QueryColumn). record {
          name = c.name;
          logical_type = c.type;
          nullable = c.nullable;
          min = none;
          max = none;
        })
        (filter
          (λ (c : QueryColumn).
            not (c.name == geometry_column)
            && not (js.to_lower_case c.type == "geometry")
            && not (is_query_mvt_reserved_property c.name))
          columns)

  unfoldable pub query_layer_from_result :
      PublicQueryPage → List String → Result (Option (LoadedMapLayer js))
  query_layer_from_result result source_aliases = elim result.map_configuration [
    | none ↦ ok none
    | some c ↦ (do
      layer ← build_query_mvt_layer js (record {
        query_id = result.query_id;
        label = concat ("Query " ∷ text_take 8 result.query_id ∷ []);
        source_aliases = source_aliases;
        geometry_column = c.geometry_column;
        tile_template = c.tile_url;
        source_layer_id = some c.source_layer;
        scalar_fields = some (scalar_fields result.columns c.geometry_column);
        bounds = c.initial_bounds;
        status = some ready;
      })
      ok (some layer))
  ]

  -- A page that counts the rows it holds.
  abbrev pub is_counted : PublicQueryPage → Bool
  is_counted page = eqb page.returned_count (length page.rows)

  -- Where the next page begins.
  abbrev pub end_of : PublicQueryPage → ℕ
  end_of page = page.offset + length page.rows

  -- Where two pages count the rows they hold, so does the page that comes of appending the second
  -- to the first, whether it continues it or replaces it; that page is of the second page's query
  -- and ends at the offset where the second ends.
  pub append_query_page_end :
      (current next : PublicQueryPage)
      → is_counted current ≡ true
      → is_counted next ≡ true
      → ((append_query_page current next).query_id ≡ next.query_id)
        × (end_of (append_query_page current next) ≡ end_of next)
        × (is_counted (append_query_page current next) ≡ true)
  unfolding append_query_page goes_on
  append_query_page_end current next h k = ground (arith, length-append current.rows next.rows)
