-- ===== src/McpApp/Tiles.antt =====
-- dataset-mcp/ui/src/components/tileSources.ts: which tile sources of an agent the map takes.
pub mod Usable
use Prim.Native.Char.{code}
use Prim.Native.String
use Prim.Native.String.{[], ◌∷◌}
use hifld_next.Common.{
  ℕ, String, Bool, true, false, not, ◌||◌, ◌&&◌, ◌==◌, eqb, leb, ltb, length, if◌then◌else◌, List,
  [], ◌∷◌, map, all, any, find, join, concat, includes, Option, none, some, get_or, Result, ok,
  fail, fail_if, ◌>>=◌, ◌>>◌,
}
use hifld_next.Js.{Js, whole}
use hifld_next.Js.Patterns.{has_code, has_part, is_prefix, is_suffix, text_drop}

-- The parts of a URL.
pub record Url : Type 0 where
  pub protocol : String
  pub username : String
  pub password : String
  pub hostname : String
  pub hash : String

-- `new URL(text)`, none where it throws; `ipaddr.isValid`, and `ipaddr.process(host).range()`.
pub record Addresses : Type 0 where
  pub new_url : String → Option Url
  pub is_ip : String → Bool
  pub range : String → String

-- `text.replace(/^\[|\]$/g, "")` and `text.replace(/\.$/, "")`
unfoldable pub drop_last : ℕ → String → String
drop_last mark [] = []
drop_last mark (c ∷ s) =
    let rest = drop_last mark s in if eqb (code c) mark && s == "" then [] else c ∷ rest

unfoldable pub host_of : (String → String) → String → String
unfolding drop_last is_prefix text_drop
host_of lower hostname =
    let host = lower hostname in
    drop_last b'.' (drop_last b']' (if is_prefix "[" host then text_drop 1 host else host))

abbrev pub not_public : String
not_public = "Tile sources must use public HTTPS URLs without credentials or fragments."

pub data ExternalTileSource (N : Type 0) : Type 0 where
  -- The address, and the layer that is asked for.
  pmtiles tilejson : String → Option String → ExternalTileSource N
  -- The tiles, the layer, the zooms and the bounds.
  vector_tiles :
      List String → String → Option ℕ → Option ℕ → Option (N × N × N × N) → ExternalTileSource N

pub record VectorLayer : Type 0 where
  pub id : String
  pub fields : Option (List (String × String))

-- What `TileMetadataSchema` reads of the metadata of tiles.
pub record TileMetadata (N : Type 0) : Type 0 where
  pub tiles : Option (List String)
  pub minzoom : Option ℕ
  pub maxzoom : Option ℕ
  pub bounds : Option (N × N × N × N)
  pub attribution : Option String
  pub scheme : Option String
  pub vector_layers : Option (List VectorLayer)

pub record TileColumn : Type 0 where
  pub name : String
  pub column_type : String
  pub nullable : Bool

pub record ResolvedTileSource (N : Type 0) : Type 0 where
  pub tiles : List String
  pub minzoom : ℕ
  pub maxzoom : ℕ
  pub bounds : Option (N × N × N × N)
  pub attribution : Option String
  pub scheme : Option String
  pub source_layer : String
  pub columns : List TileColumn

abbrev pub has_placeholders : String → Bool
has_placeholders url = has_part url "{z}" && has_part url "{x}" && has_part url "{y}"

abbrev zoom_in_range : Option ℕ → Bool
zoom_in_range none = true
zoom_in_range (some zoom) = leb zoom 22

module _ (addresses : Addresses) (lower : String → String) where
  unfoldable pub is_public_host : String → Bool
  unfolding is_suffix
  is_public_host host =
      let is_ip = addresses.is_ip host in
      not (not is_ip && not (has_code b'.' host))
      && not (is_suffix ".localhost" host)
      && not (is_suffix ".local" host)
      && not (is_suffix ".internal" host)
      && not (is_ip && not (addresses.range host == "unicast"))

  abbrev check_url : String → Option Url → Result String
  check_url value none = fail "Invalid URL"
  check_url value (some url) =
      if not (url.protocol == "https:")
        || not (url.username == "")
        || not (url.password == "")
        || not (url.hash == "")
        || not (is_public_host (host_of lower url.hostname))
      then fail not_public
      else ok value

  unfoldable pub validate_public_tile_url : String → Result String
  unfolding is_public_host host_of
  validate_public_tile_url value = check_url value (addresses.new_url value)

  -- `tiles.forEach(validatePublicTileUrl)`
  unfoldable pub validate_all : List String → Result (Unit {0})
  unfolding validate_public_tile_url
  validate_all [] = ok tt
  validate_all (url ∷ urls) = do checked ← validate_public_tile_url url; validate_all urls

module _ (js : Js) where
  abbrev Bounds : Type 0
  Bounds = js.Number × js.Number × js.Number × js.Number

  -- Of a longitude and of a latitude, by its largest value.
  abbrev within : ℕ → js.Number → Bool
  within limit x = not (js.lt x (js.minus (whole js limit))) && not (js.lt (whole js limit) x)

  abbrev pub bounds_fit : Option Bounds → Bool
  bounds_fit none = true
  bounds_fit (some (west, south, east, north)) =
      within 180 west
      && within 90 south
      && within 180 east
      && within 90 north
      && js.lt west east
      && js.lt south north

  abbrev tiles_fit : Option (List String) → Bool
  tiles_fit none = true
  tiles_fit (some tiles) = not (eqb (length tiles) 0) && all has_placeholders tiles

  abbrev layers_fit : Option (List VectorLayer) → Bool
  layers_fit none = true
  layers_fit (some layers) = all (λ (l : VectorLayer). not (l.id == "")) layers

  -- The conditions of `TileMetadataSchema`.
  unfoldable pub metadata_fits : TileMetadata js.Number → Bool
  unfolding has_part
  metadata_fits metadata =
      tiles_fit metadata.tiles
      && zoom_in_range metadata.minzoom
      && zoom_in_range metadata.maxzoom
      && bounds_fit metadata.bounds
      && layers_fit metadata.vector_layers
      && leb (get_or metadata.minzoom 0) (get_or metadata.maxzoom 22)

abbrev pub layer_ids : Option (List VectorLayer) → List String
layer_ids none = []
layer_ids (some layers) = map (λ (l : VectorLayer). l.id) layers

-- The layer that is asked for, else the only one that is declared.
abbrev only_layer : List String → Option String
only_layer (name ∷ []) = some name
only_layer _ = none

abbrev pub chosen_layer : Option String → List String → String
chosen_layer (some layer) names = layer
chosen_layer none names = get_or (only_layer names) ""

abbrev fields_of : Option VectorLayer → List (String × String)
fields_of none = []
fields_of (some layer) = get_or layer.fields []

abbrev layer_named : String → Option (List VectorLayer) → Option VectorLayer
layer_named name none = none
layer_named name (some layers) = find (λ l. l.id == name) layers

-- `...(text ? { text } : {})`
abbrev unless_empty : Option String → Option String
unless_empty none = none
unless_empty (some text) = if text == "" then none else some text

abbrev names_text : List String → String
names_text names = if join ", " names == "" then "not declared in metadata" else join ", " names

-- What comes over the network: the metadata of an archive, after its tile type, and a TileJSON
-- document, by the schema's types; a failure of either is its message.
pub record TileReads (N : Type 0) : Type 0 where
  pub archive_is_mvt : String → Result Bool
  pub archive_metadata : String → Result (TileMetadata N)
  pub tile_json : String → Result (TileMetadata N)

abbrev pub vector_source :
    {N : Type 0}
    → List String
    → String
    → Option ℕ
    → Option ℕ
    → Option (N × N × N × N)
    → ResolvedTileSource N
vector_source tiles source_layer minzoom maxzoom bounds = record {
  tiles = tiles;
  minzoom = get_or minzoom 0;
  maxzoom = get_or maxzoom 22;
  bounds = bounds;
  attribution = none;
  scheme = none;
  source_layer = source_layer;
  columns = [];
}

module _ (js : Js) (addresses : Addresses) (lower : String → String)
    (reads : TileReads js.Number) where
  abbrev column_of : String × String → TileColumn
  column_of (name, type_name) = record {
    name = name;
    column_type = if lower type_name == "number" then "DOUBLE" else type_name;
    nullable = true;
  }

  abbrev pub source_of_metadata :
      Option String → TileMetadata js.Number → ResolvedTileSource js.Number
  source_of_metadata asked metadata =
      let source_layer = chosen_layer asked (layer_ids metadata.vector_layers) in
      record {
        tiles = get_or metadata.tiles [];
        minzoom = get_or metadata.minzoom 0;
        maxzoom = get_or metadata.maxzoom 22;
        bounds = metadata.bounds;
        attribution = unless_empty metadata.attribution;
        scheme = metadata.scheme;
        source_layer = source_layer;
        columns = map column_of (fields_of (layer_named source_layer metadata.vector_layers));
      }

  -- The steps after the metadata has been read.
  unfoldable pub resolved_metadata :
      Bool → Option String → TileMetadata js.Number → Result (ResolvedTileSource js.Number)
  unfolding validate_all metadata_fits
  resolved_metadata is_archive asked metadata = do
    fail_if (not (metadata_fits js metadata)) "Tile metadata is invalid"
    let names = layer_ids metadata.vector_layers
    let source_layer = chosen_layer asked names
    fail_if (source_layer == "")
        (concat ("Specify source_layer; available vector layers: " ∷ names_text names ∷ "." ∷ []))
    fail_if (not (eqb (length names) 0) && not (includes names source_layer)) (
        concat (
          "Unknown source_layer '"
          ∷ source_layer
          ∷ "'; available vector layers: "
          ∷ join ", " names
          ∷ "."
          ∷ []))
    let tiles = get_or metadata.tiles []
    fail_if (eqb (length tiles) 0) "Tile metadata does not declare any vector tile URLs."
    (if is_archive then ok tt else validate_all addresses lower tiles)
    ok (source_of_metadata asked metadata)

  unfoldable pub resolve_tile_source :
      ExternalTileSource js.Number → Result (ResolvedTileSource js.Number)
  unfolding resolved_metadata validate_all metadata_fits
  resolve_tile_source (vector_tiles tiles source_layer minzoom maxzoom bounds) = do
    fail_if
        (not (
          metadata_fits js (record {
            tiles = some tiles;
            minzoom = minzoom;
            maxzoom = maxzoom;
            bounds = bounds;
            attribution = none;
            scheme = none;
            vector_layers = none;
          })))
        "Tile metadata is invalid"
    validate_all addresses lower tiles
    fail_if (any (λ url. not (has_placeholders url)) tiles)
        "Vector tile URLs must contain {z}, {x}, and {y} placeholders."
    ok (vector_source tiles source_layer minzoom maxzoom bounds)
  resolve_tile_source (pmtiles url asked) = do
    checked ← validate_public_tile_url addresses lower url
    is_mvt ← reads.archive_is_mvt url
    fail_if (not is_mvt) "PMTiles source must contain vector (MVT) tiles, not raster tiles."
    metadata ← reads.archive_metadata url
    resolved_metadata true asked metadata
  resolve_tile_source (tilejson url asked) = do
    checked ← validate_public_tile_url addresses lower url
    metadata ← reads.tile_json url
    resolved_metadata false asked metadata
