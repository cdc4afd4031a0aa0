-- ===== src/McpApp/Tiles/Usable.antt =====
-- What holds of a source that the map takes.
use hifld_next.Common.{
  ◌≤◌, String, Bool, true, false, not, ◌&&◌, ◌==◌, eq_iff, eqb, length, if◌then◌else◌, List, [],
  ◌∷◌, all, any, includes, All, Option, none, some, get_or, Option-cases, ok, >>=-eq-ok,
  fail_if->>-eq-ok, >>-eq-ok, >>-ok-eq-ok, ok_inj, inl, inr, ◌≡◌, refl, subst, arith,
}
use hifld_next.Js.{Js}
use hifld_next.McpApp.Tiles.{
  Url, Addresses, host_of, ExternalTileSource, pmtiles, tilejson, vector_tiles, TileMetadata,
  ResolvedTileSource, TileReads, has_placeholders, is_public_host, validate_public_tile_url,
  validate_all, metadata_fits, layer_ids, chosen_layer, source_of_metadata, vector_source,
  resolved_metadata, resolve_tile_source,
}

module _ (addresses : Addresses) (lower : String → String) where
  -- A secure address of a public host, with no credentials and no fragment.
  pub record IsPublic (value : String) : Type 0 where
    pub url : Url
    pub is_url : addresses.new_url value ≡ some url
    pub secure : url.protocol ≡ "https:"
    pub no_username : url.username ≡ ""
    pub no_password : url.password ≡ ""
    pub no_fragment : url.hash ≡ ""
    pub public_host : is_public_host addresses lower (host_of lower url.hostname) ≡ true

  validate_public_tile_url-IsPublic :
      (value checked : String)
      → validate_public_tile_url addresses lower value ≡ ok checked
      → IsPublic value
  unfolding validate_public_tile_url
  validate_public_tile_url-IsPublic value checked h =
      elim (Option-cases (addresses.new_url value)) [
        | inl missing ↦ absurd (ground (arith, missing, h))
        | inr (url, found) ↦ record {
          url = url;
          is_url = found;
          secure = ground (arith, found, h, eq_iff url.protocol "https:");
          no_username = ground (arith, found, h, eq_iff url.username "");
          no_password = ground (arith, found, h, eq_iff url.password "");
          no_fragment = ground (arith, found, h, eq_iff url.hash "");
          public_host = ground (arith, found, h);
        }
      ]

  validate_all-IsPublic :
      (urls : List String) → validate_all addresses lower urls ≡ ok tt → All IsPublic urls
  unfolding validate_all
  validate_all-IsPublic [] h = tt
  validate_all-IsPublic (url ∷ urls) h =
      let (checked, first, rest) = >>=-eq-ok (validate_public_tile_url addresses lower url) _ h in
      (validate_public_tile_url-IsPublic url checked first, validate_all-IsPublic urls rest)

-- The address that is asked for metadata, if any.
abbrev pub asked_of : {N : Type 0} → ExternalTileSource N → List String
asked_of (pmtiles url asked) = url ∷ []
asked_of (tilejson url asked) = url ∷ []
asked_of (vector_tiles tiles layer minzoom maxzoom bounds) = []

-- The tiles that the map fetches from elsewhere than the archive.
abbrev pub fetched_of : {N : Type 0} → ExternalTileSource N → ResolvedTileSource N → List String
fetched_of (pmtiles url asked) resolved = []
fetched_of (tilejson url asked) resolved = resolved.tiles
fetched_of (vector_tiles tiles layer minzoom maxzoom bounds) resolved = resolved.tiles

module _ (js : Js) (addresses : Addresses) (lower : String → String)
    (reads : TileReads js.Number) where
  pub record IsUsable (source : ExternalTileSource js.Number)
      (resolved : ResolvedTileSource js.Number) : Type 0 where
    pub asked_public : All (IsPublic addresses lower) (asked_of source)
    pub fetched_public : All (IsPublic addresses lower) (fetched_of source resolved)
    pub some_tiles : eqb (length resolved.tiles) 0 ≡ false
    pub placeholders : all has_placeholders resolved.tiles ≡ true
    pub zooms : resolved.minzoom ≤ resolved.maxzoom

  -- The parts of the metadata's conditions that the result keeps.
  tiles_of_metadata :
      (metadata : TileMetadata js.Number)
      → metadata_fits js metadata ≡ true
      → (all has_placeholders (get_or metadata.tiles []) ≡ true)
        × (get_or metadata.minzoom 0 ≤ get_or metadata.maxzoom 22)
  unfolding metadata_fits
  tiles_of_metadata metadata h = elim (Option-cases metadata.tiles) [
    | inl missing ↦ (rw missing refl, ground (arith, h))
    | inr (tiles, given) ↦ (ground (arith, h, given), ground (arith, h))
  ]

  some_of_metadata :
      (metadata : TileMetadata js.Number) (tiles : List String)
      → metadata.tiles ≡ some tiles
      → metadata_fits js metadata ≡ true
      → eqb (length tiles) 0 ≡ false
  unfolding metadata_fits
  some_of_metadata metadata tiles e h = ground (arith, e, h)

  -- What went through of the metadata that was read.
  resolved_metadata_kept :
      (is_archive : Bool) (asked : Option String) (metadata : TileMetadata js.Number)
      (resolved : ResolvedTileSource js.Number)
      → resolved_metadata js addresses lower reads is_archive asked metadata ≡ ok resolved
      → ((if is_archive then ok tt else validate_all addresses lower resolved.tiles) ≡ ok tt)
        × (eqb (length resolved.tiles) 0 ≡ false)
        × (all has_placeholders resolved.tiles ≡ true)
        × (resolved.minzoom ≤ resolved.maxzoom)
  unfolding resolved_metadata
  resolved_metadata_kept is_archive asked metadata resolved h =
      let layer = chosen_layer asked (layer_ids metadata.vector_layers) in
      let names = layer_ids metadata.vector_layers in
      let (fine, rest) = fail_if->>-eq-ok (not (metadata_fits js metadata)) _ _ h in
      let (layered, rest') = fail_if->>-eq-ok (layer == "") _ _ rest in
      let (known, rest'') =
        fail_if->>-eq-ok (not (eqb (length names) 0) && not (includes names layer)) _ _ rest' in
      let (tiled, last) = fail_if->>-eq-ok (eqb (length (get_or metadata.tiles [])) 0) _ _ rest'' in
      let (checked, same) =
        >>-ok-eq-ok
          (if is_archive then ok tt else validate_all addresses lower (get_or metadata.tiles []))
          (source_of_metadata js addresses lower reads asked metadata) resolved last in
      let (placed, zooms) = tiles_of_metadata metadata (ground (arith, fine)) in
      subst
        (λ (r : ResolvedTileSource js.Number).
          ((if is_archive then ok tt else validate_all addresses lower r.tiles) ≡ ok tt)
          × (eqb (length r.tiles) 0 ≡ false)
          × (all has_placeholders r.tiles ≡ true)
          × (r.minzoom ≤ r.maxzoom))
        same (checked, tiled, placed, zooms)

  -- Whatever source of tiles an agent names: where the map takes it, the address that is asked for
  -- metadata and every address that is fetched for tiles, but for those of an archive, is a secure
  -- address of a public host without credentials and fragment; there is a tile address, each has
  -- its three placeholders, and the smallest zoom is not above the largest.
  pub resolve_tile_source-IsUsable :
      (source : ExternalTileSource js.Number) (resolved : ResolvedTileSource js.Number)
      → resolve_tile_source js addresses lower reads source ≡ ok resolved
      → IsUsable source resolved
  unfolding resolve_tile_source
  resolve_tile_source-IsUsable (pmtiles url asked) resolved h =
      let (checked, first, rest) = >>=-eq-ok (validate_public_tile_url addresses lower url) _ h in
      let (is_mvt, second, rest') = >>=-eq-ok (reads.archive_is_mvt url) _ rest in
      let (vector, rest'') = fail_if->>-eq-ok (not is_mvt) _ _ rest' in
      let (metadata, third, last) = >>=-eq-ok (reads.archive_metadata url) _ rest'' in
      let (fetched, tiled, placed, zooms) =
        resolved_metadata_kept true asked metadata resolved last in
      record {
        asked_public = (validate_public_tile_url-IsPublic addresses lower url checked first, tt);
        fetched_public = tt;
        some_tiles = tiled;
        placeholders = placed;
        zooms = zooms;
      }
  resolve_tile_source-IsUsable (tilejson url asked) resolved h =
      let (checked, first, rest) = >>=-eq-ok (validate_public_tile_url addresses lower url) _ h in
      let (metadata, third, last) = >>=-eq-ok (reads.tile_json url) _ rest in
      let (fetched, tiled, placed, zooms) =
        resolved_metadata_kept false asked metadata resolved last in
      record {
        asked_public = (validate_public_tile_url-IsPublic addresses lower url checked first, tt);
        fetched_public = validate_all-IsPublic addresses lower resolved.tiles fetched;
        some_tiles = tiled;
        placeholders = placed;
        zooms = zooms;
      }
  resolve_tile_source-IsUsable (vector_tiles tiles layer minzoom maxzoom bounds) resolved h =
      let metadata : TileMetadata js.Number = record {
        tiles = some tiles;
        minzoom = minzoom;
        maxzoom = maxzoom;
        bounds = bounds;
        attribution = none;
        scheme = none;
        vector_layers = none;
      } in
      let (fine, rest) = fail_if->>-eq-ok (not (metadata_fits js metadata)) _ _ h in
      let (checked, rest') = >>-eq-ok (validate_all addresses lower tiles) _ rest in
      let (marked, last) =
        fail_if->>-eq-ok (any (λ url. not (has_placeholders url)) tiles) _ _ rest' in
      let (placed, zooms) = tiles_of_metadata metadata (ground (arith, fine)) in
      let given = some_of_metadata metadata tiles refl (ground (arith, fine)) in
      subst (IsUsable (vector_tiles tiles layer minzoom maxzoom bounds))
        (ok_inj (vector_source tiles layer minzoom maxzoom bounds) resolved last)
        (record {
          asked_public = tt;
          fetched_public = validate_all-IsPublic addresses lower tiles checked;
          some_tiles = given;
          placeholders = placed;
          zooms = zooms;
        })
