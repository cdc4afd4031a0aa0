-- ===== src/Tests/TileRuns.antt =====
-- A source of vector tiles that an agent names.
use Prim.Native.String.{◌∷◌}
use hifld_next.Common.{String, false, ◌==◌, if◌then◌else◌, [], ◌∷◌, none, some, ok, fail, ◌≡◌, refl}
use hifld_next.Js.Patterns.{has_part, is_prefix, is_suffix, text_drop, text_length}
use hifld_next.McpApp.Tiles.{
  Url, Addresses, ExternalTileSource, vector_tiles, ResolvedTileSource, TileReads, vector_source,
  host_of, drop_last, is_public_host, validate_public_tile_url, validate_all, metadata_fits,
  resolve_tile_source,
}
use hifld_next.McpApp.Tiles.Usable.{IsUsable, resolve_tile_source-IsUsable}
use hifld_next.Tests.Engine.{Thousandths, engine}

abbrev address : String
address = "https://t.io/{z}/{x}/{y}"

abbrev parsed : Url
parsed = record { protocol = "https:"; username = ""; password = ""; hostname = "t.io"; hash = "" }

abbrev addresses : Addresses
addresses = record {
  new_url = λ text. if text == address then some parsed else none;
  is_ip = λ host. false;
  range = λ host. "unicast";
}

abbrev reads : TileReads Thousandths
reads = record {
  archive_is_mvt = λ url. fail "offline";
  archive_metadata = λ url. fail "offline";
  tile_json = λ url. fail "offline";
}

abbrev source : ExternalTileSource Thousandths
source = vector_tiles (address ∷ []) "roads" none (some 14) none

abbrev resolved : ResolvedTileSource Thousandths
resolved = vector_source (address ∷ []) "roads" none (some 14) none

taken : resolve_tile_source engine addresses (λ s. s) reads source ≡ ok resolved
unfolding resolve_tile_source validate_all validate_public_tile_url is_public_host host_of drop_last
    metadata_fits has_part is_prefix is_suffix text_drop text_length
taken = refl

resolve_tile_source-IsUsable_example : IsUsable engine addresses (λ s. s) reads source resolved
resolve_tile_source-IsUsable_example =
    resolve_tile_source-IsUsable engine addresses (λ s. s) reads source resolved taken
