-- ===== src/Dataset/Descriptors.antt =====
-- webapp/src/components/map/sourceDescriptors.ts: the text of a descriptor in a link, and the source
-- that it stands for.
pub mod RoundTrip
pub mod Search
use Prim.Native.Char.{Char, code}
use Prim.Native.String
use Prim.Native.String.{[], ◌∷◌}
use hifld_next.Common.{
  ℕ, String, Bool, true, false, not, ◌||◌, ◌&&◌, ◌==◌, eqb, if◌then◌else◌, List, [], ◌∷◌, ◌++◌, map,
  find, filter_map, join, Option, none, some, get_or,
}
use hifld_next.Js.{Js}
use hifld_next.Js.Paths.{split}
use hifld_next.Js.Sort.{sort}
use hifld_next.Layers.{SourceDescriptor}
use hifld_next.Dataset.Sources.{
  DatasetSource, DatasetFormat, StorageLocation, version_of, location_field, is_after,
}

-- `JSON.stringify`, `JSON.parse` with the schema, and the two functions on URI components; none is
-- where they throw or the schema refuses the value.
pub record Codec : Type 0 where
  pub stringify : SourceDescriptor → String
  pub parse : String → Option SourceDescriptor
  pub encode_component : String → String
  pub decode_component : String → Option String

abbrev then_parse : Codec → Option String → Option SourceDescriptor
then_parse codec none = none
then_parse codec (some text) = codec.parse text

unfoldable pub encode_source_descriptor : Codec → SourceDescriptor → String
encode_source_descriptor codec descriptor = codec.encode_component (codec.stringify descriptor)

unfoldable pub decode_source_descriptor : Codec → Option String → Option SourceDescriptor
decode_source_descriptor codec none = none
decode_source_descriptor codec (some value) =
    if value == "" then none else then_parse codec (codec.decode_component value)

unfoldable pub encode_source_descriptor_list : Codec → List SourceDescriptor → Option String
encode_source_descriptor_list codec [] = none
encode_source_descriptor_list codec (d ∷ ds) =
    some (join "|" (map (encode_source_descriptor codec) (d ∷ ds)))

unfoldable pub decode_source_descriptor_list : Codec → Option String → List SourceDescriptor
decode_source_descriptor_list codec none = []
decode_source_descriptor_list codec (some value) =
    if value == ""
    then []
    else filter_map (λ entry. decode_source_descriptor codec (some entry)) (split b'|' value)

-- `a === b`, of a text that may be missing
unfoldable pub same_text : Option String → Option String → Bool
same_text none none = true
same_text (some a) (some b) = a == b
same_text _ _ = false

abbrev pub matches_slug : Option String → DatasetSource → Bool
matches_slug none source = true
matches_slug (some slug) source = same_text (location_field (λ l. l.slug) source) (some slug)

unfoldable pub source_matches_descriptor : DatasetSource → SourceDescriptor → Bool
unfolding same_text
source_matches_descriptor source descriptor =
    same_text source.asset_key (some descriptor.asset_key)
    && matches_slug descriptor.storage_location_slug source
    && version_of source == descriptor.version

abbrev pub all_sources : List DatasetFormat → List DatasetSource
all_sources [] = []
all_sources (f ∷ fs) = f.sources ++ all_sources fs

-- By the formats of the file, which may be missing.
unfoldable pub find_source_for_descriptor :
    Option (List DatasetFormat) → SourceDescriptor → Option DatasetSource
find_source_for_descriptor formats descriptor =
    find (λ source. source_matches_descriptor source descriptor) (all_sources (get_or formats []))

unfoldable pub find_pmtiles_source_for_catalog_source :
    Option (List DatasetFormat) → DatasetSource → Option DatasetSource
unfolding same_text
find_pmtiles_source_for_catalog_source formats requested =
    elim (find (λ (f : DatasetFormat). f.format_type == "pmtiles") (get_or formats [])) [
      | none ↦ none
      | some pmtiles ↦
          find
            (λ (source : DatasetSource).
              same_text (location_field (λ l. l.slug) source)
                (location_field (λ l. l.slug) requested)
              && same_text source.version requested.version)
            pmtiles.sources
    ]

-- The places that a descriptor names besides its source.
pub record FilePlace : Type 0 where
  pub collection_slug : String
  pub dataset_slug : String
  pub file_slug : String

unfoldable pub descriptor_for_source : FilePlace → DatasetSource → Option SourceDescriptor
descriptor_for_source place source = elim source.asset_key [
  | none ↦ none
  | some asset_key ↦
      if asset_key == ""
      then none
      else some (record {
        collection_slug = place.collection_slug;
        dataset_slug = place.dataset_slug;
        file_slug = place.file_slug;
        version = version_of source;
        asset_key = asset_key;
        storage_location_slug = location_field (λ l. l.slug) source;
      })
]

abbrev describe_first : FilePlace → List DatasetSource → Option SourceDescriptor
describe_first place [] = none
describe_first place (source ∷ sources) = descriptor_for_source place source

-- The source of the newest version.
unfoldable pub first_source_descriptor_for_format :
    Js → FilePlace → Option DatasetFormat → Option SourceDescriptor
first_source_descriptor_for_format js place none = none
first_source_descriptor_for_format js place (some format_entry) =
    describe_first place (
      sort (λ (l r : DatasetSource). is_after js (version_of l) (version_of r))
        format_entry.sources)
