-- ===== src/WebTools/Shapes/Numbered.antt =====
-- The references to queryable sources that an agent gets of a file.
use hifld_next.Common.{
  ℕ, ◌+◌, String, true, false, ◌==◌, if◌then◌else◌, List, [], ◌∷◌, ◌++◌, concat, prepend, Option,
  none, some, get_or, Bool-cases, inl, inr, ◌≡◌, refl, ap, ◌∙◌, append_assoc, append-nil, sym,
}
use hifld_next.Dataset.Sources.{DatasetSource, DatasetFormat, SourceType, file, api}
use hifld_next.WebTools.Shapes.{
  QuerySourceRef, CatalogFileShape, Slugs, Numbering, number_source, is_file, reference,
  query_source_of, shape_source, shape_sources, shape_formats, shape_dataset_file_response,
}
use hifld_next.WebTools.Shapes.Cut.{bound_file_shape-IsCutOf}

-- A source that is a file with an asset key, with that key.
abbrev keyed : DatasetSource → SourceType → Option String → Option (DatasetSource × String)
keyed source file (some asset_key) = some (source, asset_key)
keyed source file none = none
keyed source api key = none

abbrev keyed_sources : List DatasetSource → List (DatasetSource × String)
keyed_sources [] = []
keyed_sources (source ∷ sources) =
    prepend (keyed source source.source_type source.asset_key) (keyed_sources sources)

-- The queryable sources of some formats: the files with an asset key in the GeoParquet formats.
abbrev pub queryable : List DatasetFormat → List (DatasetSource × String)
queryable [] = []
queryable (entry ∷ formats) =
    (if entry.format_type == "geoparquet" then keyed_sources entry.sources else [])
    ++ queryable formats

module _ (print : ℕ → String) (location_version : DatasetSource → Option String)
    (slugs : Slugs) where
  -- What refers to queryable sources, with aliases that count on from a number.
  abbrev pub references_from : ℕ → List (DatasetSource × String) → List QuerySourceRef
  references_from i [] = []
  references_from i ((source, asset_key) ∷ sources) =
      record {
        alias = concat ("source_" ∷ print i ∷ []);
        collection_slug = slugs.collection_slug;
        dataset_slug = slugs.dataset_slug;
        file_slug = slugs.file_slug;
        version = get_or source.version "1";
        asset_key = asset_key;
        storage_location_slug = elim source.storage_location [ none ↦ none | some l ↦ l.slug ];
      }
      ∷ references_from (i + 1) sources

  -- The numbering after some queryable sources.
  number_all : List (DatasetSource × String) → Numbering → Numbering
  number_all [] s = s
  number_all ((source, asset_key) ∷ sources) s = number_all sources (
      number_source (reference print location_version slugs s.source_index source (some asset_key))
        s)

  number_all-append :
      (front back : List (DatasetSource × String)) (s : Numbering)
      → number_all (front ++ back) s ≡ number_all back (number_all front s)
  unfolding number_all
  number_all-append [] back s = refl
  number_all-append ((source, asset_key) ∷ front) back s = number_all-append front back _

  number_all-references :
      (sources : List (DatasetSource × String)) (s : Numbering)
      → (number_all sources s).query_sources
        ≡ s.query_sources ++ references_from s.source_index sources
  unfolding number_all
  number_all-references [] s = sym (append-nil s.query_sources)
  number_all-references ((source, asset_key) ∷ sources) s =
      number_all-references sources _ ∙ append_assoc s.query_sources (_ ∷ []) _

  -- A source of a GeoParquet format.
  number_keyed :
      (source : DatasetSource) (source_type : SourceType) (key : Option String)
      (rest : List (DatasetSource × String)) (s : Numbering)
      → number_all rest (
          number_source
            (if is_file source_type
              then reference print location_version slugs s.source_index source key
              else none)
            s)
        ≡ number_all (prepend (keyed source source_type key) rest) s
  unfolding number_all
  number_keyed source file none rest s = refl
  number_keyed source file (some asset_key) rest s = refl
  number_keyed source api key rest s = refl

  shape_geoparquet :
      (format_type : String) (sources : List DatasetSource) (s : Numbering)
      → format_type == "geoparquet" ≡ true
      → (shape_sources print location_version slugs format_type sources s).1
        ≡ number_all (keyed_sources sources) s
  unfolding shape_sources shape_source query_source_of number_all
  shape_geoparquet format_type [] s h = refl
  shape_geoparquet format_type (source ∷ sources) s h =
      shape_geoparquet format_type sources _ h
      ∙ rw h (number_keyed source source.source_type source.asset_key (keyed_sources sources) s)

  shape_other :
      (format_type : String) (sources : List DatasetSource) (s : Numbering)
      → format_type == "geoparquet" ≡ false
      → (shape_sources print location_version slugs format_type sources s).1 ≡ s
  unfolding shape_sources shape_source query_source_of
  shape_other format_type [] s h = refl
  shape_other format_type (source ∷ sources) s h = shape_other format_type sources _ h ∙ rw h refl

  shape_sources-numbered :
      (format_type : String) (sources : List DatasetSource) (s : Numbering)
      → (shape_sources print location_version slugs format_type sources s).1
        ≡ number_all (if format_type == "geoparquet" then keyed_sources sources else []) s
  unfolding number_all
  shape_sources-numbered format_type sources s = elim (Bool-cases (format_type == "geoparquet")) [
    | inl chosen ↦ shape_geoparquet format_type sources s chosen ∙ rw chosen refl
    | inr other ↦ shape_other format_type sources s other ∙ rw other refl
  ]

  shape_formats-numbered :
      (formats : List DatasetFormat) (s : Numbering)
      → (shape_formats print location_version slugs formats s).1 ≡ number_all (queryable formats) s
  unfolding shape_formats number_all
  shape_formats-numbered [] s = refl
  shape_formats-numbered (entry ∷ formats) s =
      shape_formats-numbered formats _
      ∙ ap (number_all (queryable formats))
          (shape_sources-numbered entry.format_type entry.sources s)
      ∙ sym (
          number_all-append
            (if entry.format_type == "geoparquet" then keyed_sources entry.sources else [])
            (queryable formats) s)

  -- However much of a file's shape is cut: the references that an agent gets are to just the files
  -- with an asset key in the GeoParquet formats of the file, each once and in order, with the
  -- source's version, key and storage location; their aliases count on from zero.
  pub shape_dataset_file_response-references :
      {R T : Type 0} (size : CatalogFileShape R T → ℕ) (identities : R) (tags : List (String × T))
      (formats : List DatasetFormat)
      → (shape_dataset_file_response size print location_version slugs identities tags
          formats).query_sources
        ≡ references_from 0 (queryable formats)
  unfolding shape_dataset_file_response
  shape_dataset_file_response-references size identities tags formats =
      let start : Numbering = record { source_index = 0; query_sources = [] } in
      let (shaped, numbered) = shape_formats print location_version slugs formats start in
      let kept =
        bound_file_shape-IsCutOf size
          (record {
            identities = identities;
            tags = tags;
            formats = shaped;
            query_sources = numbered.query_sources;
            truncated = false;
          })
          refl in
      kept.references
      ∙ ap (λ (s : Numbering). s.query_sources) (shape_formats-numbered formats start)
      ∙ number_all-references (queryable formats) start
