-- ===== src/Site/Sitemap.antt =====
-- webapp/src/lib/sitemap.ts: the pages of the site, for a crawler.
pub mod Complete
use Prim.Native.Char.{code}
use Prim.Native.String
use Prim.Native.String.{[], ◌∷◌}
use hifld_next.Common.{
  ℕ, zero, suc, ◌+◌, String, Bool, true, false, ◌&&◌, ◌||◌, ◌==◌, eqb, leb, if◌then◌else◌, List, [],
  ◌∷◌, ◌++◌, map, length, join, concat, Option, none, some,
}
use hifld_next.Js.Patterns.{is_digit, text_take}
use hifld_next.Site.Xml.{escape_xml}

abbrev pub sitemap_dataset_page_size : ℕ
sitemap_dataset_page_size = 500

abbrev pub static_sitemap_paths : List String
static_sitemap_paths =
    "/" ∷ "/collections" ∷ "/about" ∷ "/commons" ∷ "/api" ∷ "/api/openapi" ∷ "/llms.txt"
    ∷ "/.well-known/api-catalog" ∷ "/.well-known/agent-skills/index.json"
    ∷ "/.well-known/mcp/server-card.json" ∷ "/.well-known/ai-catalog.json" ∷ []

pub record SitemapEntry : Type 0 where
  pub path : String
  pub lastmod : Option String

-- A row of the catalog: a slug and, where it is known, when it was last written.
pub record CatalogRow : Type 0 where
  pub slug : String
  pub updated_at : Option String

-- `CatalogPage`
pub record CatalogPage : Type 0 where
  pub items : List CatalogRow
  pub total : ℕ

-- `CatalogRepository`, by what the sitemap asks of it.
pub record Repository : Type 0 where
  pub list_collections : List CatalogRow
  -- The page of a collection's datasets by limit and offset.
  pub list_datasets : String → ℕ → ℕ → CatalogPage
  pub list_files : String → String → List CatalogRow

-- `/^(\d{4})-(\d{2})-(\d{2})/` on the text, where it matches: true is a digit, false a dash.
unfoldable pub matches_shape : List Bool → String → Bool
unfolding is_digit
matches_shape [] s = true
matches_shape (digit ∷ shape) [] = false
matches_shape (digit ∷ shape) (c ∷ s) =
    (if digit then is_digit (code c) else eqb (code c) b'-') && matches_shape shape s

abbrev date_shape : List Bool
date_shape = true ∷ true ∷ true ∷ true ∷ false ∷ true ∷ true ∷ false ∷ true ∷ true ∷ []

unfoldable pub to_lastmod : Option String → Option String
unfolding matches_shape text_take
to_lastmod none = none
to_lastmod (some value) = if matches_shape date_shape value then some (text_take 10 value) else none

unfoldable pub make_entry : String → Option String → SitemapEntry
unfolding to_lastmod
make_entry path updated_at = record { path = path; lastmod = to_lastmod updated_at }

-- `absolute` is `new URL(path, origin).href`.
module _ (absolute : String → String → String) where
  abbrev lastmod_tag : Option String → String
  lastmod_tag none = ""
  lastmod_tag (some lastmod) = concat ("\n    <lastmod>" ∷ escape_xml lastmod ∷ "</lastmod>" ∷ [])

  unfoldable pub url_element : String → SitemapEntry → String
  unfolding escape_xml
  url_element origin entry = concat (
      "  <url>\n    <loc>"
      ∷ escape_xml (absolute origin entry.path)
      ∷ "</loc>"
      ∷ lastmod_tag entry.lastmod
      ∷ "\n    <changefreq>weekly</changefreq>\n  </url>"
      ∷ [])

  unfoldable pub build_sitemap_xml_from_entries : String → List SitemapEntry → String
  unfolding url_element
  build_sitemap_xml_from_entries origin entries = concat (
      "<?xml version=\"1.0\" encoding=\"UTF-8\"?>\n<urlset xmlns=\"http://www.sitemaps.org/schemas/sitemap/0.9\">\n"
      ∷ join "\n" (map (url_element origin) entries)
      ∷ "\n</urlset>\n"
      ∷ [])

abbrev or_else : Option String → Option String → Option String
or_else none other = other
or_else (some s) other = some s

abbrev pub concat_map : {A B : Type 0} → (A → List B) → List A → List B
concat_map f [] = []
concat_map f (x ∷ xs) = f x ++ concat_map f xs

abbrev pub before : List SitemapEntry → Option (List SitemapEntry) → Option (List SitemapEntry)
before entries none = none
before entries (some rest) = some (entries ++ rest)

-- The entry of a collection, those of its datasets, and the others.
abbrev with_datasets :
    SitemapEntry
    → Option (List SitemapEntry)
    → Option (List SitemapEntry)
    → Option (List SitemapEntry)
with_datasets entry none rest = none
with_datasets entry (some entries) rest = before (entry ∷ entries) rest

-- `encode` is `encodeURIComponent`.
module _ (encode : String → String) (repository : Repository) where
  abbrev pub collection_path : String → String
  collection_path collection_slug = concat ("/collections/" ∷ encode collection_slug ∷ [])

  -- The entries of a dataset and its files.
  unfoldable pub dataset_entries : String → CatalogRow → List SitemapEntry
  unfolding make_entry
  dataset_entries collection_slug dataset =
      let dataset_path =
        concat (collection_path collection_slug ∷ "/datasets/" ∷ encode dataset.slug ∷ []) in
      make_entry dataset_path dataset.updated_at
      ∷ map
          (λ (file : CatalogRow).
            make_entry (concat (dataset_path ∷ "/files/" ∷ encode file.slug ∷ []))
              (or_else file.updated_at dataset.updated_at))
          (repository.list_files collection_slug dataset.slug)

  -- The loop of `collectionSitemapEntries` from an offset on; none where the fuel runs out.
  unfoldable pub collection_entries_from : ℕ → String → ℕ → Option (List SitemapEntry)
  unfolding dataset_entries
  collection_entries_from zero collection_slug offset = none
  collection_entries_from (suc fuel) collection_slug offset =
      let page = repository.list_datasets collection_slug sitemap_dataset_page_size offset in
      let entries = concat_map (dataset_entries collection_slug) page.items in
      let next = offset + length page.items in
      let rest = collection_entries_from fuel collection_slug next in
      if eqb (length page.items) 0 || leb page.total next then some entries else before entries rest

  -- The loop of `buildCatalogSitemapXml` over the collections.
  unfoldable pub collections_entries : ℕ → List CatalogRow → Option (List SitemapEntry)
  unfolding collection_entries_from make_entry
  collections_entries fuel [] = some []
  collections_entries fuel (collection ∷ collections) =
      with_datasets (make_entry (collection_path collection.slug) collection.updated_at)
        (collection_entries_from fuel collection.slug 0) (collections_entries fuel collections)

  unfoldable pub catalog_sitemap_entries : ℕ → Option (List SitemapEntry)
  unfolding collections_entries
  catalog_sitemap_entries fuel =
      before (map (λ path. record { path = path; lastmod = none }) static_sitemap_paths)
        (collections_entries fuel repository.list_collections)
