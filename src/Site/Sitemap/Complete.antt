-- ===== src/Site/Sitemap/Complete.antt =====
-- The walk over the pages of the repository, against the whole catalog.
use hifld_next.Common.{ℕ, String, List, ◌∷◌, length, ◌≡◌}
use hifld_next.Site.Pages.{page}
use hifld_next.Site.Sitemap.{
  SitemapEntry, CatalogRow, Repository, sitemap_dataset_page_size, make_entry, concat_map,
  dataset_entries, collection_path,
}

-- What the repository's `LIMIT` and `OFFSET` cut out of the datasets of a collection.
abbrev pub Serves : Repository → (String → List CatalogRow) → Type 0
Serves repository rows =
    (slug : String) (limit offset : ℕ)
    → repository.list_datasets slug limit offset
      ≡ record { items = page limit offset (rows slug); total = length (rows slug) }

module _ (encode : String → String) (repository : Repository) where
  abbrev entries_of : String → List CatalogRow → List SitemapEntry
  entries_of slug datasets = concat_map (dataset_entries encode repository slug) datasets

  -- The entry of a collection and those of all its datasets and files.
  abbrev pub collection_entries : (String → List CatalogRow) → CatalogRow → List SitemapEntry
  collection_entries rows collection =
      make_entry (collection_path encode repository collection.slug) collection.updated_at
      ∷ entries_of collection.slug (rows collection.slug)

module _ (encode : String → String) (repository : Repository) (rows : String → List CatalogRow)
    (serves : Serves repository rows) where
  abbrev page_at : String → ℕ → List CatalogRow
  page_at slug offset = page sitemap_dataset_page_size offset (rows slug)
