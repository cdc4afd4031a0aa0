-- ===== src/Site/Stac/Cursors.antt =====
-- A client that follows the cursors of the pages.
use hifld_next.Common.{
  ℕ, zero, suc, String, Bool, true, false, ◌==◌, eq_refl, ltb, List, [], ◌∷◌, ◌++◌, find, map,
  concat, length, take, All, Option, none, some, Result, ok, fail, ◌≡◌, refl, ap, ◌∙◌,
}
use hifld_next.Site.Stac.{
  StacDocument, StacLink, api_link, Cursor, CatalogStacVersion, page_size, last_path, selected,
  next_after, encode_stac_cursor, decode_stac_cursor, is_token, relinked, collection_replaced,
  collection_links, listing_url, next_link, page_collection, page_collections,
  build_stac_collection, build_stac_collections_page,
}
use hifld_next.Site.Stac.Serve.{
  StacSnapshot, StacAnswer, stac_page, problem, answer_after, serve_stac_collections,
}
use hifld_next.Site.Stac.Index.{behind, Ascending, IsOrder, take-take, length-take, All-take}

-- A client of the site: `cursor_of` is the parameter `cursor` of an address, if it has one.
module _ {C : Type 0} (encode : String → String) (load : String → String → Result (StacDocument C))
    (to_token : Cursor → String) (from_token : String → Option Cursor)
    (with_params : String → List (String × String) → String) (cursor_of : String → Option String)
    (snapshot : StacSnapshot) (origin : String) where
  abbrev Pages : Type 0
  Pages = Option (Result (List (StacDocument C)))

  abbrev with_page : List (StacDocument C) → Pages → Pages
  with_page documents none = none
  with_page documents (some (fail title)) = some (fail title)
  with_page documents (some (ok more)) = some (ok (documents ++ more))

  abbrev after_page : List (StacDocument C) → Option StacLink → (Option String → Pages) → Pages
  after_page documents none follow = some (ok documents)
  after_page documents (some link) follow = with_page documents (follow (cursor_of link.href))

  abbrev took : StacAnswer C → (Option String → Pages) → Pages
  took (problem status title) follow = some (fail title)
  took (stac_page (documents, links) generation) follow =
      after_page documents (find (λ (l : StacLink). l.rel == "next") links) follow

  -- The collections of the pages that the site serves from a request on: the client requests the
  -- address of each page's link to the next one; none where the fuel runs out, and a problem ends it.
  pub follow_cursors : ℕ → Option String → Pages
  follow_cursors zero cursor = none
  follow_cursors (suc fuel) cursor =
      took
        (serve_stac_collections encode load to_token from_token with_params (some (some snapshot))
          origin cursor)
        (follow_cursors fuel)

-- What the pages rest on: the index returns the versions behind a path, in ascending order and with
-- paths that are not empty; cursors come back as they were sent, in tokens that pass and in the
-- parameter of an address; and each version's document is fetched and is the version's collection.
pub record IsIndex {C : Type 0} (before : String → String → Bool) (rows : List CatalogStacVersion)
    (published : CatalogStacVersion → StacDocument C)
    (load : String → String → Result (StacDocument C)) (to_token : Cursor → String)
    (from_token : String → Option Cursor) (with_params : String → List (String × String) → String)
    (cursor_of : String → Option String) (snapshot : StacSnapshot) (catalog_url : String)
    : Type 0 where
  pub order : IsOrder before
  pub ascending : Ascending before rows
  pub named : All (λ (row : CatalogStacVersion). row.version_path == "" ≡ false) rows
  pub catalog : snapshot.catalog_url ≡ some catalog_url
  pub serves :
      (after : Option String) (limit : ℕ)
      → snapshot.list_stac_versions after limit ≡ ok (take limit (behind before after rows))
  pub generation_named : snapshot.generation == "" ≡ false
  pub codec :
      All
        (λ (row : CatalogStacVersion).
          let cursor : Cursor = record {
            generation = snapshot.generation;
            after = row.version_path;
          } in
          (from_token (to_token cursor) ≡ some cursor) × (is_token (to_token cursor) ≡ true))
        rows
  pub query :
      (url token : String) → cursor_of (with_params url (("cursor", token) ∷ [])) ≡ some token
  pub loads :
      All
        (λ (row : CatalogStacVersion).
          (load catalog_url row.collection_href ≡ ok (published row))
          × ((published row).doc_type ≡ "Collection")
          × ((published row).id ≡ row.version_path))
        rows

module _ {C : Type 0} {before : String → String → Bool} {rows : List CatalogStacVersion}
    {published : CatalogStacVersion → StacDocument C}
    {load : String → String → Result (StacDocument C)} {to_token : Cursor → String}
    {from_token : String → Option Cursor} {with_params : String → List (String × String) → String}
    {cursor_of : String → Option String} {snapshot : StacSnapshot} {catalog_url : String}
    (encode : String → String) (origin : String)
    (index : IsIndex before rows published load to_token from_token with_params cursor_of snapshot
      catalog_url) where
  -- A published collection with the site's links.
  abbrev pub served : CatalogStacVersion → StacDocument C
  served row = record (published row) {
    links =
        relinked collection_replaced (collection_links encode origin (published row).id)
          (published row).links;
  }

  abbrev cursor_at : String → Cursor
  cursor_at path = record { generation = snapshot.generation; after = path }

  encoded :
      (path : String)
      → path == "" ≡ false
      → encode_stac_cursor to_token (cursor_at path) ≡ ok (to_token (cursor_at path))
  unfolding encode_stac_cursor
  encoded path h = rw (index.generation_named, h) refl

  -- The address of a page, with the token of its cursor.
  abbrev address : String → String
  address path =
      with_params (concat (origin ∷ "/stac/collections" ∷ []))
        (("cursor", to_token (cursor_at path)) ∷ [])

  listing_at :
      (path : String)
      → path == "" ≡ false
      → listing_url to_token with_params origin snapshot.generation (some path) ≡ ok (address path)
  unfolding listing_url
  listing_at path h = rw (encoded path h) refl

  abbrev Loads : CatalogStacVersion → Type 0
  Loads row =
      (load catalog_url row.collection_href ≡ ok (published row))
      × ((published row).doc_type ≡ "Collection")
      × ((published row).id ≡ row.version_path)

  page_collection-served :
      (row : CatalogStacVersion)
      → Loads row
      → page_collection encode (load catalog_url) to_token with_params origin row ≡ ok (served row)
  unfolding page_collection build_stac_collection
  page_collection-served row (loaded, kind, name) =
      rw (loaded, kind, name, eq_refl row.version_path) refl

  page_collections-served :
      (given : List CatalogStacVersion)
      → All Loads given
      → page_collections encode (load catalog_url) to_token with_params origin given
        ≡ ok (map served given)
  unfolding page_collections
  page_collections-served [] h = refl
  page_collections-served (row ∷ given) (h, hs) =
      rw (page_collection-served row h, page_collections-served given hs) refl

  abbrev follow : ℕ → Option String → Option (Result (List (StacDocument C)))
  follow = follow_cursors encode load to_token from_token with_params cursor_of snapshot origin

  abbrev links_of : String → List StacLink → List StacLink
  links_of self next =
      api_link "self" self ∷ api_link "root" (concat (origin ∷ "/stac" ∷ [])) ∷ next

  -- A page, from its cursor, its own address and its next link.
  serve_at :
      (cursor after : Option String) (self : String) (next : List StacLink)
      → let entries = take 51 (behind before after rows) in
        decode_stac_cursor from_token cursor snapshot.generation ≡ ok after
        → listing_url to_token with_params origin snapshot.generation after ≡ ok self
        → next_link encode
            (load catalog_url)
            to_token
            with_params
            origin
            snapshot.generation
            (next_after entries)
          ≡ ok next
        → All Loads (selected entries)
        → serve_stac_collections encode load to_token from_token with_params
            (some (some snapshot))
            origin
            cursor
          ≡ stac_page (map served (selected entries), links_of self next) snapshot.generation
  unfolding serve_stac_collections answer_after build_stac_collections_page
  serve_at cursor after self next d u n h =
      let entries = take 51 (behind before after rows) in
      rw
        (
          index.catalog,
          d,
          index.serves after 51,
          page_collections-served (selected entries) h,
          u,
          n,
        )
        refl

  full_page :
      (todo : List CatalogStacVersion) (path : String)
      → ltb page_size (length todo) ≡ true
      → last_path (take 50 todo) ≡ some path
      → (selected (take 51 todo) ≡ take 50 todo) × (next_after (take 51 todo) ≡ some path)
  unfolding selected next_after
  full_page todo path h e = (take-take 50 todo, rw (length-take 50 todo, h, take-take 50 todo) e)

  follow_next :
      (fuel : ℕ) (cursor after : Option String) (self path : String)
      (todo : List CatalogStacVersion)
      → decode_stac_cursor from_token cursor snapshot.generation ≡ ok after
      → listing_url to_token with_params origin snapshot.generation after ≡ ok self
      → behind before after rows ≡ todo
      → All Loads todo
      → ltb page_size (length todo) ≡ true
      → last_path (take 50 todo) ≡ some path
      → path == "" ≡ false
      → follow (suc fuel) cursor
        ≡ with_page encode load to_token from_token with_params cursor_of snapshot origin
            (map served (take 50 todo))
            (follow fuel (some (to_token (cursor_at path))))
  unfolding follow_cursors api_link
  follow_next fuel cursor after self path todo d u b h more e named =
      let (here, next) = full_page todo path more e in
      ap
        (λ a.
          took encode load to_token from_token with_params cursor_of snapshot origin a
            (follow fuel))
        (serve_at cursor after self (api_link "next" (address path) ∷ []) d u
          (rw (b, next, listing_at path named) refl) (rw (b, here) (All-take Loads 50 todo h)))
      ∙ rw
          (
            b,
            here,
            index.query (concat (origin ∷ "/stac/collections" ∷ [])) (to_token (cursor_at path)),
          )
          refl
