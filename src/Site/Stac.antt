-- ===== src/Site/Stac.antt =====
-- webapp/src/lib/stac-api.ts: the published documents with the links of the site, and the pages of
-- the collections with their cursors.
pub mod Links
pub mod Index
pub mod Cursors
pub mod Serve
use Prim.Native.Char.{code}
use Prim.Native.String
use Prim.Native.String.{[], ◌∷◌}
use hifld_next.Common.{
  ℕ, zero, suc, String, Bool, true, false, not, ◌||◌, ◌&&◌, ◌==◌, eqb, leb, ltb, if◌then◌else◌,
  List, [], ◌∷◌, ◌++◌, filter, includes, length, take, concat, Option, none, some, Result, ok, fail,
  fail_if, ◌>>=◌, ◌>>◌,
}
use hifld_next.Js.Patterns.{text_length}

pub record StacLink : Type 0 where
  pub rel : String
  pub href : String
  pub media_type : Option String

-- A document by what the code reads of it; `content` stands for the rest.
pub record StacDocument (C : Type 0) : Type 0 where
  pub doc_type : String
  pub id : String
  pub links : List StacLink
  pub content : C

unfoldable pub api_link : String → String → StacLink
api_link rel href = record { rel = rel; href = href; media_type = some "application/json" }

-- `encode` is `encodeURIComponent`.
module _ (encode : String → String) where
  unfoldable pub stac_collection_url : String → String → String
  stac_collection_url origin id = concat (origin ∷ "/stac/collections/" ∷ encode id ∷ [])

abbrev pub landing_replaced : List String
landing_replaced =
    "self" ∷ "root" ∷ "data" ∷ "service-desc" ∷ "service-doc" ∷ "search" ∷ "child" ∷ []

abbrev pub collection_replaced : List String
collection_replaced = "self" ∷ "root" ∷ "parent" ∷ "items" ∷ []

-- The site's own links of the two kinds of document.
unfoldable pub landing_links : String → List StacLink
unfolding api_link
landing_links origin =
    api_link "self" (concat (origin ∷ "/stac" ∷ []))
    ∷ api_link "root" (concat (origin ∷ "/stac" ∷ []))
    ∷ api_link "data" (concat (origin ∷ "/stac/collections" ∷ []))
    ∷ record {
      rel = "service-desc";
      href = concat (origin ∷ "/stac/api" ∷ []);
      media_type = some "application/vnd.oai.openapi+json;version=3.1";
    }
    ∷ []

unfoldable pub collection_links : (String → String) → String → String → List StacLink
unfolding api_link stac_collection_url
collection_links encode origin id =
    api_link "self" (stac_collection_url encode origin id)
    ∷ api_link "root" (concat (origin ∷ "/stac" ∷ []))
    ∷ api_link "parent" (concat (origin ∷ "/stac" ∷ []))
    ∷ []

-- `[...own, ...published.filter((link) => !replaced.has(link.rel))]`
unfoldable pub relinked : List String → List StacLink → List StacLink → List StacLink
relinked replaced own published = own ++ filter (λ link. not (includes replaced link.rel)) published

-- `conformsTo`, which a landing page also has, is a constant.
unfoldable pub build_stac_landing : {C : Type 0} → StacDocument C → String → Result (StacDocument C)
unfolding relinked landing_links
build_stac_landing published_root origin = do
  fail_if (not (published_root.doc_type == "Catalog")) "Published STAC root must be a Catalog"
  ok (record published_root {
    links = relinked landing_replaced (landing_links origin) published_root.links;
  })

module _ (encode : String → String) where
  unfoldable pub build_stac_collection :
      {C : Type 0} → StacDocument C → String → Result (StacDocument C)
  unfolding relinked collection_links
  build_stac_collection published origin = do
    fail_if (not (published.doc_type == "Collection"))
        "Published STAC document must be a Collection"
    ok (record published {
      links =
          relinked collection_replaced (collection_links encode origin published.id)
            published.links;
    })

pub record Cursor : Type 0 where
  pub generation : String
  pub after : String

-- `[A-Za-z0-9_-]`
unfoldable pub is_token_code : ℕ → Bool
is_token_code c =
    (leb b'A' c && leb c b'Z')
    || (leb b'a' c && leb c b'z')
    || (leb b'0' c && leb c b'9')
    || eqb c b'_'
    || eqb c b'-'

abbrev all_token_codes : String → Bool
all_token_codes [] = true
all_token_codes (c ∷ s) = is_token_code (code c) && all_token_codes s

-- `/^[A-Za-z0-9_-]{1,2048}$/`
unfoldable pub is_token : String → Bool
unfolding is_token_code text_length
is_token token = leb 1 (text_length token) && leb (text_length token) 2048 && all_token_codes token

abbrev pub invalid_cursor : String
invalid_cursor = "Invalid STAC cursor"

abbrev pub stale_cursor : String
stale_cursor = "STAC cursor is stale"

-- `to_token` is the JSON text of a cursor in base64url, `from_token` the way back with the schema,
-- none where one of its steps throws.
module _ (to_token : Cursor → String) where
  -- The schema refuses empty texts.
  unfoldable pub encode_stac_cursor : Cursor → Result String
  encode_stac_cursor cursor = do
    fail_if (cursor.generation == "" || cursor.after == "") invalid_cursor
    ok (to_token cursor)

module _ (from_token : String → Option Cursor) where
  abbrev fresh : String → Option Cursor → Result (Option String)
  fresh generation none = fail invalid_cursor
  fresh generation (some cursor) =
      if cursor.generation == generation then ok (some cursor.after) else fail stale_cursor

  unfoldable pub decode_stac_cursor : Option String → String → Result (Option String)
  unfolding is_token
  decode_stac_cursor none generation = ok none
  decode_stac_cursor (some token) generation = do
    fail_if (not (is_token token)) invalid_cursor
    fresh generation (from_token token)

abbrev pub page_size : ℕ
page_size = 50

-- `CatalogStacVersion`
pub record CatalogStacVersion : Type 0 where
  pub version_path : String
  pub collection_href : String

-- `selected.at(-1)`
abbrev pub last_path : List CatalogStacVersion → Option String
last_path [] = none
last_path (entry ∷ []) = some entry.version_path
last_path (entry ∷ next ∷ entries) = last_path (next ∷ entries)

unfoldable pub selected : List CatalogStacVersion → List CatalogStacVersion
selected entries = take page_size entries

-- Where the next page starts, if there is one.
unfoldable pub next_after : List CatalogStacVersion → Option String
unfolding selected
next_after entries = if ltb page_size (length entries) then last_path (selected entries) else none

-- `with_params` is a URL with its search parameters set.
module _ (to_token : Cursor → String) (with_params : String → List (String × String) → String) where
  unfoldable pub listing_url : String → String → Option String → Result String
  unfolding encode_stac_cursor
  listing_url origin generation none =
      ok (with_params (concat (origin ∷ "/stac/collections" ∷ [])) [])
  listing_url origin generation (some after) = do
    token ← encode_stac_cursor to_token (record { generation = generation; after = after })
    ok (with_params (concat (origin ∷ "/stac/collections" ∷ [])) (("cursor", token) ∷ []))

-- `load` is the fetch of a document with its status and schema.
module _ {C : Type 0} (encode : String → String) (load : String → Result (StacDocument C))
    (to_token : Cursor → String) (with_params : String → List (String × String) → String) where
  unfoldable pub page_collection : String → CatalogStacVersion → Result (StacDocument C)
  unfolding build_stac_collection
  page_collection origin entry = do
    document ← load entry.collection_href
    fail_if (not (document.doc_type == "Collection") || not (document.id == entry.version_path))
        (concat ("Published STAC Collection does not match " ∷ entry.version_path ∷ []))
    build_stac_collection encode document origin

  -- The batches in their order; of the errors of a batch the first entry's is taken.
  unfoldable pub page_collections :
      String → List CatalogStacVersion → Result (List (StacDocument C))
  unfolding page_collection
  page_collections origin [] = ok []
  page_collections origin (entry ∷ entries) = do
    document ← page_collection origin entry
    documents ← page_collections origin entries
    ok (document ∷ documents)

  abbrev pub next_link : String → String → Option String → Result (List StacLink)
  next_link origin generation none = ok []
  next_link origin generation (some after) = do
    href ← listing_url to_token with_params origin generation (some after)
    ok (api_link "next" href ∷ [])

  unfoldable pub build_stac_collections_page :
      List CatalogStacVersion
      → String
      → String
      → Option String
      → Result (List (StacDocument C) × List StacLink)
  unfolding page_collections selected next_after listing_url api_link
  build_stac_collections_page entries origin generation after = do
    collections ← page_collections origin (selected entries)
    self ← listing_url to_token with_params origin generation after
    more ← next_link origin generation (next_after entries)
    ok (collections, api_link "self" self ∷ api_link "root" (concat (origin ∷ "/stac" ∷ [])) ∷ more)
