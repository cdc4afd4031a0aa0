-- ===== src/Tests/CursorRuns.antt =====
-- An index of sixty versions, which are two pages, and the cursors between them.
use Prim.Native.String
use hifld_next.Common.{
  ℕ, zero, suc, String, Bool, true, false, not, ◌&&◌, ◌==◌, ltb, List, [], ◌∷◌, all, take, map,
  get_or, Result, All, Option, none, some, ok, ◌≡◌, refl, arith,
}
use hifld_next.Js.Patterns.{text_length}
use hifld_next.Site.Stac.{
  StacDocument, StacLink, Cursor, CatalogStacVersion, is_token, is_token_code, last_path,
  page_collections, page_collection, build_stac_collection, build_stac_collections_page, relinked,
  collection_links, stac_collection_url, selected, next_after, listing_url, encode_stac_cursor,
  decode_stac_cursor, api_link,
}
use hifld_next.Site.Stac.Serve.{
  StacSnapshot, stac_page, problem, answer_after, serve_stac_collections,
  serve_stac_collections-stale,
}
use hifld_next.Site.Stac.Index.{IsOrder, Ascending, behind}
use hifld_next.Site.Stac.Cursors.{IsIndex, served}

-- The paths are ever longer, and ordered by their length.
abbrev rows_from : ℕ → String → List CatalogStacVersion
rows_from zero path = []
rows_from (suc n) path =
    record { version_path = path; collection_href = path } ∷ rows_from n (String.◌++◌ "a" path)

abbrev rows : List CatalogStacVersion
rows = rows_from 60 "a"

abbrev before : String → String → Bool
before a b = ltb (text_length a) (text_length b)

before-IsOrder : IsOrder before
before-IsOrder = record { irrefl = λ a. ground arith; asym = λ a b h. ground arith }

All-of_all : {A : Type 0} (p : A → Bool) (xs : List A) → all p xs ≡ true → All (λ x. p x ≡ true) xs
All-of_all p [] h = tt
All-of_all p (x ∷ xs) h = (ground arith, All-of_all p xs (ground arith))

abbrev ascends : List CatalogStacVersion → Bool
ascends [] = true
ascends (row ∷ later) =
    all (λ (r : CatalogStacVersion). before row.version_path r.version_path) later && ascends later

Ascending-of_ascends :
    (given : List CatalogStacVersion) → ascends given ≡ true → Ascending before given
Ascending-of_ascends [] h = tt
Ascending-of_ascends (row ∷ later) h = (
  All-of_all (λ r. before row.version_path r.version_path) later (ground arith),
  Ascending-of_ascends later (ground arith),
)

-- A token is the path, and a generation is "g".
abbrev to_token : Cursor → String
to_token cursor = cursor.after

abbrev from_token : String → Option Cursor
from_token token = some (record { generation = "g"; after = token })

abbrev snapshot : StacSnapshot
snapshot = record {
  catalog_url = some "https://c";
  generation = "g";
  list_stac_versions = λ after limit. ok (take limit (behind before after rows));
}

abbrev document : String → StacDocument String
document id = record { doc_type = "Collection"; id = id; links = []; content = "c" }

abbrev published : CatalogStacVersion → StacDocument String
published row = document row.version_path

abbrev load : String → String → Result (StacDocument String)
load catalog_url href = ok (document href)

-- The address of a page is the token of its cursor.
abbrev with_params : String → List (String × String) → String
with_params url [] = url
with_params url ((key, value) ∷ params) = value

abbrev encode : String → String
encode id = id

rows_from-loads :
    (n : ℕ) (path : String)
    → All
        (λ (row : CatalogStacVersion).
          (load "https://c" row.collection_href ≡ ok (published row))
          × ((published row).doc_type ≡ "Collection")
          × ((published row).id ≡ row.version_path))
        (rows_from n path)
rows_from-loads zero path = tt
rows_from-loads (suc n) path = ((refl, refl, refl), rows_from-loads n (String.◌++◌ "a" path))

All-map :
    {A : Type 0} {P Q : A → Type 0} (xs : List A) → ((x : A) → P x → Q x) → All P xs → All Q xs
All-map [] f h = tt
All-map (x ∷ xs) f (p, h) = (f x p, All-map xs f h)

named_test : all (λ (r : CatalogStacVersion). not (r.version_path == "")) rows ≡ true
named_test = refl

token_test : all (λ (r : CatalogStacVersion). is_token r.version_path) rows ≡ true
unfolding is_token is_token_code text_length
token_test = refl

ascends_test : ascends rows ≡ true
unfolding text_length
ascends_test = refl

rows-IsIndex :
    IsIndex before rows published load to_token from_token with_params
      (λ url. some url)
      snapshot
      "https://c"
rows-IsIndex = record {
  order = before-IsOrder;
  ascending = Ascending-of_ascends rows ascends_test;
  named =
      All-map {P = λ r. not (r.version_path == "") ≡ true} {Q = λ r. r.version_path == "" ≡ false}
        rows (λ r h. ground (arith, h))
        (All-of_all (λ (r : CatalogStacVersion). not (r.version_path == "")) rows named_test);
  catalog = refl;
  serves = λ after limit. refl;
  generation_named = refl;
  codec =
      All-map {P = λ r. is_token r.version_path ≡ true}
        {Q = λ r.
          let cursor : Cursor = record { generation = "g"; after = r.version_path } in
          (from_token (to_token cursor) ≡ some cursor) × (is_token (to_token cursor) ≡ true)}
        rows (λ r h. (refl, h))
        (All-of_all (λ (r : CatalogStacVersion). is_token r.version_path) rows token_test);
  query = λ url token. refl;
  loads = rows_from-loads 60 "a";
}

-- The catalog after a refresh.
abbrev later : StacSnapshot
later = record snapshot { generation = "g2" }

-- The path of the last version of the first page.
abbrev fiftieth : String
fiftieth = get_or (last_path (take 50 rows)) ""

abbrev first_documents : List (StacDocument String)
first_documents = map (served encode "https://h" rows-IsIndex) (take 50 rows)

abbrev next_page : StacLink
next_page = record { rel = "next"; href = fiftieth; media_type = some "application/json" }

abbrev first_links : List StacLink
first_links =
    record {
      rel = "self";
      href = "https://h/stac/collections";
      media_type = some "application/json";
    }
    ∷ record { rel = "root"; href = "https://h/stac"; media_type = some "application/json" }
    ∷ next_page
    ∷ []

first_page :
    serve_stac_collections encode load to_token from_token with_params
      (some (some snapshot))
      "https://h"
      none
    ≡ stac_page (first_documents, first_links) "g"
unfolding serve_stac_collections answer_after build_stac_collections_page page_collections
    page_collection build_stac_collection relinked collection_links stac_collection_url selected
    next_after listing_url encode_stac_cursor decode_stac_cursor api_link
first_page = refl

is_short : is_token fiftieth ≡ true
unfolding is_token is_token_code text_length
is_short = refl

serve_stac_collections-stale_example :
    serve_stac_collections encode load to_token from_token with_params
      (some (some later))
      "https://h"
      (some fiftieth)
    ≡ problem 409 "STAC cursor is stale"
serve_stac_collections-stale_example =
    serve_stac_collections-stale encode load to_token from_token with_params (λ url. some url)
      snapshot later "https://h" "https://c" none first_documents first_links "g" fiftieth next_page
      (λ url token. refl) (λ path named. refl) first_page refl refl is_short refl refl
