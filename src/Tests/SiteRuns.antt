-- ===== src/Tests/SiteRuns.antt =====
-- A site of a few pages: links followed, cursors sent back, a sitemap, documents, failures and bodies.
use Prim.Native.String
use Prim.Native.String.{◌∷◌}
use hifld_next.Common.{
  ltb, ◌&&◌, ℕ, ◌≤◌, String, true, false, not, ◌==◌, leb, if◌then◌else◌, List, [], ◌∷◌, ◌++◌, all,
  length, Distinct, none, some, ok, fail, ◌≡◌, refl, arith,
}
use hifld_next.Js.Patterns.{text_length}
use hifld_next.Site.Pages.{page}
use hifld_next.Site.Xml.{escape_xml, escape_each, escape_xml_each}
use hifld_next.Site.Links.Walk.{follow_next, follow_next_all}
use hifld_next.Site.Listing.Documents.{
  Fetched, response, documents_from, is_published, publish, documents_from_complete,
}
use hifld_next.Site.Sitemap.{CatalogRow, Repository}
use hifld_next.Site.Failures.{
  FailureCall, FailureTracking, no_context, track_all, max_reported_failures,
}
use hifld_next.Site.Failures.Bounded.{IsTracking, track_all_bounded}
use hifld_next.Site.Stac.{
  StacLink, StacDocument, landing_links, landing_replaced, collection_links, collection_replaced,
  relinked, build_stac_landing, build_stac_collection,
}
use hifld_next.Site.Stac.Links.{
  IsLanding, IsServed, build_stac_landing-IsLanding, build_stac_collection-IsServed,
}
use hifld_next.Site.QueryApi.{is_too_long, read_bounded_request_body, stream}
use hifld_next.Site.QueryApi.Body.{total_of, read_bounded_request_body_stream}
use hifld_next.Tests.Engine.{engine}

escape_xml_each_example : escape_xml "a<b & 'c'" ≡ escape_each "a<b & 'c'"
escape_xml_each_example = escape_xml_each "a<b & 'c'"

abbrev items : List ℕ
items = 1 ∷ 2 ∷ 3 ∷ 4 ∷ 5 ∷ []

follow_next_all_example : follow_next items 2 6 0 ≡ some items
follow_next_all_example = follow_next_all items 2 6 (omega arith) (omega arith)

-- A document is its address; one address is not published.
abbrev fetch_document : String → Fetched String
fetch_document href = response (not (href == "gone")) (some href)

documents_from_complete_example :
    (problem : String) × (documents_from fetch_document 3 ("a" ∷ "gone" ∷ []) 0
      ≡ some (
          if all (is_published fetch_document) ("a" ∷ "gone" ∷ [])
          then ok (publish fetch_document ("a" ∷ "gone" ∷ []))
          else fail problem))
documents_from_complete_example =
    documents_from_complete fetch_document 3 ("a" ∷ "gone" ∷ []) (omega arith)

abbrev datasets : String → List CatalogRow
datasets slug =
    record { slug = "roads"; updated_at = some "2026-05-19T21:53:21" }
    ∷ record { slug = "rail"; updated_at = none }
    ∷ []

abbrev repository : Repository
repository = record {
  list_collections = record { slug = "transport"; updated_at = none } ∷ [];
  list_datasets = λ slug limit offset. record {
    items = page limit offset (datasets slug);
    total = length (datasets slug);
  };
  list_files = λ collection dataset. record { slug = "main"; updated_at = none } ∷ [];
}

abbrev same : String → String
same s = s

abbrev call : String → FailureCall
call failure = record {
  feature = "map";
  failure = failure;
  context = no_context;
  http_status = some 500;
  pathname = "/collections/transport";
  allowed = true;
  has_client = true;
  capture_throws = false;
}

abbrev print : ℕ → String
print n = "500"

abbrev stringify : List (String × String) → String
stringify [] = ""
stringify ((k, v) ∷ rest) = String.◌++◌ v (stringify rest)

abbrev fresh_tracking : FailureTracking
fresh_tracking = record { last_path = ""; reported = [] }

fresh_tracking-IsTracking : IsTracking fresh_tracking
fresh_tracking-IsTracking = record { distinct = tt; few = omega arith }

track_all_bounded_example :
    let captured =
      (track_all print stringify
        (call "load" ∷ call "render" ∷ call "load" ∷ [])
        fresh_tracking).1 in
    Distinct captured × (length captured ≤ max_reported_failures)
track_all_bounded_example =
    track_all_bounded print stringify "/collections/transport"
      (call "load" ∷ call "render" ∷ call "load" ∷ []) fresh_tracking fresh_tracking-IsTracking
      (refl, (refl, (refl, tt)))

abbrev published_links : List StacLink
published_links =
    record { rel = "self"; href = "catalog.json"; media_type = none }
    ∷ record { rel = "license"; href = "https://example.org"; media_type = none }
    ∷ []

abbrev root_document : StacDocument String
root_document = record { doc_type = "Catalog"; id = "root"; links = published_links; content = "c" }

abbrev landing : StacDocument String
landing = record root_document {
  links = relinked landing_replaced (landing_links "https://h") published_links;
}

is_landing : build_stac_landing root_document "https://h" ≡ ok landing
unfolding build_stac_landing
is_landing = refl

build_stac_landing-IsLanding_example : IsLanding "https://h" root_document landing
build_stac_landing-IsLanding_example =
    build_stac_landing-IsLanding "https://h" root_document landing is_landing

abbrev roads : StacDocument String
roads = record { doc_type = "Collection"; id = "roads"; links = published_links; content = "c" }

abbrev served_roads : StacDocument String
served_roads = record roads {
  links =
      relinked collection_replaced (collection_links (λ s. s) "https://h" "roads") published_links;
}

is_served : build_stac_collection (λ s. s) roads "https://h" ≡ ok served_roads
unfolding build_stac_collection
is_served = refl

build_stac_collection-IsServed_example : IsServed (λ s. s) "https://h" roads served_roads
build_stac_collection-IsServed_example =
    build_stac_collection-IsServed (λ s. s) "https://h" roads served_roads is_served

-- Chunks are texts, and a read joins them.
abbrev joined : List String → String
joined [] = ""
joined (s ∷ ss) = String.◌++◌ s (joined ss)

read_bounded_request_body_stream_example :
    let read =
      read_bounded_request_body text_length text_length joined engine 4 none
        (stream ("ab" ∷ "cde" ∷ [])) in
    (read.body ≡ (
      if is_too_long engine 4 none
      then none
      else if leb (total_of text_length ("ab" ∷ "cde" ∷ [])) 4
      then some (joined ("ab" ∷ "cde" ∷ []))
      else none))
    × (read.cancelled
        ≡ not (is_too_long engine 4 none) && ltb 4 (total_of text_length ("ab" ∷ "cde" ∷ [])))
read_bounded_request_body_stream_example =
    read_bounded_request_body_stream text_length text_length joined engine 4 none
      ("ab" ∷ "cde" ∷ [])
