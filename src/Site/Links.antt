-- ===== src/Site/Links.antt =====
-- webapp/src/lib/api-links.ts: the links of a page of a collection's datasets.
pub mod Walk
use hifld_next.Common.{
  ℕ, ◌+◌, ◌-◌, ◌*◌, ◌/◌, String, Bool, true, false, not, ◌||◌, ◌==◌, eqb, ltb, if◌then◌else◌, List,
  [], ◌∷◌, ◌++◌, join, concat, Option, none, some,
}
use hifld_next.Site.Listing.{CollectionApiQuery}

-- `Omit<…, "limit" | "offset">`
pub record CollectionDatasetsLinkBase : Type 0 where
  pub query : Option String
  pub include_urls : Bool
  pub tag_filters : Option String
  pub omit : Option String

-- `collectionLinkBase` of webapp/src/lib/catalog-listing.ts
unfoldable pub collection_link_base :
    {T : Type 0} → CollectionApiQuery T → CollectionDatasetsLinkBase
collection_link_base query = record {
  query = query.search;
  include_urls = query.include_urls;
  tag_filters = query.tag_filters_param;
  omit = query.omit;
}

-- The relations of a page, over what stands for an address.
pub record ApiLinkMap (A : Type 0) : Type 0 where
  pub first : Option A
  pub self : Option A
  pub prev : Option A
  pub next : Option A
  pub last : Option A

pub record PaginationNums : Type 0 where
  pub total : ℕ
  pub limit : ℕ
  pub offset : ℕ

-- The offset of the last page. (`⌊(total - 1) / limit⌋ * limit`)
unfoldable pub last_offset : PaginationNums → ℕ
last_offset page = if ltb 0 page.total then ((page.total - 1) / page.limit) * page.limit else 0

-- `collectionDatasetsPaginationLinks` by the offset of each link; `Math.max(0, offset - limit)` is
-- the difference of naturals.
unfoldable pub pagination_offsets : PaginationNums → ApiLinkMap ℕ
unfolding last_offset
pagination_offsets page =
    if eqb page.limit 0
    then record { first = none; self = none; prev = none; next = none; last = none }
    else record {
      first = some 0;
      self = some page.offset;
      prev = if ltb 0 page.offset then some (page.offset - page.limit) else none;
      next =
          if ltb (page.offset + page.limit) page.total
          then some (page.offset + page.limit)
          else none;
      last =
          if not (eqb (last_offset page) page.offset) || eqb page.total 0
          then some (last_offset page)
          else none;
    }

abbrev map_option : {A B : Type 0} → (A → B) → Option A → Option B
map_option f none = none
map_option f (some a) = some (f a)

-- A condition on a text that may be missing.
abbrev when_text : String → Option String → List (String × String)
when_text key none = []
when_text key (some value) = if value == "" then [] else (key, value) ∷ []

-- `encode` is `encodeURIComponent`, `print` the text of a number, and `with_params` a URL with its
-- search parameters set.
module _ (encode : String → String) (print : ℕ → String)
    (with_params : String → List (String × String) → String) where
  unfoldable pub collection_datasets_list_url :
      String → String → CollectionDatasetsLinkBase → ℕ → ℕ → String
  collection_datasets_list_url origin collection_slug params limit offset =
      with_params
        (concat (origin ∷ "/api/collections/" ∷ encode collection_slug ∷ "/datasets" ∷ []))
        (when_text "query" params.query
          ++ ((if params.include_urls then ("include_urls", "true") ∷ [] else [])
              ++ (("limit", print limit)
                  ∷ ("offset", print offset)
                  ∷ (when_text "tag_filters" params.tag_filters ++ when_text "omit" params.omit))))

  unfoldable pub collection_datasets_pagination_links :
      String → String → CollectionDatasetsLinkBase → PaginationNums → ApiLinkMap String
  unfolding pagination_offsets collection_datasets_list_url
  collection_datasets_pagination_links origin collection_slug base_params page =
      let offsets = pagination_offsets page in
      let href = collection_datasets_list_url origin collection_slug base_params page.limit in
      record {
        first = map_option href offsets.first;
        self = map_option href offsets.self;
        prev = map_option href offsets.prev;
        next = map_option href offsets.next;
        last = map_option href offsets.last;
      }

-- A part of the header, for a relation that has an address.
abbrev link_part : String → Option String → List String
link_part rel none = []
link_part rel (some href) =
    if href == "" then [] else concat ("<" ∷ href ∷ ">; rel=\"" ∷ rel ∷ "\"" ∷ []) ∷ []

abbrev joined : List String → Option String
joined [] = none
joined (part ∷ parts) = some (join ", " (part ∷ parts))

unfoldable pub build_link_header : ApiLinkMap String → Option String
build_link_header links = joined (
    link_part "first" links.first
    ++ (link_part "prev" links.prev
        ++ (link_part "next" links.next ++ link_part "last" links.last)))
