-- ===== src/Site/Listing.antt =====
-- webapp/src/lib/catalog-listing.ts: what a request for a collection's datasets asks for, and the
-- published documents of the datasets that it gets.
pub mod Documents
use hifld_next.Common.{
  ℕ, String, Bool, true, false, not, ◌==◌, eqb, if◌then◌else◌, Option, none, some, Result, ok, fail,
  ◌>>=◌,
}
use hifld_next.Js.Trim.{trim}

-- What `parseInt(text, 10)` returns.
pub data Parsed : Type 0 where
  not_a_number below_zero : Parsed
  natural : ℕ → Parsed

abbrev pub default_collection_page_size : ℕ
default_collection_page_size = 50

-- The tags of a filter are a type of the parser's.
pub record CollectionApiQuery (T : Type 0) : Type 0 where
  pub search : Option String
  pub tag_filters : Option T
  pub tag_filters_param : Option String
  pub omit : Option String
  pub include_urls : Bool
  pub limit : ℕ
  pub offset : ℕ

-- A problem response is a failure with its title.
abbrev limit_of : Parsed → Result ℕ
limit_of not_a_number = fail "Invalid limit"
limit_of below_zero = fail "Invalid limit"
limit_of (natural n) = if eqb n 0 then fail "Invalid limit" else ok n

abbrev offset_of : Parsed → Result ℕ
offset_of not_a_number = fail "Invalid offset"
offset_of below_zero = fail "Invalid offset"
offset_of (natural n) = ok n

-- What both calls of `search` leave: a text that is not empty.
abbrev search_of : Option String → Option String
search_of none = none
search_of (some s) = if trim s == "" then none else some (trim s)

-- `queryParam ?? searchParam`
abbrev or_param : Option String → Option String → Option String
or_param none other = other
or_param (some s) other = some s

abbrev is_true : Option String → Bool
is_true none = false
is_true (some s) = s == "true"

-- `parse_int` is `parseInt`; `parse_tags` is `JSON.parse` with the schema, none where one throws.
module _ {T : Type 0} (parse_int : String → Parsed) (parse_tags : String → Option T) where
  unfoldable pub parse_positive_limit : Option String → Result ℕ
  parse_positive_limit none = ok default_collection_page_size
  parse_positive_limit (some value) =
      if value == "" then ok default_collection_page_size else limit_of (parse_int value)

  unfoldable pub parse_non_negative_offset : Option String → Result ℕ
  parse_non_negative_offset none = ok 0
  parse_non_negative_offset (some value) = if value == "" then ok 0 else offset_of (parse_int value)

  abbrev tags_of : Option T → Result (Option T)
  tags_of none = fail "Invalid tag_filters"
  tags_of (some tags) = ok (some tags)

  unfoldable pub parse_tag_filters : Option String → Result (Option T)
  parse_tag_filters none = ok none
  parse_tag_filters (some value) = if value == "" then ok none else tags_of (parse_tags value)

  -- `get` is `URLSearchParams.get`.
  unfoldable pub parse_collection_api_query :
      (String → Option String) → Result (CollectionApiQuery T)
  unfolding parse_positive_limit parse_non_negative_offset parse_tag_filters
  parse_collection_api_query get = do
    limit ← parse_positive_limit (get "limit")
    offset ← parse_non_negative_offset (get "offset")
    tag_filters ← parse_tag_filters (get "tag_filters")
    ok (record {
      search = search_of (or_param (get "query") (get "search"));
      tag_filters = tag_filters;
      tag_filters_param = get "tag_filters";
      omit = get "omit";
      include_urls = is_true (get "include_urls");
      limit = limit;
      offset = offset;
    })
