-- ===== src/WebTools/Query.antt =====
-- webapp/src/lib/webmcp/queryTools.ts: what the query tools answer an agent.
pub mod Answers
use hifld_next.Common.{
  ℕ, String, Bool, true, false, not, ◌||◌, ◌&&◌, ◌==◌, eqb, ltb, if◌then◌else◌, List, [], ◌∷◌, map,
  take, length, concat, Option, none, some, get_or, is_some,
}
use hifld_next.Js.{
  Js, Value, Values, Fields, undefined, null, bool, num, bigint, str, arr, obj, nil, cons, end,
  field, get_field,
}
use hifld_next.Js.Patterns.{text_take}
use hifld_next.Site.QueryApi.{QueryApiError}
use hifld_next.WebTools.Bounded.{
  WebMcpResult, WebMcpErrorCode, done, failed, success, failure, query_timeout, query_rejected,
  not_found, rate_limited, query_capacity, upstream_unavailable,
}

abbrev pub max_warning_count : ℕ
max_warning_count = 10

abbrev max_warning_length : ℕ
max_warning_length = 160

pub record Column : Type 0 where
  pub name : String
  pub type_name : String
  pub nullable : Bool

-- `PublicToolQueryPage`; a row is its entries.
pub record ToolQueryPage (N : Type 0) : Type 0 where
  pub query_id : String
  pub columns : List Column
  pub offset : ℕ
  pub limit : ℕ
  pub returned_count : ℕ
  pub has_more : Bool
  pub next_offset : Option ℕ
  pub warnings : List String
  pub elapsed_ms : N
  pub response_truncated : Bool
  pub has_map : Bool
  pub rows : List (Fields N)

pub data ResultStatus : Type 0 where
  rows_returned empty_result empty_page indeterminate : ResultStatus

unfoldable pub result_status : {N : Type 0} → ToolQueryPage N → ResultStatus
result_status page =
    if ltb 0 page.returned_count
    then rows_returned
    else if page.response_truncated || page.has_more
    then indeterminate
    else if eqb page.offset 0
    then empty_result
    else empty_page

abbrev status_text : ResultStatus → String
status_text rows_returned = "rows_returned"
status_text empty_result = "empty_result"
status_text empty_page = "empty_page"
status_text indeterminate = "indeterminate"

-- `[${value.$type}]` of an object with such a text, which its schema makes a text.
abbrev pub type_mark : {N : Type 0} → Value N → Value N
type_mark (str mark) = str (concat ("[" ∷ mark ∷ "]" ∷ []))
type_mark _ = str "[object]"

unfoldable pub preview_cell : {N : Type 0} → Value N → Value N
preview_cell (arr items) = str "[array]"
preview_cell (obj fields) = type_mark (get_field fields "$type")
preview_cell undefined = null
preview_cell value = value

abbrev pub row_of : {N : Type 0} → List Column → Fields N → Fields N
row_of [] row = end
row_of (column ∷ columns) row =
    field column.name (preview_cell (get_field row column.name)) (row_of columns row)

unfoldable pub preview_rows : {N : Type 0} → ToolQueryPage N → ℕ → List (Fields N)
unfolding preview_cell
preview_rows page maximum = map (row_of page.columns) (take maximum page.rows)

unfoldable pub bounded_warnings : List String → List String
unfolding text_take
bounded_warnings warnings = map (text_take max_warning_length) (take max_warning_count warnings)

-- A number as JSON, of a natural.
module _ {N : Type 0} (number : ℕ → N) where
  abbrev texts : List String → Values N
  texts [] = nil
  texts (s ∷ ss) = cons (str s) (texts ss)

  abbrev objects : List (Fields N) → Values N
  objects [] = nil
  objects (row ∷ rows) = cons (obj row) (objects rows)

  abbrev column_values : List Column → Values N
  column_values [] = nil
  column_values (column ∷ columns) =
      cons
        (obj (
          field "name" (str column.name)
            (field "type" (str column.type_name) (field "nullable" (bool column.nullable) end))))
        (column_values columns)

  abbrev next_field : Option ℕ → Fields N → Fields N
  next_field none rest = rest
  next_field (some next) rest = field "next_offset" (num (number next)) rest

  unfoldable pub run_result : ToolQueryPage N → Bool → Value N
  unfolding result_status preview_rows bounded_warnings
  run_result page map_added = obj (
      field "query_id" (str page.query_id) (
        field "columns" (arr (column_values page.columns)) (
          field "offset" (num (number page.offset)) (
            field "limit" (num (number page.limit)) (
              field "returned_count" (num (number page.returned_count)) (
                field "result_status" (str (status_text (result_status page))) (
                  field "has_more" (bool page.has_more) (
                    next_field page.next_offset (
                      field "warning_count" (num (number (length page.warnings))) (
                        field "warnings" (arr (texts (bounded_warnings page.warnings))) (
                          field "elapsed_ms" (num page.elapsed_ms) (
                            field "response_truncated" (bool page.response_truncated) (
                              field "map_available" (bool page.has_map) (
                                field "map_added" (bool (map_added && page.has_map)) (
                                  field "preview_rows" (arr (objects (preview_rows page 5)))
                                    end)))))))))))))))

  unfoldable pub page_result : ToolQueryPage N → Value N
  unfolding result_status preview_rows
  page_result page = obj (
      field "offset" (num (number page.offset)) (
        field "page_size" (num (number page.limit)) (
          field "returned_count" (num (number page.returned_count)) (
            field "result_status" (str (status_text (result_status page))) (
              field "has_more" (bool page.has_more)
                (field "preview_rows" (arr (objects (preview_rows page 2))) end))))))

-- What a tool catches: an error of the query service, or any other.
pub data Thrown : Type 0 where
  query_error : QueryApiError → Thrown
  other_error : Thrown

abbrev unavailable : {N : Type 0} → WebMcpResult N
unavailable = failure upstream_unavailable "The query service is temporarily unavailable."

unfoldable pub query_failure : {N : Type 0} → Thrown → WebMcpResult N
unfolding text_take
query_failure other_error = unavailable
query_failure (query_error e) =
    if e.code == "query_timeout"
    then failure query_timeout (text_take 500 e.message)
    else if eqb e.status 400 || eqb e.status 401 || eqb e.status 403
    then failure query_rejected (text_take 500 e.message)
    else if eqb e.status 404
    then failure not_found "The requested query was not found."
    else if eqb e.status 429
    then failure rate_limited "The query service is rate limited."
    else if eqb e.status 503 && e.code == "worker_unavailable"
    then failure query_capacity "The query service is temporarily at capacity."
    else unavailable

-- A call that returns a page or throws.
pub data Executed (N : Type 0) : Type 0 where
  returned : ToolQueryPage N → Executed N
  thrown : Thrown → Executed N

abbrev is_empty_result : ResultStatus → Bool
is_empty_result empty_result = true
is_empty_result _ = false

-- A tool answers, or throws what it caught where its call was aborted: none.
module _ {N : Type 0} (number : ℕ → N) where
  unfoldable pub execute_query_tool : Option Bool → Bool → Executed N → Option (WebMcpResult N)
  unfolding query_failure run_result result_status
  execute_query_tool requested_show_on_map aborted (returned page) = some (
      success
        (if is_empty_result (result_status page)
          then "The query returned no rows. Inspect stored filter values before changing the query."
          else "Query completed. Adding a map layer does not confirm its tiles have loaded; check get_map_state.")
        (run_result number page (get_or requested_show_on_map true)))
  execute_query_tool requested_show_on_map aborted (thrown e) =
      if aborted then none else some (query_failure e)

  unfoldable pub execute_query_page_tool : Bool → Executed N → Option (WebMcpResult N)
  unfolding query_failure page_result
  execute_query_page_tool aborted (returned page) =
      some (success "Query page loaded." (page_result number page))
  execute_query_page_tool aborted (thrown e) = if aborted then none else some (query_failure e)
