-- ===== src/WebTools/Query/Answers.antt =====
-- What an agent may read off an answer of the query tools.
use hifld_next.Common.{
  ℕ, zero, suc, ◌≤◌, String, Bool, true, false, not, ◌||◌, ◌&&◌, ◌==◌, eqb, List, [], ◌∷◌, map,
  take, length, All, ◌≡◌, refl, ap, arith,
}
use hifld_next.Js.{Value, Fields, undefined, str, arr, obj, end, field, get_field}
use hifld_next.Site.QueryApi.{QueryApiError}
use hifld_next.WebTools.Bounded.{WebMcpResult, done, failed}
use hifld_next.WebTools.Query.{
  Column, ToolQueryPage, type_mark, query_error, query_failure, preview_cell, preview_rows, row_of,
}

abbrev pub may_retry : {N : Type 0} → WebMcpResult N → Bool
may_retry (done result) = false
may_retry (failed e) = e.retryable

-- An agent is told that it may try again exactly where the query timed out or the service did not
-- refuse the query or the caller.
pub query_failure-retryable :
    (N : Type 0) (e : QueryApiError)
    → may_retry (query_failure {N = N} (query_error e)) ≡ (
        e.code == "query_timeout"
        || not (eqb e.status 400 || eqb e.status 401 || eqb e.status 403 || eqb e.status 404))
unfolding query_failure
query_failure-retryable N e = ground arith

abbrev pub is_scalar : {N : Type 0} → Value N → Bool
is_scalar (arr items) = false
is_scalar (obj fields) = false
is_scalar undefined = false
is_scalar value = true

abbrev pub field_names : {N : Type 0} → Fields N → List String
field_names end = []
field_names (field key value fields) = key ∷ field_names fields

abbrev pub all_scalar : {N : Type 0} → Fields N → Bool
all_scalar end = true
all_scalar (field key value fields) = is_scalar value && all_scalar fields

type_mark-scalar : {N : Type 0} (v : Value N) → is_scalar (type_mark v) ≡ true
type_mark-scalar (str mark) = refl
type_mark-scalar v = refl

preview_cell-scalar : {N : Type 0} (v : Value N) → is_scalar (preview_cell v) ≡ true
unfolding preview_cell
preview_cell-scalar (obj fields) = type_mark-scalar (get_field fields "$type")
preview_cell-scalar (arr items) = refl
preview_cell-scalar undefined = refl
preview_cell-scalar v = refl

row_of-names :
    {N : Type 0} (columns : List Column) (row : Fields N)
    → (field_names (row_of columns row) ≡ map (λ (c : Column). c.name) columns)
      × (all_scalar (row_of columns row) ≡ true)
row_of-names [] row = (refl, refl)
row_of-names (column ∷ columns) row =
    let (names, scalar) = row_of-names columns row in
    (
      ap (λ l. column.name ∷ l) names,
      ground (arith, scalar, preview_cell-scalar (get_field row column.name)),
    )

few :
    {N : Type 0} (columns : List Column) (n : ℕ) (rows : List (Fields N))
    → length (map (row_of columns) (take n rows)) ≤ n
few columns zero rows = omega arith
few columns (suc n) [] = omega arith
few columns (suc n) (row ∷ rows) = omega (arith, few columns n rows)

shaped :
    {N : Type 0} (columns : List Column) (n : ℕ) (rows : List (Fields N))
    → All
        (λ (row : Fields N).
          (field_names row ≡ map (λ (c : Column). c.name) columns) × (all_scalar row ≡ true))
        (map (row_of columns) (take n rows))
shaped columns zero rows = tt
shaped columns (suc n) [] = tt
shaped columns (suc n) (row ∷ rows) = (row_of-names columns row, shaped columns n rows)

-- A preview has at most as many rows as asked for, each with the columns of the page in order, and no
-- cell of it holds a nested value.
pub preview_rows_lem :
    {N : Type 0} (page : ToolQueryPage N) (maximum : ℕ)
    → (length (preview_rows page maximum) ≤ maximum)
      × All
          (λ (row : Fields N).
            (field_names row ≡ map (λ (c : Column). c.name) page.columns) × (all_scalar row ≡ true))
          (preview_rows page maximum)
unfolding preview_rows
preview_rows_lem page maximum =
    (few page.columns maximum page.rows, shaped page.columns maximum page.rows)
