-- ===== src/Site/QueryApi.antt =====
-- webapp/src/lib/query-api.ts: the body of a query request, the pages that the query service returns,
-- and its errors.
pub mod Body
use hifld_next.Common.{
  ℕ, ◌+◌, String, Bool, true, false, not, ◌||◌, ◌&&◌, ◌==◌, eqb, ltb, leb, if◌then◌else◌, List, [],
  ◌∷◌, ◌++◌, map, all, filter, includes, keys, Option, none, some, is_some,
}
use hifld_next.Js.{Js, whole}

abbrev pub max_query_body_bytes : ℕ
max_query_body_bytes = 65536

-- A body without a stream is a text; a stream gives its chunks one after the other.
pub data RequestBody (C : Type 0) : Type 0 where
  plain : String → RequestBody C
  stream : List C → RequestBody C

-- What a read returns, and whether it cancelled the stream.
pub record BodyRead : Type 0 where
  pub body : Option String
  pub cancelled : Bool

abbrev refused : BodyRead
refused = record { body = none; cancelled = false }

module _ (js : Js) where
  -- `!Number.isFinite(n) || n < 0 || n > maxBytes` of the header
  unfoldable pub is_too_long : ℕ → Option String → Bool
  is_too_long max_bytes none = false
  is_too_long max_bytes (some text) =
      let declared_length = js.read text in
      not (js.is_finite declared_length)
      || js.lt declared_length (whole js 0)
      || js.lt (whole js max_bytes) declared_length

-- `byte_length` is that of a chunk, `utf8_length` that of a text, and `decode` the text of the chunks
-- one after the other.
module _ {C : Type 0} (byte_length : C → ℕ) (utf8_length : String → ℕ)
    (decode : List C → String) where
  -- The loop, with the chunks so far and their bytes.
  unfoldable pub read_chunks : ℕ → List C → ℕ → List C → BodyRead
  read_chunks max_bytes chunks total [] = record { body = some (decode chunks); cancelled = false }
  read_chunks max_bytes chunks total (chunk ∷ rest) =
      let total_bytes = total + byte_length chunk in
      let more = read_chunks max_bytes (chunks ++ chunk ∷ []) total_bytes rest in
      if ltb max_bytes total_bytes then record { body = none; cancelled = true } else more

  abbrev read_body : ℕ → RequestBody C → BodyRead
  read_body max_bytes (plain text) = record {
    body = if leb (utf8_length text) max_bytes then some text else none;
    cancelled = false;
  }
  read_body max_bytes (stream chunks) = read_chunks max_bytes [] 0 chunks

  unfoldable pub read_bounded_request_body : Js → ℕ → Option String → RequestBody C → BodyRead
  unfolding read_chunks is_too_long
  read_bounded_request_body js max_bytes content_length body =
      if is_too_long js max_bytes content_length then refused else read_body max_bytes body

-- `QueryPage`, by what the checks across its fields read; a row is its entries.
pub record QueryPage (V : Type 0) : Type 0 where
  pub columns : List String
  pub rows : List (List (String × V))
  pub has_more : Bool
  pub next_offset : Option ℕ
  pub query_id : String
  -- The query that the tile URL of the map names, where there is a map; none where it names none.
  pub map_query : Option (Option String)

-- `columnNames` and the keys of a row.
unfoldable pub row_fits : {V : Type 0} → List String → List (String × V) → Bool
row_fits columns row = all (includes (keys row)) columns && all (includes columns) (keys row)

abbrev map_fits : String → Option (Option String) → Bool
map_fits query_id none = true
map_fits query_id (some none) = false
map_fits query_id (some (some id)) = id == query_id

abbrev same_bool : Bool → Bool → Bool
same_bool true b = b
same_bool false b = not b

-- `superRefine` adds no issue.
unfoldable pub is_consistent : {V : Type 0} → QueryPage V → Bool
unfolding row_fits
is_consistent page =
    same_bool page.has_more (is_some page.next_offset)
    && all (row_fits page.columns) page.rows
    && map_fits page.query_id page.map_query

-- `QueryApiError`
pub record QueryApiError : Type 0 where
  pub status : ℕ
  pub code : String
  pub message : String

pub data QueryOutcome (T : Type 0) : Type 0 where
  answer : T → QueryOutcome T
  error : QueryApiError → QueryOutcome T

abbrev invalid_response : {T : Type 0} → ℕ → String → QueryOutcome T
invalid_response status message =
    error (record { status = status; code = "invalid_response"; message = message })

-- A response: its status, whether it is a success, and its text as JSON, none where it is not.
pub record ServiceResponse (J : Type 0) : Type 0 where
  pub status : ℕ
  pub is_ok : Bool
  pub payload : Option J

-- `read_error` and `read_answer` are the schemas, none where they refuse.
module _ {J T : Type 0} (read_error : J → Option (String × String))
    (read_answer : J → Option T) where
  abbrev error_of : ℕ → Option (String × String) → QueryOutcome T
  error_of status none =
      invalid_response status "The query service returned an invalid error response."
  error_of status (some (code, message)) =
      error (record { status = status; code = code; message = message })

  abbrev answer_of : ℕ → Option T → QueryOutcome T
  answer_of status none = invalid_response status "The query service returned an invalid response."
  answer_of status (some result) = answer result

  abbrev payload_outcome : ServiceResponse J → Option J → QueryOutcome T
  payload_outcome response none =
      invalid_response response.status "The query service returned invalid JSON."
  payload_outcome response (some payload) =
      if response.is_ok
      then answer_of response.status (read_answer payload)
      else error_of response.status (read_error payload)

  unfoldable pub parse_response : ServiceResponse J → QueryOutcome T
  parse_response response = payload_outcome response response.payload
