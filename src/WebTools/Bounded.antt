-- ===== src/WebTools/Bounded.antt =====
-- webapp/src/lib/webmcp/result.ts: the result of a tool, cut to what an agent takes.
use hifld_next.Common.{
  ℕ, ◌≤◌, String, Bool, true, false, not, ◌==◌, eq_iff, leb, if◌then◌else◌, List, [], ◌∷◌,
  Bool-cases, inl, inr, ◌≡◌, arith,
}
use hifld_next.Js.{
  Js, Value, Values, Fields, undefined, null, bool, str, arr, obj, nil, cons, end, field,
}
use hifld_next.Js.Patterns.{text_take}

pub data WebMcpErrorCode : Type 0 where
  invalid_request not_found unsupported_state query_rejected query_timeout query_capacity
        rate_limited upstream_unavailable internal_error :
      WebMcpErrorCode

abbrev pub is_retryable : WebMcpErrorCode → Bool
is_retryable query_timeout = true
is_retryable query_capacity = true
is_retryable rate_limited = true
is_retryable upstream_unavailable = true
is_retryable _ = false

-- `WebMcpSuccess`; the flag is set or missing.
pub record WebMcpSuccess (N : Type 0) : Type 0 where
  pub summary : String
  pub content : Value N
  pub truncated : Bool

pub record WebMcpFailure : Type 0 where
  pub error_code : WebMcpErrorCode
  pub message : String
  pub retryable : Bool

pub data WebMcpResult (N : Type 0) : Type 0 where
  done : WebMcpSuccess N → WebMcpResult N
  failed : WebMcpFailure → WebMcpResult N

abbrev pub success : {N : Type 0} → String → Value N → WebMcpResult N
success summary content = done (record { summary = summary; content = content; truncated = false })

abbrev pub failure : {N : Type 0} → WebMcpErrorCode → String → WebMcpResult N
failure error_code message =
    failed
      (record { error_code = error_code; message = message; retryable = is_retryable error_code })

abbrev pub max_serialized_result_length : ℕ
max_serialized_result_length = 1500

-- `[...output, item]` and `{ ...output, [key]: value }` with a new key
unfoldable pub snoc : {N : Type 0} → Values N → Value N → Values N
snoc nil item = cons item nil
snoc (cons v vs) item = cons v (snoc vs item)

unfoldable pub snoc_field : {N : Type 0} → Fields N → String → Value N → Fields N
snoc_field end key value = field key value end
snoc_field (field k v fs) key value = field k v (snoc_field fs key value)

-- `summaryLength` of the loop.
abbrev pub summary_lengths : List ℕ
summary_lengths = 200 ∷ 180 ∷ 160 ∷ 140 ∷ 120 ∷ 100 ∷ 80 ∷ 60 ∷ 40 ∷ 20 ∷ 0 ∷ []

-- `units` is `text.length`, in UTF-16 units.
module _ (js : Js) (units : String → ℕ) where
  abbrev flag_of : Bool → Fields js.Number
  flag_of true = field "truncated" (bool true) end
  flag_of false = end

  abbrev pub json_of : WebMcpSuccess js.Number → Value js.Number
  json_of result = obj (
      field "ok" (bool true) (
        field "summary" (str result.summary)
          (field "data" result.content (flag_of result.truncated))))

  abbrev pub serialized_length : WebMcpSuccess js.Number → ℕ
  serialized_length result = units (js.json_stringify (json_of result))

  abbrev pub fits : WebMcpSuccess js.Number → Bool
  fits result = leb (serialized_length result) max_serialized_result_length

  abbrev fits_data : Value js.Number → String → Bool
  fits_data content summary =
      fits (record { summary = summary; content = content; truncated = true })

  unfoldable mutual
    pub compact_value : String → Value js.Number → Value js.Number
    compact_value summary (arr items) = arr (compact_array summary items nil)
    compact_value summary (obj fields) = obj (compact_object summary fields end)
    compact_value summary value = value

    pub compact_array : String → Values js.Number → Values js.Number → Values js.Number
    compact_array summary nil output = output
    compact_array summary (cons item items) output =
        let candidate = snoc output (compact_value summary item) in
        compact_array summary items
          (if fits_data (arr candidate) summary then candidate else output)

    pub compact_object : String → Fields js.Number → Fields js.Number → Fields js.Number
    compact_object summary end output = output
    compact_object summary (field key undefined fields) output =
        compact_object summary fields output
    compact_object summary (field key value fields) output =
        let candidate = snoc_field output key (compact_value summary value) in
        compact_object summary fields
          (if fits_data (obj candidate) summary then candidate else output)

  -- A text that does not fit is left out.
  abbrev text_or_null : String → Value js.Number → Value js.Number
  text_or_null summary (str s) = if fits_data (str s) summary then str s else null
  text_or_null summary value = value

  unfoldable pub compact_data : Value js.Number → String → Value js.Number
  unfolding compact_value
  compact_data content summary = text_or_null summary (compact_value summary content)

  -- The loop over the lengths, and the last resort.
  unfoldable pub fit_from : List ℕ → WebMcpSuccess js.Number → WebMcpSuccess js.Number
  unfolding compact_data text_take
  fit_from [] result = record { summary = ""; content = null; truncated = true }
  fit_from (n ∷ lengths) result =
      let summary = text_take n result.summary in
      let original : WebMcpSuccess js.Number = record {
        summary = summary;
        content = result.content;
        truncated = not (summary == result.summary);
      } in
      let compacted : WebMcpSuccess js.Number = record {
        summary = summary;
        content = compact_data result.content summary;
        truncated = true;
      } in
      let rest = fit_from lengths result in
      if fits original then original else if fits compacted then compacted else rest

  unfoldable pub fit_success : WebMcpSuccess js.Number → WebMcpSuccess js.Number
  unfolding fit_from
  fit_success result = fit_from summary_lengths result

  unfoldable pub bound_web_mcp_result : WebMcpResult js.Number → WebMcpResult js.Number
  unfolding fit_success
  bound_web_mcp_result (done result) = done (fit_success result)
  bound_web_mcp_result (failed error) = failed error

  -- The result with nothing left of it.
  abbrev pub bare_result : WebMcpSuccess js.Number
  bare_result = record { summary = ""; content = null; truncated = true }

  fit_from_fits :
      (lengths : List ℕ) (result : WebMcpSuccess js.Number)
      → serialized_length bare_result ≤ max_serialized_result_length
      → serialized_length (fit_from lengths result) ≤ max_serialized_result_length
  unfolding fit_from
  fit_from_fits [] result h = h
  fit_from_fits (n ∷ lengths) result h =
      let summary = text_take n result.summary in
      let original : WebMcpSuccess js.Number = record {
        summary = summary;
        content = result.content;
        truncated = not (summary == result.summary);
      } in
      let compacted : WebMcpSuccess js.Number = record {
        summary = summary;
        content = compact_data result.content summary;
        truncated = true;
      } in
      elim (Bool-cases (fits original)) [
        | inl fine ↦ rw fine (ground arith)
        | inr long ↦ elim (Bool-cases (fits compacted)) [
          | inl fine ↦ rw (long, fine) (ground arith)
          | inr over ↦ rw (long, over) (fit_from_fits lengths result h)
        ]
      ]

  -- Where the bare result without summary and content has at most 1500 units of JSON text: so has
  -- what an agent gets of every success that a tool answers with. Of a failure nothing is said.
  pub fit_success_fits :
      (result : WebMcpSuccess js.Number)
      → serialized_length bare_result ≤ 1500
      → serialized_length (fit_success result) ≤ 1500
  unfolding fit_success
  fit_success_fits result h = fit_from_fits summary_lengths result h

  fit_from_whole :
      (lengths : List ℕ) (result : WebMcpSuccess js.Number)
      → (fit_from lengths result).truncated ≡ false
      → ((fit_from lengths result).summary ≡ result.summary)
        × ((fit_from lengths result).content ≡ result.content)
  unfolding fit_from
  fit_from_whole [] result h = cc
  fit_from_whole (n ∷ lengths) result h =
      ground
        (arith, eq_iff (text_take n result.summary) result.summary, fit_from_whole lengths result)

  -- An answer that is not marked as truncated has the whole summary and the whole content that the
  -- tool gave.
  pub fit_success_whole :
      (result : WebMcpSuccess js.Number)
      → (fit_success result).truncated ≡ false
      → ((fit_success result).summary ≡ result.summary)
        × ((fit_success result).content ≡ result.content)
  unfolding fit_success
  fit_success_whole result h = fit_from_whole summary_lengths result h
