-- ===== src/McpApp/Handlers.antt =====
-- The handlers of useMcpApp.ts for results, errors and expired tokens.
use hifld_next.Common.{
  ℕ, suc, String, Bool, false, not, ◌||◌, ◌==◌, eqb, if◌then◌else◌, [], any, lookup, Option, none,
  some,
}
use hifld_next.McpApp.Model.{
  MapResult, runtime_configuration, is_expired, is_preparing, tokens_onto, McpMap,
}

abbrev cancel_preparation : McpMap → McpMap
cancel_preparation s = record s { preparation = none }

-- `failMap`, but for its report, which is `report_answered`.
unfoldable pub fail_map : String → McpMap → McpMap
fail_map message s = record s {
  refresh_expired = none;
  tokens = [];
  query_tokens = [];
  map_configuration = none;
  bridge_error = some message;
  preparation = none;
}

-- To show a result.
unfoldable pub publish : MapResult → McpMap → McpMap
publish result s = record s {
  map_configuration = some (runtime_configuration result);
  tokens = tokens_onto [] result.layers;
  query_tokens = tokens_onto [] result.layers;
  bridge_error = none;
}

abbrev pub is_sequence : ℕ → Option ℕ → Bool
is_sequence sequence none = false
is_sequence sequence (some n) = eqb n sequence

-- `refreshMap` up to the call of the server.
unfoldable pub refresh_map : ℕ → McpMap → McpMap
refresh_map sequence s =
    if not (eqb sequence s.map_sequence) || is_sequence sequence s.refreshing
    then s
    else record s { refreshing = some sequence }

-- A preparation begins; a layer that is being prepared says so already.
unfoldable pub begin_preparation : MapResult → ℕ → McpMap → McpMap
begin_preparation result sequence s = publish result (record s {
  preparation = some (record {
    controller = suc s.controllers;
    sequence = sequence;
    result = result;
    current = result;
  });
  controllers = suc s.controllers;
})

abbrev pub show_or_refresh : ℕ → MapResult → ℕ → McpMap → McpMap
show_or_refresh now result sequence s =
    if is_expired now result then refresh_map sequence s else publish result s

abbrev pub allow_refresh : MapResult → ℕ → McpMap → McpMap
allow_refresh result sequence s = record s { refresh_expired = some (result.map_spec, sequence) }

unfoldable pub accept_map_result : ℕ → MapResult → ℕ → McpMap → McpMap
accept_map_result now result sequence s =
    if not (eqb sequence s.map_sequence)
    then s
    else if any is_preparing result.layers
    then begin_preparation result sequence (allow_refresh result sequence s)
    else show_or_refresh now result sequence (allow_refresh result sequence s)

-- Structured content, by the schemas: a map, an error of the server, or neither, with the message that
-- is shown of it.
pub data Content : Type 0 where
  map_content : MapResult → Content
  error_content : String → Content

-- `ontoolresult`
unfoldable pub on_tool_result : ℕ → Content → McpMap → McpMap
on_tool_result now (map_content result) s =
    accept_map_result now result (suc s.map_sequence)
      (record s { preparation = none; map_sequence = suc s.map_sequence })
on_tool_result now (error_content message) s =
    fail_map message (record s { preparation = none; map_sequence = suc s.map_sequence })

-- `onerror`
unfoldable pub on_error : String → McpMap → McpMap
on_error message s = fail_map message (record s { map_sequence = suc s.map_sequence })

-- `onteardown`, and the clean-up of the effect.
unfoldable pub on_teardown : McpMap → McpMap
on_teardown s = record s {
  map_sequence = suc s.map_sequence;
  preparation = none;
  refresh_expired = none;
}

-- The answer of the server; none where the call was rejected.
unfoldable pub take_refresh : ℕ → Option Content → ℕ → McpMap → McpMap
take_refresh now none sequence s =
    fail_map "This MCP host could not refresh the map's expired query tokens." s
take_refresh now (some (error_content message)) sequence s = fail_map message s
take_refresh now (some (map_content result)) sequence s =
    if is_expired now result
    then fail_map "The server returned an expired replacement query token. Reopen the map to retry."
        s
    else accept_map_result now result sequence s

-- `performRefresh` after its `await`, and the `finally` of `refreshMap`.
unfoldable pub refresh_answered : ℕ → ℕ → Option Content → McpMap → McpMap
refresh_answered now sequence answer s =
    let done = if is_sequence sequence s.refreshing then record s { refreshing = none } else s in
    if eqb sequence s.map_sequence then take_refresh now answer sequence done else done

abbrev pub holds_token : String → Option String → Bool
holds_token token none = false
holds_token token (some t) = t == token

-- `refreshExpiredToken`
unfoldable pub refresh_expired_token : String → String → McpMap → McpMap
refresh_expired_token query_id token s = elim s.refresh_expired [
  | none ↦ s
  | some (spec, sequence) ↦
      if not (eqb sequence s.map_sequence) || not (holds_token token (lookup query_id s.tokens))
      then s
      else refresh_map sequence s
]
