-- ===== src/McpApp/Tokens.antt =====
-- The tokens in use are those of the map that is shown.
use hifld_next.Common.{
  ℕ, String, Bool, true, false, not, ◌||◌, ◌&&◌, eqb, suc, any, lookup, if◌then◌else◌, List, [],
  ◌∷◌, map, insert, Option, none, some, get_elem?, ◌≡◌, refl,
}
use hifld_next.McpApp.Model.{
  RuntimeLayer, query_runtime, preparing_runtime, external_runtime, external_layer,
  MapConfiguration, ResultLayer, query_layer, preparing_layer, MapResult, McpMap, Preparation,
  runtime_layer, tokens_onto, new_map, runtime_configuration, is_preparing, is_expired,
}
use hifld_next.McpApp.Prepare.{
  Prepared, prepare_for, take_prepared, replace, is_called, prepare_answered,
}
use hifld_next.McpApp.Handlers.{
  Content, map_content, error_content, publish, fail_map, refresh_map, accept_map_result,
  on_tool_result, take_refresh, refresh_answered, refresh_expired_token, begin_preparation,
  is_sequence, allow_refresh, holds_token, on_error, on_teardown,
}
use hifld_next.McpApp.Events.{
  Event, tool_result, app_error, teardown, token_expired, refresh_ended, prepare_ended,
  report_ended, status_ended, is_updated, status_answered, step, run, report_answered,
}

-- The tokens of the layers of a map that is shown.
abbrev pub runtime_tokens : List (String × String) → List RuntimeLayer → List (String × String)
runtime_tokens tokens [] = tokens
runtime_tokens tokens (query_runtime query_id token name ∷ layers) =
    runtime_tokens (insert query_id token tokens) layers
runtime_tokens tokens (preparing_runtime p ∷ layers) = runtime_tokens tokens layers
runtime_tokens tokens (external_runtime e ∷ layers) = runtime_tokens tokens layers

abbrev pub shown_tokens : Option MapConfiguration → List (String × String)
shown_tokens none = []
shown_tokens (some c) = runtime_tokens [] c.layers

pub record IsConsistent (s : McpMap) : Type 0 where
  pub used : s.tokens ≡ shown_tokens s.map_configuration
  pub given : s.query_tokens ≡ s.tokens

tokens_onto-runtime_tokens :
    (tokens : List (String × String)) (layers : List ResultLayer)
    → tokens_onto tokens layers ≡ runtime_tokens tokens (map runtime_layer layers)
unfolding tokens_onto
tokens_onto-runtime_tokens tokens [] = refl
tokens_onto-runtime_tokens tokens (query_layer q ∷ layers) =
    tokens_onto-runtime_tokens (insert q.query_id q.query_token tokens) layers
tokens_onto-runtime_tokens tokens (preparing_layer p ∷ layers) =
    tokens_onto-runtime_tokens tokens layers
tokens_onto-runtime_tokens tokens (external_layer e ∷ layers) =
    tokens_onto-runtime_tokens tokens layers

publish-IsConsistent : (result : MapResult) (s : McpMap) → IsConsistent (publish result s)
unfolding publish runtime_configuration
publish-IsConsistent result s = record {
  used = tokens_onto-runtime_tokens [] result.layers;
  given = refl;
}

fail_map-IsConsistent : (message : String) (s : McpMap) → IsConsistent (fail_map message s)
unfolding fail_map
fail_map-IsConsistent message s = record { used = refl; given = refl }

-- Both branches of a conditional.
if_either :
    (c : Bool) (s t : McpMap) → IsConsistent s → IsConsistent t → IsConsistent (if c then s else t)
if_either true s t h k = h
if_either false s t h k = k

refresh_map-IsConsistent :
    (sequence : ℕ) (s : McpMap) → IsConsistent s → IsConsistent (refresh_map sequence s)
unfolding refresh_map
refresh_map-IsConsistent sequence s h =
    if_either (not (eqb sequence s.map_sequence) || is_sequence sequence s.refreshing) s _ h
      (record { used = h.used; given = h.given })

accept_map_result-IsConsistent :
    (now : ℕ) (result : MapResult) (sequence : ℕ) (s : McpMap)
    → IsConsistent s
    → IsConsistent (accept_map_result now result sequence s)
unfolding accept_map_result begin_preparation
accept_map_result-IsConsistent now result sequence s h =
    let allowed : IsConsistent (allow_refresh result sequence s) = record {
      used = h.used;
      given = h.given;
    } in
    if_either (not (eqb sequence s.map_sequence)) s _ h (
      if_either (any is_preparing result.layers) _ _ (publish-IsConsistent result _) (
        if_either (is_expired now result) _ _ (refresh_map-IsConsistent sequence _ allowed)
          (publish-IsConsistent result _)))

on_tool_result-IsConsistent :
    (now : ℕ) (content : Content) (s : McpMap)
    → IsConsistent s
    → IsConsistent (on_tool_result now content s)
unfolding on_tool_result
on_tool_result-IsConsistent now (map_content result) s h =
    accept_map_result-IsConsistent now result (suc s.map_sequence) _
      (record { used = h.used; given = h.given })
on_tool_result-IsConsistent now (error_content message) s h = fail_map-IsConsistent message _

take_refresh-IsConsistent :
    (now : ℕ) (answer : Option Content) (sequence : ℕ) (s : McpMap)
    → IsConsistent s
    → IsConsistent (take_refresh now answer sequence s)
unfolding take_refresh
take_refresh-IsConsistent now none sequence s h = fail_map-IsConsistent _ s
take_refresh-IsConsistent now (some (error_content message)) sequence s h =
    fail_map-IsConsistent message s
take_refresh-IsConsistent now (some (map_content result)) sequence s h =
    if_either (is_expired now result) _ _ (fail_map-IsConsistent _ s)
      (accept_map_result-IsConsistent now result sequence s h)

refresh_answered-IsConsistent :
    (now sequence : ℕ) (answer : Option Content) (s : McpMap)
    → IsConsistent s
    → IsConsistent (refresh_answered now sequence answer s)
unfolding refresh_answered
refresh_answered-IsConsistent now sequence answer s h =
    let done : IsConsistent
        (if is_sequence sequence s.refreshing then record s { refreshing = none } else s) =
      if_either (is_sequence sequence s.refreshing) _ s (record { used = h.used; given = h.given })
        h in
    if_either (eqb sequence s.map_sequence) _ _
      (take_refresh-IsConsistent now answer sequence _ done) done

refresh_expired_token-IsConsistent :
    (query_id token : String) (s : McpMap)
    → IsConsistent s
    → IsConsistent (refresh_expired_token query_id token s)
unfolding refresh_expired_token
refresh_expired_token-IsConsistent query_id token s h =
    elim s.refresh_expired
      as (λ o. IsConsistent (elim o [
        | none ↦ s
        | some (spec, sequence) ↦
            if not (eqb sequence s.map_sequence)
              || not (holds_token token (lookup query_id s.tokens))
            then s
            else refresh_map sequence s
      ])) [
        | none ↦ h
        | some (spec, sequence) ↦
            if_either
              (not (eqb sequence s.map_sequence)
                || not (holds_token token (lookup query_id s.tokens)))
              s _ h (refresh_map-IsConsistent sequence s h)
      ]

take_prepared-IsConsistent :
    (now index : ℕ) (answer : Prepared) (p : Preparation) (original : Option ResultLayer)
    (s : McpMap)
    → IsConsistent s
    → IsConsistent (take_prepared now index answer p original s)
unfolding replace
take_prepared-IsConsistent now index answer p none s h = h
take_prepared-IsConsistent now index answer p (some (query_layer q)) s h = h
take_prepared-IsConsistent now index answer p (some (external_layer e)) s h = h
take_prepared-IsConsistent now index answer p (some (preparing_layer original)) s h =
    if_either (is_called (get_elem? p.result.map_spec.has_query index) original.preparation_status)
      _ s (publish-IsConsistent _ _) h

prepare_for-IsConsistent :
    (now controller index : ℕ) (answer : Prepared) (o : Option Preparation) (s : McpMap)
    → IsConsistent s
    → IsConsistent (prepare_for now controller index answer o s)
prepare_for-IsConsistent now controller index answer none s h = h
prepare_for-IsConsistent now controller index answer (some p) s h =
    if_either (eqb p.controller controller && eqb p.sequence s.map_sequence) _ s
      (take_prepared-IsConsistent now index answer p (get_elem? p.result.layers index) s h) h

step-IsConsistent : (e : Event) (s : McpMap) → IsConsistent s → IsConsistent (step e s)
unfolding step on_error on_teardown prepare_answered report_answered status_answered
step-IsConsistent (tool_result now content) s h = on_tool_result-IsConsistent now content s h
step-IsConsistent (app_error message) s h = fail_map-IsConsistent message _
step-IsConsistent teardown s h = record { used = h.used; given = h.given }
step-IsConsistent (token_expired query_id token) s h =
    refresh_expired_token-IsConsistent query_id token s h
step-IsConsistent (refresh_ended now sequence answer) s h =
    refresh_answered-IsConsistent now sequence answer s h
step-IsConsistent (prepare_ended now controller index answer) s h =
    prepare_for-IsConsistent now controller index answer s.preparation s h
step-IsConsistent (report_ended message sequence delivery) s h =
    if_either (not (is_updated delivery) && eqb sequence s.map_sequence) _ s
      (record { used = h.used; given = h.given }) h
step-IsConsistent (status_ended sequence delivery) s h =
    if_either (eqb sequence s.map_sequence) _ s (record { used = h.used; given = h.given }) h

run-IsConsistent_from : (es : List Event) (s : McpMap) → IsConsistent s → IsConsistent (run es s)
unfolding run
run-IsConsistent_from [] s h = h
run-IsConsistent_from (e ∷ es) s h = run-IsConsistent_from es (step e s) (step-IsConsistent e s h)

-- After any sequence of tool results, errors, answers and expired tokens, the tokens in use and the
-- tokens of the state are both exactly those of the query layers of the map that is shown, and
-- there is none where no map is shown.
pub run-IsConsistent : (es : List Event) → IsConsistent (run es new_map)
unfolding new_map
run-IsConsistent es = run-IsConsistent_from es new_map (record { used = refl; given = refl })
