-- ===== src/McpApp/Prepare.antt =====
-- The preparation of layers in useMcpApp.ts: `prepare` and `replace`.
use hifld_next.Common.{
  ℕ, zero, suc, String, Bool, true, false, not, ◌&&◌, ◌==◌, eqb, leb, if◌then◌else◌, List, [], ◌∷◌,
  get_elem?, Option, none, some,
}
use hifld_next.McpApp.Model.{
  QueryLayer, PreparationStatus, preparing, failed, PreparingLayer, ResultLayer, query_layer,
  preparing_layer, MapResult, Preparation, McpMap,
}
use hifld_next.McpApp.Handlers.{publish}

abbrev replace_layer : ℕ → ResultLayer → List ResultLayer → List ResultLayer
replace_layer i layer [] = []
replace_layer zero layer (l ∷ ls) = layer ∷ ls
replace_layer (suc i) layer (l ∷ ls) = l ∷ replace_layer i layer ls

-- `replace`
unfoldable pub replace : Preparation → ℕ → ResultLayer → McpMap → McpMap
replace p index layer s =
    let current : MapResult = record p.current {
      layers = replace_layer index layer p.current.layers;
    } in
    publish current (record s { preparation = some (record p { current = current }) })

abbrev failed_layer : PreparingLayer → String → ResultLayer
failed_layer original message =
    preparing_layer
      (record original { preparation_status = failed; preparation_error = some message })

-- What `prepare_map_layer` answers: a layer, an error of the server or neither, with its message, or
-- a rejection.
pub data Prepared : Type 0 where
  prepared_layer : QueryLayer → Prepared
  prepared_error : String → Prepared
  prepared_rejected : Prepared

abbrev mismatch : String
mismatch =
    "The prepared layer did not match the map contract. Reopen the map with the current MCP connection."

-- The layer that takes the place of the original.
unfoldable pub prepared_result : ℕ → PreparingLayer → Prepared → ResultLayer
prepared_result now original (prepared_layer layer) =
    if not (layer.layer_name == original.layer_name)
    then failed_layer original mismatch
    else if leb layer.expires_at now
    then failed_layer original "The prepared query token has expired. Reopen the map to retry."
    else query_layer layer
prepared_result now original (prepared_error message) = failed_layer original message
prepared_result now original prepared_rejected =
    failed_layer original "The host could not prepare this query layer. Reopen the map to retry."

-- An answer comes only for a layer that `prepare` called the server for: its definition has a query, and
-- it was to be prepared.
abbrev pub is_called : Option Bool → PreparationStatus → Bool
is_called (some true) preparing = true
is_called _ _ = false

abbrev pub take_prepared : ℕ → ℕ → Prepared → Preparation → Option ResultLayer → McpMap → McpMap
take_prepared now index answer p (some (preparing_layer original)) s =
    if is_called (get_elem? p.result.map_spec.has_query index) original.preparation_status
    then replace p index (prepared_result now original answer) s
    else s
take_prepared now index answer p _ s = s

-- `prepare` after its `await`, of the controller that it was given.
abbrev pub prepare_for : ℕ → ℕ → ℕ → Prepared → Option Preparation → McpMap → McpMap
prepare_for now controller index answer none s = s
prepare_for now controller index answer (some p) s =
    if eqb p.controller controller && eqb p.sequence s.map_sequence
    then take_prepared now index answer p (get_elem? p.result.layers index) s
    else s

unfoldable pub prepare_answered : ℕ → ℕ → ℕ → Prepared → McpMap → McpMap
prepare_answered now controller index answer s =
    prepare_for now controller index answer s.preparation s
