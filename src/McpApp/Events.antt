-- ===== src/McpApp/Events.antt =====
-- The status reports of useMcpApp.ts and mapStatus.ts, and what may come in any order.
use hifld_next.Common.{
  ℕ, String, Bool, true, false, not, ◌&&◌, eqb, if◌then◌else◌, List, [], ◌∷◌, Option, none, some,
  concat,
}
use hifld_next.McpApp.Model.{McpMap}
use hifld_next.McpApp.Handlers.{
  Content, on_tool_result, on_error, on_teardown, refresh_answered, refresh_expired_token,
}
use hifld_next.McpApp.Prepare.{Prepared, prepare_answered}

abbrev feedback_unavailable : String
feedback_unavailable =
    "The host could not receive map status updates. Share this widget's status or error with the agent."

-- What the host takes in, after mapStatus.ts: texts, structured content, both or none.
pub record StatusCapability : Type 0 where
  pub text : Bool
  pub structured_content : Bool

pub data Delivery : Type 0 where
  updated unsupported rejected : Delivery

abbrev delivered : Bool → Delivery
delivered true = updated
delivered false = rejected

-- `publishMapStatus`: whether the host is told, and the delivery; no application and no capability are
-- none, and `accepted` holds where the host's update does not throw.
unfoldable pub publish_map_status : Option StatusCapability → Bool → Bool × Delivery
publish_map_status none accepted = (false, unsupported)
publish_map_status (some capability) accepted =
    if not capability.text && not capability.structured_content
    then (false, unsupported)
    else (true, delivered accepted)

abbrev pub is_updated : Delivery → Bool
is_updated updated = true
is_updated _ = false

-- `reportStatus` after its `await`, of the sequence that it found.
unfoldable pub status_answered : ℕ → Delivery → McpMap → McpMap
status_answered sequence delivery s =
    if eqb sequence s.map_sequence
    then record s {
      feedback_notice = if is_updated delivery then none else some feedback_unavailable;
    }
    else s

-- The report of `failMap` was answered.
unfoldable pub report_answered : String → ℕ → Delivery → McpMap → McpMap
report_answered message sequence delivery s =
    if not (is_updated delivery) && eqb sequence s.map_sequence
    then record s { bridge_error = some (concat (message ∷ " " ∷ feedback_unavailable ∷ [])) }
    else s

-- What may come, with the time at which it comes.
pub data Event : Type 0 where
  tool_result : ℕ → Content → Event
  app_error : String → Event
  teardown : Event
  token_expired : String → String → Event
  refresh_ended : ℕ → ℕ → Option Content → Event
  prepare_ended : ℕ → ℕ → ℕ → Prepared → Event
  report_ended : String → ℕ → Delivery → Event
  status_ended : ℕ → Delivery → Event

unfoldable pub step : Event → McpMap → McpMap
step (tool_result now content) s = on_tool_result now content s
step (app_error message) s = on_error message s
step teardown s = on_teardown s
step (token_expired query_id token) s = refresh_expired_token query_id token s
step (refresh_ended now sequence answer) s = refresh_answered now sequence answer s
step (prepare_ended now controller index answer) s = prepare_answered now controller index answer s
step (report_ended message sequence delivery) s = report_answered message sequence delivery s
step (status_ended sequence delivery) s = status_answered sequence delivery s

unfoldable pub run : List Event → McpMap → McpMap
run [] s = s
run (e ∷ es) s = run es (step e s)
