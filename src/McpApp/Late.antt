-- ===== src/McpApp/Late.antt =====
-- Answers to calls that were made before a tool result came change nothing of its map.
use hifld_next.Common.{
  ℕ, ◌≤◌, ◌<◌, Bool, true, false, eqb, leb, ltb, List, [], ◌∷◌, all, Option, none, some, Bool-cases,
  inl, inr, ◌≡◌, refl, sym, ap, ◌∙◌, arith,
}
use hifld_next.McpApp.Model.{McpMap, Preparation}
use hifld_next.McpApp.Prepare.{Prepared, prepare_for, prepare_answered}
use hifld_next.McpApp.Handlers.{
  Content, map_content, error_content, publish, fail_map, refresh_map, begin_preparation,
  accept_map_result, on_tool_result, refresh_answered, is_sequence,
}
use hifld_next.McpApp.Events.{
  Event, tool_result, refresh_ended, prepare_ended, report_ended, status_ended, is_updated,
  status_answered, report_answered, step, run,
}

-- The answer to a call of a sequence up to `sequence`, or of a controller up to `controllers`.
abbrev pub is_late : ℕ → ℕ → Event → Bool
is_late sequence controllers (refresh_ended now q answer) = leb q sequence
is_late sequence controllers (prepare_ended now c index answer) = leb c controllers
is_late sequence controllers (report_ended message q delivery) = leb q sequence
is_late sequence controllers (status_ended q delivery) = leb q sequence
is_late sequence controllers _ = false

abbrev is_newer : ℕ → Option Preparation → Bool
is_newer controllers none = true
is_newer controllers (some p) = ltb controllers p.controller

-- A map of a later sequence, whose preparation has a later controller.
record IsLater (sequence controllers : ℕ) (s : McpMap) : Type 0 where
  later : sequence < s.map_sequence
  newer : is_newer controllers s.preparation ≡ true

-- All but the running refresh is as it was.
abbrev pub OnlyRefreshing : McpMap → McpMap → Type 0
OnlyRefreshing s t = t ≡ record s { refreshing = t.refreshing }

tool_result-IsLater :
    (now : ℕ) (content : Content) (s : McpMap)
    → IsLater s.map_sequence s.controllers (step (tool_result now content) s)
unfolding step on_tool_result accept_map_result begin_preparation fail_map publish refresh_map
tool_result-IsLater now (map_content result) s = ground arith
tool_result-IsLater now (error_content message) s = ground arith

prepare_for-OnlyRefreshing :
    (sequence controllers now c index : ℕ) (answer : Prepared) (o : Option Preparation) (s : McpMap)
    → c ≤ controllers
    → is_newer controllers o ≡ true
    → prepare_for now c index answer o s ≡ s
prepare_for-OnlyRefreshing sequence controllers now c index answer none s h n = refl
prepare_for-OnlyRefreshing sequence controllers now c index answer (some p) s h n =
    let other : eqb p.controller c ≡ false = ground arith in rw other refl

step-OnlyRefreshing :
    (sequence controllers : ℕ) (e : Event) (s : McpMap)
    → is_late sequence controllers e ≡ true
    → IsLater sequence controllers s
    → OnlyRefreshing s (step e s)
unfolding step refresh_answered report_answered prepare_answered status_answered
step-OnlyRefreshing sequence controllers (refresh_ended now q answer) s late h =
    let other : eqb q s.map_sequence ≡ false = ground arith in
    elim (Bool-cases (is_sequence q s.refreshing)) [
      | inl ours ↦ rw (other, ours) refl
      | inr theirs ↦ rw (other, theirs) refl
    ]
step-OnlyRefreshing sequence controllers (prepare_ended now c index answer) s late h =
    let same =
      prepare_for-OnlyRefreshing sequence controllers now c index answer s.preparation s
        (ground arith) h.newer in
    same ∙ ap (λ r. record s { refreshing = r }) (sym (ap (λ (t : McpMap). t.refreshing) same))
step-OnlyRefreshing sequence controllers (report_ended message q delivery) s late h =
    let other : eqb q s.map_sequence ≡ false = ground arith in
    elim (Bool-cases (is_updated delivery)) [
      | inl told ↦ rw (other, told) refl
      | inr untold ↦ rw (other, untold) refl
    ]
step-OnlyRefreshing sequence controllers (status_ended q delivery) s late h =
    let other : eqb q s.map_sequence ≡ false = ground arith in rw other refl
step-OnlyRefreshing sequence controllers _ s late h = cc

IsLater-OnlyRefreshing :
    (sequence controllers : ℕ) (s t : McpMap)
    → OnlyRefreshing s t
    → IsLater sequence controllers s
    → IsLater sequence controllers t
IsLater-OnlyRefreshing sequence controllers s t e h = record {
  later = omega (arith, h.later, ap (λ (u : McpMap). u.map_sequence) e);
  newer = ap (λ (u : McpMap). is_newer controllers u.preparation) e ∙ h.newer;
}

run-OnlyRefreshing :
    (sequence controllers : ℕ) (es : List Event) (s : McpMap)
    → all (is_late sequence controllers) es ≡ true
    → IsLater sequence controllers s
    → OnlyRefreshing s (run es s)
unfolding run
run-OnlyRefreshing sequence controllers [] s late h = refl
run-OnlyRefreshing sequence controllers (e ∷ es) s late h =
    let first = step-OnlyRefreshing sequence controllers e s (ground arith) h in
    let rest =
      run-OnlyRefreshing sequence controllers es (step e s) (ground arith)
        (IsLater-OnlyRefreshing sequence controllers s (step e s) first h) in
    rest
    ∙ ap {A = McpMap} {B = McpMap} (λ u. record u { refreshing = (run es (step e s)).refreshing })
        first

-- After a tool result, any answers to refreshes, preparations and reports that were begun before
-- it, in any order, leave the map, its tokens, its error, its preparation and its sequence as they
-- are.
pub run_late :
    (now : ℕ) (content : Content) (s : McpMap) (es : List Event)
    → all (is_late s.map_sequence s.controllers) es ≡ true
    → let shown = step (tool_result now content) s in OnlyRefreshing shown (run es shown)
run_late now content s es late =
    run-OnlyRefreshing s.map_sequence s.controllers es (step (tool_result now content) s) late
      (tool_result-IsLater now content s)
