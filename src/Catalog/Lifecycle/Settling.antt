-- ===== src/Catalog/Lifecycle/Settling.antt =====
-- How refreshes end: by a failure, or after the answers that they wait for.
use hifld_next.Common.{
  ℕ, ◌+◌, ◌*◌, ◌≤◌, String, Bool, true, false, if◌then◌else◌, List, [], ◌∷◌, count, Option, none,
  some, ok, fail, ◌≡◌, refl, arith,
}
use hifld_next.Catalog.Lifecycle.State.{
  System, Refreshing, idle, fetching, making_directory, copying, renaming,
}
use hifld_next.Catalog.Lifecycle.Events.{
  Event, Answer, source_found, directory_made, candidate_copied, candidate_opened, refresh_called,
  answered, continue_refresh, step, run,
}
use hifld_next.Catalog.Lifecycle.Reading.{lease_found, lease, end_read, release}
use hifld_next.Catalog.Lifecycle.Refresh.{
  refresh, close, close_directory, take_source, take_directory, take_copy, take_candidate,
  retire_previous, catch_refresh, install,
}

-- Whether a refresh waits for an answer.
abbrev pub awaits : Refreshing → Answer → Bool
awaits fetching (source_found found) = true
awaits (making_directory source) (directory_made made) = true
awaits (copying source) (candidate_copied copied) = true
awaits (renaming source) (candidate_opened opened) = true
awaits _ _ = false

-- How many answers a refresh waits for at most, until it ends.
abbrev pub to_go : Refreshing → ℕ
to_go idle = 0
to_go (renaming source) = 1
to_go (copying source) = 2
to_go (making_directory source) = 3
to_go fetching = 4

abbrev pub is_call : Event → Bool
is_call refresh_called = true
is_call _ = false

abbrev pub is_awaited : Event → System → Bool
is_awaited (answered a) s = awaits s.life.refreshing a
is_awaited _ s = false

module _ (not_a_path : String) where
  -- The message of an answer that fails, given the directory: a copy has no path without one.
  abbrev pub failure : Option String → Answer → Option String
  failure directory (source_found (fail message)) = some message
  failure directory (directory_made (fail message)) = some message
  failure directory (candidate_copied (fail message)) = some message
  failure none (candidate_copied (ok tt)) = some not_a_path
  failure directory (candidate_opened (fail message)) = some message
  failure directory _ = none

  -- A failed answer that a refresh waits for, a copy while the directory is gone among them,
  -- changes the last error, which becomes its message, and the running refresh, which ends, and
  -- nothing else; a failed answer that it does not wait for changes nothing. So the repository, its
  -- URL, the fingerprint, the leases and the retired ones stay.
  pub continue_refresh-failure :
      (r : Refreshing) (a : Answer) (s : System) (message : String)
      → failure s.life.directory a ≡ some message
      → continue_refresh not_a_path r a s ≡ (
          if awaits r a
          then record s { life = record s.life { last_error = some message; refreshing = idle } }
          else s)
  unfolding continue_refresh take_source take_directory take_copy catch_refresh take_candidate
  continue_refresh-failure r a s message h = ground arith

  continue_refresh-to_go :
      (r : Refreshing) (a : Answer) (s : System)
      → s.life.refreshing ≡ r
      → to_go (continue_refresh not_a_path r a s).life.refreshing + (if awaits r a then 1 else 0)
        ≤ to_go r
  unfolding continue_refresh take_source take_directory take_copy catch_refresh take_candidate
      install retire_previous
  continue_refresh-to_go r a s h = ground arith

  -- The answers that were waited for when they came, among some events.
  abbrev pub awaited : List Event → System → ℕ
  awaited [] s = 0
  awaited (e ∷ es) s = (if is_awaited e s then 1 else 0) + awaited es (step not_a_path e s)

  step-to_go :
      (e : Event) (s : System)
      → to_go (step not_a_path e s).life.refreshing + (if is_awaited e s then 1 else 0)
        ≤ to_go s.life.refreshing + (if is_call e then 4 else 0)
  unfolding step refresh close close_directory lease_found lease end_read release
  step-to_go (answered a) s = omega (arith, continue_refresh-to_go s.life.refreshing a s refl)
  step-to_go e s = ground arith

  -- After any events, in any order and a close among them: the answers that refreshes have waited
  -- for and those that the running one still has to wait for are at most four for each call of
  -- refresh, on top of those that the one running at the start had to wait for.
  pub run-awaited :
      (es : List Event) (s : System)
      → to_go (run not_a_path es s).life.refreshing + awaited es s
        ≤ to_go s.life.refreshing + 4 * count is_call es
  unfolding run
  run-awaited [] s = omega arith
  run-awaited (e ∷ es) s = ground (arith, step-to_go e s, run-awaited es (step not_a_path e s))
