-- ===== src/Catalog/Lifecycle/Events.antt =====
-- What may happen to a `CatalogLifecycle`, in any order.
use hifld_next.Common.{ℕ, String, List, [], ◌∷◌, Result}
use hifld_next.Catalog.Lifecycle.State.{
  SourceSnapshot, Refreshing, fetching, making_directory, copying, renaming, CatalogLifecycle,
  System, Opened,
}
use hifld_next.Catalog.Lifecycle.Reading.{begin_read, end_read}
use hifld_next.Catalog.Lifecycle.Refresh.{
  refresh, take_source, take_directory, take_copy, take_candidate, close, close_directory,
}

-- What `#refreshImpl` waits for.
pub data Answer : Type 0 where
  source_found : Result SourceSnapshot → Answer
  directory_made : Result String → Answer
  candidate_copied : Result (Unit {0}) → Answer
  candidate_opened : Result Opened → Answer

-- What the requests, the timer of the refreshes and the files bring about.
pub data Event : Type 0 where
  read_begins refresh_called closed : Event
  read_ends : ℕ → Event
  answered : Answer → Event
  directory_removed : Result (Unit {0}) → Event

abbrev with_life : CatalogLifecycle → System → System
with_life l s = record s { life = l }

module _ (not_a_path : String) where
  -- An answer that `#refreshImpl` does not wait for does not come.
  unfoldable pub continue_refresh : Refreshing → Answer → System → System
  continue_refresh fetching (source_found r) s = with_life (take_source r s.life) s
  continue_refresh (making_directory source) (directory_made r) s =
      with_life (take_directory source r s.life) s
  continue_refresh (copying source) (candidate_copied r) s =
      with_life (take_copy not_a_path source r s.life) s
  continue_refresh (renaming source) (candidate_opened r) s = take_candidate source r s
  continue_refresh _ _ s = s

  unfoldable pub step : Event → System → System
  step read_begins s = begin_read s
  step (read_ends k) s = end_read k s
  step refresh_called s = with_life (refresh s.life) s
  step closed s = close s
  step (answered a) s = continue_refresh s.life.refreshing a s
  step (directory_removed r) s = with_life (close_directory r s.life) s

  unfoldable pub run : List Event → System → System
  run [] s = s
  run (e ∷ es) s = run es (step e s)
