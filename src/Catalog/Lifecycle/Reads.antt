-- ===== src/Catalog/Lifecycle/Reads.antt =====
-- What a read may rely on while it runs, and what it gets after a refresh.
use hifld_next.Common.{
  ℕ, ◌<◌, String, Bool, true, false, ◌&&◌, eqb, if◌then◌else◌, List, [], ◌∷◌, any, count-append,
  Option, none, some, is_some, Result, ok, fail, ◌≡◌, refl, arith, Bool-cases, inl, inr,
}
use hifld_next.Catalog.Objects.{has, occurrences, has-occurrences, occurrences-remove_object}
use hifld_next.Catalog.Lifecycle.State.{
  System, Repository, SourceSnapshot, Opened, Refreshing, renaming, idle, new_system, status,
  snapshot,
}
use hifld_next.Catalog.Lifecycle.Events.{
  Event, Answer, source_found, directory_made, candidate_copied, candidate_opened, read_begins,
  refresh_called, closed, read_ends, answered, directory_removed, continue_refresh, step, run,
}
use hifld_next.Catalog.Lifecycle.Reading.{lease_found, lease, end_read, release, leased}
use hifld_next.Catalog.Lifecycle.Refresh.{
  refresh, close_directory, take_source, take_directory, take_copy, take_candidate, retire_previous,
  catch_refresh, install, is_fingerprint,
}
use hifld_next.Catalog.Lifecycle.Accounts.{
  IsAccounted, run-IsAccounted, step-IsAccounted, new_system-IsAccounted, occurrences-remove_one,
}

-- No repository that is being read is closed.
abbrev IsReadable : System → ℕ → Type 0
IsReadable s k = 0 < occurrences k s.reads → occurrences k s.closes ≡ 0

abbrev pub is_closed : Event → Bool
is_closed closed = true
is_closed _ = false

lease_found-IsReadable :
    (o : Option Repository) (s : System) (k : ℕ)
    → s.life.repository ≡ o
    → IsAccounted s k
    → IsReadable s k
    → IsReadable (lease_found o s) k
unfolding lease_found lease
lease_found-IsReadable none s k e a h = h
lease_found-IsReadable (some r) s k e a h = ground (arith, a, e)

release-IsReadable :
    (s : System) (j k : ℕ)
    → has j s.reads ≡ true
    → IsAccounted s j
    → IsReadable s k
    → IsReadable (release j s) k
unfolding release
release-IsReadable s j k read a h = ground (
  arith,
  a,
  has-occurrences j s.reads,
  occurrences-remove_one j k s.reads,
  count-append (λ i. eqb i k) s.closes (j ∷ []),
)

retire_previous-IsReadable :
    (previous : Option Repository) (s : System) (k : ℕ)
    → leased k s.life ≡ occurrences k s.reads
    → IsReadable s k
    → IsReadable (retire_previous previous s) k
unfolding retire_previous
retire_previous-IsReadable none s k a h = h
retire_previous-IsReadable (some r) s k a h =
    ground (arith, count-append (λ i. eqb i k) s.closes (r.object ∷ []))

module _ (not_a_path : String) where
  continue_refresh-IsReadable :
      (r : Refreshing) (a : Answer) (s : System) (k : ℕ)
      → leased k s.life ≡ occurrences k s.reads
      → IsReadable s k
      → IsReadable (continue_refresh not_a_path r a s) k
  unfolding continue_refresh take_source take_directory take_copy catch_refresh take_candidate
      install
  continue_refresh-IsReadable (renaming source) (candidate_opened (ok opened)) s k a h =
      retire_previous-IsReadable s.life.repository _ k a h
  continue_refresh-IsReadable r a s k leases h = ground arith

  step-IsReadable :
      (e : Event) (s : System) (k : ℕ)
      → is_closed e ≡ false
      → ((j : ℕ) → IsAccounted s j)
      → IsReadable s k
      → IsReadable (step not_a_path e s) k
  unfolding step refresh close_directory end_read
  step-IsReadable read_begins s k _ a h = lease_found-IsReadable s.life.repository s k refl (a k) h
  step-IsReadable (read_ends j) s k _ a h = elim (Bool-cases (has j s.reads)) [
    | inl pending ↦ rw pending (release-IsReadable s j k pending (a j) h)
    | inr none_pending ↦ rw none_pending h
  ]
  step-IsReadable (answered x) s k _ a h =
      continue_refresh-IsReadable s.life.refreshing x s k (a k).leases h
  step-IsReadable refresh_called s k _ a h = h
  step-IsReadable (directory_removed (ok tt)) s k _ a h = h
  step-IsReadable (directory_removed (fail message)) s k _ a h = h
  step-IsReadable closed s k e a h = cc

  run-IsReadable_from :
      (es : List Event) (s : System) (k : ℕ)
      → any is_closed es ≡ false
      → ((j : ℕ) → IsAccounted s j)
      → IsReadable s k
      → IsReadable (run not_a_path es s) k
  unfolding run
  run-IsReadable_from [] s k _ a h = h
  run-IsReadable_from (e ∷ es) s k kept a h = elim (Bool-cases (is_closed e)) [
    | inl shut ↦ absurd (ground arith)
    | inr other ↦
        run-IsReadable_from es (step not_a_path e s) k (ground arith)
          (λ j. step-IsAccounted not_a_path e s j a) (step-IsReadable e s k other a h)
  ]

  -- As long as the lifecycle is not closed, no repository that is being read has been closed,
  -- whatever the refreshes do meanwhile.
  pub run_reads_open :
      (es : List Event) (k : ℕ)
      → any is_closed es ≡ false
      → let s = run not_a_path es new_system in
        0 < occurrences k s.reads → occurrences k s.closes ≡ 0
  unfolding new_system
  run_reads_open es k kept =
      run-IsReadable_from es new_system k kept new_system-IsAccounted (ground arith)

  -- After any events, and then the end of a read: a repository that was retired has not been closed
  -- before; where the read was its last one, it is closed with it, once, and no longer retired; and
  -- where other reads of it are pending, it stays retired and open.
  pub run-closes_with_last :
      (es : List Event) (k : ℕ)
      → let s = run not_a_path es new_system in
        let after = step not_a_path (read_ends k) s in
        0 < occurrences k s.life.retired
        → (occurrences k s.closes ≡ 0)
          × (occurrences k after.closes ≡ (if eqb (occurrences k s.reads) 1 then 1 else 0))
          × (occurrences k after.life.retired ≡ (if eqb (occurrences k s.reads) 1 then 0 else 1))
  unfolding step end_read release
  run-closes_with_last es k h =
      let s = run not_a_path es new_system in
      let a = run-IsAccounted not_a_path es k in
      ground (
        arith,
        a,
        h,
        has-occurrences k s.reads,
        has-occurrences k s.life.retired,
        occurrences-remove_object k k s.life.retired,
        count-append (λ i. eqb i k) s.closes (k ∷ []),
      )

  abbrev pub refresh_run :
      Result SourceSnapshot → Result String → Result (Unit {0}) → Result Opened → List Event
  refresh_run found made copied opened =
      refresh_called
      ∷ answered (source_found found)
      ∷ answered (directory_made made)
      ∷ answered (candidate_copied copied)
      ∷ answered (candidate_opened opened)
      ∷ []

  -- Where no refresh runs, and the fingerprint is a new one or there is no repository: after a
  -- refresh whose answers all succeed, with no other event in between, reads get the repository
  -- made of the copied file with the URL of the source, and the status tells its generation, the
  -- time and no error.
  pub refresh_serves :
      (source : SourceSnapshot) (d : String) (opened : Opened) (s : System)
      → s.life.refreshing ≡ idle
      → is_fingerprint source.fingerprint s.life.fingerprint && is_some s.life.repository ≡ false
      → let after = run not_a_path (refresh_run (ok source) (ok d) (ok tt) (ok opened)) s in
        (snapshot after.life
          ≡ some (record {
            repository = record { object = s.made; catalog_generation = opened.catalog_generation };
            catalog_url = source.url;
            generation = opened.catalog_generation;
          }))
        × (status after.life ≡ record {
          generation = some opened.catalog_generation;
          last_successful_refresh = some opened.time;
          last_error = none;
        })
  unfolding run step refresh continue_refresh take_source take_directory take_copy catch_refresh
      take_candidate install retire_previous snapshot status
  refresh_serves source d opened s h changed = ground arith
