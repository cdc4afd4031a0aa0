-- ===== src/Catalog/Lifecycle/Accounts.antt =====
-- Where each repository stands: active, retired or closed.
use hifld_next.Common.{
  ℕ, ◌+◌, ◌-◌, ◌≤◌, ◌<◌, String, true, eqb, eqb_iff, ltb, if◌then◌else◌, List, [], ◌∷◌, ◌++◌,
  count-append, Option, none, some, get_or, Result, ok, fail, ◌≡◌, refl, ap, arith, Bool-cases, ◌⊎◌,
  inl, inr,
}
use hifld_next.Catalog.Objects.{
  has, occurrences, get_count, get_count-set_count, get_count-delete_count, has-occurrences,
  occurrences-add_object, occurrences-remove_object,
}
use hifld_next.Catalog.Lifecycle.State.{
  System, Repository, SourceSnapshot, Opened, new_system, Refreshing, renaming,
}
use hifld_next.Catalog.Lifecycle.Events.{
  Event, continue_refresh, Answer, candidate_opened, read_begins, refresh_called, closed, read_ends,
  answered, directory_removed, step, run,
}
use hifld_next.Catalog.Lifecycle.Reading.{lease, lease_found, end_read, release, leased, remove_one}
use hifld_next.Catalog.Lifecycle.Refresh.{
  refresh, close, close_directory, catch_refresh, take_source, take_directory, take_copy,
  take_candidate, retire_previous, install, closed_active,
}

-- The account of one object: it is the active repository, a retired one or a closed one, once, if it
-- has been made; a retired one is being read; and the leases count the reads.
pub record IsAccounted (s : System) (k : ℕ) : Type 0 where
  pub owned :
      occurrences k (closed_active s.life.repository)
        + occurrences k s.life.retired
        + occurrences k s.closes
      ≡ (if ltb k s.made then 1 else 0)
  pub retired : occurrences k s.life.retired ≤ occurrences k s.reads
  pub leases : leased k s.life ≡ occurrences k s.reads

pub new_system-IsAccounted : (k : ℕ) → IsAccounted new_system k
unfolding new_system
new_system-IsAccounted k = ground arith

lease-IsAccounted :
    (r : Repository) (s : System) (k : ℕ) → ((j : ℕ) → IsAccounted s j) → IsAccounted (lease r s) k
unfolding lease
lease-IsAccounted r s k h = ground (
  arith,
  h k,
  h r.object,
  get_count-set_count r.object k (leased r.object s.life + 1) s.life.leases,
)

lease_found-IsAccounted :
    (o : Option Repository) (s : System) (k : ℕ)
    → ((j : ℕ) → IsAccounted s j)
    → IsAccounted (lease_found o s) k
unfolding lease_found
lease_found-IsAccounted none s k h = h k
lease_found-IsAccounted (some r) s k h = lease-IsAccounted r s k h

pub occurrences-remove_one :
    (k j : ℕ) (s : List ℕ)
    → occurrences j (remove_one k s) ≡ (if eqb k j then occurrences j s - 1 else occurrences j s)
occurrences-remove_one k j [] = ground arith
occurrences-remove_one k j (x ∷ xs) = ground (arith, occurrences-remove_one k j xs)

release-IsAccounted :
    (s : System) (j k : ℕ)
    → has j s.reads ≡ true
    → ((k : ℕ) → IsAccounted s k)
    → IsAccounted (release j s) k
unfolding release
release-IsAccounted s j k read h = ground (
  arith,
  h k,
  h j,
  has-occurrences j s.reads,
  has-occurrences j s.life.retired,
  occurrences-remove_one j k s.reads,
  occurrences-remove_object j k s.life.retired,
  count-append (λ i. eqb i k) s.closes (j ∷ []),
  get_count-delete_count j k s.life.leases,
  get_count-set_count j k (get_or (get_count j s.life.leases) 1 - 1) s.life.leases,
)

-- The account while the repository that was active is neither retired nor closed yet.
record IsOwing (previous : Option Repository) (s : System) (k : ℕ) : Type 0 where
  owned :
      occurrences k (closed_active s.life.repository)
        + occurrences k s.life.retired
        + occurrences k s.closes
        + occurrences k (closed_active previous)
      ≡ (if ltb k s.made then 1 else 0)
  retired : occurrences k s.life.retired ≤ occurrences k s.reads
  leases : leased k s.life ≡ occurrences k s.reads

retire_previous-IsAccounted :
    (previous : Option Repository) (s : System) (k : ℕ)
    → ((j : ℕ) → IsOwing previous s j)
    → IsAccounted (retire_previous previous s) k
unfolding retire_previous
retire_previous-IsAccounted none s k h = let o = h k in ground arith
retire_previous-IsAccounted (some r) s k h = ground (
  arith,
  h k,
  h r.object,
  occurrences-add_object r.object k s.life.retired,
  count-append (λ i. eqb i k) s.closes (r.object ∷ []),
)

install-IsAccounted :
    (source : SourceSnapshot) (opened : Opened) (s : System) (k : ℕ)
    → ((j : ℕ) → IsAccounted s j)
    → IsAccounted (install source opened s) k
unfolding install
install-IsAccounted source opened s k h =
    retire_previous-IsAccounted s.life.repository _ k (λ j. ground (arith, h j, h s.made))

close-IsAccounted : (s : System) (k : ℕ) → IsAccounted s k → IsAccounted (close s) k
unfolding close
close-IsAccounted s k h = ground (
  arith,
  count-append (λ i. eqb i k) s.closes (closed_active s.life.repository),
  count-append (λ i. eqb i k) (s.closes ++ closed_active s.life.repository) s.life.retired,
)

take_candidate-IsAccounted :
    (source : SourceSnapshot) (r : Result Opened) (s : System) (k : ℕ)
    → ((j : ℕ) → IsAccounted s j)
    → IsAccounted (take_candidate source r s) k
unfolding take_candidate catch_refresh
take_candidate-IsAccounted source (fail message) s k h = ground (arith, h k)
take_candidate-IsAccounted source (ok opened) s k h = install-IsAccounted source opened s k h

is_active :
    (k : ℕ) (o : Option Repository)
    → (closed_active o ≡ k ∷ []) ⊎ (occurrences k (closed_active o) ≡ 0)
is_active k none = inr refl
is_active k (some r) = elim (Bool-cases (eqb r.object k)) [
  | inl same ↦ inl (ap (λ i. i ∷ []) ((eqb_iff r.object k).0 same))
  | inr other ↦ inr (rw other refl)
]

module _ (not_a_path : String) where
  continue_refresh-IsAccounted :
      (r : Refreshing) (a : Answer) (s : System) (k : ℕ)
      → ((j : ℕ) → IsAccounted s j)
      → IsAccounted (continue_refresh not_a_path r a s) k
  unfolding continue_refresh take_source take_directory take_copy catch_refresh
  continue_refresh-IsAccounted (renaming source) (candidate_opened r) s k h =
      take_candidate-IsAccounted source r s k h
  continue_refresh-IsAccounted r a s k h = ground (arith, h k)

  pub step-IsAccounted :
      (e : Event) (s : System) (k : ℕ)
      → ((j : ℕ) → IsAccounted s j)
      → IsAccounted (step not_a_path e s) k
  unfolding step refresh close_directory end_read
  step-IsAccounted read_begins s k h = lease_found-IsAccounted s.life.repository s k h
  step-IsAccounted (read_ends j) s k h = elim (Bool-cases (has j s.reads)) [
    | inl pending ↦ rw pending (release-IsAccounted s j k pending h)
    | inr none_pending ↦ rw none_pending (h k)
  ]
  step-IsAccounted closed s k h = close-IsAccounted s k (h k)
  step-IsAccounted (answered a) s k h = continue_refresh-IsAccounted s.life.refreshing a s k h
  step-IsAccounted refresh_called s k h = ground (arith, h k)
  step-IsAccounted (directory_removed r) s k h = ground (arith, h k)

  run-IsAccounted_from :
      (es : List Event) (s : System) (k : ℕ)
      → ((j : ℕ) → IsAccounted s j)
      → IsAccounted (run not_a_path es s) k
  unfolding run
  run-IsAccounted_from [] s k h = h k
  run-IsAccounted_from (e ∷ es) s k h =
      run-IsAccounted_from es (step not_a_path e s) k (λ j. step-IsAccounted e s j h)

  -- After any sequence of events, each repository object that was made is exactly one of the active
  -- one, a retired one or a closed one, and was closed at most once; one that was not made is none
  -- of them; every retired one is being read; and the leases of each count its pending reads.
  pub run-IsAccounted : (es : List Event) (k : ℕ) → IsAccounted (run not_a_path es new_system) k
  run-IsAccounted es k = run-IsAccounted_from es new_system k new_system-IsAccounted

  -- Whenever no read is pending, each repository object that was made is the active one or has been
  -- closed, once.
  pub run_leaks_none :
      (es : List Event) (k : ℕ)
      → let s = run not_a_path es new_system in
        s.reads ≡ []
        → k < s.made
        → (closed_active s.life.repository ≡ k ∷ []) ⊎ (occurrences k s.closes ≡ 1)
  run_leaks_none es k unread h =
      let s = run not_a_path es new_system in
      let a = run-IsAccounted es k in
      elim (is_active k s.life.repository) [
        | inl active ↦ inl active
        | inr other ↦ inr (ground (arith, a, ap (occurrences k) unread))
      ]
