-- ===== src/Tests/CatalogRuns.antt =====
-- A catalog that is refreshed while it is read, a bad artifact, and a release.
use hifld_next.Common.{
  if◌then◌else◌, eqb, ◌+◌, ◌*◌, ◌≤◌, count, String, true, false, ◌&&◌, List, [], ◌∷◌, none, some,
  is_some, ok, fail, ◌≡◌, ◌↔◌, refl, arith,
}
use hifld_next.Js.Patterns.{is_prefix, is_suffix, text_take, text_drop, text_length}
use hifld_next.Catalog.Objects.{add_object, occurrences, set_count}
use hifld_next.Catalog.Lifecycle.State.{
  snapshot, status, SourceSnapshot, Opened, System, fetching, idle, new_lifecycle, new_system,
}
use hifld_next.Catalog.Lifecycle.Events.{
  closed, Event, source_found, directory_made, candidate_copied, candidate_opened, read_begins,
  refresh_called, read_ends, answered, run, step, continue_refresh,
}
use hifld_next.Catalog.Lifecycle.Refresh.{
  refresh, take_source, take_directory, take_copy, take_candidate, install, retire_previous,
  is_fingerprint,
}
use hifld_next.Catalog.Lifecycle.Reading.{lease, lease_found, end_read, release}
use hifld_next.Catalog.Lifecycle.Accounts.{IsAccounted, run-IsAccounted}
use hifld_next.Catalog.Lifecycle.Reads.{
  run_reads_open, refresh_run, refresh_serves, run-closes_with_last,
}
use hifld_next.Catalog.Lifecycle.Settling.{
  continue_refresh-failure, to_go, awaited, is_call, run-awaited,
}
use hifld_next.Catalog.Validation.{
  Database, CatalogValidation, IsCatalog, validate_catalog_database, validate_catalog_database_iff,
}
use hifld_next.Catalog.Source.{
  Web, Response, ReleasePointer, release_pointer, source_snapshot, pointer_snapshot, pointer_bytes,
  escapes_release, release_catalog_url,
}
use hifld_next.Catalog.Source.Laws.{IsAnnounced, source_snapshot-IsAnnounced}

abbrev not_a_path : String
not_a_path = "The \"path\" argument must be of type string."

abbrev first_source : SourceSnapshot
first_source = record { fingerprint = "one"; url = some "https://example.org/one" }

abbrev second_source : SourceSnapshot
second_source = record { fingerprint = "two"; url = some "https://example.org/two" }

abbrev first_opened : Opened
first_opened = record { catalog_generation = "g1"; time = "2026-01-01" }

abbrev second_opened : Opened
second_opened = record { catalog_generation = "g2"; time = "2026-01-02" }

-- A read of the first catalog is pending when the second one takes its place, and then ends.
abbrev swapped : List Event
swapped =
    refresh_called
    ∷ answered (source_found (ok first_source))
    ∷ answered (directory_made (ok "/tmp/c"))
    ∷ answered (candidate_copied (ok tt))
    ∷ answered (candidate_opened (ok first_opened))
    ∷ read_begins
    ∷ refresh_called
    ∷ answered (source_found (ok second_source))
    ∷ answered (candidate_copied (ok tt))
    ∷ answered (candidate_opened (ok second_opened))
    ∷ []

run-IsAccounted_example : IsAccounted (run not_a_path swapped new_system) 0
run-IsAccounted_example = run-IsAccounted not_a_path swapped 0

is_retired : occurrences 0 (run not_a_path swapped new_system).life.retired ≡ 1
unfolding run step new_system new_lifecycle lease lease_found end_read release refresh
    continue_refresh take_source take_directory take_copy take_candidate install retire_previous
    set_count add_object
is_retired = refl

run-closes_with_last_example :
    let s = run not_a_path swapped new_system in
    let after = step not_a_path (read_ends 0) s in
    (occurrences 0 s.closes ≡ 0)
    × (occurrences 0 after.closes ≡ (if eqb (occurrences 0 s.reads) 1 then 1 else 0))
    × (occurrences 0 after.life.retired ≡ (if eqb (occurrences 0 s.reads) 1 then 0 else 1))
run-closes_with_last_example = run-closes_with_last not_a_path swapped 0 (omega (arith, is_retired))

is_read : occurrences 0 (run not_a_path swapped new_system).reads ≡ 1
unfolding run step new_system new_lifecycle lease lease_found end_read release refresh
    continue_refresh take_source take_directory take_copy take_candidate install retire_previous
    set_count
is_read = refl

run_reads_open_example : occurrences 0 (run not_a_path swapped new_system).closes ≡ 0
run_reads_open_example = run_reads_open not_a_path swapped 0 refl (omega (arith, is_read))

abbrev failing : System
failing = run not_a_path (refresh_called ∷ []) new_system

continue_refresh-failure_example :
    continue_refresh not_a_path fetching (source_found (fail "503")) failing
    ≡ record failing { life = record failing.life { last_error = some "503"; refreshing = idle } }
continue_refresh-failure_example =
    continue_refresh-failure not_a_path fetching (source_found (fail "503")) failing "503" refl

abbrev closed_meanwhile : List Event
closed_meanwhile = refresh_called ∷ answered (source_found (ok first_source)) ∷ closed ∷ []

run-awaited_example :
    to_go (run not_a_path closed_meanwhile new_system).life.refreshing
      + awaited not_a_path closed_meanwhile new_system
    ≤ to_go new_system.life.refreshing + 4 * count is_call closed_meanwhile
run-awaited_example = run-awaited not_a_path closed_meanwhile new_system

is_changed :
    is_fingerprint first_source.fingerprint new_system.life.fingerprint
      && is_some new_system.life.repository
    ≡ false
unfolding new_system new_lifecycle
is_changed = refl

is_idle : new_system.life.refreshing ≡ idle
unfolding new_system new_lifecycle
is_idle = refl

refresh_serves_example :
    let after =
      run not_a_path
        (refresh_run not_a_path (ok first_source) (ok "/tmp/c") (ok tt) (ok first_opened))
        new_system in
    (snapshot after.life
      ≡ some (record {
        repository = record {
          object = new_system.made;
          catalog_generation = first_opened.catalog_generation;
        };
        catalog_url = first_source.url;
        generation = first_opened.catalog_generation;
      }))
    × (status after.life ≡ record {
      generation = some first_opened.catalog_generation;
      last_successful_refresh = some first_opened.time;
      last_error = none;
    })
refresh_serves_example =
    refresh_serves not_a_path first_source "/tmp/c" first_opened new_system is_idle is_changed

abbrev database : Database
database = record {
  application_id = ok 1212761676;
  user_version = ok 2;
  quick_check = ok "ok";
  metadata_row = some (
      ok (record {
        schema_version = 2;
        catalog_generation = "g1";
        created_at = "2026-01-01";
        portolan_profile_uri = "p";
        root_href = "r";
        root_title = "t";
      }));
}

abbrev validation : CatalogValidation
validation = record { generation = "g1"; created_at = "2026-01-01" }

validate_catalog_database_iff_example :
    (validate_catalog_database database ≡ ok validation) ↔ IsCatalog database validation
validate_catalog_database_iff_example = validate_catalog_database_iff database validation

-- A store whose bytes are texts and whose URLs are their paths.
abbrev web : Web
web = record {
  Bytes = String;
  byte_length = text_length;
  sha256 = λ bytes. bytes;
  Url = String;
  new_url = λ text. ok text;
  pathname = λ url. url;
  href_at = λ url path. path;
  lower_case = λ text. text;
  show_status = λ n. "0";
  show_number = λ n. "0";
  parse_length = λ text. ok (text_length text);
}

abbrev pointer : ReleasePointer
pointer = record {
  generation = "g";
  catalog_key = "releases/g/_catalog/catalog.sqlite";
  root_key = "releases/g/catalog.json";
  sha256 = "abc";
  size_bytes = 3;
}

abbrev pointer_response : Response ReleasePointer
pointer_response = record { is_ok = true; status = 200; header = λ name. none; body = ok pointer }

abbrev catalog_response : Response String
catalog_response = record { is_ok = true; status = 200; header = λ name. none; body = ok "abc" }

abbrev pointer_source : SourceSnapshot
pointer_source = record {
  fingerprint = "g:abc";
  url = some "/data/releases/g/_catalog/catalog.sqlite";
}

is_snapshot :
    pointer_snapshot web "/data/_catalog/current.json" pointer_response
    ≡ ok (pointer, pointer_source)
unfolding pointer_snapshot escapes_release release_catalog_url is_prefix is_suffix text_take
    text_drop text_length
is_snapshot = refl

is_source :
    source_snapshot web (release_pointer "/data/_catalog/current.json" pointer_response)
    ≡ ok (pointer_source, some (pointer_bytes web pointer))
unfolding source_snapshot pointer_snapshot escapes_release release_catalog_url is_prefix is_suffix
    text_take text_drop text_length
is_source = refl

is_written : pointer_bytes web pointer catalog_response ≡ ok "abc"
unfolding pointer_bytes text_length
is_written = refl

source_snapshot-IsAnnounced_example :
    IsAnnounced web (release_pointer "/data/_catalog/current.json" pointer_response) "abc"
source_snapshot-IsAnnounced_example =
    source_snapshot-IsAnnounced web (release_pointer "/data/_catalog/current.json" pointer_response)
      pointer_source (pointer_bytes web pointer) catalog_response "abc" is_source is_written
