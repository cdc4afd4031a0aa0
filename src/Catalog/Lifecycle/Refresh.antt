-- ===== src/Catalog/Lifecycle/Refresh.antt =====
-- `refresh`, `#refreshImpl` and `close` of `CatalogLifecycle`.
use hifld_next.Common.{
  ℕ, ◌+◌, String, Bool, false, ◌&&◌, ◌==◌, eqb, if◌then◌else◌, List, [], ◌∷◌, ◌++◌, Option, none,
  some, is_some, Result, ok, fail,
}
use hifld_next.Catalog.Objects.{add_object}
use hifld_next.Catalog.Lifecycle.State.{
  Repository, SourceSnapshot, Refreshing, idle, fetching, making_directory, copying, renaming,
  CatalogLifecycle, System, Opened,
}
use hifld_next.Catalog.Lifecycle.Reading.{leased}

abbrev with_refreshing : Refreshing → CatalogLifecycle → CatalogLifecycle
with_refreshing r l = record l { refreshing = r }

-- `refresh`, which starts `#refreshImpl` where none runs.
unfoldable pub refresh : CatalogLifecycle → CatalogLifecycle
refresh l = elim l.refreshing [ idle ↦ with_refreshing fetching l | _ ↦ l ]

-- The `catch` of `#refreshImpl`.
unfoldable pub catch_refresh : String → CatalogLifecycle → CatalogLifecycle
catch_refresh message l = record l { last_error = some message; refreshing = idle }

abbrev pub is_fingerprint : String → Option String → Bool
is_fingerprint f none = false
is_fingerprint f (some g) = f == g

-- `#refreshImpl` after `#sourceSnapshot`.
unfoldable pub take_source : Result SourceSnapshot → CatalogLifecycle → CatalogLifecycle
take_source (fail message) l = catch_refresh message l
take_source (ok source) l =
    if is_fingerprint source.fingerprint l.fingerprint && is_some l.repository
    then with_refreshing idle l
    else elim l.directory [
      | none ↦ with_refreshing (making_directory source) l
      | some d ↦ with_refreshing (copying source) l
    ]

-- `#refreshImpl` after `mkdtemp`.
unfoldable pub take_directory : SourceSnapshot → Result String → CatalogLifecycle → CatalogLifecycle
take_directory source (fail message) l = catch_refresh message l
take_directory source (ok d) l = record l { directory = some d; refreshing = copying source }

-- `#refreshImpl` after `write` and the validation. `join` throws where the directory is gone.
unfoldable pub take_copy :
    String → SourceSnapshot → Result (Unit {0}) → CatalogLifecycle → CatalogLifecycle
take_copy not_a_path source (fail message) l = catch_refresh message l
take_copy not_a_path source (ok tt) l = elim l.directory [
  | none ↦ catch_refresh not_a_path l
  | some d ↦ with_refreshing (renaming source) l
]

-- What becomes of the repository that was active.
unfoldable pub retire_previous : Option Repository → System → System
retire_previous none s = s
retire_previous (some previous) s =
    if eqb (leased previous.object s.life) 0
    then record s { closes = s.closes ++ previous.object ∷ [] }
    else record s { life = record s.life { retired = add_object previous.object s.life.retired } }

-- `#refreshImpl` after `rename`: the repository of the renamed file is the active one.
unfoldable pub install : SourceSnapshot → Opened → System → System
install source opened s = retire_previous s.life.repository (record s {
  life = record s.life {
    repository = some (record { object = s.made; catalog_generation = opened.catalog_generation });
    fingerprint = some source.fingerprint;
    active_url = source.url;
    last_successful_refresh = some opened.time;
    last_error = none;
    refreshing = idle;
  };
  made = s.made + 1;
})

unfoldable pub take_candidate : SourceSnapshot → Result Opened → System → System
take_candidate source (fail message) s = record s { life = catch_refresh message s.life }
take_candidate source (ok opened) s = install source opened s

abbrev pub closed_active : Option Repository → List ℕ
closed_active none = []
closed_active (some r) = r.object ∷ []

-- `close` up to its `await` of `rm`, and what follows it.
unfoldable pub close : System → System
close s = record s {
  closes = (s.closes ++ closed_active s.life.repository) ++ s.life.retired;
  life = record s.life { retired = []; repository = none };
}

unfoldable pub close_directory : Result (Unit {0}) → CatalogLifecycle → CatalogLifecycle
close_directory (fail message) l = l
close_directory (ok tt) l = record l { directory = none }
