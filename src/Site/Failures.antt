-- ===== src/Site/Failures.antt =====
-- webapp/src/lib/interaction-analytics.ts: the failures of the page that are reported, each once for
-- a view of a page.
pub mod Bounded
use Prim.Native.String
use hifld_next.Common.{
  ℕ, String, Bool, true, false, not, ◌||◌, ◌&&◌, ◌==◌, leb, if◌then◌else◌, List, [], ◌∷◌, ◌++◌,
  length, includes, add, Option, none, some,
}
use hifld_next.Js.Patterns.{is_prefix, is_suffix, text_drop, text_length}
use hifld_next.Js.Paths.{to_slash}

-- `PageViewProperties`
pub record PageContext : Type 0 where
  pub collection_slug : Option String
  pub dataset_slug : Option String
  pub file_slug : Option String

abbrev pub no_context : PageContext
no_context = record { collection_slug = none; dataset_slug = none; file_slug = none }

-- A segment behind the given text, and the rest; none where it is not there or is empty.
unfoldable pub segment_after : String → String → Option (String × String)
unfolding is_prefix text_drop text_length to_slash
segment_after front path =
    let (segment, rest) = to_slash (text_drop (text_length front) path) in
    if is_prefix front path && not (segment == "") then some (segment, rest) else none

abbrev file_in : String → String → Option (String × String) → PageContext
file_in collection dataset none = record {
  collection_slug = some collection;
  dataset_slug = some dataset;
  file_slug = none;
}
file_in collection dataset (some (file, rest)) = record {
  collection_slug = some collection;
  dataset_slug = some dataset;
  file_slug = some file;
}

abbrev dataset_in : String → Option (String × String) → PageContext
dataset_in collection none = record {
  collection_slug = some collection;
  dataset_slug = none;
  file_slug = none;
}
dataset_in collection (some (dataset, rest)) =
    file_in collection dataset (segment_after "/files/" rest)

abbrev collection_in : Option (String × String) → PageContext
collection_in none = no_context
collection_in (some (collection, rest)) = dataset_in collection (segment_after "/datasets/" rest)

-- `/^\/collections\/([^/]+)(?:\/datasets\/([^/]+)(?:\/files\/([^/]+))?)?/` on the path of the page.
unfoldable pub current_dataset_context : String → PageContext
unfolding segment_after
current_dataset_context pathname = collection_in (segment_after "/collections/" pathname)

abbrev or_else : Option String → Option String → Option String
or_else none other = other
or_else (some s) other = some s

abbrev entry : String → Option String → List (String × String)
entry key none = []
entry key (some value) = (key, value) ∷ []

-- `/\/map\/?$/`
abbrev is_map : String → Bool
is_map pathname = is_suffix "/map" pathname || is_suffix "/map/" pathname

abbrev kind_of : Option String → Option String → String
kind_of none none = "other"
kind_of (some collection) none = "catalog"
kind_of collection (some dataset) = "dataset"

-- A status is a whole number, which `print` turns into text.
abbrev status_of : (ℕ → String) → Option ℕ → Option String
status_of print none = none
status_of print (some status) =
    if leb 100 status && leb status 599 then some (print status) else none

module _ (print : ℕ → String) where
  -- The entries that are not undefined.
  unfoldable pub failure_properties :
      String → String → PageContext → Option ℕ → String → List (String × String)
  unfolding current_dataset_context is_suffix
  failure_properties feature failure context http_status pathname =
      let page = current_dataset_context pathname in
      let route_kind =
        if is_map pathname then "map" else kind_of page.collection_slug page.dataset_slug in
      ("feature", feature)
      ∷ ("failure", failure)
      ∷ ("route_kind", route_kind)
      ∷ (entry "collection_slug" (or_else context.collection_slug page.collection_slug)
          ++ (entry "dataset_slug" (or_else context.dataset_slug page.dataset_slug)
              ++ (entry "file_slug" (or_else context.file_slug page.file_slug)
                  ++ entry "http_status" (status_of print http_status))))

-- `lastPath` and `reportedFailures`
pub record FailureTracking : Type 0 where
  pub last_path : String
  pub reported : List String

unfoldable pub reset_failure_tracking : String → FailureTracking
reset_failure_tracking pathname = record { last_path = pathname; reported = [] }

abbrev pub max_reported_failures : ℕ
max_reported_failures = 20

-- A call of `trackUiFailure`: what it is told, where the page is, whether there is a window that
-- allows analytics, whether there is a client, and whether its `capture` throws.
pub record FailureCall : Type 0 where
  pub feature : String
  pub failure : String
  pub context : PageContext
  pub http_status : Option ℕ
  pub pathname : String
  pub allowed : Bool
  pub has_client : Bool
  pub capture_throws : Bool

-- The state at the page of the call.
unfoldable pub at_page : String → FailureTracking → FailureTracking
at_page pathname s =
    if s.last_path == pathname then s else record { last_path = pathname; reported = [] }

abbrev pub prepend_key : Option String → List String → List String
prepend_key none keys = keys
prepend_key (some key) keys = key ∷ keys

module _ (print : ℕ → String) (stringify : List (String × String) → String) where
  abbrev pub key_of : FailureCall → String
  key_of call = stringify (
      failure_properties print call.feature call.failure call.context call.http_status
        call.pathname)

  -- The state after the call, and the key of what it captured.
  unfoldable pub track_ui_failure : FailureCall → FailureTracking → FailureTracking × Option String
  unfolding at_page failure_properties
  track_ui_failure call s =
      if not call.allowed || not call.has_client
      then (s, none)
      else let here = at_page call.pathname s in
        let key = key_of call in
        if includes here.reported key
          || leb max_reported_failures (length here.reported)
          || call.capture_throws
        then (here, none)
        else (record here { reported = add here.reported key }, some key)

  -- The state after some calls, and the keys of all that they captured.
  pub track_all : List FailureCall → FailureTracking → FailureTracking × List String
  track_all [] s = (s, [])
  track_all (call ∷ calls) s =
      let (s', captured) = track_ui_failure call s in
      let (s'', more) = track_all calls s' in (s'', prepend_key captured more)
