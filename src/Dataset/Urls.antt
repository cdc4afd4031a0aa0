-- ===== src/Dataset/Urls.antt =====
-- webapp/src/components/dataset/sourceUrls.ts: the address of a source's file and of its storage.
use hifld_next.Common.{
  String, Bool, false, not, ◌||◌, ◌&&◌, ◌==◌, if◌then◌else◌, List, [], ◌∷◌, concat, Option, none,
  some, get_or,
}
use hifld_next.Js.Patterns.{has_code, is_prefix, text_drop}
use hifld_next.Js.Paths.{split, strip_leading, strip_trailing, up_to_last_slash, uri_root}
use hifld_next.Dataset.Sources.{
  DatasetSource, Location, file_location, api_location, SourceType, StorageConfig,
}

-- Of a condition on a text that may be missing: there, and not empty.
abbrev pub given : Option String → Bool
given none = false
given (some s) = not (s == "")

unfoldable pub join_url_path : String → String → String
unfolding strip_trailing strip_leading
join_url_path base_url path = concat (strip_trailing base_url ∷ "/" ∷ strip_leading path ∷ [])

unfoldable pub build_bucket_file_url : String → String → StorageConfig → String
unfolding join_url_path
build_bucket_file_url base_url path config =
    if get_or config.storage_type "" == "seaweedfs" && not (config.bucket == "")
    then join_url_path base_url (concat (config.bucket ∷ "/" ∷ path ∷ []))
    else join_url_path base_url path

-- `text.replace(/^\./, "")`
unfoldable pub strip_dot : String → String
strip_dot s = if is_prefix "." s then text_drop 1 s else s

unfoldable pub path_to_glob : String → String → String
unfolding strip_leading up_to_last_slash strip_dot
path_to_glob path extension =
    let clean_path = strip_leading path in
    if has_code b'*' clean_path
    then clean_path
    else concat (up_to_last_slash clean_path ∷ "*." ∷ strip_dot extension ∷ [])

-- `storageUri.split("?")`, the first two parts.
abbrev query_of : List String → String
query_of [] = ""
query_of (uri ∷ []) = ""
query_of (uri ∷ query ∷ more) = query

abbrev uri_of : List String → String
uri_of [] = ""
uri_of (uri ∷ more) = uri

abbrev at_root : String → String → String → Option String → String
at_root storage_uri query path none = storage_uri
at_root storage_uri query path (some root) =
    let next_uri = concat (root ∷ "/" ∷ strip_leading path ∷ []) in
    if query == "" then next_uri else concat (next_uri ∷ "?" ∷ query ∷ [])

unfoldable pub replace_storage_uri_path : String → String → String
unfolding split uri_root
replace_storage_uri_path storage_uri path =
    let parts = split b'?' storage_uri in
    if uri_of parts == ""
    then storage_uri
    else at_root storage_uri (query_of parts) path (uri_root (uri_of parts))

-- `source.storage_location?.config`
abbrev pub config_of : DatasetSource → Option StorageConfig
config_of source = elim source.storage_location [ none ↦ none | some l ↦ l.config ]

-- The last steps of `buildSourceFileUrl`, for a file with a path.
abbrev bucket_url : String → Option String → Option StorageConfig → Option String
bucket_url path url none = url
bucket_url path url (some config) =
    if config.base_url == "" then url else some (build_bucket_file_url config.base_url path config)

abbrev file_url : SourceType → Option String → Option StorageConfig → Location → Option String
file_url SourceType.api url config (api_location address) = some address
file_url SourceType.file url config (api_location address) = url
file_url SourceType.api url config (file_location path) = url
file_url SourceType.file url config (file_location path) =
    if path == "" || has_code b'*' path then none else bucket_url path url config

unfoldable pub build_source_file_url : DatasetSource → Option String
unfolding build_bucket_file_url
build_source_file_url source =
    if given source.asset_key
    then source.url
    else file_url source.source_type source.url (config_of source) source.location

-- The last steps of `buildSourceStorageUri`, for the path of the address.
abbrev config_uri : String → Option StorageConfig → Option String
config_uri uri_path none = none
config_uri uri_path (some config) =
    let is_gcs = get_or config.storage_type "" == "gcs" in
    let uri =
      concat ((if is_gcs then "gs" else "s3") ∷ "://" ∷ config.bucket ∷ "/" ∷ uri_path ∷ []) in
    let endpoint = get_or config.endpoint_url "" in
    if config.bucket == ""
    then none
    else some (
        if not (endpoint == "") && not is_gcs
        then concat (uri ∷ "?endpoint_url=" ∷ endpoint ∷ [])
        else uri)

abbrev uri_of_path : Option String → Option StorageConfig → String → Option String
uri_of_path none config uri_path = config_uri uri_path config
uri_of_path (some storage_uri) config uri_path =
    if storage_uri == ""
    then config_uri uri_path config
    else some (replace_storage_uri_path storage_uri uri_path)

-- `globExtension`, where it is missing or empty, leaves the path.
abbrev uri_path_of : Option String → String → String
uri_path_of none path = strip_leading path
uri_path_of (some extension) path =
    if extension == "" then strip_leading path else path_to_glob path extension

abbrev storage_uri_of :
    Option String → SourceType → Option String → Option StorageConfig → Location → Option String
storage_uri_of glob_extension SourceType.file storage_uri config (file_location path) =
    if path == "" then none else uri_of_path storage_uri config (uri_path_of glob_extension path)
storage_uri_of glob_extension _ storage_uri config _ = storage_uri

unfoldable pub build_source_storage_uri : DatasetSource → Option String → Option String
unfolding path_to_glob replace_storage_uri_path
build_source_storage_uri source glob_extension =
    storage_uri_of glob_extension source.source_type source.storage_uri (config_of source)
      source.location
