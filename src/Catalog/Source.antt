-- ===== src/Catalog/Source.antt =====
-- `#sourceSnapshot` and `releaseCatalogUrl` of webapp/src/lib/catalog-repository.ts: where a catalog
-- file comes from, and what must hold of the bytes before they are written.
pub mod Laws
use Prim.Native.String
use hifld_next.Common.{
  ℕ, ◌-◌, String, Bool, not, ◌||◌, ◌==◌, eqb, List, [], ◌∷◌, Option, none, some, get_or, concat,
  Result, ok, fail, fail_if, ◌>>=◌, ◌>>◌,
}
use hifld_next.Js.Patterns.{is_prefix, is_suffix, text_take, text_length}
use hifld_next.Catalog.Lifecycle.State.{SourceSnapshot}

-- What the platform and its libraries give: the bytes with their SHA-256 in hexadecimal, the URLs,
-- `toLowerCase`, a status as text, and the number that a header states.
pub record Web : Type 1 where
  pub Bytes : Type 0
  pub byte_length : Bytes → ℕ
  pub sha256 : Bytes → String
  pub Url : Type 0
  pub new_url : String → Result Url
  pub pathname : Url → String
  -- The text of the URL with this path, no query and no fragment.
  pub href_at : Url → String → String
  pub lower_case : String → String
  pub show_status : ℕ → String
  pub show_number : ℕ → String
  pub parse_length : String → Result ℕ

-- A response, with its body as it was read.
pub record Response (B : Type 0) : Type 0 where
  pub is_ok : Bool
  pub status : ℕ
  pub header : String → Option String
  pub body : Result B

-- The fields of a release pointer that the code reads.
pub record ReleasePointer : Type 0 where
  pub generation : String
  pub catalog_key : String
  pub root_key : String
  pub sha256 : String
  pub size_bytes : ℕ

-- A catalog by HEAD: what its headers announce.
pub record Announced : Type 0 where
  pub etag : String
  pub length : ℕ
  pub sha256 : String

abbrev pub release_prefix : ReleasePointer → String
release_prefix pointer = concat ("releases/" ∷ pointer.generation ∷ "/" ∷ [])

unfoldable pub escapes_release : ReleasePointer → Bool
escapes_release pointer =
    not (is_prefix (release_prefix pointer) pointer.catalog_key)
    || not (pointer.catalog_key == concat (release_prefix pointer ∷ "_catalog/catalog.sqlite" ∷ []))
    || not (pointer.root_key == concat (release_prefix pointer ∷ "catalog.json" ∷ []))

abbrev pub pointer_suffix : String
pointer_suffix = "/_catalog/current.json"

-- `pathname.slice(0, -suffix.length + 1)`
abbrev pub root_path : String → String
root_path path = text_take (text_length path - (text_length pointer_suffix - 1)) path

module _ (web : Web) where
  unfoldable pub release_catalog_url : String → String → Result String
  release_catalog_url pointer_url catalog_key = do
    pointer ← web.new_url pointer_url
    fail_if (not (is_suffix pointer_suffix (web.pathname pointer)))
        "Catalog release pointer URL must end with /_catalog/current.json"
    ok (web.href_at pointer (concat (root_path (web.pathname pointer) ∷ catalog_key ∷ [])))

  -- The pointer of a response, and the snapshot that it stands for.
  unfoldable pub pointer_snapshot :
      String → Response ReleasePointer → Result (ReleasePointer × SourceSnapshot)
  pointer_snapshot source_url response = do
    fail_if (not response.is_ok)
        (concat ("Catalog release pointer fetch failed: " ∷ web.show_status response.status ∷ []))
    pointer ← response.body
    fail_if (escapes_release pointer) "Catalog release pointer escapes its selected release"
    catalog_url ← release_catalog_url source_url pointer.catalog_key
    ok (
      pointer,
      record {
        fingerprint =
            get_or (response.header "etag")
              (concat (pointer.generation ∷ ":" ∷ pointer.sha256 ∷ []));
        url = some catalog_url;
      },
    )

  -- The bytes that `write` writes, of a release pointer.
  unfoldable pub pointer_bytes : ReleasePointer → Response web.Bytes → Result web.Bytes
  pointer_bytes pointer catalog = do
    fail_if (not catalog.is_ok)
        (concat ("Catalog release download failed: " ∷ web.show_status catalog.status ∷ []))
    bytes ← catalog.body
    fail_if (not (eqb (web.byte_length bytes) pointer.size_bytes))
        "Catalog release content length does not match pointer"
    fail_if (not (web.sha256 bytes == pointer.sha256))
        "Catalog release checksum does not match pointer"
    ok bytes

  -- `a ?? b` of two headers
  abbrev either_header : Option String → Option String → Option String
  either_header none b = b
  either_header (some a) b = some a

  -- `!value`, of a header
  abbrev given : Option String → Result String
  given none = fail "Catalog SQLite metadata must include ETag, content length, and SHA-256"
  given (some s) =
      fail_if (s == "") "Catalog SQLite metadata must include ETag, content length, and SHA-256"
      >> ok s

  unfoldable pub head_announced : Response (Unit {0}) → Result Announced
  head_announced head = do
    fail_if (not head.is_ok)
        (concat ("Catalog SQLite HEAD failed: " ∷ web.show_status head.status ∷ []))
    etag ← given (head.header "etag")
    content_length ← given (head.header "content-length")
    sha256 ←
        given (either_header (head.header "x-goog-meta-sha256") (head.header "x-amz-meta-sha256"))
    length ← web.parse_length content_length
    ok (record { etag = etag; length = length; sha256 = sha256 })

  unfoldable pub url_bytes : Announced → Response web.Bytes → Result web.Bytes
  url_bytes announced response = do
    fail_if (eqb response.status 412) "Catalog SQLite changed during download"
    fail_if (not response.is_ok)
        (concat ("Catalog SQLite download failed: " ∷ web.show_status response.status ∷ []))
    bytes ← response.body
    fail_if (not (eqb (web.byte_length bytes) announced.length))
        "Catalog SQLite content length does not match metadata"
    fail_if (not (web.sha256 bytes == web.lower_case announced.sha256))
        "Catalog SQLite checksum does not match metadata"
    ok bytes

  -- The snapshot of a source of each kind, with the test of the bytes where there are bytes to test.
  -- The stamp of a file is its size and its time of change.
  pub data Fetched : Type 0 where
    file_stat : ℕ → ℕ → Fetched
    url_head : String → Response (Unit {0}) → Fetched
    release_pointer : String → Response ReleasePointer → Fetched

  unfoldable pub source_snapshot :
      Fetched → Result (SourceSnapshot × Option (Response web.Bytes → Result web.Bytes))
  source_snapshot (file_stat size time) = ok (
    record {
      fingerprint = concat (web.show_number size ∷ ":" ∷ web.show_number time ∷ []);
      url = none;
    },
    none,
  )
  source_snapshot (url_head url head) = do
    announced ← head_announced head
    ok (record { fingerprint = announced.etag; url = some url }, some (url_bytes announced))
  source_snapshot (release_pointer url response) = do
    (pointer, source) ← pointer_snapshot url response
    ok (source, some (pointer_bytes pointer))
