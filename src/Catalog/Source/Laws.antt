-- ===== src/Catalog/Source/Laws.antt =====
-- The bytes that are written are those that were announced, and a release stays below its root.
use Prim.Native.String
use Prim.Native.String.{[], ◌∷◌}
use text.Mathlib.TextLemmas.{nil-append, append-nil, cons-append, append_assoc}
use hifld_next.Common.{
  ℕ, zero, suc, ◌+◌, String, false, not, ◌==◌, eq_iff, eqb, [], ◌∷◌, some, concat, Result, ok,
  >>=-eq-ok, fail_if->>-eq-ok, ok_inj, ◌≡◌, refl, sym, ap, ◌∙◌, arith,
}
use hifld_next.Js.Patterns.{is_suffix, text_take, text_length}
use hifld_next.Catalog.Lifecycle.State.{SourceSnapshot}
use hifld_next.Catalog.Source.{
  Web, Response, ReleasePointer, Announced, release_prefix, escapes_release, pointer_suffix,
  root_path, release_catalog_url, pointer_snapshot, pointer_bytes, url_bytes, head_announced,
  Fetched, file_stat, url_head, release_pointer, source_snapshot,
}

some_inj : {A : Type 0} {a b : A} → some a ≡ some b → a ≡ b
some_inj h = cc

text_take-append : (s t : String) (n : ℕ) → n ≡ text_length s → text_take n (String.◌++◌ s t) ≡ s
unfolding text_take text_length
text_take-append [] t zero h = refl
text_take-append [] t (suc n) h = cc
text_take-append (c ∷ s) t zero h = cc
text_take-append (c ∷ s) t (suc n) h =
    rw (cons-append c s t) (ap (String.◌∷◌ c) (text_take-append s t n (omega (arith, h))))

text_length-append : (s t : String) → text_length (String.◌++◌ s t) ≡ text_length s + text_length t
unfolding text_length
text_length-append [] t = rw (nil-append t) (omega arith)
text_length-append (c ∷ s) t = rw (cons-append c s t) (omega (arith, text_length-append s t))

-- The path of a pointer up to the slash before its folder.
root_path-append :
    (base : String) → root_path (String.◌++◌ base pointer_suffix) ≡ String.◌++◌ base "/"
unfolding text_length
root_path-append base =
    let split : String.◌++◌ base pointer_suffix
        ≡ String.◌++◌ (String.◌++◌ base "/") "_catalog/current.json" =
      sym (append_assoc base "/" "_catalog/current.json") in
    rw split (
      text_take-append (String.◌++◌ base "/") "_catalog/current.json" _
        (omega (arith, text_length-append (String.◌++◌ base "/") "_catalog/current.json")))

abbrev release_key : ReleasePointer → String
release_key p = concat (release_prefix p ∷ "_catalog/catalog.sqlite" ∷ [])

release_path :
    (base : String) (p : ReleasePointer)
    → concat (String.◌++◌ base "/" ∷ release_key p ∷ [])
      ≡ concat (base ∷ "/releases/" ∷ p.generation ∷ "/_catalog/catalog.sqlite" ∷ [])
release_path base p =
    simp (append_assoc, append-nil)
      (ap (String.◌++◌ base)
        (sym (append_assoc "/" "releases/" (String.◌++◌ p.generation "/_catalog/catalog.sqlite"))))

module _ (web : Web) where
  pointer_bytes-IsAnnounced :
      (p : ReleasePointer) (r : Response web.Bytes) (bytes : web.Bytes)
      → pointer_bytes web p r ≡ ok bytes
      → (web.byte_length bytes ≡ p.size_bytes) × (web.sha256 bytes ≡ p.sha256)
  unfolding pointer_bytes
  pointer_bytes-IsAnnounced p r bytes h =
      let (answered, h1) = fail_if->>-eq-ok (not r.is_ok) _ _ h in
      let (read, e, h2) = >>=-eq-ok r.body _ h1 in
      let (size, h3) = fail_if->>-eq-ok (not (eqb (web.byte_length read) p.size_bytes)) _ _ h2 in
      let (sum, h4) = fail_if->>-eq-ok (not (web.sha256 read == p.sha256)) _ _ h3 in
      let same = ok_inj read bytes h4 in ground (arith, eq_iff (web.sha256 read) p.sha256, same)

  url_bytes-IsAnnounced :
      (a : Announced) (r : Response web.Bytes) (bytes : web.Bytes)
      → url_bytes web a r ≡ ok bytes
      → (web.byte_length bytes ≡ a.length) × (web.sha256 bytes ≡ web.lower_case a.sha256)
  unfolding url_bytes
  url_bytes-IsAnnounced a r bytes h =
      let (unchanged, h1) = fail_if->>-eq-ok (eqb r.status 412) _ _ h in
      let (answered, h2) = fail_if->>-eq-ok (not r.is_ok) _ _ h1 in
      let (read, e, h3) = >>=-eq-ok r.body _ h2 in
      let (size, h4) = fail_if->>-eq-ok (not (eqb (web.byte_length read) a.length)) _ _ h3 in
      let (sum, h5) = fail_if->>-eq-ok (not (web.sha256 read == web.lower_case a.sha256)) _ _ h4 in
      let same = ok_inj read bytes h5 in
      ground (arith, eq_iff (web.sha256 read) (web.lower_case a.sha256), same)

  -- What was announced of the bytes: by the pointer, or by the headers.
  abbrev pub IsAnnounced : Fetched web → web.Bytes → Type 0
  IsAnnounced (file_stat size time) bytes = Unit
  IsAnnounced (url_head url head) bytes =
      (a : Announced) × (head_announced web head ≡ ok a)
      × (web.byte_length bytes ≡ a.length)
      × (web.sha256 bytes ≡ web.lower_case a.sha256)
  IsAnnounced (release_pointer url response) bytes =
      (p : ReleasePointer) × (response.body ≡ ok p)
      × (web.byte_length bytes ≡ p.size_bytes)
      × (web.sha256 bytes ≡ p.sha256)

  pub pointer_snapshot_inv :
      (url : String) (response : Response ReleasePointer) (p : ReleasePointer) (s : SourceSnapshot)
      → pointer_snapshot web url response ≡ ok (p, s)
      → (response.body ≡ ok p)
        × (escapes_release p ≡ false)
        × (catalog_url : String) × (release_catalog_url web url p.catalog_key ≡ ok catalog_url)
        × (s.url ≡ some catalog_url)
  unfolding pointer_snapshot
  pointer_snapshot_inv url response p s h =
      let (answered, h1) = fail_if->>-eq-ok (not response.is_ok) _ _ h in
      let (q, e, h2) = >>=-eq-ok response.body _ h1 in
      let (within, h3) = fail_if->>-eq-ok (escapes_release q) _ _ h2 in
      let (u, eu, h4) = >>=-eq-ok (release_catalog_url web url q.catalog_key) _ h3 in
      let same = ok_inj _ (p, s) h4 in
      let sp : q ≡ p = ap (λ x. x.0) same in
      (
        e ∙ ap ok sp,
        ap escapes_release (sym sp) ∙ within,
        u,
        ap (λ (x : ReleasePointer). release_catalog_url web url x.catalog_key) (sym sp) ∙ eu,
        ap (λ x. x.1.url) (sym same),
      )

  -- Bytes that the code goes on to write were announced: of a release, their length and SHA-256 are
  -- those of the pointer; of a URL, they are those of the headers of its HEAD, the SHA-256 in lower
  -- case.
  pub source_snapshot-IsAnnounced :
      (f : Fetched web) (s : SourceSnapshot) (write : Response web.Bytes → Result web.Bytes)
      (r : Response web.Bytes) (bytes : web.Bytes)
      → source_snapshot web f ≡ ok (s, some write)
      → write r ≡ ok bytes
      → IsAnnounced f bytes
  unfolding source_snapshot
  source_snapshot-IsAnnounced (file_stat size time) s write r bytes h w = tt
  source_snapshot-IsAnnounced (url_head url head) s write r bytes h w =
      let (a, e, h1) = >>=-eq-ok (head_announced web head) _ h in
      let same : url_bytes web a ≡ write = some_inj (ap (λ x. x.1) (ok_inj _ _ h1)) in
      let (size, sum) = url_bytes-IsAnnounced a r bytes (ap (λ f. f r) same ∙ w) in
      (a, e, size, sum)
  source_snapshot-IsAnnounced (release_pointer url response) s write r bytes h w =
      let ((p, source), e, h1) = >>=-eq-ok (pointer_snapshot web url response) _ h in
      let same : pointer_bytes web p ≡ write = some_inj (ap (λ x. x.1) (ok_inj _ _ h1)) in
      let (size, sum) = pointer_bytes-IsAnnounced p r bytes (ap (λ f. f r) same ∙ w) in
      (p, (pointer_snapshot_inv url response p source e).0, size, sum)

  -- Where the path of the pointer's URL is a base and then /_catalog/current.json: the URL of a
  -- snapshot that is accepted has the path of that base, /releases/, the pointer's generation and
  -- /_catalog/catalog.sqlite.
  pub pointer_snapshot_below :
      (url base : String) (u : web.Url) (response : Response ReleasePointer) (p : ReleasePointer)
      (s : SourceSnapshot)
      → web.new_url url ≡ ok u
      → web.pathname u ≡ String.◌++◌ base pointer_suffix
      → pointer_snapshot web url response ≡ ok (p, s)
      → s.url
        ≡ some (
            web.href_at u
              (concat (base ∷ "/releases/" ∷ p.generation ∷ "/_catalog/catalog.sqlite" ∷ [])))
  unfolding release_catalog_url escapes_release
  pointer_snapshot_below url base u response p s eu path h =
      let (body, within, catalog_url, resolved, e) = pointer_snapshot_inv url response p s h in
      let (v, ev, h1) = >>=-eq-ok (web.new_url url) _ resolved in
      let same_url : v ≡ u = ok_inj v u (sym ev ∙ eu) in
      let (suffixed, h2) =
        fail_if->>-eq-ok (not (is_suffix pointer_suffix (web.pathname v))) _ _ h1 in
      let key : p.catalog_key ≡ release_key p = (eq_iff p.catalog_key _).0 (ground arith) in
      let root = ap root_path (ap web.pathname same_url ∙ path) ∙ root_path-append base in
      e
      ∙ ap some (sym (ok_inj _ catalog_url h2))
      ∙ ap some (
          ap (λ x. web.href_at x (concat (root_path (web.pathname v) ∷ p.catalog_key ∷ [])))
            same_url)
      ∙ ap some (
          ap (web.href_at u) (
            ap (λ r. concat (r ∷ p.catalog_key ∷ [])) root
            ∙ ap (λ k. concat (String.◌++◌ base "/" ∷ k ∷ [])) key
            ∙ release_path base p))
