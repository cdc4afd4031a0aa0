-- ===== src/Site/Stac/Serve.antt =====
-- webapp/src/routes/stac/collections.ts: the answers to a request for a page of the collections.
use hifld_next.Common.{
  ℕ, String, true, false, arith, find, concat, [], ◌∷◌, Option-cases, >>=-eq-ok, ◌==◌,
  if◌then◌else◌, List, Option, none, some, Result, ok, fail, ◌>>=◌, fail_if->>-eq-ok, ok_inj, ◌||◌,
  sym, Bool-cases, inl, inr, ◌≡◌, refl, ap, ◌∙◌,
}
use hifld_next.Site.Stac.{
  StacDocument, StacLink, api_link, next_link, listing_url, next_after, page_collections, selected,
  Cursor, CatalogStacVersion, is_token, encode_stac_cursor, decode_stac_cursor, stale_cursor,
  build_stac_collections_page,
}

-- The snapshot of the catalog that a request reads. An empty address is none.
pub record StacSnapshot : Type 0 where
  pub catalog_url : Option String
  pub generation : String
  pub list_stac_versions : Option String → ℕ → Result (List CatalogStacVersion)

pub data StacAnswer (C : Type 0) : Type 0 where
  -- The collections, the links, and the header with the generation.
  stac_page : List (StacDocument C) × List StacLink → String → StacAnswer C
  problem : ℕ → String → StacAnswer C

abbrev pub unavailable : {C : Type 0} → StacAnswer C
unavailable = problem 503 "Catalog metadata is unavailable"

-- `load` fetches a document of the catalog at an address.
module _ {C : Type 0} (encode : String → String) (load : String → String → Result (StacDocument C))
    (to_token : Cursor → String) (from_token : String → Option Cursor)
    (with_params : String → List (String × String) → String) where
  abbrev page_answer : String → Result (List (StacDocument C) × List StacLink) → StacAnswer C
  page_answer generation (ok page) = stac_page page generation
  page_answer generation (fail e) = problem 502 "Published STAC metadata is unavailable"

  -- The answer from a decoded cursor on.
  unfoldable pub answer_after : StacSnapshot → String → String → Option String → StacAnswer C
  unfolding build_stac_collections_page
  answer_after snapshot origin catalog_url after = page_answer snapshot.generation (do
    entries ← snapshot.list_stac_versions after 51
    build_stac_collections_page encode (load catalog_url) to_token with_params entries origin
        snapshot.generation after)

  abbrev cursor_answer : StacSnapshot → String → String → Result (Option String) → StacAnswer C
  cursor_answer snapshot origin catalog_url (ok after) =
      answer_after snapshot origin catalog_url after
  cursor_answer snapshot origin catalog_url (fail e) =
      if e == stale_cursor
      then problem 409 "STAC cursor is stale"
      else problem 400 "Invalid STAC cursor"

  abbrev snapshot_answer : StacSnapshot → String → Option String → Option String → StacAnswer C
  snapshot_answer snapshot origin cursor none = unavailable
  snapshot_answer snapshot origin cursor (some catalog_url) =
      cursor_answer snapshot origin catalog_url
        (decode_stac_cursor from_token cursor snapshot.generation)

  -- The lifecycle, none where there is none, and its snapshot, none where it has none.
  unfoldable pub serve_stac_collections :
      Option (Option StacSnapshot) → String → Option String → StacAnswer C
  unfolding answer_after decode_stac_cursor
  serve_stac_collections none origin cursor = unavailable
  serve_stac_collections (some none) origin cursor = unavailable
  serve_stac_collections (some (some snapshot)) origin cursor =
      snapshot_answer snapshot origin cursor snapshot.catalog_url

  decode-fresh :
      (token generation : String) (cursor : Cursor)
      → is_token token ≡ true
      → from_token token ≡ some cursor
      → decode_stac_cursor from_token (some token) generation
        ≡ (if cursor.generation == generation then ok (some cursor.after) else fail stale_cursor)
  unfolding decode_stac_cursor
  decode-fresh token generation cursor h k = rw (h, k) refl

  -- The link to the next page, and the token that it carries.
  abbrev pub next_of : List StacLink → Option StacLink
  next_of links = find (λ (l : StacLink). l.rel == "next") links

  next_link-token :
      (load_document : String → Result (StacDocument C)) (origin generation : String)
      (after : Option String) (self root : String) (more : List StacLink) (link : StacLink)
      → next_link encode load_document to_token with_params origin generation after ≡ ok more
      → next_of (api_link "self" self ∷ api_link "root" root ∷ more) ≡ some link
      → (path : String) × (path == "" ≡ false)
        × (link.href
            ≡ with_params
                (concat (origin ∷ "/stac/collections" ∷ []))
                (("cursor", to_token (record { generation = generation; after = path })) ∷ []))
  unfolding listing_url encode_stac_cursor api_link
  next_link-token load_document origin generation none self root more link h e =
      let lost : none ≡ some link = ap next_of (ok_inj [] more h) ∙ e in absurd cc
  next_link-token load_document origin generation (some path) self root more link h e =
      let cursor : Cursor = record { generation = generation; after = path } in
      let (href, listed, rest) =
        >>=-eq-ok (listing_url to_token with_params origin generation (some path)) _ h in
      let (token, coded, address) = >>=-eq-ok (encode_stac_cursor to_token cursor) _ listed in
      let (named, given) = fail_if->>-eq-ok (generation == "" || path == "") _ _ coded in
      let found : some (api_link "next" href) ≡ some link = ap next_of (ok_inj _ more rest) ∙ e in
      let hit : api_link "next" href ≡ link = cc in
      (
        path,
        ground (arith, named),
        ap (λ (l : StacLink). l.href) (sym hit)
            ∙ sym (ok_inj _ href address)
            ∙ ap
                (λ t. with_params (concat (origin ∷ "/stac/collections" ∷ [])) (("cursor", t) ∷ []))
                (sym (ok_inj (to_token cursor) token given)),
      )

  page_inv :
      (generation generation' : String) (built : Result (List (StacDocument C) × List StacLink))
      (page : List (StacDocument C) × List StacLink)
      → page_answer generation built ≡ stac_page page generation'
      → built ≡ ok page
  page_inv generation generation' (ok p) page h = cc
  page_inv generation generation' (fail e) page h = cc

  decoded_page :
      (snapshot : StacSnapshot) (origin catalog_url : String) (documents : List (StacDocument C))
      (links : List StacLink) (generation : String) (decoded : Result (Option String))
      → cursor_answer snapshot origin catalog_url decoded ≡ stac_page (documents, links) generation
      → (url : String) × ((after : Option String) × ((entries : List CatalogStacVersion)
            × (build_stac_collections_page encode
                  (load url)
                  to_token
                  with_params
                  entries
                  origin
                  snapshot.generation
                  after
                ≡ ok (documents, links))))
  unfolding answer_after
  decoded_page snapshot origin catalog_url documents links generation (fail e) h =
      elim (Bool-cases (e == stale_cursor)) [
        | inl stale ↦
            let bad : problem 409 "STAC cursor is stale" ≡ stac_page (documents, links) generation =
              rw stale at h in
            absurd cc
        | inr other ↦
            let bad : problem 400 "Invalid STAC cursor" ≡ stac_page (documents, links) generation =
              rw other at h in
            absurd cc
      ]
  decoded_page snapshot origin catalog_url documents links generation (ok after) h =
      let built = page_inv snapshot.generation generation _ (documents, links) h in
      let (entries, listed, page) = >>=-eq-ok (snapshot.list_stac_versions after 51) _ built in
      (catalog_url, (after, (entries, page)))

  -- What an answer with a page comes of.
  served_page :
      (snapshot : StacSnapshot) (origin : String) (cursor : Option String)
      (documents : List (StacDocument C)) (links : List StacLink) (generation : String)
      → serve_stac_collections (some (some snapshot)) origin cursor
        ≡ stac_page (documents, links) generation
      → (catalog_url : String) × ((after : Option String) × ((entries : List CatalogStacVersion)
            × (build_stac_collections_page encode
                  (load catalog_url)
                  to_token
                  with_params
                  entries
                  origin
                  snapshot.generation
                  after
                ≡ ok (documents, links))))
  unfolding serve_stac_collections answer_after
  served_page snapshot origin cursor documents links generation h =
      elim (Option-cases snapshot.catalog_url) [
        | inl missing ↦
            let lost : unavailable ≡ stac_page (documents, links) generation =
              ap (snapshot_answer snapshot origin cursor) (sym missing) ∙ h in
            absurd cc
        | inr (url, found) ↦
            decoded_page snapshot origin url documents links generation
              (decode_stac_cursor from_token cursor snapshot.generation)
              (ap (snapshot_answer snapshot origin cursor) (sym found) ∙ h)
      ]

  -- A snapshot that serves a page with a link to the next one, whose address has a token as its
  -- cursor, of at most 2048 characters of the alphabet of tokens; and another snapshot of the
  -- catalog, of another generation. Where cursors of the first generation read back from their
  -- tokens and addresses: the second one answers the address with a conflict, and not with a page
  -- of its own versions.
  pub serve_stac_collections-stale :
      (cursor_of : String → Option String) (snapshot later : StacSnapshot)
      (origin catalog_url : String) (cursor : Option String) (documents : List (StacDocument C))
      (links : List StacLink) (generation token : String) (link : StacLink)
      → ((url t : String) → cursor_of (with_params url (("cursor", t) ∷ [])) ≡ some t)
      → ((path : String)
          → path == "" ≡ false
          → let c : Cursor = record { generation = snapshot.generation; after = path } in
            from_token (to_token c) ≡ some c)
      → serve_stac_collections (some (some snapshot)) origin cursor
        ≡ stac_page (documents, links) generation
      → next_of links ≡ some link
      → cursor_of link.href ≡ some token
      → is_token token ≡ true
      → later.catalog_url ≡ some catalog_url
      → snapshot.generation == later.generation ≡ false
      → serve_stac_collections (some (some later)) origin (some token)
        ≡ problem 409 "STAC cursor is stale"
  unfolding serve_stac_collections build_stac_collections_page
  serve_stac_collections-stale cursor_of snapshot later origin catalog_url cursor documents links
        generation token link query codec page next sent short there other =
      let (url, (after, (entries, built))) =
        served_page snapshot origin cursor documents links generation page in
      let (collections, _, rest) =
        >>=-eq-ok
          (page_collections encode (load url) to_token with_params origin (selected entries)) _
          built in
      let (self, _, rest') =
        >>=-eq-ok (listing_url to_token with_params origin snapshot.generation after) _ rest in
      let (more, linked, last) =
        >>=-eq-ok
          (next_link encode (load url) to_token with_params origin snapshot.generation
            (next_after entries))
          _ rest' in
      let same : api_link "self" self ∷ api_link "root" (concat (origin ∷ "/stac" ∷ [])) ∷ more
          ≡ links =
        ap (λ (p : List (StacDocument C) × List StacLink). p.1)
          (ok_inj _ (documents, links) last) in
      let (path, named, address) =
        next_link-token (load url) origin snapshot.generation (next_after entries) self
          (concat (origin ∷ "/stac" ∷ [])) more link linked (ap next_of same ∙ next) in
      let carried : some token
          ≡ some (to_token (record { generation = snapshot.generation; after = path })) =
        sym sent ∙ ap cursor_of address ∙ query (concat (origin ∷ "/stac/collections" ∷ [])) _ in
      let is_it : token ≡ to_token (record { generation = snapshot.generation; after = path }) =
        cc in
      ap (snapshot_answer later origin (some token)) there
      ∙ ap (cursor_answer later origin catalog_url) (
          decode-fresh token later.generation
            (record { generation = snapshot.generation; after = path }) short
            (ap from_token is_it ∙ codec path named))
      ∙ rw other refl
