-- ===== src/Site/Stac/Links.antt =====
-- The links of a document that the site serves.
use hifld_next.Common.{
  String, Bool, true, false, not, ◌==◌, eq_iff, if◌then◌else◌, List, [], ◌∷◌, ◌++◌, filter, all,
  includes, append-nil, Bool-cases, inl, inr, concat, some, ok, ok_inj, fail_if->>-eq-ok, ◌≡◌, refl,
  sym, ap, ◌∙◌, arith,
}
use hifld_next.Site.Stac.{
  StacDocument, StacLink, relinked, landing_links, landing_replaced, collection_links,
  collection_replaced, api_link, stac_collection_url, build_stac_landing, build_stac_collection,
}

abbrev pub with_rel : String → List StacLink → List StacLink
with_rel rel links = filter (λ (l : StacLink). l.rel == rel) links

filter-append :
    {A : Type 0} (p : A → Bool) (xs ys : List A) → filter p (xs ++ ys) ≡ filter p xs ++ filter p ys
filter-append p [] ys = refl
filter-append p (x ∷ xs) ys = ground (arith, filter-append p xs ys)

module _ (replaced : List String) (rel : String) where
  kept :
      (published : List StacLink)
      → with_rel rel (filter (λ l. not (includes replaced l.rel)) published)
        ≡ (if includes replaced rel then [] else with_rel rel published)
  kept [] = ground arith
  kept (l ∷ published) =
      let same : l.rel == rel ≡ true → includes replaced l.rel ≡ includes replaced rel =
        λ e. ap (includes replaced) ((eq_iff l.rel rel).0 e) in
      ground (arith, kept published, same)

  own_only :
      (own : List StacLink)
      → all (λ l. includes replaced l.rel) own ≡ true
      → includes replaced rel ≡ false
      → with_rel rel own ≡ []
  own_only [] h k = refl
  own_only (l ∷ own) h k =
      let same : l.rel == rel ≡ true → includes replaced l.rel ≡ includes replaced rel =
        λ e. ap (includes replaced) ((eq_iff l.rel rel).0 e) in
      ground (arith, own_only own, same)

  -- Where the site's own links are all of relations that are replaced: the links of a served
  -- document with such a relation are the site's own, and with any other relation the published
  -- ones, in order.
  pub with_rel-relinked :
      (own published : List StacLink)
      → all (λ l. includes replaced l.rel) own ≡ true
      → with_rel rel (relinked replaced own published)
        ≡ (if includes replaced rel then with_rel rel own else with_rel rel published)
  unfolding relinked
  with_rel-relinked own published h =
      filter-append (λ (l : StacLink). l.rel == rel) own
        (filter (λ l. not (includes replaced l.rel)) published)
      ∙ elim (Bool-cases (includes replaced rel)) [
        | inl new ↦ rw (kept published, new) (append-nil (with_rel rel own))
        | inr old ↦ rw (kept published, old, own_only own h old) refl
      ]

-- A link of the site to a JSON document.
abbrev json_link : String → String → StacLink
json_link rel href = record { rel = rel; href = href; media_type = some "application/json" }

abbrev pub is_none_of : List String → String → Bool
is_none_of rels rel = all (λ r. not (r == rel)) rels

none_included :
    (rels : List String) (rel : String) → is_none_of rels rel ≡ true → includes rels rel ≡ false
none_included [] rel h = refl
none_included (r ∷ rels) rel h = ground (arith, h, none_included rels rel)

-- The links of a landing page, by relation.
pub record IsLanding {C : Type 0} (origin : String) (published served : StacDocument C)
    : Type 0 where
  pub self : with_rel "self" served.links ≡ json_link "self" (concat (origin ∷ "/stac" ∷ [])) ∷ []
  pub root : with_rel "root" served.links ≡ json_link "root" (concat (origin ∷ "/stac" ∷ [])) ∷ []
  pub data_link :
      with_rel "data" served.links
      ≡ json_link "data" (concat (origin ∷ "/stac/collections" ∷ [])) ∷ []
  pub service :
      with_rel "service-desc" served.links
      ≡ record {
        rel = "service-desc";
        href = concat (origin ∷ "/stac/api" ∷ []);
        media_type = some "application/vnd.oai.openapi+json;version=3.1";
      }
        ∷ []
  pub no_docs : with_rel "service-doc" served.links ≡ []
  pub no_search : with_rel "search" served.links ≡ []
  pub no_children : with_rel "child" served.links ≡ []
  pub others :
      (rel : String)
      → is_none_of
          ("self" ∷ "root" ∷ "data" ∷ "service-desc" ∷ "service-doc" ∷ "search" ∷ "child" ∷ [])
          rel
        ≡ true
      → with_rel rel served.links ≡ with_rel rel published.links
  pub content : served.content ≡ published.content

-- A published catalog that is served as the landing page: it has the site's own links to itself, to
-- the root, to the collections and to the description of the service, each once, no link to
-- documentation, to a search or to a child, of every other relation the published links in order,
-- and the published content.
pub build_stac_landing-IsLanding :
    {C : Type 0} (origin : String) (published served : StacDocument C)
    → build_stac_landing published origin ≡ ok served
    → IsLanding origin published served
unfolding build_stac_landing landing_links api_link
build_stac_landing-IsLanding {C = C} origin published served h =
    let (catalog, rest) =
      fail_if->>-eq-ok (not (published.doc_type == "Catalog"))
        "Published STAC root must be a Catalog" _ h in
    let same : relinked landing_replaced (landing_links origin) published.links ≡ served.links =
      ap (λ (d : StacDocument C). d.links) (ok_inj _ served rest) in
    let at = λ (rel : String).
      ap (with_rel rel) (sym same)
      ∙ with_rel-relinked landing_replaced rel (landing_links origin) published.links refl in
    record {
      self = at "self";
      root = at "root";
      data_link = at "data";
      service = at "service-desc";
      no_docs = at "service-doc";
      no_search = at "search";
      no_children = at "child";
      others = λ rel other.
          at rel
          ∙ ap
              (λ b. if b then with_rel rel (landing_links origin) else with_rel rel published.links)
              (none_included landing_replaced rel other);
      content = ap (λ (d : StacDocument C). d.content) (sym (ok_inj _ served rest));
    }

-- The links of a collection, by relation.
pub record IsServed {C : Type 0} (encode : String → String) (origin : String)
    (published served : StacDocument C) : Type 0 where
  pub self :
      with_rel "self" served.links
      ≡ json_link "self" (concat (origin ∷ "/stac/collections/" ∷ encode published.id ∷ [])) ∷ []
  pub root : with_rel "root" served.links ≡ json_link "root" (concat (origin ∷ "/stac" ∷ [])) ∷ []
  pub parent :
      with_rel "parent" served.links ≡ json_link "parent" (concat (origin ∷ "/stac" ∷ [])) ∷ []
  pub no_items : with_rel "items" served.links ≡ []
  pub others :
      (rel : String)
      → is_none_of ("self" ∷ "root" ∷ "parent" ∷ "items" ∷ []) rel ≡ true
      → with_rel rel served.links ≡ with_rel rel published.links
  pub content : served.content ≡ published.content

-- A published collection that is served: it has the site's own links to itself, to the root and to
-- its parent, each once, no link to items, of every other relation the published links in order,
-- and the published content.
pub build_stac_collection-IsServed :
    {C : Type 0} (encode : String → String) (origin : String) (published served : StacDocument C)
    → build_stac_collection encode published origin ≡ ok served
    → IsServed encode origin published served
unfolding build_stac_collection collection_links stac_collection_url api_link
build_stac_collection-IsServed {C = C} encode origin published served h =
    let (collection, rest) =
      fail_if->>-eq-ok (not (published.doc_type == "Collection"))
        "Published STAC document must be a Collection" _ h in
    let same : relinked collection_replaced (collection_links encode origin published.id)
          published.links
        ≡ served.links =
      ap (λ (d : StacDocument C). d.links) (ok_inj _ served rest) in
    let at = λ (rel : String).
      ap (with_rel rel) (sym same)
      ∙ with_rel-relinked collection_replaced rel (collection_links encode origin published.id)
          published.links refl in
    record {
      self = at "self";
      root = at "root";
      parent = at "parent";
      no_items = at "items";
      others = λ rel other.
          at rel
          ∙ ap
              (λ b.
                if b
                then with_rel rel (collection_links encode origin published.id)
                else with_rel rel published.links)
              (none_included collection_replaced rel other);
      content = ap (λ (d : StacDocument C). d.content) (sym (ok_inj _ served rest));
    }
