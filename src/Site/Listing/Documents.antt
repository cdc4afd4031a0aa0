-- ===== src/Site/Listing/Documents.antt =====
-- `publishedDatasets` of webapp/src/lib/catalog-listing.ts: the documents of a page, fetched eight at
-- a time.
use hifld_next.Common.{
  ℕ, zero, suc, ◌+◌, ◌<◌, String, Bool, true, false, not, ◌&&◌, ltb, if◌then◌else◌, List, [], ◌∷◌,
  ◌++◌, length, any, all, filter_map, filter_map-append, Option, none, some, is_some, Result, ok,
  fail, Bool-cases, inl, inr, ◌≡◌, refl, sym, ap, subst, ◌∙◌, arith,
}
use hifld_next.Site.Pages.{drop, page, page-append-drop, drop-all}

abbrev pub batch_size : ℕ
batch_size = 8

-- What becomes of one address: no response, or a response with its status and, where its text is a
-- document of the schema, the document.
pub data Fetched (D : Type 0) : Type 0 where
  no_response : Fetched D
  response : Bool → Option D → Fetched D

abbrev pub has_response : {D : Type 0} → Fetched D → Bool
has_response no_response = false
has_response (response is_ok document) = true

abbrev pub is_ok : {D : Type 0} → Fetched D → Bool
is_ok no_response = false
is_ok (response is_fine document) = is_fine

abbrev pub document_of : {D : Type 0} → Fetched D → Option D
document_of no_response = none
document_of (response is_fine document) = document

abbrev pub unavailable : String
unavailable = "Published STAC metadata is unavailable"

abbrev pub invalid : String
invalid = "Published STAC metadata is invalid"

module _ {D : Type 0} (fetch_document : String → Fetched D) where
  -- The tests of one batch, in their order. The reports to the console change no result.
  unfoldable pub batch_of : List String → Result (List D)
  batch_of hrefs =
      if not (all (λ href. has_response (fetch_document href)) hrefs)
      then fail unavailable
      else if any (λ href. not (is_ok (fetch_document href))) hrefs
      then fail unavailable
      else if any (λ href. not (is_some (document_of (fetch_document href)))) hrefs
      then fail invalid
      else ok (filter_map (λ href. document_of (fetch_document href)) hrefs)

  abbrev followed_by : Result (List D) → Option (Result (List D)) → Option (Result (List D))
  followed_by (fail problem) rest = some (fail problem)
  followed_by (ok documents) none = none
  followed_by (ok documents) (some (fail problem)) = some (fail problem)
  followed_by (ok documents) (some (ok more)) = some (ok (documents ++ more))

  -- The loop from an offset on; none where the fuel runs out.
  unfoldable pub documents_from : ℕ → List String → ℕ → Option (Result (List D))
  unfolding batch_of
  documents_from zero hrefs offset = none
  documents_from (suc fuel) hrefs offset =
      let rest = documents_from fuel hrefs (offset + batch_size) in
      if ltb offset (length hrefs)
      then followed_by (batch_of (page batch_size offset hrefs)) rest
      else some (ok [])

  -- A response with a document.
  abbrev pub is_published : String → Bool
  is_published href = is_ok (fetch_document href) && is_some (document_of (fetch_document href))

  abbrev pub publish : List String → List D
  publish hrefs = filter_map (λ href. document_of (fetch_document href)) hrefs

  all-is_published :
      (hrefs : List String)
      → all is_published hrefs ≡ (
          all (λ href. has_response (fetch_document href)) hrefs
          && not (any (λ href. not (is_ok (fetch_document href))) hrefs)
          && not (any (λ href. not (is_some (document_of (fetch_document href)))) hrefs))
  all-is_published [] = refl
  all-is_published (href ∷ hrefs) = ground (arith, all-is_published hrefs)

  -- A result over the addresses: their documents, or a failure where one is not published.
  abbrev pub Outcome : List String → Result (List D) → Type 0
  Outcome hrefs result =
      (problem : String) × (result
        ≡ (if all is_published hrefs then ok (publish hrefs) else fail problem))

  batch_of-Outcome : (hrefs : List String) → Outcome hrefs (batch_of hrefs)
  unfolding batch_of
  batch_of-Outcome hrefs =
      let split = all-is_published hrefs in
      elim (Bool-cases (all (λ href. has_response (fetch_document href)) hrefs)) [
        | inl heard ↦ elim (Bool-cases (any (λ href. not (is_ok (fetch_document href))) hrefs)) [
          | inl bad ↦ (unavailable, ground (arith, split, heard, bad))
          | inr fine ↦ (invalid, ground (arith, split, heard, fine))
        ]
        | inr lost ↦ (unavailable, ground (arith, split, lost))
      ]

  all-append :
      (xs ys : List String)
      → all is_published (xs ++ ys) ≡ (all is_published xs && all is_published ys)
  all-append [] ys = refl
  all-append (x ∷ xs) ys = ground (arith, all-append xs ys)

  both : Result (List D) → Result (List D) → Result (List D)
  both (fail problem) rest = fail problem
  both (ok documents) (fail problem) = fail problem
  both (ok documents) (ok more) = ok (documents ++ more)

  followed_by-some :
      (first rest : Result (List D)) → followed_by first (some rest) ≡ some (both first rest)
  unfolding both
  followed_by-some (fail problem) rest = refl
  followed_by-some (ok documents) (fail problem) = refl
  followed_by-some (ok documents) (ok more) = refl

  both-Outcome :
      (xs ys : List String) (first rest : Result (List D))
      → Outcome xs first
      → Outcome ys rest
      → Outcome (xs ++ ys) (both first rest)
  unfolding both
  both-Outcome xs ys first rest (p, e) (q, f) =
      let parts = all-append xs ys in
      let joined = filter_map-append (λ href. document_of (fetch_document href)) xs ys in
      elim (Bool-cases (all is_published xs)) [
        | inl good ↦ (q, rw (e, f, parts, joined, good) (one_good (all is_published ys) _ _ q))
        | inr bad ↦ (p, rw (e, parts, bad) refl)
      ]
    where
      one_good :
          (b : Bool) (ds more : List D) (q : String)
          → both (ok ds) (if b then ok more else fail q) ≡ (if b then ok (ds ++ more) else fail q)
      one_good true ds more q = refl
      one_good false ds more q = refl

  nothing-Outcome : Outcome [] (ok [])
  nothing-Outcome = (unavailable, refl)

  documents_from-Outcome :
      (fuel : ℕ) (hrefs : List String) (offset : ℕ)
      → length hrefs < offset + fuel
      → 0 < fuel
      → (result : Result (List D)) × (documents_from fuel hrefs offset ≡ some result)
        × Outcome (drop offset hrefs) result
  unfolding documents_from
  documents_from-Outcome zero hrefs offset k f = absurd (omega arith)
  documents_from-Outcome (suc fuel) hrefs offset k f =
      elim (Bool-cases (ltb offset (length hrefs))) [
        | inl more ↦
            let (rest, e, later) =
              documents_from-Outcome fuel hrefs (offset + batch_size) (ground arith)
                (ground arith) in
            let here = page batch_size offset hrefs in
            (
              both (batch_of here) rest,
              rw (more, e) (followed_by-some (batch_of here) rest),
              subst (λ l. Outcome l (both (batch_of here) rest))
                  (page-append-drop batch_size offset hrefs)
                  (both-Outcome here (drop (offset + batch_size) hrefs) (batch_of here) rest
                    (batch_of-Outcome here) later),
            )
        | inr over ↦ (
          ok [],
          rw over refl,
          subst (λ l. Outcome l (ok [])) (sym (drop-all offset hrefs (ground arith)))
              nothing-Outcome,
        )
      ]

  -- The fetches of the documents, eight at a time, come to an end: with the documents of all
  -- addresses in order where each answers with success and a valid document, else with a problem.
  pub documents_from_complete :
      (fuel : ℕ) (hrefs : List String)
      → length hrefs < fuel
      → (problem : String) × (documents_from fuel hrefs 0
          ≡ some (if all is_published hrefs then ok (publish hrefs) else fail problem))
  documents_from_complete fuel hrefs k =
      let (result, e, (problem, f)) =
        documents_from-Outcome fuel hrefs 0 (omega arith) (omega arith) in
      (problem, e ∙ ap some f)
