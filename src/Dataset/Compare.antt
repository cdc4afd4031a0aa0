-- ===== src/Dataset/Compare.antt =====
-- webapp/src/components/dataset/compareSources.ts: the versions of a file that can be compared.
use hifld_next.Common.{
  ℕ, ◌+◌, String, Bool, false, not, ◌&&◌, ◌==◌, eqb, leb, List, [], ◌∷◌, ◌++◌, map, any, count,
  filter, length, lookup, insert, All, Option, none, some, is_some, if◌then◌else◌, ◌≡◌, refl, ap,
  ◌∙◌, arith,
}
use hifld_next.Common.Perm.{count-perm}
use hifld_next.Js.{Js}
use hifld_next.Js.Sort.{sort, sort-perm}
use hifld_next.Dataset.Sources.{DatasetSource, DatasetFormat, version_of, column_count, is_after}
use hifld_next.Dataset.Best.{
  keep_all, values, leftmost_best, keep_all_lem, is_some-leftmost_best, sort-All,
}

pub record LocationOption : Type 0 where
  pub id : String
  pub name : String

-- Of a condition on a text: not missing and not empty.
abbrev given : Option String → Bool
given none = false
given (some s) = not (s == "")

abbrev text : Option String → String
text none = ""
text (some s) = s

-- A write where there is no entry yet.
abbrev pub insert_new {ℓ} : {V : Type ℓ} → String → V → List (String × V) → List (String × V)
insert_new k v m = if is_some (lookup k m) then m else insert k v m

-- The loop of `getLocationOptions`.
unfoldable pub add_locations :
    List (String × LocationOption) → List DatasetSource → List (String × LocationOption)
add_locations m [] = m
add_locations m (source ∷ sources) =
    add_locations
      (elim source.storage_location [
        | none ↦ m
        | some l ↦
            if not (l.id == "") && not (l.name == "")
            then insert_new l.id (record { id = l.id; name = l.name }) m
            else m
      ])
      sources

unfoldable pub get_location_options : Option DatasetFormat → List LocationOption
get_location_options none = []
get_location_options (some format_entry) =
    map (λ (e : String × LocationOption). e.1) (add_locations [] format_entry.sources)

-- The loop of `getVersionSourcesForLocation`.
unfoldable pub add_versions :
    String → List (String × DatasetSource) → List DatasetSource → List (String × DatasetSource)
add_versions location_id m [] = m
add_versions location_id m (source ∷ sources) =
    add_versions location_id
      (elim source.storage_location [
        | none ↦ m
        | some l ↦ if l.id == location_id then insert_new (version_of source) source m else m
      ])
      sources

-- A candidate with its score.
pub record Candidate : Type 0 where
  pub source : DatasetSource
  pub score : ℕ

abbrev pub candidate_version : Candidate → String
candidate_version c = version_of c.source

abbrev pub candidate_score : Candidate → ℕ
candidate_score c = c.score

unfoldable pub source_score : DatasetFormat → DatasetSource → ℕ
source_score format_entry source =
    (if format_entry.format_type == "geoparquet" then 100 else 0) + elim source.source_metadata [
      | none ↦ 0
      | some metadata ↦ (if eqb (column_count metadata) 0 then 0 else 10) + 1
    ]

abbrev candidates_of : DatasetFormat → List DatasetSource → List Candidate
candidates_of format_entry [] = []
candidates_of format_entry (source ∷ sources) =
    record { source = source; score = source_score format_entry source }
    ∷ candidates_of format_entry sources

-- The candidates in the order of the two loops.
unfoldable pub version_candidates : List DatasetFormat → List Candidate
version_candidates [] = []
version_candidates (format_entry ∷ rest) =
    candidates_of format_entry format_entry.sources ++ version_candidates rest

module _ (js : Js) where
  abbrev source_after : DatasetSource → DatasetSource → Bool
  source_after l r = is_after js (version_of l) (version_of r)

  unfoldable pub get_version_sources_for_location :
      Option DatasetFormat → Option String → List DatasetSource
  get_version_sources_for_location none location_id = []
  get_version_sources_for_location (some format_entry) none = []
  get_version_sources_for_location (some format_entry) (some location_id) =
      if location_id == ""
      then []
      else sort source_after (
          map (λ (e : String × DatasetSource). e.1)
            (add_versions location_id [] format_entry.sources))

  unfoldable pub get_comparable_locations : Option DatasetFormat → List LocationOption
  get_comparable_locations format_entry =
      filter
        (λ (l : LocationOption).
          leb 2 (length (get_version_sources_for_location format_entry (some l.id))))
        (get_location_options format_entry)

  unfoldable pub has_any_comparable_locations : Option DatasetFormat → Bool
  has_any_comparable_locations format_entry =
      not (eqb (length (get_comparable_locations format_entry)) 0)

  -- The sources of candidates, in the order of their versions.
  abbrev candidate_after : Candidate → Candidate → Bool
  candidate_after l r = source_after l.source r.source

  -- `undefined` is none.
  unfoldable pub get_comparable_version_sources : Option (List DatasetFormat) → List DatasetSource
  get_comparable_version_sources none = []
  get_comparable_version_sources (some formats) = sort source_after (
      map (λ (c : Candidate). c.source)
        (values candidate_version candidate_score
          (keep_all candidate_version candidate_score [] (version_candidates formats))))

  unfoldable pub has_comparable_versions : Option (List DatasetFormat) → Bool
  has_comparable_versions formats = leb 2 (length (get_comparable_version_sources formats))

  abbrev last : List DatasetSource → Option DatasetSource
  last [] = none
  last (s ∷ []) = some s
  last (s ∷ t ∷ ss) = last (t ∷ ss)

  unfoldable pub get_default_compare_version_pair :
      List DatasetSource → Option DatasetSource × Option DatasetSource
  get_default_compare_version_pair [] = (none, none)
  get_default_compare_version_pair (s ∷ ss) = (last (s ∷ ss), some s)

  -- The best candidate of a version: of the highest score, the first one.
  abbrev pub best_of_version : String → List DatasetFormat → Option Candidate
  best_of_version version formats =
      leftmost_best candidate_version candidate_score version (version_candidates formats)

  count-map :
      (k : String) (cs : List Candidate)
      → count (λ s. version_of s == k) (map (λ (c : Candidate). c.source) cs)
        ≡ count (λ c. candidate_version c == k) cs
  count-map k [] = refl
  count-map k (c ∷ cs) = ground (arith, count-map k cs)

  -- The source of the best candidate of its version.
  abbrev pub IsBest : List DatasetFormat → DatasetSource → Type 0
  IsBest formats s =
      (c : Candidate) × (best_of_version (version_of s) formats ≡ some c) × (c.source ≡ s)

  IsBest-sources :
      (formats : List DatasetFormat) (cs : List Candidate)
      → All (λ c. best_of_version (candidate_version c) formats ≡ some c) cs
      → All (IsBest formats) (map (λ (c : Candidate). c.source) cs)
  IsBest-sources formats [] h = tt
  IsBest-sources formats (c ∷ cs) (e, h) = ((c, e, refl), IsBest-sources formats cs h)

  -- The sources to compare are one for each version that some source of the formats has, and each
  -- is the first of those with the highest score of its version, in the order of the formats and
  -- their sources.
  pub get_comparable_version_sources-IsBest :
      (formats : List DatasetFormat)
      → let sources = get_comparable_version_sources (some formats) in
        ((version : String)
          → count (λ s. version_of s == version) sources ≡ (
              if any (λ c. candidate_version c == version) (version_candidates formats)
              then 1
              else 0))
        × All (IsBest formats) sources
  unfolding get_comparable_version_sources
  get_comparable_version_sources-IsBest formats =
      let candidates = version_candidates formats in
      let kept =
        values candidate_version candidate_score
          (keep_all candidate_version candidate_score [] candidates) in
      let (counts, bests) = keep_all_lem candidate_version candidate_score candidates in
      (
        λ version.
            count-perm (λ s. version_of s == version)
              (sort-perm source_after (map (λ (c : Candidate). c.source) kept))
            ∙ count-map version kept
            ∙ counts version
            ∙ ap (λ b. if b then 1 else 0)
                (is_some-leftmost_best candidate_version candidate_score version candidates),
        sort-All source_after _ (map (λ (c : Candidate). c.source) kept)
            (IsBest-sources formats kept bests),
      )
