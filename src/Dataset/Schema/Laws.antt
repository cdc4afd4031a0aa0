-- ===== src/Dataset/Schema/Laws.antt =====
-- The source that is shown is the best one of its version, and the latest version has one.
use hifld_next.Common.{
  String, Bool, true, ◌||◌, ◌==◌, eq_refl, List, [], ◌∷◌, ◌++◌, map, any, filter, insert, All,
  Option, none, some, is_some, get_or, Bool-cases, inl, inr, ◌≡◌, refl, subst, ap, ◌∙◌, arith,
}
use hifld_next.Js.{Js}
use hifld_next.Js.Sort.{sort, insert_sorted}
use hifld_next.Dataset.Sources.{DatasetSource, DatasetFormat, version_of, has_columns, is_after}
use hifld_next.Dataset.Best.{leftmost_best, better, is_some-leftmost_best, sort-All}
use hifld_next.Dataset.Schema.{
  SchemaCandidate, get_schema_candidate, is_of_version, candidates_where,
  get_schema_candidates_for_version, score_of, scores_less, head, selection_of,
  get_best_schema_source_for_version, add_schema_versions, add_formats, get_schema_version_options,
  get_latest_schema_version,
}

-- The version that a candidate is of.
abbrev pub schema_version : SchemaCandidate → String
schema_version c = version_of c.selection.source

-- The leftmost of the candidates of the highest score.
abbrev leftmost : List SchemaCandidate → Option SchemaCandidate
leftmost [] = none
leftmost (c ∷ cs) = some (better schema_version score_of c (leftmost cs))

head-insert_sorted :
    (c : SchemaCandidate) (cs : List SchemaCandidate)
    → head (insert_sorted scores_less c cs) ≡ some (better schema_version score_of c (head cs))
unfolding insert_sorted
head-insert_sorted c [] = refl
head-insert_sorted c (d ∷ cs) = ground arith

head-sort : (cs : List SchemaCandidate) → head (sort scores_less cs) ≡ leftmost cs
unfolding sort
head-sort [] = refl
head-sort (c ∷ cs) =
    head-insert_sorted c (sort scores_less cs)
    ∙ ap (λ o. some (better schema_version score_of c o)) (head-sort cs)

-- Every candidate, of each version.
abbrev pub schema_candidates : Option (List DatasetFormat) → List SchemaCandidate
schema_candidates formats = candidates_where has_columns (get_or formats [])

module _ (version : String) where
  abbrev has_version : SchemaCandidate → Bool
  has_version c = schema_version c == version

  filter-append :
      (cs ds : List SchemaCandidate)
      → filter has_version (cs ++ ds) ≡ filter has_version cs ++ filter has_version ds
  filter-append [] ds = refl
  filter-append (c ∷ cs) ds = ground (arith, filter-append cs ds)

  any-append :
      (cs ds : List SchemaCandidate)
      → any has_version (cs ++ ds) ≡ any has_version cs || any has_version ds
  any-append [] ds = refl
  any-append (c ∷ cs) ds = ground (arith, any-append cs ds)

  module _ (format_entry : DatasetFormat) where
    candidates_of_version :
        (sources : List DatasetSource)
        → map (get_schema_candidate format_entry) (filter (is_of_version version) sources)
          ≡ filter has_version
              (map (get_schema_candidate format_entry) (filter has_columns sources))
    unfolding get_schema_candidate
    candidates_of_version [] = refl
    candidates_of_version (s ∷ sources) = ground (arith, candidates_of_version sources)

    any_candidate :
        (sources : List DatasetSource)
        → any has_version (map (get_schema_candidate format_entry) (filter has_columns sources))
          ≡ any (is_of_version version) sources
    unfolding get_schema_candidate
    any_candidate [] = refl
    any_candidate (s ∷ sources) = ground (arith, any_candidate sources)

  candidates_where-filter :
      (formats : List DatasetFormat)
      → candidates_where (is_of_version version) formats
        ≡ filter has_version (candidates_where has_columns formats)
  candidates_where-filter [] = refl
  candidates_where-filter (f ∷ fs) =
      rw
        (
          candidates_of_version f f.sources,
          candidates_where-filter fs,
          filter-append (map (get_schema_candidate f) (filter has_columns f.sources))
              (candidates_where has_columns fs),
        )
        refl

  leftmost-filter :
      (cs : List SchemaCandidate)
      → leftmost (filter has_version cs) ≡ leftmost_best schema_version score_of version cs
  leftmost-filter [] = refl
  leftmost-filter (c ∷ cs) = ground (arith, leftmost-filter cs)

  -- To sort the sources of a version that have columns by their score and take the first one gives
  -- the same as one pass over the sources of all versions that looks for the leftmost of the
  -- highest score of that version.
  pub get_best_schema_source_for_version_best :
      (formats : Option (List DatasetFormat))
      → get_best_schema_source_for_version formats (some version)
        ≡ selection_of (leftmost_best schema_version score_of version (schema_candidates formats))
  unfolding get_best_schema_source_for_version get_schema_candidates_for_version
  get_best_schema_source_for_version_best formats = ap selection_of (
      head-sort (candidates_where (is_of_version version) (get_or formats []))
      ∙ ap leftmost (candidates_where-filter (get_or formats []))
      ∙ leftmost-filter (schema_candidates formats))

abbrev entry_values : List (String × String) → List String
entry_values = map (λ (e : String × String). e.1)

module _ (P : String → Type 0) where
  insert-All :
      (v : String) (m : List (String × String))
      → P v
      → All P (entry_values m)
      → All P (entry_values (insert v v m))
  insert-All v [] p h = (p, tt)
  insert-All v ((i, old) ∷ m) p (q, h) = elim (Bool-cases (i == v)) [
    | inl same ↦ rw same (p, h)
    | inr other ↦ rw other (q, insert-All v m p h)
  ]

  add_schema_versions-All :
      (m : List (String × String)) (sources : List DatasetSource)
      → ((v : String) → any (is_of_version v) sources ≡ true → P v)
      → All P (entry_values m)
      → All P (entry_values (add_schema_versions m sources))
  unfolding add_schema_versions
  add_schema_versions-All m [] f h = h
  add_schema_versions-All m (s ∷ sources) f h = elim (Bool-cases (has_columns s)) [
    | inl shown ↦ rw shown (
        add_schema_versions-All (insert (version_of s) (version_of s) m) sources
          (λ v e. f v (ground (arith, e)))
          (insert-All (version_of s) m
            (f (version_of s) (ground (arith, shown, eq_refl (version_of s)))) h))
    | inr hidden ↦ rw hidden (add_schema_versions-All m sources (λ v e. f v (ground (arith, e))) h)
  ]

  add_formats-All :
      (m : List (String × String)) (formats : List DatasetFormat)
      → ((v : String) → any (has_version v) (candidates_where has_columns formats) ≡ true → P v)
      → All P (entry_values m)
      → All P (entry_values (add_formats m formats))
  unfolding add_formats
  add_formats-All m [] f h = h
  add_formats-All m (format_entry ∷ rest) f h =
      let parts = λ (v : String).
        any-append v
          (map (get_schema_candidate format_entry) (filter has_columns format_entry.sources))
          (candidates_where has_columns rest) in
      add_formats-All (add_schema_versions m format_entry.sources) rest
        (λ v e. f v (ground (arith, e, parts v)))
        (add_schema_versions-All m format_entry.sources
          (λ v e.
            f v (ground (arith, e, parts v, any_candidate v format_entry format_entry.sources)))
          h)

  head-All : (vs : List String) (v : String) → All P vs → head vs ≡ some v → P v
  head-All [] v h e = cc
  head-All (u ∷ us) v (p, h) e = let same : u ≡ v = cc in subst P same p

-- Where there is a latest version with a schema, there is a source to show for that version.
pub get_latest_schema_version_shown :
    (js : Js) (formats : Option (List DatasetFormat)) (version : String)
    → get_latest_schema_version js formats ≡ some version
    → is_some (get_best_schema_source_for_version formats (some version)) ≡ true
unfolding get_latest_schema_version get_schema_version_options
get_latest_schema_version_shown js formats version latest =
    let shown : any (has_version version) (schema_candidates formats) ≡ true =
      head-All (λ v. any (has_version v) (schema_candidates formats) ≡ true) _ version
        (sort-All (is_after js) _ _ (add_formats-All _ [] (get_or formats []) (λ v e. e) tt))
        latest in
    ground (
      arith,
      get_best_schema_source_for_version_best version formats,
      is_some-leftmost_best schema_version score_of version (schema_candidates formats),
      shown,
    )
