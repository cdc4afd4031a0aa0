-- ===== src/Tests/DiffRuns.antt =====
-- A comparison of two versions of one facility each.
use Prim.Native.String
use mathlib.Core.List.{Memᴰ, Perm}
use hifld_next.Common.{
  add_all, String, true, List, [], ◌∷◌, map, Distinct, none, some, includes, ◌≡◌, refl, ◌≢◌,
}
use hifld_next.Js.{whole}
use hifld_next.Selection.Features.{SelectedMapFeature, CatalogOrigin, catalog}
use hifld_next.Diff.Model.{
  CatalogFeature, DiffOptions, DiffSort, MatchKeyPair, CandidateScore, asc, key,
}
use hifld_next.Diff.Versions.{for_version, match_key_pair, catalog_features}
use hifld_next.Diff.Scoring.{score_candidate, is_stable_identifier_key}
use hifld_next.Diff.Matching.{best_match_for_left}
use hifld_next.Diff.Matching.Best.{ScoresAtLeast, best_match_for_left_best}
use hifld_next.Diff.Matching.Rows.{lefts_of, rights_of, right_id}
use hifld_next.Diff.Build.{compare_versions, build_feature_diff}
use hifld_next.Diff.Build.Laws.Versions.{
  build_feature_diff_versions, compare_versions_covers, versions, known,
}
use hifld_next.Diff.Build.{compare_found, compare_chosen}
use hifld_next.Diff.Versions.{comparable_versions, comparison_scope}
use hifld_next.Diff.Similarity.{text_similarity, similarity_of, normalize_text}
use hifld_next.Diff.Scoring.{
  accumulate, score_for_column, score_property_column, score_values, match_key_weight,
  add_column_score, empty_candidate_score_accumulator, candidate_score_from_accumulator,
  best_column_signal, best_signal_from,
}
use hifld_next.Diff.Scoring.Laws.{disagrees}
use hifld_next.Js.Trim.{trim, trim_start, trim_end, is_space}
use hifld_next.Js.Patterns.{collapse_from, is_word, is_digit}
use hifld_next.Js.Sort.{sort}
use hifld_next.VersionLabel.{compare_version_values}
use hifld_next.Tests.Engine.{engine, engine-IsOrdered, one_cell}

abbrev facility : String → String → String → CatalogFeature engine
facility id version name =
    let from : CatalogOrigin = record {
      collection_slug = "hifld";
      dataset_slug = "hospitals";
      file_slug = "points";
      version = version;
      asset_key = "a";
      storage_location_slug = none;
    } in
    record {
      feature = record {
        id = id;
        loaded_layer_id = "l";
        layer_name = "Hospitals";
        source_layer_id = "s";
        feature_id = id;
        centroid = none;
        properties = ("ID", id) ∷ ("NAME", name) ∷ [];
        origin = catalog from;
      };
      origin = from;
    }

abbrev one_of : CatalogFeature engine → List (CatalogFeature engine)
one_of f = f ∷ []

abbrev old : CatalogFeature engine
old = facility "a" "2024" "north"

abbrev new : CatalogFeature engine
new = facility "b" "2025" "north"

abbrev by_name : List MatchKeyPair
by_name = match_key_pair "NAME" "NAME" ∷ []

abbrev by_confidence : DiffSort
by_confidence = record { column = "confidence"; direction = asc }

abbrev both_versions : DiffOptions engine
both_versions = record {
  left_version = "2024";
  right_version = "2025";
  match_key_pairs = by_name;
  s2_level = whole engine 10;
  sort = some by_confidence;
}

abbrev features : List (SelectedMapFeature engine)
features = old.feature ∷ new.feature ∷ []

-- The versions are covered.
compare_versions_covers_example :
    Perm
      (lefts_of
        (compare_versions engine String.compare one_cell
          (known engine String.compare one_cell features both_versions)
          both_versions
          2
          "2024"
          "2025").rows)
      (for_version engine "2024" (catalog_features engine features))
    × (Distinct (map right_id (for_version engine "2025" (catalog_features engine features)))
        → Perm
            (rights_of
              (compare_versions engine String.compare one_cell
                (known engine String.compare one_cell features both_versions)
                both_versions
                2
                "2024"
                "2025").rows)
            (for_version engine "2025" (catalog_features engine features)))
compare_versions_covers_example =
    compare_versions_covers engine String.compare one_cell features both_versions "2024" "2025"

is_made :
    (build_feature_diff engine String.compare one_cell features both_versions).can_compare ≡ true
unfolding build_feature_diff compare_found compare_chosen compare_versions comparable_versions
    catalog_features comparison_scope add_all sort compare_version_values
is_made = refl

build_feature_diff_versions_example :
    (l r : String) × (vs : List String) × (versions engine String.compare one_cell features
        both_versions
      ≡ some vs)
    × (includes vs l ≡ true)
    × (includes vs r ≡ true)
    × (l ≢ r)
    × (l ≢ "")
    × (r ≢ "")
    × (build_feature_diff engine String.compare one_cell features both_versions
        ≡ compare_versions engine String.compare one_cell
            (catalog_features engine features)
            both_versions
            2
            l
            r)
build_feature_diff_versions_example =
    build_feature_diff_versions engine String.compare one_cell features both_versions is_made

abbrev exact : CandidateScore engine
exact = record { score = whole engine 1; method = key }

exact_score : score_candidate engine one_cell by_name (whole engine 10) old new ≡ some exact
unfolding score_candidate accumulate score_for_column score_property_column score_values
    match_key_weight text_similarity similarity_of normalize_text trim trim_start trim_end is_space
    collapse_from is_word is_digit add_column_score empty_candidate_score_accumulator
    candidate_score_from_accumulator best_column_signal best_signal_from is_stable_identifier_key
exact_score = refl

different_ids : disagrees engine old new (match_key_pair "ID" "ID") ≡ true
unfolding normalize_text trim trim_start trim_end is_space collapse_from is_word is_digit
    is_stable_identifier_key
different_ids = refl

best_match_for_left_best_example :
    ScoresAtLeast engine one_cell by_name
      (whole engine 10)
      old
      ("b" ∷ [])
      (best_match_for_left engine one_cell by_name (whole engine 10) old (one_of new) ("b" ∷ []))
      (whole engine 1)
best_match_for_left_best_example =
    best_match_for_left_best engine one_cell by_name (whole engine 10) old ("b" ∷ [])
      engine-IsOrdered (one_of new) (record { right = new; score = exact })
      (record { listed = Memᴰ.head refl; free = refl; scored = exact_score })
