-- ===== src/Diff/Scoring.antt =====
-- The score of a pair of features over the columns that they are matched by.
pub mod Laws
use hifld_next.Common.{
  ℕ, String, Bool, true, false, not, ◌||◌, ◌&&◌, ◌==◌, eqb, if◌then◌else◌, Option, none, some,
  includes, length, List, [], ◌∷◌, ◌++◌, lookup, get_or, is_some, keys,
}
use hifld_next.Js.{Js, whole}
use hifld_next.Diff.Model.{
  CatalogFeature, CellIndex, ColumnScore, CandidateScore, CandidateScoreAccumulator, MatchKeyPair,
  FeatureMatchMethod, key, fuzzy, s2, geometry_match_column, stable_identifier_fields,
}
use hifld_next.Diff.Similarity.{normalize_text, text_similarity, geometry_similarity}

unfoldable pub is_stable_identifier_key : String → Bool
is_stable_identifier_key k = includes stable_identifier_fields k

module _ {js : Js} where
  -- `Object.hasOwn(feature.properties, key)` and `feature.properties[key] ?? ""`
  abbrev pub has_feature_property : CatalogFeature js → String → Bool
  has_feature_property f k = is_some (lookup k f.feature.properties)

  abbrev pub feature_property : CatalogFeature js → String → String
  feature_property f k = get_or (lookup k f.feature.properties) ""

module _ (js : Js) where
  unfoldable pub match_key_weight : Bool → js.Number
  match_key_weight is_stable_identifier =
      if is_stable_identifier then js.literal 5 2 else whole js 1

  -- The score of two present values.
  unfoldable pub score_values : String → String → Bool → Option (ColumnScore js)
  unfolding match_key_weight
  score_values left_value right_value stable =
      let left = normalize_text js left_value in
      let right = normalize_text js right_value in
      if stable && not (left == "") && not (right == "") && not (left == right)
      then some (record {
        score = whole js 0;
        method = key;
        weight = match_key_weight stable;
        is_stable_identifier = stable;
      })
      else elim (text_similarity js left_value right_value) [
        | none ↦ none
        | some score ↦ some (record {
          score = score;
          method = if js.eq score (whole js 1) || stable then key else fuzzy;
          weight = match_key_weight stable;
          is_stable_identifier = stable;
        })
      ]

  unfoldable pub score_property_column :
      MatchKeyPair → CatalogFeature js → CatalogFeature js → Option (ColumnScore js)
  unfolding score_values
  score_property_column pair left right =
      let stable = is_stable_identifier_key pair.left && is_stable_identifier_key pair.right in
      if not (has_feature_property left pair.left) || not (has_feature_property right pair.right)
      then some (record {
        score = whole js 0;
        method = fuzzy;
        weight = match_key_weight stable;
        is_stable_identifier = stable;
      })
      else score_values (feature_property left pair.left) (feature_property right pair.right) stable

  unfoldable pub empty_candidate_score_accumulator : CandidateScoreAccumulator js
  empty_candidate_score_accumulator = record {
    total_weight = whole js 0;
    weighted_score = whole js 0;
    has_stable_identifier_exact_match = false;
    has_stable_identifier_disagreement = false;
    scores = [];
  }

  unfoldable pub add_column_score :
      CandidateScoreAccumulator js → ColumnScore js → CandidateScoreAccumulator js
  add_column_score a s = record {
    total_weight = js.plus a.total_weight s.weight;
    weighted_score = js.plus a.weighted_score (js.times s.score s.weight);
    has_stable_identifier_exact_match =
        a.has_stable_identifier_exact_match || s.is_stable_identifier && js.eq s.score (whole js 1);
    has_stable_identifier_disagreement =
        a.has_stable_identifier_disagreement
        || s.is_stable_identifier && js.lt s.score (whole js 1);
    scores = a.scores ++ s ∷ [];
  }

  -- `if (score === null) continue`
  abbrev pub add_if_scored :
      CandidateScoreAccumulator js → Option (ColumnScore js) → CandidateScoreAccumulator js
  add_if_scored a none = a
  add_if_scored a (some score) = add_column_score a score

  -- The loop of `bestColumnSignal`.
  unfoldable pub best_signal_from : ColumnScore js → List (ColumnScore js) → ColumnScore js
  best_signal_from best [] = best
  best_signal_from best (s ∷ ss) =
      best_signal_from (if js.lt best.score s.score then s else best) ss

  unfoldable pub best_column_signal : List (ColumnScore js) → Option (ColumnScore js)
  unfolding best_signal_from
  best_column_signal [] = none
  best_column_signal (s ∷ ss) = some (best_signal_from s ss)

  -- `DEFAULT_MATCH_THRESHOLD`
  abbrev pub default_match_threshold : js.Number
  default_match_threshold = js.literal 65 100

  unfoldable pub candidate_score_from_accumulator :
      CandidateScoreAccumulator js → Option (CandidateScore js)
  unfolding best_column_signal
  candidate_score_from_accumulator a =
      let aggregate_score = js.divide a.weighted_score a.total_weight in
      if js.eq a.total_weight (whole js 0)
        || eqb (length a.scores) 0
        || a.has_stable_identifier_disagreement
      then none
      else if js.lt aggregate_score default_match_threshold
      then none
      else if a.has_stable_identifier_exact_match
      then some (record { score = aggregate_score; method = key })
      else elim (best_column_signal a.scores) [
        | none ↦ none
        | some best ↦ some (record { score = aggregate_score; method = best.method })
      ]

  module _ (cells : CellIndex js) where
    unfoldable pub score_geometry_column :
        CatalogFeature js → CatalogFeature js → js.Number → Bool → Option (ColumnScore js)
    score_geometry_column left right level geometry_only =
        elim (geometry_similarity js cells left right level) [
          | none ↦ none
          | some score ↦ some (record {
            score = score;
            method = s2;
            weight = if geometry_only then whole js 1 else js.literal 7 10;
            is_stable_identifier = false;
          })
        ]

    unfoldable pub score_for_column :
        MatchKeyPair
        → CatalogFeature js
        → CatalogFeature js
        → js.Number
        → Bool
        → Option (ColumnScore js)
    unfolding score_geometry_column score_property_column
    score_for_column pair left right level geometry_only =
        if pair.left == geometry_match_column && pair.right == geometry_match_column
        then score_geometry_column left right level geometry_only
        else if pair.left == geometry_match_column || pair.right == geometry_match_column
        then none
        else score_property_column pair left right

    abbrev pub is_geometry_only : List MatchKeyPair → Bool
    is_geometry_only (pair ∷ []) =
        pair.left == geometry_match_column && pair.right == geometry_match_column
    is_geometry_only _ = false

    -- The loop of `scoreCandidate`.
    unfoldable pub accumulate :
        CatalogFeature js
        → CatalogFeature js
        → js.Number
        → Bool
        → CandidateScoreAccumulator js
        → List MatchKeyPair
        → CandidateScoreAccumulator js
    accumulate left right level geometry_only a [] = a
    accumulate left right level geometry_only a (pair ∷ rest) =
        accumulate left right level geometry_only
          (add_if_scored a (score_for_column pair left right level geometry_only)) rest

    unfoldable pub score_candidate :
        List MatchKeyPair
        → js.Number
        → CatalogFeature js
        → CatalogFeature js
        → Option (CandidateScore js)
    score_candidate match_key_pairs level left right = candidate_score_from_accumulator (
        accumulate left right level (is_geometry_only match_key_pairs)
          empty_candidate_score_accumulator match_key_pairs)
