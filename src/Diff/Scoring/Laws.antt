-- ===== src/Diff/Scoring/Laws.antt =====
-- Which pairs of features have a score.
use mathlib.Core.List.{Memᴰ}
use hifld_next.Common.{
  String, Bool, true, false, not, ◌||◌, ◌&&◌, ◌==◌, eq_iff, none, some, List, [], ◌∷◌, ◌≡◌, refl,
  arith, Bool-cases, inl, inr, subst,
}
use hifld_next.Js.{Js, whole}
use hifld_next.Diff.Model.{
  CatalogFeature, CellIndex, ColumnScore, CandidateScore, CandidateScoreAccumulator, MatchKeyPair,
  key, fuzzy, FeatureMatchMethod, geometry_match_column,
}
use hifld_next.Diff.Similarity.{normalize_text}
use hifld_next.Diff.Scoring.{
  is_stable_identifier_key, has_feature_property, feature_property, score_property_column,
  empty_candidate_score_accumulator, add_column_score, default_match_threshold, best_column_signal,
  candidate_score_from_accumulator, score_for_column, is_geometry_only, accumulate, score_candidate,
  match_key_weight, add_if_scored,
}

stable-ne-geometry :
    (k : String) → is_stable_identifier_key k ≡ true → (k == geometry_match_column) ≡ false
unfolding is_stable_identifier_key
stable-ne-geometry k h = elim (Bool-cases (k == geometry_match_column)) [
  | inl e ↦ absurd (cc (subst (λ j. is_stable_identifier_key j ≡ true) ((eq_iff k _).0 e) h))
  | inr n ↦ n
]

module _ (js : Js) where
  -- The columns of the pair name a stable identifier on both sides, and the features disagree on
  -- it: one lacks it, or their values differ and neither is empty.
  abbrev pub disagrees : CatalogFeature js → CatalogFeature js → MatchKeyPair → Bool
  disagrees left right pair =
      let l = normalize_text js (feature_property left pair.left) in
      let r = normalize_text js (feature_property right pair.right) in
      (is_stable_identifier_key pair.left && is_stable_identifier_key pair.right)
      && (not (has_feature_property left pair.left)
          || not (has_feature_property right pair.right)
          || not (l == "") && not (r == "") && not (l == r))

  score_property_column-disagrees :
      (pair : MatchKeyPair) (left right : CatalogFeature js)
      → disagrees left right pair ≡ true
      → (s : ColumnScore js) × (score_property_column js pair left right ≡ some s)
        × (s.is_stable_identifier ≡ true)
        × (s.score ≡ whole js 0)
  unfolding score_property_column
  score_property_column-disagrees pair left right h =
      let stable : (is_stable_identifier_key pair.left && is_stable_identifier_key pair.right)
          ≡ true =
        ground arith in
      elim (Bool-cases (
        not (has_feature_property left pair.left) || not (has_feature_property right pair.right))) [
          | inl missing ↦ (zero_column fuzzy, rw (stable, missing), refl, refl)
          | inr present ↦ (zero_column key, rw (stable, present) (ground arith), refl, refl)
        ]
    where
      zero_column : FeatureMatchMethod → ColumnScore js
      zero_column method = record {
        score = whole js 0;
        method = method;
        weight = match_key_weight js true;
        is_stable_identifier = true;
      }

  module _ (cells : CellIndex js) (level : js.Number) (left right : CatalogFeature js) where
    score_for_column-disagrees :
        (pair : MatchKeyPair) (geometry_only : Bool)
        → disagrees left right pair ≡ true
        → (s : ColumnScore js) × (score_for_column js cells pair left right level geometry_only
            ≡ some s)
          × (s.is_stable_identifier ≡ true)
          × (s.score ≡ whole js 0)
    unfolding score_for_column
    score_for_column-disagrees pair geometry_only h =
        let (s, scored, stable, zero) = score_property_column-disagrees pair left right h in
        let at_left = stable-ne-geometry pair.left (ground arith) in
        let at_right = stable-ne-geometry pair.right (ground arith) in
        (s, rw (at_left, at_right) scored, stable, zero)

    -- A disagreement, once noted, stays.
    accumulate_keeps :
        (a : CandidateScoreAccumulator js) (pairs : List MatchKeyPair) (geometry_only : Bool)
        → a.has_stable_identifier_disagreement ≡ true
        → (accumulate js cells left right level geometry_only a
            pairs).has_stable_identifier_disagreement
          ≡ true
    unfolding accumulate add_column_score
    accumulate_keeps a [] geometry_only h = h
    accumulate_keeps a (pair ∷ pairs) geometry_only h =
        accumulate_keeps
          (add_if_scored js a (score_for_column js cells pair left right level geometry_only)) pairs
          geometry_only (ground arith)

    accumulate_notes :
        (a : CandidateScoreAccumulator js) (pairs : List MatchKeyPair) (geometry_only : Bool)
        (pair : MatchKeyPair)
        → js.lt (whole js 0) (whole js 1) ≡ true
        → Memᴰ pair pairs
        → disagrees left right pair ≡ true
        → (accumulate js cells left right level geometry_only a
            pairs).has_stable_identifier_disagreement
          ≡ true
    unfolding accumulate add_column_score
    accumulate_notes a [] geometry_only pair o m h = elim m [ ]
    accumulate_notes a (p ∷ pairs) geometry_only pair o (Memᴰ.tail m) h =
        accumulate_notes
          (add_if_scored js a (score_for_column js cells p left right level geometry_only)) pairs
          geometry_only pair o m h
    accumulate_notes a (p ∷ pairs) geometry_only pair o (Memᴰ.head e) h =
        let (s, scored, stable, zero) =
          score_for_column-disagrees p geometry_only
            (subst (λ q. disagrees left right q ≡ true) e h) in
        accumulate_keeps
          (add_if_scored js a (score_for_column js cells p left right level geometry_only)) pairs
          geometry_only (rw (scored, stable, zero, o) (ground arith))

    -- Where 0 < 1 in the engine: features that disagree on a stable identifier that a match key
    -- pair names on both sides (one lacks it, or the normalised values differ and neither is empty)
    -- have no score, whatever the other pairs.
    pub score_candidate-disagrees :
        (pairs : List MatchKeyPair) (pair : MatchKeyPair)
        → js.lt (whole js 0) (whole js 1) ≡ true
        → Memᴰ pair pairs
        → disagrees left right pair ≡ true
        → score_candidate js cells pairs level left right ≡ none
    unfolding score_candidate candidate_score_from_accumulator
    score_candidate-disagrees pairs pair o m h =
        let noted =
          accumulate_notes (empty_candidate_score_accumulator js) pairs
            (is_geometry_only js cells pairs) pair o m h in
        rw noted (ground arith)

    -- The score of a pair of features, where it has one, is not below the threshold 0.65.
    pub score_candidate_threshold :
        (pairs : List MatchKeyPair) (s : CandidateScore js)
        → score_candidate js cells pairs level left right ≡ some s
        → js.lt s.score (default_match_threshold js) ≡ false
    unfolding score_candidate candidate_score_from_accumulator best_column_signal
    score_candidate_threshold pairs s h = ground arith
