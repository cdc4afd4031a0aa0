-- ===== src/Diff/Matching.antt =====
-- The greedy matching of the left features against the right ones.
pub mod Pool
pub mod Best
pub mod Rows
use Prim.Native.Nat.{Ordering}
use hifld_next.Common.{
  ℕ, String, Bool, true, false, not, ◌||◌, ◌&&◌, ◌==◌, eqb, ltb, if◌then◌else◌, Option, none, some,
  List, [], ◌∷◌, ◌++◌, includes, to_set, map, filter,
}
use hifld_next.Js.{Js}
use hifld_next.Diff.Model.{
  CatalogFeature, CandidateScore, CellIndex, DiffColumn, DiffRow, MatchKeyPair, FeatureMatchMethod,
  key, fuzzy, s2, no_match,
}
use hifld_next.Diff.Cells.{matched_row, unmatched_row, left_side, right_side}
use hifld_next.Diff.Scoring.{score_candidate}

unfoldable pub score_method_rank : FeatureMatchMethod → ℕ
score_method_rank key = 0
score_method_rank fuzzy = 1
score_method_rank s2 = 2
score_method_rank no_match = 3

abbrev pub is_negative : Ordering → Bool
is_negative Ordering.lt = true
is_negative _ = false

-- `a === b` on methods.
unfoldable pub same_method : FeatureMatchMethod → FeatureMatchMethod → Bool
unfolding score_method_rank
same_method a b = eqb (score_method_rank a) (score_method_rank b)

-- `Set.prototype.delete`
unfoldable pub delete : String → List String → List String
delete k s = filter (λ j. not (j == k)) s

module _ (js : Js) where
  pub record Match : Type 0 where
    pub right : CatalogFeature js
    pub score : CandidateScore js

  -- Whether a candidate takes the place of the best one so far.
  unfoldable pub is_better : Match → Match → Bool
  unfolding score_method_rank same_method
  is_better best m =
      js.lt best.score.score m.score.score
      || js.eq m.score.score best.score.score
        && ltb (score_method_rank m.score.method) (score_method_rank best.score.method)
      || js.eq m.score.score best.score.score
        && same_method m.score.method best.score.method
        && is_negative (js.locale_compare m.right.feature.id best.right.feature.id)

  unfoldable pub improve : Option Match → Match → Option Match
  improve none m = some m
  improve (some best) m = if is_better best m then some m else some best

  module _ (cells : CellIndex js) (match_key_pairs : List MatchKeyPair) (level : js.Number) where
    -- One round of the loop of `bestMatchForLeft`.
    unfoldable pub consider :
        CatalogFeature js → List String → Option Match → CatalogFeature js → Option Match
    consider left unmatched best right =
        if not (includes unmatched right.feature.id)
        then best
        else elim (score_candidate js cells match_key_pairs level left right) [
          | none ↦ best
          | some score ↦ improve best (record { right = right; score = score })
        ]

    unfoldable pub best_match_from :
        CatalogFeature js → List String → Option Match → List (CatalogFeature js) → Option Match
    best_match_from left unmatched best [] = best
    best_match_from left unmatched best (right ∷ rights) =
        best_match_from left unmatched (consider left unmatched best right) rights

    unfoldable pub best_match_for_left :
        CatalogFeature js → List (CatalogFeature js) → List String → Option Match
    best_match_for_left left rights unmatched = best_match_from left unmatched none rights

    -- The loop over the left features: its rows, and the right ids that stay unmatched.
    unfoldable pub match_lefts :
        List DiffColumn
        → List (CatalogFeature js)
        → List String
        → List (CatalogFeature js)
        → List (DiffRow js) × List String
    match_lefts columns rights unmatched [] = ([], unmatched)
    match_lefts columns rights unmatched (left ∷ lefts) =
        elim (best_match_for_left left rights unmatched) [
          | none ↦
              let (rows, rest) = match_lefts columns rights unmatched lefts in
              (unmatched_row js left left_side columns ∷ rows, rest)
          | some m ↦
              let (rows, rest) =
                match_lefts columns rights (delete m.right.feature.id unmatched) lefts in
              (matched_row js left m.right m.score.score m.score.method columns ∷ rows, rest)
        ]

    -- The loop over the right features.
    unfoldable pub right_rows :
        List DiffColumn → List String → List (CatalogFeature js) → List (DiffRow js)
    right_rows columns unmatched rights =
        map (λ f. unmatched_row js f right_side columns)
          (filter (λ f. includes unmatched f.feature.id) rights)

    unfoldable pub build_rows :
        List (CatalogFeature js) → List (CatalogFeature js) → List DiffColumn → List (DiffRow js)
    build_rows lefts rights columns =
        let (rows, rest) =
          match_lefts columns rights (to_set (map (λ f. f.feature.id) rights)) lefts in
        rows ++ right_rows columns rest rights
