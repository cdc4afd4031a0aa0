-- ===== src/Diff/Build/Laws/Summary.antt =====
-- The counts of a comparison, and the columns that it marks as changed.
use Prim.Native.Nat.{Ordering}
use hifld_next.Common.{
  ◌+◌, String, Bool, not, ◌&&◌, if◌then◌else◌, List, [], ◌∷◌, map, count, length, length-filter,
  ◌≡◌, refl, ap, ◌∙◌, arith, Option-cases, inl, inr, Distinct, is_some, All, All-append, to_set,
  ltb,
}
use hifld_next.Common.Perm.{length-perm, count-perm}
use hifld_next.Js.{Js}
use hifld_next.Selection.Features.{SelectedMapFeature}
use hifld_next.Diff.Model.{
  CatalogFeature, CellIndex, DiffColumn, DiffOptions, DiffRow, DiffSummary, MatchKeyPair, left_only,
  right_only,
}
use hifld_next.Diff.Versions.{
  all_property_keys, catalog_features, column_of, default_feature_diff_match_key_pairs, for_version,
}
use hifld_next.Diff.Cells.{matched_row, unmatched_row, row_status, right_side}
use hifld_next.Diff.Matching.{best_match_for_left, match_lefts, right_rows, build_rows, delete}
use hifld_next.Diff.Matching.Pool.{pool}
use hifld_next.Diff.Matching.Rows.{
  lefts_of, rights_of, right_id, lefts_of-build_rows, rights_of-build_rows,
}
use hifld_next.Diff.Build.{is_matched, has_status, summarize, sort_rows, compare_versions}
use hifld_next.Diff.Build.Laws.Versions.{sort_rows-perm}

module _ {js : Js} where
  -- The one-sided statuses stand on the one-sided rows, and on no other.
  abbrev IsLabelled : DiffRow js → Type 0
  IsLabelled row =
      (has_status row.status left_only ≡ is_some row.left && not (is_some row.right))
      × (has_status row.status right_only ≡ not (is_some row.left) && is_some row.right)

  left_count :
      (rows : List (DiffRow js))
      → All IsLabelled rows
      → count is_matched rows + count (λ (row : DiffRow js). has_status row.status left_only) rows
        ≡ length (lefts_of rows)
  left_count [] h = refl
  left_count (row ∷ rows) ((l, r), h) = ground (arith, left_count rows h)

  right_count :
      (rows : List (DiffRow js))
      → All IsLabelled rows
      → count is_matched rows + count (λ (row : DiffRow js). has_status row.status right_only) rows
        ≡ length (rights_of rows)
  right_count [] h = refl
  right_count (row ∷ rows) ((l, r), h) = ground (arith, right_count rows h)

module _ (js : Js) (cells : CellIndex js) (pairs : List MatchKeyPair) (level : js.Number)
    (columns : List DiffColumn) (rights : List (CatalogFeature js)) where
  match_lefts-IsLabelled :
      (unmatched : List String) (lefts : List (CatalogFeature js))
      → All IsLabelled (match_lefts js cells pairs level columns rights unmatched lefts).0
  unfolding match_lefts
  match_lefts-IsLabelled unmatched [] = tt
  match_lefts-IsLabelled unmatched (left ∷ lefts) =
      elim (Option-cases (best_match_for_left js cells pairs level left rights unmatched)) [
        | inl alone ↦
            rw (alone, match_lefts)
              (unfold unmatched_row in (refl, refl), match_lefts-IsLabelled unmatched lefts)
        | inr (m, found) ↦
            rw (found, match_lefts)
              (
                unfold matched_row row_status in ground arith,
                match_lefts-IsLabelled (delete m.right.feature.id unmatched) lefts,
              )
      ]

  right_rows-IsLabelled :
      (fs : List (CatalogFeature js))
      → All IsLabelled (map (λ f. unmatched_row js f right_side columns) fs)
  unfolding unmatched_row
  right_rows-IsLabelled [] = tt
  right_rows-IsLabelled (f ∷ fs) = ((refl, refl), right_rows-IsLabelled fs)

  build_rows-IsLabelled :
      (lefts : List (CatalogFeature js))
      → All IsLabelled (build_rows js cells pairs level lefts rights columns)
  unfolding build_rows right_rows
  build_rows-IsLabelled lefts =
      let all_ids = to_set (map right_id rights) in
      let done = match_lefts js cells pairs level columns rights all_ids lefts in
      All-append IsLabelled done.0
        (map (λ f. unmatched_row js f right_side columns) (pool right_id done.1 rights))
        (match_lefts-IsLabelled all_ids lefts) (right_rows-IsLabelled (pool right_id done.1 rights))

module _ (js : Js) (base_compare : String → String → Ordering) (cells : CellIndex js)
    (features : List (SelectedMapFeature js)) (options : DiffOptions js) (l r : String) where
  abbrev pub summary : DiffSummary
  summary =
      (compare_versions js base_compare cells (catalog_features js features) options
        (length features) l r).summary

  -- In the summary of a comparison the matched rows and the left-only ones are together as many as
  -- the features of the left version; and where no two features of the right version have one id,
  -- the matched rows and the right-only ones are as many as those of the right version.
  pub summary_adds_up :
      (summary.matched + summary.left_only
        ≡ length (for_version js l (catalog_features js features)))
      × (Distinct (map right_id (for_version js r (catalog_features js features)))
          → summary.matched + summary.right_only
            ≡ length (for_version js r (catalog_features js features)))
  unfolding compare_versions summarize
  summary_adds_up =
      let found = catalog_features js features in
      let lefts = for_version js l found in
      let rights = for_version js r found in
      let columns = map column_of (all_property_keys js found) in
      let defaults = default_feature_diff_match_key_pairs js found l r in
      let pairs =
        if ltb 0 (length options.match_key_pairs) then options.match_key_pairs else defaults in
      let rows = build_rows js cells pairs options.s2_level lefts rights columns in
      let sorted = sort_rows js base_compare rows options.sort in
      let counted = λ (p : DiffRow js → Bool).
        length-filter p sorted ∙ count-perm p (sort_rows-perm js base_compare rows options.sort) in
      let labelled = build_rows-IsLabelled js cells pairs options.s2_level columns rights lefts in
      let all_left =
        ap length (lefts_of-build_rows js cells pairs options.s2_level columns rights lefts) in
      (
        omega (
          arith,
          counted is_matched,
          counted (λ (row : DiffRow js). has_status row.status left_only),
          left_count rows labelled,
          all_left,
        ),
        λ d. omega (
          arith,
          counted is_matched,
          counted (λ (row : DiffRow js). has_status row.status right_only),
          right_count rows labelled,
          length-perm (rights_of-build_rows js cells pairs options.s2_level columns rights lefts d),
        ),
      )
