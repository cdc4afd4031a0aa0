-- ===== src/Diff/Matching/Rows.antt =====
-- What the rows of a comparison hold: every left feature, every right feature, no pair below the
-- threshold.
use mathlib.Core.List.{Perm}
use mathlib.Core.List.Perm
use hifld_next.Common.{
  String, List, [], ◌∷◌, ◌++◌, ◌≡◌, refl, sym, ap, ◌∙◌, arith, Option-cases, inl, inr, some, subst,
  Distinct, map, filter_map, All, All-append, filter_map-append, to_set, includes-to_set,
  append-nil,
}
use hifld_next.Js.{Js}
use hifld_next.Diff.Model.{CatalogFeature, CellIndex, MatchKeyPair, DiffColumn, DiffRow}
use hifld_next.Diff.Scoring.{score_candidate}
use hifld_next.Diff.Cells.{matched_row, unmatched_row, right_side}
use hifld_next.Diff.Matching.{best_match_for_left, match_lefts, right_rows, build_rows, delete}
use hifld_next.Diff.Matching.Pool.{pool, pool-delete, pool_all, includes_id}
use hifld_next.Diff.Matching.Best.{best_match_for_left_sound}

module _ {js : Js} where
  abbrev pub right_id : CatalogFeature js → String
  right_id f = f.feature.id

  abbrev pub lefts_of : List (DiffRow js) → List (CatalogFeature js)
  lefts_of = filter_map (λ (r : DiffRow js). r.left)

  abbrev pub rights_of : List (DiffRow js) → List (CatalogFeature js)
  rights_of = filter_map (λ (r : DiffRow js). r.right)

module _ (js : Js) (cells : CellIndex js) (pairs : List MatchKeyPair) (level : js.Number)
    (columns : List DiffColumn) (rights : List (CatalogFeature js)) where
  lefts_of-match_lefts :
      (unmatched : List String) (lefts : List (CatalogFeature js))
      → lefts_of (match_lefts js cells pairs level columns rights unmatched lefts).0 ≡ lefts
  unfolding match_lefts matched_row unmatched_row
  lefts_of-match_lefts unmatched [] = refl
  lefts_of-match_lefts unmatched (left ∷ lefts) =
      elim (Option-cases (best_match_for_left js cells pairs level left rights unmatched)) [
        | inl alone ↦
            rw (alone, match_lefts) (ap (λ l. left ∷ l) (lefts_of-match_lefts unmatched lefts))
        | inr (m, found) ↦
            rw (found, match_lefts)
              (ap (λ l. left ∷ l)
                (lefts_of-match_lefts (delete m.right.feature.id unmatched) lefts))
      ]

  lefts_of-right_rows :
      (fs : List (CatalogFeature js))
      → lefts_of (map (λ f. unmatched_row js f right_side columns) fs) ≡ []
  unfolding unmatched_row
  lefts_of-right_rows [] = refl
  lefts_of-right_rows (f ∷ fs) = lefts_of-right_rows fs

  rights_of-right_rows :
      (fs : List (CatalogFeature js))
      → rights_of (map (λ f. unmatched_row js f right_side columns) fs) ≡ fs
  unfolding unmatched_row
  rights_of-right_rows [] = refl
  rights_of-right_rows (f ∷ fs) = ap (λ l. f ∷ l) (rights_of-right_rows fs)

  -- The matched rights and the pool that is left make up the pool.
  rights_of-match_lefts :
      (unmatched : List String) (lefts : List (CatalogFeature js))
      → Distinct (map right_id rights)
      → Perm
          (rights_of (match_lefts js cells pairs level columns rights unmatched lefts).0
            ++ pool right_id
                (match_lefts js cells pairs level columns rights unmatched lefts).1
                rights)
          (pool right_id unmatched rights)
  unfolding match_lefts matched_row unmatched_row
  rights_of-match_lefts unmatched [] d = Perm.refl (pool right_id unmatched rights)
  rights_of-match_lefts unmatched (left ∷ lefts) d =
      elim (Option-cases (best_match_for_left js cells pairs level left rights unmatched)) [
        | inl alone ↦ rw (alone, match_lefts) (rights_of-match_lefts unmatched lefts d)
        | inr (m, found) ↦
            let c = best_match_for_left_sound js cells pairs level left unmatched rights m found in
            rw (found, match_lefts)
              (Perm.trans
                (Perm.cons m.right
                  (rights_of-match_lefts (delete m.right.feature.id unmatched) lefts d))
                (pool-delete right_id m.right unmatched rights d c.listed c.free))
      ]

  -- The left features of the rows are the given left features, each once and in order.
  pub lefts_of-build_rows :
      (lefts : List (CatalogFeature js))
      → lefts_of (build_rows js cells pairs level lefts rights columns) ≡ lefts
  unfolding build_rows right_rows
  lefts_of-build_rows lefts =
      let all_ids = to_set (map right_id rights) in
      let done = match_lefts js cells pairs level columns rights all_ids lefts in
      filter_map-append (λ (r : DiffRow js). r.left) done.0
        (map (λ f. unmatched_row js f right_side columns) (pool right_id done.1 rights))
      ∙ ap (λ l. lefts_of done.0 ++ l) (lefts_of-right_rows (pool right_id done.1 rights))
      ∙ append-nil (lefts_of done.0)
      ∙ lefts_of-match_lefts all_ids lefts

  -- Where no two right features have one id, the right features of the rows are the given right
  -- features, each once: the matching is one to one and loses none.
  pub rights_of-build_rows :
      (lefts : List (CatalogFeature js))
      → Distinct (map right_id rights)
      → Perm (rights_of (build_rows js cells pairs level lefts rights columns)) rights
  unfolding build_rows right_rows
  rights_of-build_rows lefts d =
      let all_ids = to_set (map right_id rights) in
      let done = match_lefts js cells pairs level columns rights all_ids lefts in
      let whole_pool : pool right_id all_ids rights ≡ rights =
        pool_all right_id all_ids rights (λ x m.
          includes-to_set (map right_id rights) (x.feature.id) ∙ includes_id right_id x rights m) in
      let split : rights_of (
            done.0
            ++ map (λ f. unmatched_row js f right_side columns) (pool right_id done.1 rights))
          ≡ rights_of done.0 ++ pool right_id done.1 rights =
        filter_map-append (λ (r : DiffRow js). r.right) done.0
          (map (λ f. unmatched_row js f right_side columns) (pool right_id done.1 rights))
        ∙ ap (λ l. rights_of done.0 ++ l) (rights_of-right_rows (pool right_id done.1 rights)) in
      subst (λ l. Perm l rights) (sym split)
        (subst (λ l. Perm (rights_of done.0 ++ pool right_id done.1 rights) l) whole_pool
          (rights_of-match_lefts all_ids lefts d))

  -- Where a row has both sides, it carries their score.
  abbrev pub IsScored : DiffRow js → Type 0
  IsScored row =
      (l r : CatalogFeature js)
      → row.left ≡ some l
      → row.right ≡ some r
      → score_candidate js cells pairs level l r
        ≡ some (record { score = row.confidence; method = row.match_method })

  match_lefts-IsScored :
      (unmatched : List String) (lefts : List (CatalogFeature js))
      → All IsScored (match_lefts js cells pairs level columns rights unmatched lefts).0
  unfolding match_lefts
  match_lefts-IsScored unmatched [] = tt
  match_lefts-IsScored unmatched (left ∷ lefts) =
      elim (Option-cases (best_match_for_left js cells pairs level left rights unmatched)) [
        | inl alone ↦
            rw (alone, match_lefts)
              (
                unfold unmatched_row in λ l r e f. absurd (ground arith),
                match_lefts-IsScored unmatched lefts,
              )
        | inr (m, found) ↦
            let c = best_match_for_left_sound js cells pairs level left unmatched rights m found in
            rw (found, match_lefts)
              (
                unfold matched_row in λ l r e f. ground (arith, c.scored),
                match_lefts-IsScored (delete m.right.feature.id unmatched) lefts,
              )
      ]

  right_rows-IsScored :
      (fs : List (CatalogFeature js))
      → All IsScored (map (λ f. unmatched_row js f right_side columns) fs)
  unfolding unmatched_row
  right_rows-IsScored [] = tt
  right_rows-IsScored (f ∷ fs) = (λ l r e g. absurd (ground arith), right_rows-IsScored fs)

  -- Every row that has both sides carries the score of the two features as its method and its
  -- confidence, so no row pairs two features that have none.
  pub build_rows-IsScored :
      (lefts : List (CatalogFeature js))
      → All IsScored (build_rows js cells pairs level lefts rights columns)
  unfolding build_rows right_rows
  build_rows-IsScored lefts =
      let all_ids = to_set (map right_id rights) in
      let done = match_lefts js cells pairs level columns rights all_ids lefts in
      All-append IsScored done.0
        (map (λ f. unmatched_row js f right_side columns) (pool right_id done.1 rights))
        (match_lefts-IsScored all_ids lefts) (right_rows-IsScored (pool right_id done.1 rights))
