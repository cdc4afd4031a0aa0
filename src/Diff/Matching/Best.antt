-- ===== src/Diff/Matching/Best.antt =====
-- The match that `bestMatchForLeft` returns.
use mathlib.Core.List.Memᴰ
use mathlib.Core.List.{Memᴰ}
use hifld_next.Common.{
  String, true, false, List, [], ◌∷◌, includes, ◌≡◌, refl, sym, ◌∙◌, arith, Bool-cases,
  Option-cases, inl, inr, Option, none, some, ◌⊎◌, subst,
}
use hifld_next.Js.{Js, IsOrdered}
use hifld_next.Diff.Model.{CatalogFeature, CandidateScore, CellIndex, MatchKeyPair}
use hifld_next.Diff.Scoring.{score_candidate}
use hifld_next.Diff.Matching.{
  Match, is_better, improve, consider, best_match_from, best_match_for_left,
}

module _ (js : Js) (cells : CellIndex js) (pairs : List MatchKeyPair) (level : js.Number)
    (left : CatalogFeature js) (unmatched : List String) where
  abbrev score_of : CatalogFeature js → Option (CandidateScore js)
  score_of = score_candidate js cells pairs level left

  -- The right feature is a candidate with this score, and is still unmatched.
  pub record IsCandidate (rights : List (CatalogFeature js)) (m : Match js) : Type 0 where
    pub listed : Memᴰ m.right rights
    pub free : includes unmatched m.right.feature.id ≡ true
    pub scored : score_candidate js cells pairs level left m.right ≡ some m.score

  improve_choice :
      (best : Option (Match js)) (m : Match js)
      → (improve js best m ≡ some m) ⊎ (improve js best m ≡ best)
  unfolding improve
  improve_choice none m = inl refl
  improve_choice (some b) m = ground arith

  consider_choice :
      (best : Option (Match js)) (right : CatalogFeature js)
      → (consider js cells pairs level left unmatched best right ≡ best)
        ⊎ ((m : Match js) × (consider js cells pairs level left unmatched best right ≡ some m)
            × (m.right ≡ right)
            × (includes unmatched right.feature.id ≡ true)
            × (score_of right ≡ some m.score))
  unfolding consider
  consider_choice best right = elim (Bool-cases (includes unmatched right.feature.id)) [
    | inr gone ↦ inl (rw gone)
    | inl free ↦ elim (Option-cases (score_of right)) [
      | inl unscored ↦ inl (rw (free, unscored))
      | inr (s, scored) ↦
          let m : Match js = record { right = right; score = s } in
          elim (improve_choice best m) [
            | inl taken ↦ inr (m, rw (free, scored) taken, refl, free, scored)
            | inr kept ↦ inl (rw (free, scored) kept)
          ]
    ]
  ]

  best_match_from_sound :
      (best : Option (Match js)) (rights : List (CatalogFeature js)) (m : Match js)
      → best_match_from js cells pairs level left unmatched best rights ≡ some m
      → (best ≡ some m) ⊎ IsCandidate rights m
  unfolding best_match_from
  best_match_from_sound best [] m e = inl e
  best_match_from_sound best (right ∷ rights) m e =
      elim (best_match_from_sound (consider js cells pairs level left unmatched best right) rights m
        e) [
          | inr c ↦ inr (record { listed = Memᴰ.tail c.listed; free = c.free; scored = c.scored })
          | inl now ↦ elim (consider_choice best right) [
            | inl kept ↦ inl (sym kept ∙ now)
            | inr (n, taken, at_right, free, scored) ↦
                let same : n ≡ m = cc (taken, now) in
                inr (
                  subst (IsCandidate (right ∷ rights)) same (record {
                    listed = Memᴰ.head at_right;
                    free = rw at_right free;
                    scored = rw at_right scored;
                  }))
          ]
        ]

  -- What is returned is a candidate.
  pub best_match_for_left_sound :
      (rights : List (CatalogFeature js)) (m : Match js)
      → best_match_for_left js cells pairs level left rights unmatched ≡ some m
      → IsCandidate rights m
  unfolding best_match_for_left
  best_match_for_left_sound rights m e = elim (best_match_from_sound none rights m e) [
    | inl absent ↦ absurd (ground arith)
    | inr c ↦ c
  ]

  -- The best match so far scores at least `s`.
  abbrev pub ScoresAtLeast : Option (Match js) → js.Number → Type 0
  ScoresAtLeast none s = ⊥
  ScoresAtLeast (some m) s = js.lt m.score.score s ≡ false

  module _ (ordered : IsOrdered js) where
    improve_keeps :
        (best : Option (Match js)) (m : Match js) (s : js.Number)
        → ScoresAtLeast best s
        → ScoresAtLeast (improve js best m) s
    unfolding improve is_better
    improve_keeps none m s h = elim h [ ]
    improve_keeps (some b) m s h = ground (
      arith,
      h,
      ordered.lt_trans b.score.score m.score.score s,
      ordered.eq_lt m.score.score b.score.score s,
    )

    improve_reaches :
        (best : Option (Match js)) (m : Match js) → ScoresAtLeast (improve js best m) m.score.score
    unfolding improve is_better
    improve_reaches none m = ordered.lt_irrefl m.score.score
    improve_reaches (some b) m = ground (arith, ordered.lt_irrefl m.score.score)

    consider_keeps :
        (best : Option (Match js)) (right : CatalogFeature js) (s : js.Number)
        → ScoresAtLeast best s
        → ScoresAtLeast (consider js cells pairs level left unmatched best right) s
    unfolding consider
    consider_keeps best right s h = elim (Bool-cases (includes unmatched right.feature.id)) [
      | inr gone ↦ rw gone h
      | inl free ↦ elim (Option-cases (score_of right)) [
        | inl unscored ↦ rw (free, unscored) h
        | inr (t, scored) ↦
            rw (free, scored) (improve_keeps best (record { right = right; score = t }) s h)
      ]
    ]

    consider_reaches :
        (best : Option (Match js)) (right : CatalogFeature js) (s : CandidateScore js)
        → includes unmatched right.feature.id ≡ true
        → score_candidate js cells pairs level left right ≡ some s
        → ScoresAtLeast (consider js cells pairs level left unmatched best right) s.score
    unfolding consider
    consider_reaches best right s free scored =
        rw (free, scored) (improve_reaches best (record { right = right; score = s }))

    best_match_from_keeps :
        (best : Option (Match js)) (rights : List (CatalogFeature js)) (s : js.Number)
        → ScoresAtLeast best s
        → ScoresAtLeast (best_match_from js cells pairs level left unmatched best rights) s
    unfolding best_match_from
    best_match_from_keeps best [] s h = h
    best_match_from_keeps best (right ∷ rights) s h =
        best_match_from_keeps (consider js cells pairs level left unmatched best right) rights s
          (consider_keeps best right s h)

    best_match_from_reaches :
        (best : Option (Match js)) (rights : List (CatalogFeature js)) (m : Match js)
        → IsCandidate rights m
        → ScoresAtLeast
            (best_match_from js cells pairs level left unmatched best rights)
            m.score.score
    unfolding best_match_from
    best_match_from_reaches best [] m c = elim (c.listed) [ ]
    best_match_from_reaches best (right ∷ rights) m c = elim (Memᴰ.cases_cons c.listed) [
      | inl e ↦
          best_match_from_keeps (consider js cells pairs level left unmatched best right) rights
            m.score.score
            (consider_reaches best right m.score (rw e at (c.free)) (rw e at (c.scored)))
      | inr later ↦
          best_match_from_reaches (consider js cells pairs level left unmatched best right) rights m
            (record { listed = later; free = c.free; scored = c.scored })
    ]

    -- Where the engine's order is a strict order that `===` respects: if some right feature is
    -- unmatched and has a score with the left one, a match is returned, and it does not score below
    -- that one.
    pub best_match_for_left_best :
        (rights : List (CatalogFeature js)) (other : Match js)
        → IsCandidate rights other
        → ScoresAtLeast
            (best_match_for_left js cells pairs level left rights unmatched)
            other.score.score
    unfolding best_match_for_left
    best_match_for_left_best rights other c = best_match_from_reaches none rights other c
