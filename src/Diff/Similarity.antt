-- ===== src/Diff/Similarity.antt =====
-- How alike two texts or two places are.
use Prim.Native.Nat.{min, max}
use Prim.Native.String.{String, ◌∷◌}
use Prim.Native.String as Text
use mathlib.Core.List
use hifld_next.Common.{
  ◌+◌, false, not, ◌||◌, ◌==◌, eqb, leb, if◌then◌else◌, Option, none, some, includes, to_set, count,
  length,
}
use hifld_next.Js.{Js, whole}
use hifld_next.Js.Trim.{trim, is_space}
use hifld_next.Js.Patterns.{is_word, collapse_from, has_part, text_length}
use hifld_next.Selection.Features.{LngLat}
use hifld_next.Diff.Model.{CatalogFeature, CellIndex}

abbrev pub TextSet : Type 0
TextSet = List.List String

-- The pairs of neighbouring characters.
unfoldable pub pairs : String → TextSet
pairs Text.[] = List.[]
pairs (c ∷ Text.[]) = List.[]
pairs (c ∷ d ∷ s) = List.◌∷◌ (c ∷ d ∷ Text.[]) (pairs (d ∷ s))

unfoldable pub bigrams : String → TextSet
unfolding pairs text_length
bigrams value =
    if leb (text_length value) 2
    then (if value == "" then List.[] else List.◌∷◌ value List.[])
    else to_set (pairs value)

module _ (js : Js) where
  unfoldable pub normalize_text : String → String
  unfolding is_word collapse_from trim
  normalize_text value = trim (
      collapse_from is_space false
        (collapse_from (λ c. not (is_word c)) false (js.to_lower_case (trim value))))

  -- `Math.max`, of numbers that are no NaN
  abbrev pub max_number : js.Number → js.Number → js.Number
  max_number a b = if js.lt a b then b else a

  -- The tail of `textSimilarity`, of two normalised texts that are not empty.
  unfoldable pub similarity_of : String → String → Option js.Number
  unfolding bigrams has_part text_length
  similarity_of left right =
      if left == right
      then some (whole js 1)
      else if has_part left right || has_part right left
      then some (
          max_number (js.literal 7 10) (
            js.divide (whole js (min (text_length left) (text_length right)))
              (whole js (max (text_length left) (text_length right)))))
      else if eqb (length (bigrams left)) 0 || eqb (length (bigrams right)) 0
      then none
      else some (
          js.divide
            (js.times (whole js 2) (whole js (count (includes (bigrams right)) (bigrams left))))
            (whole js (length (bigrams left) + length (bigrams right))))

  unfoldable pub text_similarity : String → String → Option js.Number
  unfolding similarity_of normalize_text
  text_similarity left_value right_value =
      let left = normalize_text left_value in
      let right = normalize_text right_value in
      if left == "" || right == "" then none else similarity_of left right

  module _ (cells : CellIndex js) where
    -- `validLevel` of featureSpatialIndex.ts
    unfoldable pub valid_level : js.Number → js.Number
    valid_level level =
        if not (js.is_integer level) || js.lt level (whole js 0) || js.lt cells.max_level level
        then whole js 16
        else level

    -- The cells of `s2CellForPoint` that count as near: its own and its neighbours'.
    unfoldable pub near_tokens : LngLat js → js.Number → TextSet
    unfolding valid_level
    near_tokens p level =
        to_set
          (List.◌∷◌ (cells.token p (valid_level level)) (cells.neighbors p (valid_level level)))

    unfoldable pub geometry_similarity :
        CatalogFeature js → CatalogFeature js → js.Number → Option js.Number
    unfolding near_tokens valid_level
    geometry_similarity left right level = of left.feature.centroid right.feature.centroid
      where
        of : Option (LngLat js) → Option (LngLat js) → Option js.Number
        of (some l) (some r) =
            let right_token = cells.token r (valid_level level) in
            if cells.token l (valid_level level) == right_token
            then some (js.literal 8 10)
            else if includes (near_tokens l level) right_token
            then some (js.literal 7 10)
            else some (whole js 0)
        of _ _ = none
