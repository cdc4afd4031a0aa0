-- ===== src/Workspace/Style/Breaks.antt =====
-- What an accepted style update guarantees.
use hifld_next.Common.{
  ℕ, Bool, true, false, not, ◌||◌, ◌&&◌, List, [], ◌∷◌, any, All, Option, none, some, ok,
  Result-cases, subst, ◌≡◌, refl, arith, inl, inr, is_some,
}
use hifld_next.Js.{Js, IsOrdered, whole}
use hifld_next.Workspace.Style.{
  NumericFieldSummary, StyleLayerTarget, LayerStyleUpdate, le, increasing_from, is_increasing,
  validate_breaks, any_below, any_above, minimum_of, maximum_of, validate_style_fields, is_mode,
}
use hifld_next.Workspace.Style.Accept.{
  validate_given_breaks, validate_style_breaks_and_palette, validate_style_ranges, is_out_of_range,
  assert_valid_layer_style_update,
}

module _ (js : Js) where
  -- Of two finite numbers one is the greater, or they are `===`.
  abbrev pub IsTotal : Type 0
  IsTotal =
      (a b : js.Number)
      → js.is_finite a ≡ true
      → js.is_finite b ≡ true
      → js.lt a b || js.eq a b || js.lt b a ≡ true

  -- Each break lies below every later one.
  abbrev pub IsAscending : List js.Number → Type 0
  IsAscending [] = Unit {0}
  IsAscending (b ∷ bs) = All (λ c. js.lt b c ≡ true) bs × IsAscending bs

  module _ (ordered : IsOrdered js) (total : IsTotal) where
    below-All :
        (a b : js.Number) (bs : List js.Number)
        → js.lt a b ≡ true
        → All (λ c. js.lt b c ≡ true) bs
        → All (λ c. js.lt a c ≡ true) bs
    below-All a b [] h k = tt
    below-All a b (c ∷ cs) h (k, ks) = (ordered.lt_trans a b c h k, below-All a b cs h ks)

    increasing_from-IsAscending :
        (b : js.Number) (bs : List js.Number)
        → js.is_finite b ≡ true
        → any (λ c. not (js.is_finite c)) bs ≡ false
        → increasing_from js b bs ≡ true
        → IsAscending (b ∷ bs)
    unfolding increasing_from le
    increasing_from-IsAscending b [] f fs h = (tt, tt)
    increasing_from-IsAscending b (c ∷ cs) f fs h =
        let below : js.lt b c ≡ true = ground (arith, total c b) in
        let rest = increasing_from-IsAscending c cs (ground arith) (ground arith) (ground arith) in
        ((below, below-All b c cs below rest.0), rest)

    is_increasing-IsAscending :
        (bs : List js.Number)
        → any (λ c. not (js.is_finite c)) bs ≡ false
        → is_increasing js bs ≡ true
        → IsAscending bs
    unfolding is_increasing
    is_increasing-IsAscending [] fs h = tt
    is_increasing-IsAscending (b ∷ bs) fs h =
        increasing_from-IsAscending b bs (ground arith) (ground arith) h

  record AreGoodBreaks (bs : List js.Number) (field : Option (NumericFieldSummary js))
      : Type 0 where
    finite : any (λ b. not (js.is_finite b)) bs ≡ false
    increasing : is_increasing js bs ≡ true
    above : any_below js (minimum_of js field) bs ≡ false
    below : any_above js (maximum_of js field) bs ≡ false

  validate_breaks_inv :
      (bs : List js.Number) (field : Option (NumericFieldSummary js))
      → validate_breaks js bs field ≡ ok tt
      → AreGoodBreaks bs field
  unfolding validate_breaks
  validate_breaks_inv bs field h = record {
    finite = ground arith;
    increasing = ground arith;
    above = ground arith;
    below = ground arith;
  }

  all_finite :
      (bs : List js.Number)
      → any (λ b. not (js.is_finite b)) bs ≡ false
      → All (λ b. js.is_finite b ≡ true) bs
  all_finite [] h = tt
  all_finite (b ∷ bs) h = (ground (arith, h), all_finite bs (ground (arith, h)))

  -- Where a number is given, it is finite, not below the first bound and not above the second.
  abbrev pub IsWithin : ℕ → ℕ → Option js.Number → Type 0
  IsWithin low high given =
      (value : js.Number)
      → given ≡ some value
      → (js.is_finite value ≡ true)
        × (js.lt value (whole js low) ≡ false)
        × (js.lt (whole js high) value ≡ false)

  in_range-IsWithin :
      (low high : ℕ) (given : Option js.Number)
      → is_out_of_range js (whole js low) (whole js high) given ≡ false
      → IsWithin low high given
  unfolding is_out_of_range
  in_range-IsWithin low high given h value e =
      (ground (arith, h, e), ground (arith, h, e), ground (arith, h, e))

  -- What holds of an update that is accepted.
  pub record IsAcceptable (target : StyleLayerTarget js) (update : LayerStyleUpdate js)
      : Type 0 where
    -- The breaks are finite, each lies below every later one, and no categorical color has any.
    pub finite :
        (bs : List js.Number) → update.breaks ≡ some bs → All (λ b. js.is_finite b ≡ true) bs
    pub ascending : (bs : List js.Number) → update.breaks ≡ some bs → IsAscending bs
    pub not_categorical :
        (bs : List js.Number)
        → update.breaks ≡ some bs
        → is_mode js "categorical" update.color_mode ≡ false
    pub opacity : IsWithin 0 1 update.opacity
    pub radius : IsWithin 1 12 update.radius
    pub line_width : IsWithin 1 8 update.line_width

  ranges_inv :
      (update : LayerStyleUpdate js)
      → validate_style_ranges js update ≡ ok tt
      → (is_out_of_range js (whole js 0) (whole js 1) update.opacity ≡ false)
        × (is_out_of_range js (whole js 1) (whole js 12) update.radius ≡ false)
        × (is_out_of_range js (whole js 1) (whole js 8) update.line_width ≡ false)
  unfolding validate_style_ranges
  ranges_inv update h = ground arith

  palette_inv :
      (update : LayerStyleUpdate js) (field : Option (NumericFieldSummary js))
      → validate_style_breaks_and_palette js update field ≡ ok tt
      → ((is_mode js "categorical" update.color_mode && is_some update.breaks) ≡ false)
        × (validate_given_breaks js update.breaks field ≡ ok tt)
  unfolding validate_style_breaks_and_palette
  palette_inv update field h = ground arith

  validated :
      (target : StyleLayerTarget js) (update : LayerStyleUpdate js)
      → assert_valid_layer_style_update js target update ≡ ok tt
      → (field : Option (NumericFieldSummary js)) × (validate_style_breaks_and_palette js update
            field
          ≡ ok tt)
        × (validate_style_ranges js update ≡ ok tt)
  unfolding assert_valid_layer_style_update
  validated target update h = elim (Result-cases (validate_style_fields js target update)) [
    | inl (field, e) ↦ (field, ground (arith, e), ground (arith, e))
    | inr (m, e) ↦ ground (arith, e)
  ]

  and_some {ℓ} :
      {A : Type ℓ}
      → (b : Bool) (o : Option A) (a : A) → (b && is_some o) ≡ false
      → o ≡ some a
      → b ≡ false
  and_some b none a h e = cc
  and_some true (some c) a h e = h
  and_some false (some c) a h e = refl

  good_breaks :
      (given : Option (List js.Number)) (field : Option (NumericFieldSummary js))
      (bs : List js.Number)
      → validate_given_breaks js given field ≡ ok tt
      → given ≡ some bs
      → AreGoodBreaks bs field
  unfolding validate_given_breaks
  good_breaks none field bs h e = ground arith
  good_breaks (some cs) field bs h e =
      let same : cs ≡ bs = cc in
      subst (λ ds. AreGoodBreaks ds field) same (validate_breaks_inv cs field h)

  -- Where the engine's order is strict and total on finite numbers: the breaks of an update that is
  -- accepted are finite, and each is below every later one; it has no breaks where its color mode
  -- is categorical; and its opacity, radius and line width, where given, are finite and within 0 to
  -- 1, 1 to 12 and 1 to 8.
  pub assert_valid_layer_style_update-IsAcceptable :
      (target : StyleLayerTarget js) (update : LayerStyleUpdate js)
      → IsOrdered js
      → IsTotal
      → assert_valid_layer_style_update js target update ≡ ok tt
      → IsAcceptable target update
  assert_valid_layer_style_update-IsAcceptable target update ordered total h =
      let (field, palette, ranges) = validated target update h in
      let (categorical, breaks) = palette_inv update field palette in
      let (opacity, radius, line_width) = ranges_inv update ranges in
      record {
        finite = λ bs e. all_finite bs (good_breaks update.breaks field bs breaks e).finite;
        ascending = λ bs e.
            let good = good_breaks update.breaks field bs breaks e in
            is_increasing-IsAscending ordered total bs good.finite good.increasing;
        not_categorical = λ bs e.
            and_some (is_mode js "categorical" update.color_mode) update.breaks bs categorical e;
        opacity = in_range-IsWithin 0 1 update.opacity opacity;
        radius = in_range-IsWithin 1 12 update.radius radius;
        line_width = in_range-IsWithin 1 8 update.line_width line_width;
      }
