-- ===== src/Highlights/Laws.antt =====
-- What a set of highlighted features holds.
use hifld_next.Common.{
  String, true, false, List, [], ◌∷◌, ◌≤◌, map, filter_map, All, All-append, Distinct, insert,
  lookup, Option, none, some, get_or, Option-cases, Bool-cases, inl, inr, ◌==◌, leb, includes, ◌≡◌,
  ◌↔◌, refl, subst, arith,
}
use hifld_next.Js.{Js, Value, Fields, end, field}
use hifld_next.Intake.{Intake, offer, take_all, start, max_selected_features}
use hifld_next.Intake.Bounds.{in_group, start-IsValid, take_all-IsValid}
use hifld_next.Intake.Capped.{IsDropped, was_capped_iff}
use hifld_next.Selection.Features.{is_query_mvt_reserved_property}
use hifld_next.Selection.Normalize.{MapGeoJsonFeature}
use hifld_next.Highlights.Hidden.{
  Patterns, is_private_property_name, contains_sensitive_feature_data,
}
use hifld_next.Highlights.Features.{
  HighlightedQueryLayer, HighlightedMapFeature, stringify_property_value, is_shown, normalize_onto,
  normalize_properties, layers_by_map_source_id, highlighted_id, highlight_in, highlight,
  feature_key, count_key, highlight_next, highlight_all, normalize_highlighted_features,
}

module _ (js : Js) (patterns : Patterns) where
  highlight_all-take_all :
      (layers : List (String × HighlightedQueryLayer)) (s : Intake (HighlightedMapFeature js))
      (fs : List (MapGeoJsonFeature js))
      → highlight_all js patterns layers s fs
        ≡ take_all
            (feature_key js patterns)
            (count_key js patterns)
            s
            (filter_map (highlight js patterns layers) fs)
  unfolding highlight_all take_all
  highlight_all-take_all layers s [] = refl
  highlight_all-take_all layers s (f ∷ fs) = elim (Option-cases (highlight js patterns layers f)) [
    | inl e ↦ rw e (highlight_all-take_all layers s fs)
    | inr (x, e) ↦ rw e (
        highlight_all-take_all layers (offer (feature_key js patterns) (count_key js patterns) s x)
          fs)
  ]

  -- The features that the loop would take one by one.
  abbrev pub highlightable :
      List (MapGeoJsonFeature js) → List HighlightedQueryLayer → List (HighlightedMapFeature js)
  highlightable features layers =
      filter_map (highlight js patterns (layers_by_map_source_id js patterns [] layers)) features

  -- The highlighted features have distinct ids and are at most 100 to each count key, and the cap
  -- is reported just when some feature that the loop would take was left out with its group full.
  pub normalize_highlighted_features-IsDistinct :
      (features : List (MapGeoJsonFeature js)) (layers : List HighlightedQueryLayer)
      → let s = normalize_highlighted_features js patterns features layers in
        Distinct (map (feature_key js patterns) s.features)
        × ((group : String)
            → in_group (feature_key js patterns) (count_key js patterns) group s.features
              ≤ max_selected_features)
        × ((s.was_capped ≡ true)
            ↔ IsDropped
                (feature_key js patterns)
                (count_key js patterns)
                s.features
                (highlightable features layers))
  unfolding normalize_highlighted_features
  normalize_highlighted_features-IsDistinct features layers =
      let key = feature_key js patterns in
      let group = count_key js patterns in
      let v =
        take_all-IsValid key group start (highlightable features layers)
          (start-IsValid key group) in
      rw (highlight_all-take_all (layers_by_map_source_id js patterns [] layers) start features)
        (v.distinct, v.bounded, was_capped_iff key group (highlightable features layers))

  -- A property that may be shown: its name is neither reserved nor private, and its text is that of a
  -- value without sensitive data.
  pub record IsPublic (entry : String × String) : Type 0 where
    pub value : Value js.Number
    pub printed : entry.1 ≡ stringify_property_value js value
    pub unreserved : is_query_mvt_reserved_property entry.0 ≡ false
    pub named : is_private_property_name entry.0 ≡ false
    pub harmless : contains_sensitive_feature_data patterns value ≡ false

  insert-All :
      (k t : String) (m : List (String × String))
      → IsPublic (k, t)
      → All IsPublic m
      → All IsPublic (insert k t m)
  insert-All k t [] p h = (p, tt)
  insert-All k t ((i, old) ∷ rest) p (q, h) = elim (Bool-cases (i == k)) [
    | inl same ↦ rw same (p, h)
    | inr other ↦ rw other (q, insert-All k t rest p h)
  ]

  normalize_onto-All :
      (out : List (String × String)) (fs : Fields js.Number)
      → All IsPublic out
      → All IsPublic (normalize_onto js patterns out fs)
  unfolding normalize_onto is_shown
  normalize_onto-All out end h = h
  normalize_onto-All out (field k v fs) h = elim (Bool-cases (is_shown js patterns k v)) [
    | inl shown ↦ rw shown (
        normalize_onto-All (insert k (stringify_property_value js v) out) fs (
          insert-All k (stringify_property_value js v) out
            (record {
              value = v;
              printed = refl;
              unreserved = ground arith;
              named = ground arith;
              harmless = ground arith;
            })
            h))
    | inr hidden ↦ rw hidden (normalize_onto-All out fs h)
  ]

  abbrev pub ShowsPublic : HighlightedMapFeature js → Type 0
  ShowsPublic x = All IsPublic x.properties

  highlight_in-ShowsPublic :
      (layer : HighlightedQueryLayer) (f : MapGeoJsonFeature js) (x : HighlightedMapFeature js)
      → highlight_in js patterns layer f ≡ some x
      → ShowsPublic x
  unfolding highlight_in
  highlight_in-ShowsPublic layer f x h = elim (Option-cases (highlighted_id js patterns layer f)) [
    | inl e ↦ cc
    | inr (id, e) ↦
        let props : normalize_properties js patterns f.properties ≡ x.properties = ground (arith) in
        subst (All IsPublic) props (normalize_onto-All [] f.properties tt)
  ]

  highlight-ShowsPublic :
      (layers : List (String × HighlightedQueryLayer)) (f : MapGeoJsonFeature js)
      (x : HighlightedMapFeature js)
      → highlight js patterns layers f ≡ some x
      → ShowsPublic x
  unfolding highlight
  highlight-ShowsPublic layers f x h = elim (Option-cases (lookup (get_or f.source "") layers)) [
    | inl e ↦ cc
    | inr (layer, e) ↦ highlight_in-ShowsPublic layer f x (rw (e, highlight) at h)
  ]

  offer-All :
      (s : Intake (HighlightedMapFeature js)) (x : HighlightedMapFeature js)
      → All ShowsPublic s.rows
      → ShowsPublic x
      → All ShowsPublic (offer (feature_key js patterns) (count_key js patterns) s x).rows
  unfolding offer
  offer-All s x h p = elim (Bool-cases (includes s.seen x.id)) [
    | inl old ↦ rw old h
    | inr fresh ↦
        elim (Bool-cases
          (leb max_selected_features (get_or (lookup (count_key js patterns x) s.counts) 0))) [
            | inl full ↦ rw (fresh, full) h
            | inr room ↦ rw (fresh, room) (All-append ShowsPublic s.rows (x ∷ []) h (p, tt))
          ]
  ]

  highlight_next-All :
      (o : Option (HighlightedMapFeature js)) (s : Intake (HighlightedMapFeature js))
      → ((x : HighlightedMapFeature js) → o ≡ some x → ShowsPublic x)
      → All ShowsPublic s.rows
      → All ShowsPublic (highlight_next js patterns o s).rows
  highlight_next-All none s p h = h
  highlight_next-All (some x) s p h = offer-All s x h (p x refl)

  highlight_all-All :
      (layers : List (String × HighlightedQueryLayer)) (s : Intake (HighlightedMapFeature js))
      (fs : List (MapGeoJsonFeature js))
      → All ShowsPublic s.rows
      → All ShowsPublic (highlight_all js patterns layers s fs).rows
  unfolding highlight_all
  highlight_all-All layers s [] h = h
  highlight_all-All layers s (f ∷ fs) h =
      highlight_all-All layers (highlight_next js patterns (highlight js patterns layers f) s) fs
        (highlight_next-All (highlight js patterns layers f) s (highlight-ShowsPublic layers f) h)

  -- Whatever the patterns of well-known text, GeoJSON and tile URLs are: every property of every
  -- highlighted feature has a name that is neither reserved nor private, and the text of a value in
  -- which none of the patterns and no SQL statement is found.
  pub normalize_highlighted_features-ShowsPublic :
      (features : List (MapGeoJsonFeature js)) (layers : List HighlightedQueryLayer)
      → All ShowsPublic (normalize_highlighted_features js patterns features layers).features
  unfolding normalize_highlighted_features
  normalize_highlighted_features-ShowsPublic features layers =
      highlight_all-All (layers_by_map_source_id js patterns [] layers) start features tt
