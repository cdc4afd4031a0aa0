-- ===== src/Diff/Versions.antt =====
-- Which selections can be compared, and the keys that features may be matched by.
use Prim.Native.Nat.{Ordering}
use hifld_next.Common.{
  String, Bool, true, false, List, [], ◌∷◌, ◌++◌, map, filter, any, length, Option, none, some,
  join, includes, to_set, eqb, if◌then◌else◌, not, ◌&&◌, ◌||◌, ◌==◌, concat, filter_map, keys,
  is_some, find,
}
use hifld_next.Js.{Js}
use hifld_next.Js.Sort.{sort}
use hifld_next.VersionLabel.{compare_version_values}
use hifld_next.Selection.Features.{SelectedMapFeature, Origin}
use hifld_next.Diff.Model.{
  CatalogFeature, MatchKeyPair, DiffColumn, geometry_match_column, default_match_key_fields,
}

abbrev pub is_positive : Ordering → Bool
is_positive Ordering.gt = true
is_positive _ = false

abbrev pub match_key_pair : String → String → MatchKeyPair
match_key_pair l r = record { id = concat (l ∷ ":" ∷ r ∷ []); left = l; right = r }

abbrev pub column_of : String → DiffColumn
column_of k = record { key = k; label = k }

module _ (js : Js) where
  abbrev pub as_catalog : SelectedMapFeature js → Option (CatalogFeature js)
  as_catalog f = elim f.origin [
    | Origin.catalog c ↦ some (record { feature = f; origin = c })
    | Origin.query q ↦ none
  ]

  unfoldable pub catalog_features : List (SelectedMapFeature js) → List (CatalogFeature js)
  catalog_features features = filter_map as_catalog features

  unfoldable pub comparison_scope : CatalogFeature js → String
  comparison_scope f =
      join ":" (f.origin.collection_slug ∷ f.origin.dataset_slug ∷ f.origin.file_slug ∷ [])

  abbrev pub version_of : CatalogFeature js → String
  version_of f = f.origin.version

  -- `new Set(...)` of the versions, in order of appearance.
  abbrev pub version_set : List (CatalogFeature js) → List String
  version_set known = to_set (map version_of known)

  abbrev pub scope_set : List (CatalogFeature js) → List String
  scope_set known = to_set (map comparison_scope known)

  -- `sort((left, right) => compareVersionValues(right, left))`
  abbrev pub sort_versions : List String → List String
  sort_versions = sort (λ l r. is_positive (compare_version_values js r l))

  unfoldable pub comparable_versions : List (SelectedMapFeature js) → Option (List String)
  comparable_versions features =
      let known = catalog_features features in
      if eqb (length known) 0 || not (eqb (length known) (length features))
      then none
      else if not (eqb (length (scope_set known)) 1) || not (eqb (length (version_set known)) 2)
      then none
      else some (sort_versions (version_set known))

  unfoldable pub is_comparable_feature_diff_selection : List (SelectedMapFeature js) → Bool
  is_comparable_feature_diff_selection features = is_some (comparable_versions features)

  -- `Object.keys(feature.properties)`
  abbrev pub property_keys : CatalogFeature js → List String
  property_keys f = keys f.feature.properties

  unfoldable pub flat_keys : List (CatalogFeature js) → List String
  flat_keys [] = []
  flat_keys (f ∷ fs) = property_keys f ++ flat_keys fs

  abbrev pub sort_keys : List String → List String
  sort_keys = sort (λ l r. is_positive (js.locale_compare l r))

  unfoldable pub all_property_keys : List (CatalogFeature js) → List String
  unfolding flat_keys
  all_property_keys features = sort_keys (to_set (flat_keys features))

  abbrev pub for_version : String → List (CatalogFeature js) → List (CatalogFeature js)
  for_version version = filter (λ f. version_of f == version)

  unfoldable pub property_keys_for_version : List (CatalogFeature js) → String → List String
  unfolding flat_keys
  property_keys_for_version known version = to_set (flat_keys (for_version version known))

  unfoldable pub features_for_version_have_centroid : List (CatalogFeature js) → String → Bool
  features_for_version_have_centroid known version =
      any (λ f. version_of f == version && is_some f.feature.centroid) known

  unfoldable pub feature_diff_match_key_options :
      List (SelectedMapFeature js) → String → List DiffColumn
  feature_diff_match_key_options features version =
      let known = catalog_features features in
      let columns = map column_of (sort_keys (property_keys_for_version known version)) in
      if features_for_version_have_centroid known version
      then columns ++ record { key = geometry_match_column; label = "Geometry" } ∷ []
      else columns

  -- The first key that both versions share, of the preferred ones and then of all.
  unfoldable pub default_feature_diff_match_key_pairs :
      List (CatalogFeature js) → String → String → List MatchKeyPair
  default_feature_diff_match_key_pairs known left_version right_version =
      let lefts = property_keys_for_version known left_version in
      let rights = property_keys_for_version known right_version in
      let common = sort_keys (filter (includes rights) lefts) in
      elim (find (λ k. includes lefts k && includes rights k) default_match_key_fields) [
        | some k ↦ match_key_pair k k ∷ []
        | none ↦ elim common [
          | k ∷ _ ↦ if k == "" then [] else match_key_pair k k ∷ []
          | [] ↦
              if features_for_version_have_centroid known left_version
                && features_for_version_have_centroid known right_version
              then match_key_pair geometry_match_column geometry_match_column ∷ []
              else []
        ]
      ]
