-- ===== src/Diff/Build/Laws/Versions.antt =====
-- Which versions a comparison is made of, and which features it covers.
use mathlib.Core.List.{Perm}
use mathlib.Core.List.Perm
use hifld_next.Common.{
  String, Bool, true, ◌||◌, ◌==◌, eq_iff, eq_refl, if◌then◌else◌, Option, none, some, List, [], ◌∷◌,
  map, includes, ◌≡◌, ◌≢◌, refl, subst, arith, Bool-cases, inl, inr, find, length, Distinct, ltb,
}
use hifld_next.Js.{Js}
use hifld_next.Js.Sort.{sort-perm}
use hifld_next.Selection.Features.{SelectedMapFeature}
use hifld_next.Diff.Model.{CatalogFeature, CellIndex, DiffOptions, DiffResult, DiffRow, DiffSort}
use hifld_next.Common.Perm.{filter_map-perm}
use hifld_next.Diff.Versions.{
  all_property_keys, column_of, default_feature_diff_match_key_pairs, catalog_features,
  comparable_versions, for_version,
}
use hifld_next.Diff.Matching.{build_rows}
use hifld_next.Diff.Matching.Rows.{
  lefts_of, rights_of, right_id, lefts_of-build_rows, rights_of-build_rows,
}
use hifld_next.Diff.Build.{
  sort_rows, left_of, right_of, differs_from, compare_versions, compare_chosen, compare_found,
  build_feature_diff,
}
use Prim.Native.Nat.{Ordering}

includes-find :
    (p : String → Bool) (xs : List String) (k : String) → find p xs ≡ some k → includes xs k ≡ true
includes-find p [] k e = cc
includes-find p (x ∷ xs) k e = ground (arith, includes-find p xs k, eq_iff x k)

includes-left_of :
    (versions : List String) (requested l : String)
    → left_of versions requested ≡ some l
    → includes versions l ≡ true
includes-left_of [] requested l e = ground arith
includes-left_of (v ∷ vs) requested l e = elim (Bool-cases (includes (v ∷ vs) requested)) [
  | inl there ↦ ground arith
  | inr gone ↦ ground (arith, eq_refl v)
]

includes-right_of :
    (versions : List String) (requested r : String) (left : Option String)
    → right_of versions requested left ≡ some r
    → includes versions r ≡ true
includes-right_of versions requested r left e =
    ground (arith, includes-find (differs_from left) versions r)

module _ (js : Js) (base_compare : String → String → Ordering) where
  -- To sort the rows, by any column and direction or not at all, keeps each of them, and each once.
  pub sort_rows-perm :
      (rows : List (DiffRow js)) (by : Option DiffSort)
      → Perm (sort_rows js base_compare rows by) rows
  unfolding sort_rows
  sort_rows-perm rows none = Perm.refl rows
  sort_rows-perm rows (some by) = sort-perm _ rows

  module _ (cells : CellIndex js) (features : List (SelectedMapFeature js))
      (options : DiffOptions js) where
    abbrev pub result : DiffResult js
    result = build_feature_diff js base_compare cells features options

    abbrev pub known : List (CatalogFeature js)
    known = catalog_features js features

    abbrev pub versions : Option (List String)
    versions = comparable_versions js (map (λ (f : CatalogFeature js). f.feature) known)

    compare_chosen_inv :
        (ol or : Option String)
        → (compare_chosen js base_compare cells known options (length features) ol or).can_compare
          ≡ true
        → (l r : String) × (ol ≡ some l)
          × (or ≡ some r)
          × (l ≢ r)
          × (l ≢ "")
          × (r ≢ "")
          × (compare_chosen js base_compare cells known options (length features) ol or
              ≡ compare_versions js base_compare cells known options (length features) l r)
    unfolding compare_chosen
    compare_chosen_inv none or h = absurd (ground arith)
    compare_chosen_inv (some l) none h = absurd (ground arith)
    compare_chosen_inv (some l) (some r) h = elim (Bool-cases (l == "" || r == "" || l == r)) [
      | inl bad ↦ absurd (ground arith)
      | inr good ↦ (
        l,
        r,
        refl,
        refl,
        ground (arith, eq_iff l r),
        ground (arith, eq_iff l ""),
        ground (arith, eq_iff r ""),
        rw good,
      )
    ]

    abbrev IsMade : DiffResult js → Option (List String) → Type 0
    IsMade made found =
        (l r : String) × (vs : List String) × (found ≡ some vs)
        × (includes vs l ≡ true)
        × (includes vs r ≡ true)
        × (l ≢ r)
        × (l ≢ "")
        × (r ≢ "")
        × (made ≡ compare_versions js base_compare cells known options (length features) l r)

    compare_found_inv :
        (found : Option (List String))
        → (compare_found js base_compare cells known options (length features) found).can_compare
          ≡ true
        → IsMade (compare_found js base_compare cells known options (length features) found) found
    unfolding compare_found
    compare_found_inv none h = absurd (ground arith)
    compare_found_inv (some vs) h =
        let left = left_of vs options.left_version in
        let right = right_of vs options.right_version left in
        elim (Bool-cases (options.left_version == options.right_version)) [
          | inl equal ↦ absurd (ground arith)
          | inr different ↦
              let (l, r, is_left, is_right, l_ne_r, l_ne, r_ne, same) =
                compare_chosen_inv left right (rw different at h) in
              (
                l,
                r,
                vs,
                refl,
                includes-left_of vs options.left_version l is_left,
                includes-right_of vs options.right_version r left is_right,
                l_ne_r,
                l_ne,
                r_ne,
                rw different same,
              )
        ]

    -- A result that says it can compare is the comparison of two different versions, neither of
    -- them empty, that are both among the comparable versions of the selection.
    pub build_feature_diff_versions :
        result.can_compare ≡ true
        → (l r : String) × (vs : List String) × (versions ≡ some vs)
          × (includes vs l ≡ true)
          × (includes vs r ≡ true)
          × (l ≢ r)
          × (l ≢ "")
          × (r ≢ "")
          × (result ≡ compare_versions js base_compare cells known options (length features) l r)
    unfolding build_feature_diff
    build_feature_diff_versions h = compare_found_inv versions h

    -- In the comparison of any two versions of a selection, under any options, the left features of
    -- the rows are the catalog features of the left version, each once; and where no two features
    -- of the right version have one id, the right features of the rows are those of the right
    -- version, each once.
    pub compare_versions_covers :
        (l r : String)
        → Perm
            (lefts_of
              (compare_versions js base_compare cells known options (length features) l r).rows)
            (for_version js l known)
          × (Distinct (map right_id (for_version js r known))
              → Perm
                  (rights_of
                    (compare_versions js base_compare cells known options
                      (length features)
                      l
                      r).rows)
                  (for_version js r known))
    unfolding compare_versions
    compare_versions_covers l r =
        let lefts = for_version js l known in
        let rights = for_version js r known in
        let columns = map column_of (all_property_keys js known) in
        let defaults = default_feature_diff_match_key_pairs js known l r in
        let pairs =
          if ltb 0 (length options.match_key_pairs) then options.match_key_pairs else defaults in
        let rows = build_rows js cells pairs options.s2_level lefts rights columns in
        let sorted = sort_rows-perm rows options.sort in
        (
          subst (λ fs. Perm (lefts_of (sort_rows js base_compare rows options.sort)) fs)
              (lefts_of-build_rows js cells pairs options.s2_level columns rights lefts)
              (filter_map-perm (λ (row : DiffRow js). row.left) sorted),
          λ d.
              Perm.trans (filter_map-perm (λ (row : DiffRow js). row.right) sorted)
                (rights_of-build_rows js cells pairs options.s2_level columns rights lefts d),
        )
