-- ===== src/WebTools/Versions/Names.antt =====
-- Which columns a comparison names.
use hifld_next.Common.{
  ℕ, zero, suc, ◌≤◌, String, Bool, true, false, ◌||◌, ◌&&◌, ◌==◌, eq_iff, if◌then◌else◌, List, [],
  ◌∷◌, length, take, filter, includes, lookup, insert, lookup-insert, keys, add_all,
  includes-add_all, Option, none, some, is_some, ◌≡◌, ◌≢◌, ◌↔◌, refl, sym, ap, ◌∙◌, arith,
}
use hifld_next.Js.{Js}
use hifld_next.Js.Sort.{sort, insert_sorted}
use hifld_next.Dataset.Sources.{ColumnSchema}
use hifld_next.WebTools.Versions.{
  VersionSource, columns, column_map, is_added, is_removed, differ, bounded_columns,
  max_comparison_columns, name_after, compare_file_versions,
}

-- The last column of a name, which is the one that a map of the columns keeps.
abbrev last_from : Option ColumnSchema → String → List ColumnSchema → Option ColumnSchema
last_from found name [] = found
last_from found name (column ∷ rest) =
    last_from (if column.name == name then some column else found) name rest

abbrev pub last_column : String → List ColumnSchema → Option ColumnSchema
last_column name given = last_from none name given

lookup-column_map :
    (name : String) (m : List (String × ColumnSchema)) (given : List ColumnSchema)
    → lookup name (column_map m given) ≡ last_from (lookup name m) name given
unfolding column_map
lookup-column_map name m [] = refl
lookup-column_map name m (column ∷ rest) =
    lookup-column_map name (insert column.name column m) rest
    ∙ ap (λ o. last_from o name rest) (lookup-insert column.name name column m)

includes-keys :
    {V : Type 0} (name : String) (m : List (String × V))
    → includes (keys m) name ≡ is_some (lookup name m)
includes-keys name [] = refl
includes-keys name ((k, v) ∷ m) = ground (arith, includes-keys name m)

includes-filter :
    (p : String → Bool) (names : List String) (name : String)
    → includes (filter p names) name ≡ (includes names name && p name)
includes-filter p [] name = refl
includes-filter p (n ∷ names) name =
    let same : n == name ≡ true → p n ≡ p name = λ e. ap p ((eq_iff n name).0 e) in
    ground (arith, includes-filter p names name, same)

module _ (after : String → String → Bool) where
  includes-insert_sorted :
      (x : String) (xs : List String) (name : String)
      → includes (insert_sorted after x xs) name ≡ includes (x ∷ xs) name
  unfolding insert_sorted
  includes-insert_sorted x [] name = refl
  includes-insert_sorted x (y ∷ ys) name = ground (arith, includes-insert_sorted x ys name)

  includes-sort :
      (xs : List String) (name : String) → includes (sort after xs) name ≡ includes xs name
  unfolding sort
  includes-sort [] name = refl
  includes-sort (x ∷ xs) name =
      ground (arith, includes-insert_sorted x (sort after xs) name, includes-sort xs name)

take-all : (n : ℕ) (xs : List String) → length xs ≤ n → take n xs ≡ xs
take-all zero [] h = refl
take-all zero (x ∷ xs) h = absurd (omega arith)
take-all (suc n) [] h = refl
take-all (suc n) (x ∷ xs) h = ap (λ l. x ∷ l) (take-all n xs (omega arith))

whole :
    (names : List String) → (bounded_columns names).1 ≡ false → (bounded_columns names).0 ≡ names
unfolding bounded_columns
whole names h = take-all max_comparison_columns names (ground arith)

none_truncated : (a b c : Bool) → a || b || c ≡ false → (a ≡ false) × (b ≡ false) × (c ≡ false)
none_truncated a b c h = ground arith

along : {P : Type 0} {a b : Bool} → a ≡ b → ((b ≡ true) ↔ P) → ((a ≡ true) ↔ P)
along e (there, back) = (λ h. there (sym e ∙ h), λ p. e ∙ back p)

module _ (left right : Option ColumnSchema) where
  test_added : ((is_some left || is_some right) && is_added left right) ≡ is_added left right
  test_added = ground arith

  test_removed : ((is_some left || is_some right) && is_removed left right) ≡ is_removed left right
  test_removed = ground arith

  test_differ : ((is_some left || is_some right) && differ left right) ≡ differ left right
  test_differ = ground arith

added_iff :
    (left right : Option ColumnSchema)
    → (is_added left right ≡ true) ↔ ((left ≡ none) × ((r : ColumnSchema) × (right ≡ some r)))
added_iff none none = (λ h. cc, λ (l, (r, e)). cc)
added_iff none (some r) = (λ h. (refl, (r, refl)), λ p. refl)
added_iff (some l) right = (λ h. cc, λ (e, (r, f)). cc)

removed_iff :
    (left right : Option ColumnSchema)
    → (is_removed left right ≡ true) ↔ ((right ≡ none) × ((l : ColumnSchema) × (left ≡ some l)))
removed_iff none right = (λ h. cc, λ (e, (l, f)). cc)
removed_iff (some l) none = (λ h. (refl, (l, refl)), λ p. refl)
removed_iff (some l) (some r) = (λ h. cc, λ (e, (m, f)). cc)

differ_iff :
    (left right : Option ColumnSchema)
    → (differ left right ≡ true) ↔ (
        (l : ColumnSchema) × ((r : ColumnSchema) × (left ≡ some l)
          × (right ≡ some r)
          × (l.column_type ≢ r.column_type)))
differ_iff none right = (λ h. cc, λ (l, (r, e, f, g)). cc)
differ_iff (some l) none = (λ h. cc, λ (m, (r, e, f, g)). cc)
differ_iff (some l) (some r) = (
  λ h. (l, (r, refl, refl, λ e. absurd (ground (arith, h, eq_iff l.column_type r.column_type, e)))),
  λ (m, (n, e, f, g)).
      let here : l ≡ m = cc in
      let there : r ≡ n = cc in
      let other : l.column_type ≢ r.column_type = λ same. g (
        ap (λ (c : ColumnSchema). c.column_type) (sym here)
        ∙ same
        ∙ ap (λ (c : ColumnSchema). c.column_type) there) in
      ground (arith, other, eq_iff l.column_type r.column_type),
)

module _ (js : Js) (left_source right_source : VersionSource js.Number) where
  abbrev names : List String
  names = sort (name_after js) (
      add_all (keys (column_map [] (columns left_source)))
        (keys (column_map [] (columns right_source))))

  -- Each name of a column of a side is among the names that are compared.
  includes-names :
      (name : String)
      → includes names name ≡ (
          is_some (last_column name (columns left_source))
          || is_some (last_column name (columns right_source)))
  includes-names name = ground (
    arith,
    includes-sort (name_after js)
        (add_all (keys (column_map [] (columns left_source)))
          (keys (column_map [] (columns right_source))))
        name,
    includes-add_all (keys (column_map [] (columns left_source)))
        (keys (column_map [] (columns right_source))) name,
    includes-keys name (column_map [] (columns left_source)),
    includes-keys name (column_map [] (columns right_source)),
    lookup-column_map name [] (columns left_source),
    lookup-column_map name [] (columns right_source),
  )

  -- The names that pass a test on the columns of both sides.
  chosen : (Option ColumnSchema → Option ColumnSchema → Bool) → List String × Bool
  chosen test = bounded_columns (
      filter
        (λ name.
          test (lookup name (column_map [] (columns left_source)))
            (lookup name (column_map [] (columns right_source))))
        names)

  includes-chosen :
      (test : Option ColumnSchema → Option ColumnSchema → Bool) (name : String)
      → (chosen test).1 ≡ false
      → let left = last_column name (columns left_source) in
        let right = last_column name (columns right_source) in
        includes (chosen test).0 name ≡ ((is_some left || is_some right) && test left right)
  unfolding chosen
  includes-chosen test name h =
      let left_columns = column_map [] (columns left_source) in
      let right_columns = column_map [] (columns right_source) in
      let p = λ (n : String). test (lookup n left_columns) (lookup n right_columns) in
      ap (λ l. includes l name) (whole (filter p names) h)
      ∙ includes-filter p names name
      ∙ ap (λ b. b && p name) (includes-names name)
      ∙ ap
          (λ (o : Option ColumnSchema × Option ColumnSchema).
            (is_some (last_column name (columns left_source))
              || is_some (last_column name (columns right_source)))
            && test o.0 o.1)
          (λ i. (
            lookup-column_map name [] (columns left_source) i,
            lookup-column_map name [] (columns right_source) i,
          ))

  -- A comparison that is not marked as truncated names a column as added just when only the right
  -- version has it, as removed just when only the left one has it, and as changed just when both
  -- have it and their last columns of that name differ in type.
  pub compare_file_versions_columns :
      (name : String)
      → let comparison = compare_file_versions js left_source right_source in
        let left = last_column name (columns left_source) in
        let right = last_column name (columns right_source) in
        comparison.truncated ≡ false
        → ((includes comparison.added_columns name ≡ true)
            ↔ ((left ≡ none) × ((r : ColumnSchema) × (right ≡ some r))))
          × ((includes comparison.removed_columns name ≡ true)
              ↔ ((right ≡ none) × ((l : ColumnSchema) × (left ≡ some l))))
          × ((includes comparison.changed_columns name ≡ true) ↔ (
              (l : ColumnSchema) × ((r : ColumnSchema) × (left ≡ some l)
                × (right ≡ some r)
                × (l.column_type ≢ r.column_type))))
  unfolding compare_file_versions chosen
  compare_file_versions_columns name h =
      let left = last_column name (columns left_source) in
      let right = last_column name (columns right_source) in
      let (a, r, c) =
        none_truncated (chosen is_added).1 (chosen is_removed).1 (chosen differ).1 h in
      (
        along (includes-chosen is_added name a ∙ test_added left right) (added_iff left right),
        along (includes-chosen is_removed name r ∙ test_removed left right)
            (removed_iff left right),
        along (includes-chosen differ name c ∙ test_differ left right) (differ_iff left right),
      )
