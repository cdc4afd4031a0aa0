-- ===== src/Dataset/ParquetPreview/Start.antt =====
-- The selection that a preview starts with is one of those that it shows.
use mathlib.Core.List.{Memᴰ}
use hifld_next.Common.{
  String, Bool, true, false, ◌&&◌, ◌==◌, eq_refl, eq_iff, if◌then◌else◌, List, [], ◌∷◌, filter, any,
  find, Option, none, some, Bool-cases, inl, inr, ◌⊎◌, ◌≡◌, refl, ap, arith,
}
use hifld_next.Js.{Js}
use hifld_next.Dataset.Sources.{DatasetSource, DatasetFormat}
use hifld_next.Dataset.ParquetPreview.{
  ParquetPreviewOption, ParquetPreviewSelection, concrete_parquet_preview_options, is_at,
  parquet_preview_options_for_selection, or_first, selection_of_option,
  default_parquet_preview_selection,
}

module _ {A : Type 0} (p : A → Bool) where
  any-member : (x : A) (xs : List A) → Memᴰ x xs → p x ≡ true → any p xs ≡ true
  any-member x [] m h = elim m [ ]
  any-member x (y ∷ xs) (Memᴰ.head e) h = rw (← e) (rw h refl)
  any-member x (y ∷ xs) (Memᴰ.tail m) h = ground (arith, any-member x xs m h)

  -- What a search returns.
  find_cases :
      (xs : List A)
      → ((find p xs ≡ none) × (any p xs ≡ false))
        ⊎ ((x : A) × (find p xs ≡ some x) × (p x ≡ true) × (any p xs ≡ true) × Memᴰ x xs)
  find_cases [] = inl (refl, refl)
  find_cases (x ∷ xs) = elim (Bool-cases (p x)) [
    | inl here ↦ inr (x, rw here refl, here, rw here refl, Memᴰ.head refl)
    | inr there ↦ elim (find_cases xs) [
      | inl (missing, nowhere) ↦ inl (rw there missing, rw there nowhere)
      | inr (y, found, passes, somewhere, m) ↦
          inr (y, rw there found, passes, rw there somewhere, Memᴰ.tail m)
    ]
  ]

any-filter :
    {A : Type 0} (p q : A → Bool) (xs : List A) → any p (filter q xs) ≡ any (λ x. q x && p x) xs
any-filter p q [] = refl
any-filter p q (x ∷ xs) = ground (arith, any-filter p q xs)

abbrev pub first_id : List ParquetPreviewOption → Option String
first_id [] = none
first_id (option ∷ options) = some option.source_id

-- The source to start with: the selected one, where it has an option, else that of the first option.
abbrev pub start_id : Option DatasetSource → List ParquetPreviewOption → Option String
start_id none options = first_id options
start_id (some source) options =
    if any (λ option. option.source_id == source.id) options
    then some source.id
    else first_id options

abbrev pub id_of : Option ParquetPreviewSelection → Option String
id_of none = none
id_of (some selection) = some selection.source_id

module _ (js : Js) (format_entry : Option DatasetFormat) where
  -- The options that are shown for the selection have one with its source; without a selection
  -- there is no option.
  abbrev pub IsShown : Option ParquetPreviewSelection → Type 0
  IsShown none = concrete_parquet_preview_options js format_entry ≡ []
  IsShown (some selection) =
      any (λ option. option.source_id == selection.source_id)
        (parquet_preview_options_for_selection js format_entry selection.storage_location_id
          selection.version)
      ≡ true

  option-IsShown :
      (option : ParquetPreviewOption)
      → Memᴰ option (concrete_parquet_preview_options js format_entry)
      → IsShown (selection_of_option (some option))
  unfolding parquet_preview_options_for_selection
  option-IsShown option m =
      let at = is_at option.storage_location_id option.version in
      let options = concrete_parquet_preview_options js format_entry in
      rw (any-filter (λ o. o.source_id == option.source_id) at options) (
        any-member (λ o. at o && o.source_id == option.source_id) option options m
          (ground (
            arith,
            eq_refl option.storage_location_id,
            eq_refl option.version,
            eq_refl option.source_id,
          )))

  first-IsShown :
      (options : List ParquetPreviewOption)
      → concrete_parquet_preview_options js format_entry ≡ options
      → IsShown (selection_of_option (or_first none options))
        × (id_of (selection_of_option (or_first none options)) ≡ first_id options)
  first-IsShown [] e = (e, refl)
  first-IsShown (option ∷ options) e = (option-IsShown option (rw e (Memᴰ.head refl)), refl)

  -- The selection that a preview starts with is of the selected source where that has an option,
  -- else of the first option; the options that are shown for its place and version have one of its
  -- source; and there is no selection just when there is no option.
  pub default_parquet_preview_selection-IsShown :
      (selected_source : Option DatasetSource)
      → let selection = default_parquet_preview_selection js format_entry selected_source in
        IsShown selection
        × (id_of selection
            ≡ start_id selected_source (concrete_parquet_preview_options js format_entry))
  unfolding default_parquet_preview_selection
  default_parquet_preview_selection-IsShown none = first-IsShown _ refl
  default_parquet_preview_selection-IsShown (some source) =
      let options = concrete_parquet_preview_options js format_entry in
      elim (find_cases (λ o. o.source_id == source.id) options) [
        | inl (missing, nowhere) ↦ rw (missing, nowhere) (first-IsShown _ refl)
        | inr (option, found, same, somewhere, m) ↦
            rw (found, somewhere)
              (option-IsShown option m, ap some ((eq_iff option.source_id source.id).0 same))
      ]
