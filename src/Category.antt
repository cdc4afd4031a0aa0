-- ===== src/Category.antt =====
-- packages/map-core/src/category.ts: the registry of the categories seen in a field, and the
-- choice of a palette for a layer.
pub mod Laws
use hifld_next.Common.{
  ℕ, ◌+◌, ◌-◌, ◌≤◌, zero, suc, String, Bool, true, false, not, ◌||◌, ◌&&◌, ◌==◌, if◌then◌else◌, eqb,
  ltb, leb, List, [], ◌∷◌, ◌++◌, map, take, length, length-append, includes, lookup, insert, concat,
  append-nil, Option, none, some, get_or, ◌≡◌, refl, sym, arith, Bool-cases, inl, inr,
}
use hifld_next.Js.{Js, whole}
use hifld_next.Js.Sort.{sort}

pub data CategoryFieldType : Type 0 where
  string_type number_type boolean_type : CategoryFieldType

abbrev pub category_cap : ℕ
category_cap = 32

abbrev pub palette_preference : List String
palette_preference =
    "viridis" ∷ "plasma" ∷ "blues" ∷ "greens" ∷ "oranges" ∷ "purples" ∷ "rdyblu" ∷ "rdyg"
    ∷ "tableau10" ∷ "set3" ∷ []

-- How often each palette of the list is used.
unfoldable pub palette_count : List String → String → ℕ
palette_count [] id = 0
palette_count (scheme ∷ used) id =
    let rest = palette_count used id in if scheme == id then suc rest else rest

-- The loop over the preferences, with the palette selected so far.
unfoldable pub choose_from : List String → String → List String → String
choose_from used selected [] = selected
choose_from used selected (scheme ∷ schemes) =
    choose_from used
      (if ltb (palette_count used scheme) (palette_count used selected) then scheme else selected)
      schemes

unfoldable pub choose_layer_palette : List String → String
choose_layer_palette used = choose_from used "viridis" palette_preference

-- `===` on Booleans
abbrev pub same_flag : Bool → Bool → Bool
same_flag true b = b
same_flag false b = not b

-- `text_before` is `<` on texts, which goes by UTF-16 units.
module _ (js : Js) (text_before : String → String → Bool) where
  pub data CategoryValue : Type 0 where
    text_value : String → CategoryValue
    number_value : js.Number → CategoryValue
    flag_value : Bool → CategoryValue

  pub record CategoryRegistry : Type 0 where
    pub values : List CategoryValue
    pub overflow : Bool

  -- `String(value)`
  unfoldable pub category_text : CategoryValue → String
  category_text (text_value s) = s
  category_text (number_value n) = js.print n
  category_text (flag_value b) = if b then "true" else "false"

  unfoldable pub finite_value : js.Number → Option CategoryValue
  finite_value n = if js.is_finite n then some (number_value n) else none

  -- `Number(value)`, of a Boolean 1 or 0
  unfoldable pub normalize_category : CategoryValue → CategoryFieldType → Option CategoryValue
  normalize_category value string_type =
      if category_text value == "" then none else some (text_value (category_text value))
  normalize_category (text_value s) number_type = if s == "" then none else finite_value (js.read s)
  normalize_category (number_value n) number_type = finite_value n
  normalize_category (flag_value b) number_type = finite_value (whole js (if b then 1 else 0))
  normalize_category (flag_value b) boolean_type = some (flag_value b)
  normalize_category value boolean_type =
      let normalized = js.to_lower_case (category_text value) in
      if normalized == "true"
      then some (flag_value true)
      else if normalized == "false"
      then some (flag_value false)
      else none

  abbrev pub type_name : CategoryValue → String
  type_name (text_value s) = "string"
  type_name (number_value n) = "number"
  type_name (flag_value b) = "boolean"

  unfoldable pub category_key : CategoryValue → String
  category_key value = concat (type_name value ∷ ":" ∷ category_text value ∷ [])

  -- `compareCategories(left, right) > 0`
  unfoldable pub category_after : CategoryValue → CategoryValue → Bool
  category_after (number_value a) (number_value b) = js.lt (whole js 0) (js.plus a (js.minus b))
  category_after (flag_value a) (flag_value b) = a && not b
  category_after a b =
      if text_before (category_text a) (category_text b)
      then false
      else text_before (category_text b) (category_text a)

  -- The loop over the values, with the unseen ones so far by their keys.
  unfoldable pub collect_unseen :
      List String
      → CategoryFieldType
      → List (String × CategoryValue)
      → List CategoryValue
      → List (String × CategoryValue)
  collect_unseen known type unseen [] = unseen
  collect_unseen known type unseen (value ∷ values) =
      collect_unseen known type
        (elim (normalize_category value type) [
          | none ↦ unseen
          | some normalized ↦
              if includes known (category_key normalized)
              then unseen
              else insert (category_key normalized) normalized unseen
        ])
        values

  abbrev pub is_empty : {A : Type 0} → List A → Bool
  is_empty xs = eqb (length xs) 0

  unfoldable pub extend_category_registry :
      CategoryRegistry → List CategoryValue → CategoryFieldType → CategoryRegistry
  extend_category_registry previous values type =
      let unseen = collect_unseen (map category_key previous.values) type [] values in
      let sorted = sort category_after (map (λ (e : String × CategoryValue). e.1) unseen) in
      let available = category_cap - length previous.values in
      let appended = take available sorted in
      let overflow = previous.overflow || ltb available (length sorted) in
      if is_empty unseen || (is_empty appended && same_flag overflow previous.overflow)
      then previous
      else record { values = previous.values ++ appended; overflow = overflow }
