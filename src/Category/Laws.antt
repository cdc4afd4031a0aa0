-- ===== src/Category/Laws.antt =====
-- What the registry and the palettes guarantee.
use hifld_next.Common.{
  ℕ, ◌-◌, ◌≤◌, ◌<◌, subst, zero, suc, String, Bool, true, false, ◌==◌, eq_iff, if◌then◌else◌, ltb,
  List, [], ◌∷◌, ◌++◌, take, length, length-append, includes, append-nil, ◌≡◌, refl, sym, arith,
  Bool-cases, inl, inr,
}
use hifld_next.Js.{Js}
use hifld_next.Category.{
  CategoryFieldType, category_cap, palette_preference, palette_count, choose_from,
  choose_layer_palette, CategoryValue, CategoryRegistry, extend_category_registry,
}

ltb_lt : (a b : ℕ) → ltb a b ≡ true → a < b
ltb_lt a b h = ground arith

ltb_ge : (a b : ℕ) → ltb a b ≡ false → b ≤ a
ltb_ge a b h = ground arith

choose_from_least :
    (used : List String) (selected : String) (schemes : List String)
    → (palette_count used (choose_from used selected schemes) ≤ palette_count used selected)
      × ((id : String)
          → includes schemes id ≡ true
          → palette_count used (choose_from used selected schemes) ≤ palette_count used id)
unfolding choose_from
choose_from_least used selected [] = (omega arith, λ id h. ground arith)
choose_from_least used selected (scheme ∷ schemes) =
    let a = choose_from_least used scheme schemes in
    let b = choose_from_least used selected schemes in
    elim (Bool-cases (ltb (palette_count used scheme) (palette_count used selected))) [
      | inl less ↦ rw less (
        omega (arith, a.0, ltb_lt _ _ less),
        λ id h. elim (Bool-cases (scheme == id)) [
          | inl same ↦
              subst
                (λ i. palette_count used (choose_from used scheme schemes) ≤ palette_count used i)
                ((eq_iff scheme id).0 same) a.0
          | inr other ↦ a.1 id (ground (arith, h, other))
        ],
      )
      | inr more ↦ rw more (
        b.0,
        λ id h. elim (Bool-cases (scheme == id)) [
          | inl same ↦
              subst
                (λ i. palette_count used (choose_from used selected schemes) ≤ palette_count used i)
                ((eq_iff scheme id).0 same) (omega (arith, b.0, ltb_ge _ _ more))
          | inr other ↦ b.1 id (ground (arith, h, other))
        ],
      )
    ]

-- No palette of the preference list is used less often than the palette that is chosen.
pub choose_layer_palette_least :
    (used : List String) (id : String)
    → includes palette_preference id ≡ true
    → palette_count used (choose_layer_palette used) ≤ palette_count used id
unfolding choose_layer_palette
choose_layer_palette_least used id h = (choose_from_least used "viridis" palette_preference).1 id h

length-take_le : {A : Type 0} → (n : ℕ) (xs : List A) → length (take n xs) ≤ n
length-take_le zero xs = omega arith
length-take_le (suc n) [] = omega arith
length-take_le (suc n) (x ∷ xs) = omega (arith, length-take_le n xs)

module _ (js : Js) (text_before : String → String → Bool) where
  grows :
      (unchanged overflow : Bool) (previous : CategoryRegistry js text_before)
      (appended : List (CategoryValue js text_before))
      → length previous.values ≤ category_cap
      → length appended ≤ category_cap - length previous.values
      → (length
            (if unchanged
              then previous
              else record { values = previous.values ++ appended; overflow = overflow }).values
          ≤ category_cap)
        × ((added : List (CategoryValue js text_before)) × ((if unchanged
                then previous
                else record { values = previous.values ++ appended; overflow = overflow }).values
              ≡ previous.values ++ added))
  grows true overflow previous appended h k = (h, ([], sym (append-nil previous.values)))
  grows false overflow previous appended h k =
      (omega (arith, h, k, length-append previous.values appended), (appended, refl))

  -- A registry of at most 32 categories still has at most 32 when it is extended, and begins with
  -- its former categories in their order.
  pub extend_category_registry_grows :
      (previous : CategoryRegistry js text_before) (values : List (CategoryValue js text_before))
      (type : CategoryFieldType)
      → length previous.values ≤ category_cap
      → (length (extend_category_registry js text_before previous values type).values
          ≤ category_cap)
        × ((added : List (CategoryValue js text_before)) × ((extend_category_registry js text_before
                previous values type).values
              ≡ previous.values ++ added))
  unfolding extend_category_registry
  extend_category_registry_grows previous values type h =
      grows _ _ previous _ h (length-take_le (category_cap - length previous.values) _)
