-- ===== src/Dataset/Descriptors/Search.antt =====
-- The search of a source by its descriptor.
use mathlib.Core.List.{Memᴰ}
use hifld_next.Common.{
  String, Bool, true, eq_refl, List, [], ◌∷◌, find, Option, none, some, get_or, Bool-cases,
  Option-cases, inl, inr, ◌≡◌, refl, ap, ◌∙◌, arith,
}
use hifld_next.Layers.{SourceDescriptor}
use hifld_next.Dataset.Sources.{DatasetSource, DatasetFormat, version_of, location_field}
use hifld_next.Dataset.Descriptors.{
  FilePlace, same_text, source_matches_descriptor, all_sources, find_source_for_descriptor,
  descriptor_for_source, matches_slug,
}

-- A search finds an element that passes where there is one.
find_member :
    {A : Type 0} (p : A → Bool) (x : A) (xs : List A)
    → Memᴰ x xs
    → p x ≡ true
    → (y : A) × (find p xs ≡ some y) × Memᴰ y xs × (p y ≡ true)
find_member p x [] m h = elim m [ ]
find_member p x (y ∷ xs) m h = elim (Bool-cases (p y)) [
  | inl here ↦ (y, rw here refl, Memᴰ.head refl, here)
  | inr there ↦ elim m [
    | Memᴰ.head e ↦ absurd (cc (ap p e, h, there))
    | Memᴰ.tail later ↦
        let (z, found, member, passes) = find_member p x xs later h in
        (z, rw there found, Memᴰ.tail member, passes)
  ]
]

same_text_refl : (o : Option String) → same_text o o ≡ true
unfolding same_text
same_text_refl none = refl
same_text_refl (some s) = eq_refl s

matches_own_slug :
    (o : Option String) (source : DatasetSource)
    → location_field (λ l. l.slug) source ≡ o
    → matches_slug o source ≡ true
matches_own_slug none source e = refl
matches_own_slug (some slug) source e =
    ap (λ x. same_text x (some slug)) e ∙ same_text_refl (some slug)

matches_own :
    (place : FilePlace) (source : DatasetSource) (d : SourceDescriptor)
    → descriptor_for_source place source ≡ some d
    → source_matches_descriptor source d ≡ true
unfolding descriptor_for_source source_matches_descriptor same_text
matches_own place source d h = elim (Option-cases source.asset_key) [
  | inl missing ↦ absurd (ground (arith, missing))
  | inr (key, given) ↦ ground (
    arith,
    given,
    eq_refl key,
    eq_refl (version_of source),
    matches_own_slug (location_field (λ l. l.slug) source) source refl,
  )
]

-- Where a source of a file has a descriptor, the search by that descriptor finds a source of the
-- file that matches it.
pub find_source_for_descriptor_found :
    (place : FilePlace) (formats : Option (List DatasetFormat)) (source : DatasetSource)
    (d : SourceDescriptor)
    → Memᴰ source (all_sources (get_or formats []))
    → descriptor_for_source place source ≡ some d
    → (found : DatasetSource) × (find_source_for_descriptor formats d ≡ some found)
      × Memᴰ found (all_sources (get_or formats []))
      × (source_matches_descriptor found d ≡ true)
unfolding find_source_for_descriptor
find_source_for_descriptor_found place formats source d m h =
    find_member (λ s. source_matches_descriptor s d) source (all_sources (get_or formats [])) m
      (matches_own place source d h)
