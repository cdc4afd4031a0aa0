-- ===== src/Js/Sort.antt =====
-- `Array.prototype.sort` and its stable result, by insertion. `after a b` is true where the comparison function
-- returns a positive number.
use mathlib.Core.List.{Perm}
use mathlib.Core.List.Perm
use hifld_next.Common.{Bool, List, [], ◌∷◌, if◌then◌else◌, Bool-cases, inl, inr}

module _ {A : Type 0} (after : A → A → Bool) where
  -- Before the first element that must come later.
  unfoldable pub insert_sorted : A → List A → List A
  insert_sorted x [] = x ∷ []
  insert_sorted x (y ∷ ys) = if after x y then y ∷ insert_sorted x ys else x ∷ y ∷ ys

  unfoldable pub sort : List A → List A
  unfolding insert_sorted
  sort [] = []
  sort (x ∷ xs) = insert_sorted x (sort xs)

  insert_sorted-perm : (x : A) (xs : List A) → Perm (insert_sorted x xs) (x ∷ xs)
  unfolding insert_sorted
  insert_sorted-perm x [] = Perm.refl (x ∷ [])
  insert_sorted-perm x (y ∷ ys) = elim (Bool-cases (after x y)) [
    | inl later ↦ rw later (Perm.trans (Perm.cons y (insert_sorted-perm x ys)) (Perm.swap x y ys))
    | inr first ↦ rw first (Perm.refl (x ∷ y ∷ ys))
  ]

  pub sort-perm : (xs : List A) → Perm (sort xs) xs
  unfolding sort
  sort-perm [] = Perm.refl []
  sort-perm (x ∷ xs) = Perm.trans (insert_sorted-perm x (sort xs)) (Perm.cons x (sort-perm xs))
