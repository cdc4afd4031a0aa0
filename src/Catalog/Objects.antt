-- ===== src/Catalog/Objects.antt =====
-- Maps and sets keyed by objects, each of which is known by a number of its own.
use hifld_next.Common.{
  ℕ, Bool, false, ◌||◌, ◌&&◌, not, eqb, if◌then◌else◌, List, [], ◌∷◌, ◌++◌, filter, count,
  count-append, Option, none, some, ◌≡◌, refl, arith,
}

-- `Set.prototype.has`
abbrev pub has : ℕ → List ℕ → Bool
has k [] = false
has k (x ∷ xs) = eqb x k || has k xs

-- `Set.prototype.add`
unfoldable pub add_object : ℕ → List ℕ → List ℕ
add_object k s = if has k s then s else s ++ k ∷ []

-- `Set.prototype.delete`
unfoldable pub remove_object : ℕ → List ℕ → List ℕ
remove_object k s = filter (λ j. not (eqb j k)) s

abbrev pub occurrences : ℕ → List ℕ → ℕ
occurrences k = count (λ j. eqb j k)

-- `Map.prototype.get`, `set` and `delete`
abbrev pub get_count : ℕ → List (ℕ × ℕ) → Option ℕ
get_count k [] = none
get_count k ((i, n) ∷ rest) = if eqb i k then some n else get_count k rest

unfoldable pub set_count : ℕ → ℕ → List (ℕ × ℕ) → List (ℕ × ℕ)
set_count k n [] = (k, n) ∷ []
set_count k n ((i, old) ∷ rest) = if eqb i k then (k, n) ∷ rest else (i, old) ∷ set_count k n rest

unfoldable pub delete_count : ℕ → List (ℕ × ℕ) → List (ℕ × ℕ)
delete_count k [] = []
delete_count k ((i, n) ∷ rest) =
    let others = delete_count k rest in if eqb i k then others else (i, n) ∷ others

pub get_count-set_count :
    (k j n : ℕ) (m : List (ℕ × ℕ))
    → get_count j (set_count k n m) ≡ (if eqb k j then some n else get_count j m)
unfolding set_count
get_count-set_count k j n [] = refl
get_count-set_count k j n ((i, old) ∷ rest) = ground (arith, get_count-set_count k j n rest)

pub get_count-delete_count :
    (k j : ℕ) (m : List (ℕ × ℕ))
    → get_count j (delete_count k m) ≡ (if eqb k j then none else get_count j m)
unfolding delete_count
get_count-delete_count k j [] = ground arith
get_count-delete_count k j ((i, n) ∷ rest) = ground (arith, get_count-delete_count k j rest)

pub has-occurrences : (k : ℕ) (s : List ℕ) → has k s ≡ not (eqb (occurrences k s) 0)
has-occurrences k [] = refl
has-occurrences k (x ∷ xs) = ground (arith, has-occurrences k xs)

pub occurrences-add_object :
    (k j : ℕ) (s : List ℕ)
    → occurrences j (add_object k s)
      ≡ (if eqb k j && eqb (occurrences k s) 0 then 1 else occurrences j s)
unfolding add_object
occurrences-add_object k j s =
    ground (arith, has-occurrences k s, count-append (λ i. eqb i j) s (k ∷ []))

pub occurrences-remove_object :
    (k j : ℕ) (s : List ℕ)
    → occurrences j (remove_object k s) ≡ (if eqb k j then 0 else occurrences j s)
unfolding remove_object
occurrences-remove_object k j [] = ground arith
occurrences-remove_object k j (x ∷ xs) = ground (arith, occurrences-remove_object k j xs)
