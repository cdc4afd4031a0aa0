-- ===== src/Site/Pages.antt =====
-- Pages of a list: what a limit and an offset cut out of it.
use hifld_next.Common.{
  ℕ, zero, suc, ◌+◌, ◌≤◌, List, [], ◌∷◌, ◌++◌, length, take, ◌≡◌, refl, ap, arith,
}

module _ {ℓ} {A : Type ℓ} where
  abbrev pub drop : ℕ → List A → List A
  drop zero xs = xs
  drop (suc n) [] = []
  drop (suc n) (x ∷ xs) = drop n xs

  -- `items.slice(offset, offset + limit)`, and `LIMIT … OFFSET …`
  abbrev pub page : ℕ → ℕ → List A → List A
  page limit offset xs = take limit (drop offset xs)

  pub drop-all : (n : ℕ) (xs : List A) → length xs ≤ n → drop n xs ≡ []
  drop-all zero [] h = refl
  drop-all zero (x ∷ xs) h = absurd (omega arith)
  drop-all (suc n) [] h = refl
  drop-all (suc n) (x ∷ xs) h = drop-all n xs (omega arith)

  take-all : (n : ℕ) (xs : List A) → length xs ≤ n → take n xs ≡ xs
  take-all zero [] h = refl
  take-all zero (x ∷ xs) h = absurd (omega arith)
  take-all (suc n) [] h = refl
  take-all (suc n) (x ∷ xs) h = ap (λ l. x ∷ l) (take-all n xs (omega arith))

  -- The last page holds all that is left.
  pub page-last :
      (limit offset : ℕ) (xs : List A)
      → length xs ≤ offset + limit
      → page limit offset xs ≡ drop offset xs
  page-last limit zero xs h = take-all limit xs (omega arith)
  page-last zero (suc o) [] h = refl
  page-last (suc l) (suc o) [] h = refl
  page-last limit (suc o) (x ∷ xs) h = page-last limit o xs (omega arith)

  append-drop :
      (limit offset n : ℕ) (xs : List A)
      → n ≡ offset + limit
      → page limit offset xs ++ drop n xs ≡ drop offset xs
  append-drop limit (suc o) zero xs e = absurd (omega arith)
  append-drop zero (suc o) (suc n) [] e = refl
  append-drop (suc l) (suc o) (suc n) [] e = refl
  append-drop limit (suc o) (suc n) (x ∷ xs) e = append-drop limit o n xs (omega arith)
  append-drop zero zero zero xs e = refl
  append-drop zero zero (suc n) xs e = absurd (omega arith)
  append-drop (suc l) zero zero xs e = absurd (omega arith)
  append-drop (suc l) zero (suc n) [] e = refl
  append-drop (suc l) zero (suc n) (x ∷ xs) e =
      ap (λ r. x ∷ r) (append-drop l zero n xs (omega arith))

  -- Behind a page stands what the next offset leaves.
  pub page-append-drop :
      (limit offset : ℕ) (xs : List A)
      → page limit offset xs ++ drop (offset + limit) xs ≡ drop offset xs
  page-append-drop limit offset xs = append-drop limit offset (offset + limit) xs refl

  -- A page that is not the last is full.
  pub length-page :
      (limit offset : ℕ) (xs : List A)
      → offset + limit ≤ length xs
      → length (page limit offset xs) ≡ limit
  length-page zero zero xs h = refl
  length-page (suc l) zero [] h = absurd (omega arith)
  length-page (suc l) zero (x ∷ xs) h = omega (arith, length-page l zero xs (omega arith))
  length-page limit (suc o) [] h = absurd (omega arith)
  length-page limit (suc o) (x ∷ xs) h = length-page limit o xs (omega arith)

  -- The last one holds what is left.
  pub length-page_last :
      (limit offset : ℕ) (xs : List A)
      → offset ≤ length xs
      → length xs ≤ offset + limit
      → offset + length (page limit offset xs) ≡ length xs
  length-page_last limit zero xs h k =
      omega (arith, ap (length {A = A}) (take-all limit xs (omega arith)))
  length-page_last limit (suc o) [] h k = absurd (omega arith)
  length-page_last limit (suc o) (x ∷ xs) h k =
      omega (arith, length-page_last limit o xs (omega arith) (omega arith))
