-- ===== src/Site/Stac/Index.antt =====
-- The index of the versions that the pages are read from, and its rows in order.
use hifld_next.Common.{
  ℕ, zero, suc, ◌≤◌, ◌<◌, String, Bool, true, false, ltb, List, [], ◌∷◌, ◌++◌, filter, length,
  length-append, take, All, Option, none, some, ◌≡◌, refl, ap, arith,
}
use hifld_next.Site.Pages.{drop, length-page, page-append-drop}
use hifld_next.Site.Stac.{CatalogStacVersion, page_size, last_path}

-- The order of the paths in the index, as a test.
module _ (before : String → String → Bool) where
  -- What `version_path > ?` leaves; without a cursor, everything.
  abbrev pub behind : Option String → List CatalogStacVersion → List CatalogStacVersion
  behind none rows = rows
  behind (some path) rows = filter (λ row. before path row.version_path) rows

  abbrev pub Ascending : List CatalogStacVersion → Type 0
  Ascending [] = Unit {0}
  Ascending (row ∷ rows) =
      All (λ (later : CatalogStacVersion). before row.version_path later.version_path ≡ true) rows
      × Ascending rows

  pub record IsOrder : Type 0 where
    pub irrefl : (a : String) → before a a ≡ false
    pub asym : (a b : String) → before a b ≡ true → before b a ≡ false

  module _ (order : IsOrder) where
    pub all_behind :
        (path : String) (rows : List CatalogStacVersion)
        → All (λ (later : CatalogStacVersion). before path later.version_path ≡ true) rows
        → behind (some path) rows ≡ rows
    all_behind path [] h = refl
    all_behind path (row ∷ rows) (e, h) = rw e (ap (λ l. row ∷ l) (all_behind path rows h))

    pub All-member :
        (P : CatalogStacVersion → Type 0) (xs ys : List CatalogStacVersion)
        (row : CatalogStacVersion)
        → All P (xs ++ row ∷ ys)
        → P row
    All-member P [] ys row (p, h) = p
    All-member P (x ∷ xs) ys row (p, h) = All-member P xs ys row h

    -- Behind a row of an ascending list stands what follows it.
    pub behind_row :
        (xs ys : List CatalogStacVersion) (row : CatalogStacVersion)
        → Ascending (xs ++ row ∷ ys)
        → behind (some row.version_path) (xs ++ row ∷ ys) ≡ ys
    behind_row [] ys row (h, a) =
        rw (order.irrefl row.version_path) (all_behind row.version_path ys h)
    behind_row (x ∷ xs) ys row (h, a) =
        rw (order.asym x.version_path row.version_path (All-member _ xs ys row h))
          (behind_row xs ys row a)

pub ltb_lt : (a b : ℕ) → ltb a b ≡ true → a < b
ltb_lt a b h = ground arith

-- The last row of a page that is full.
pub split_page :
    (n : ℕ) (rows : List CatalogStacVersion)
    → suc n ≤ length rows
    → (xs : List CatalogStacVersion) × ((row : CatalogStacVersion) × (last_path (take (suc n) rows)
          ≡ some row.version_path)
        × (rows ≡ xs ++ row ∷ drop (suc n) rows)
        × (take (suc n) rows ≡ xs ++ row ∷ []))
split_page n [] h = absurd (omega arith)
split_page zero (row ∷ rows) h = ([], (row, refl, refl, refl))
split_page (suc n) (row ∷ []) h = absurd (omega arith)
split_page (suc n) (row ∷ next ∷ rows) h =
    let (xs, (found, e, f, g)) = split_page n (next ∷ rows) (omega arith) in
    (row ∷ xs, (found, e, ap (λ l. row ∷ l) f, ap (λ l. row ∷ l) g))

pub take-take : (n : ℕ) (rows : List CatalogStacVersion) → take n (take (suc n) rows) ≡ take n rows
take-take zero rows = refl
take-take (suc n) [] = refl
take-take (suc n) (row ∷ rows) = ap (λ l. row ∷ l) (take-take n rows)

pub length-take :
    (n : ℕ) (rows : List CatalogStacVersion)
    → ltb n (length (take (suc n) rows)) ≡ ltb n (length rows)
length-take zero [] = refl
length-take zero (row ∷ rows) = ground arith
length-take (suc n) [] = refl
length-take (suc n) (row ∷ rows) = ground (arith, length-take n rows)

pub All-take :
    (P : CatalogStacVersion → Type 0) (n : ℕ) (given : List CatalogStacVersion)
    → All P given
    → All P (take n given)
All-take P zero given h = tt
All-take P (suc n) [] h = tt
All-take P (suc n) (row ∷ given) (h, hs) = (h, All-take P n given hs)

pub All-suffix :
    (P : CatalogStacVersion → Type 0) (front back : List CatalogStacVersion)
    → All P (front ++ back)
    → All P back
All-suffix P [] back h = h
All-suffix P (row ∷ front) back (h, hs) = All-suffix P front back hs

-- What is left behind a full page is less.
pub length-behind_page :
    (todo : List CatalogStacVersion)
    → ltb page_size (length todo) ≡ true
    → length (drop 50 todo) < length todo
length-behind_page todo more =
    let long = ltb_lt _ _ more in
    omega (
      arith,
      long,
      ap (length {A = CatalogStacVersion}) (page-append-drop 50 0 todo),
      length-append (take 50 todo) (drop 50 todo),
      length-page 50 0 todo (omega (arith, long)),
    )
