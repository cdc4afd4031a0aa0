-- ===== src/WebTools/Shapes/Cut.antt =====
-- What the cut of a file's shape keeps.
use hifld_next.Common.{
  ℕ, zero, suc, Bool, true, false, not, ◌||◌, eqb, List, [], ◌∷◌, ◌++◌, map, any, length, is_some,
  Option-cases, Bool-cases, inl, inr, ◌⊎◌, ◌≡◌, refl, sym, ap, ◌∙◌, arith, append_assoc, append-nil,
  map-append,
}
use hifld_next.WebTools.Shapes.{
  CatalogSource, CatalogFormat, CatalogFileShape, has_summary, clear_summary, clear_summaries,
  without_last, shape_fits, mark, pop_formats, bound_file_shape,
}

-- Without its last element, a list is short of just that.
without_last_front : {A : Type 0} (xs : List A) → (rest : List A) × (without_last xs ++ rest ≡ xs)
without_last_front [] = ([], refl)
without_last_front (x ∷ []) = (x ∷ [], refl)
without_last_front (x ∷ y ∷ xs) =
    let (rest, front) = without_last_front (y ∷ xs) in (rest, ap (λ t. x ∷ t) front)

length-without_last :
    {A : Type 0} (xs : List A) (n : ℕ) → length xs ≡ suc n → length (without_last xs) ≡ n
length-without_last [] n h = omega (arith, h)
length-without_last (x ∷ []) n h = omega (arith, h)
length-without_last (x ∷ y ∷ xs) zero h = omega (arith, h)
length-without_last (x ∷ y ∷ xs) (suc n) h =
    ap suc (length-without_last (y ∷ xs) n (omega (arith, h)))

is_empty : {A : Type 0} (xs : List A) → length xs ≡ 0 → xs ≡ []
is_empty [] h = refl
is_empty (x ∷ xs) h = absurd (omega (arith, h))

clear_summary_none :
    (source : CatalogSource) → is_some source.summary ≡ false → clear_summary source ≡ source
clear_summary_none source h = elim (Option-cases source.summary) [
  | inl missing ↦ ap (λ t. record source { summary = t }) (sym missing)
  | inr (s, found) ↦ absurd (ground (arith, found, h))
]

clear_sources_none :
    (sources : List CatalogSource)
    → any (λ (s : CatalogSource). is_some s.summary) sources ≡ false
    → map clear_summary sources ≡ sources
clear_sources_none [] h = refl
clear_sources_none (source ∷ sources) h =
    rw
      (
        clear_summary_none source (ground (arith, h)),
        clear_sources_none sources (ground (arith, h)),
      )
      refl

-- Where there is no summary, there is none to clear.
clear_formats_none :
    (formats : List CatalogFormat)
    → any has_summary formats ≡ false
    → map clear_summaries formats ≡ formats
clear_formats_none [] h = refl
clear_formats_none (entry ∷ formats) h =
    rw
      (
        clear_sources_none entry.sources (ground (arith, h)),
        clear_formats_none formats (ground (arith, h)),
      )
      refl

clear_sources_twice :
    (sources : List CatalogSource)
    → map clear_summary (map clear_summary sources) ≡ map clear_summary sources
clear_sources_twice [] = refl
clear_sources_twice (source ∷ sources) =
    ap (λ t. clear_summary source ∷ t) (clear_sources_twice sources)

clear_formats_twice :
    (formats : List CatalogFormat)
    → map clear_summaries (map clear_summaries formats) ≡ map clear_summaries formats
clear_formats_twice [] = refl
clear_formats_twice (entry ∷ formats) =
    rw (clear_sources_twice entry.sources, clear_formats_twice formats) refl

module _ {R T : Type 0} (size : CatalogFileShape R T → ℕ) where
  abbrev unmarked : CatalogFileShape R T → CatalogFileShape R T
  unmarked shape = record shape { truncated = false }

  -- The first formats, with all references, and whole unless it is marked; short enough, but for
  -- the mark, unless no format is left.
  pub record IsCutOf (value result : CatalogFileShape R T) : Type 0 where
    pub references : result.query_sources ≡ value.query_sources
    pub dropped : List CatalogFormat
    pub front : map clear_summaries result.formats ++ dropped ≡ map clear_summaries value.formats
    pub whole : result.truncated ≡ false → result ≡ value
    pub short : (shape_fits size (unmarked result) ≡ true) ⊎ (result.formats ≡ [])

  -- Where there is neither a summary nor a tag, clearing both changes nothing.
  untouched :
      (value : CatalogFileShape R T)
      → any has_summary value.formats ≡ false
      → eqb (length value.tags) 0 ≡ true
      → record value { formats = map clear_summaries value.formats; tags = [] } ≡ value
  untouched value bare untagged =
      ap (λ t. record value { formats = t; tags = [] }) (clear_formats_none value.formats bare)
      ∙ ap (λ t. record value { tags = t }) (sym (is_empty value.tags (ground (arith, untagged))))

  -- What the loop ends with.
  record IsPopped (shape : CatalogFileShape R T) (cut : Bool) (end : Bool × CatalogFileShape R T)
      : Type 0 where
    references : end.1.query_sources ≡ shape.query_sources
    dropped : List CatalogFormat
    front : end.1.formats ++ dropped ≡ shape.formats
    whole : end.0 ≡ false → (cut ≡ false) × (end.1 ≡ shape)
    flag : end.1.truncated ≡ shape.truncated
    short : (shape_fits size end.1 ≡ true) ⊎ (end.1.formats ≡ [])

  stop-IsPopped :
      (cut : Bool) (shape : CatalogFileShape R T)
      → (shape_fits size shape ≡ true) ⊎ (shape.formats ≡ [])
      → IsPopped shape cut (cut, shape)
  stop-IsPopped cut shape short = record {
    references = refl;
    dropped = [];
    front = append-nil shape.formats;
    whole = λ h. (h, refl);
    flag = refl;
    short = short;
  }

  pop_formats-IsPopped :
      (n : ℕ) (cut : Bool) (shape : CatalogFileShape R T)
      → length shape.formats ≡ n
      → IsPopped shape cut (pop_formats size n cut shape)
  unfolding pop_formats
  pop_formats-IsPopped zero cut shape h = stop-IsPopped cut shape (inr (is_empty shape.formats h))
  pop_formats-IsPopped (suc n) cut shape h =
      let shorter = record shape { formats = without_last shape.formats } in
      let popped = pop_formats-IsPopped n true shorter (length-without_last shape.formats n h) in
      let (last, front) = without_last_front shape.formats in
      let some_format : eqb (length shape.formats) 0 ≡ false = ground (arith, h) in
      elim (Bool-cases (shape_fits size shape)) [
        | inl fine ↦ rw (some_format, fine) (stop-IsPopped cut shape (inl fine))
        | inr long ↦
            rw (some_format, long)
              (record {
                references = popped.references;
                dropped = popped.dropped ++ last;
                front =
                    sym
                      (append_assoc (pop_formats size n true shorter).1.formats popped.dropped last)
                    ∙ ap (λ t. t ++ last) popped.front
                    ∙ front;
                whole = λ kept. absurd (ground (arith, (popped.whole kept).0));
                flag = popped.flag;
                short = popped.short;
              })
      ]

  mark-IsCutOf :
      (value popped : CatalogFileShape R T) (cut : Bool) (dropped : List CatalogFormat)
      → popped.query_sources ≡ value.query_sources
      → map clear_summaries popped.formats ++ dropped ≡ map clear_summaries value.formats
      → popped.truncated ≡ false
      → (cut ≡ false → popped ≡ value)
      → (shape_fits size popped ≡ true) ⊎ (popped.formats ≡ [])
      → IsCutOf value (mark size cut popped)
  mark-IsCutOf value popped cut dropped references front flag whole short =
      let same : unmarked popped ≡ popped = ap (λ t. record popped { truncated = t }) (sym flag) in
      let short' : (shape_fits size (unmarked popped) ≡ true) ⊎ (popped.formats ≡ []) =
        rw same short in
      elim (Bool-cases cut) [
        | inl marked ↦ rw marked (record {
          references = references;
          dropped = dropped;
          front = front;
          whole = λ h. absurd (ground (arith, h));
          short = short';
        })
        | inr kept ↦ rw kept (record {
          references = references;
          dropped = dropped;
          front = front;
          whole = λ h. whole kept;
          short = short';
        })
      ]

  -- A file's shape that is not yet marked: the cut keeps all references to queryable sources and
  -- the first formats in their order, but for the summaries of their sources; where its result is
  -- not marked as truncated it is the whole shape; and without the mark it is at most 1500 units of
  -- JSON text, or no format is left.
  pub bound_file_shape-IsCutOf :
      (value : CatalogFileShape R T)
      → value.truncated ≡ false
      → IsCutOf value (bound_file_shape size value)
  unfolding bound_file_shape
  bound_file_shape-IsCutOf value flag =
      let cut = any has_summary value.formats in
      let candidate = record value { formats = map clear_summaries value.formats } in
      let untagged = record candidate { tags = [] } in
      let cut' = cut || not (eqb (length value.tags) 0) in
      let end = pop_formats size (length candidate.formats) cut' untagged in
      let popped = pop_formats-IsPopped (length candidate.formats) cut' untagged refl in
      elim (Bool-cases (shape_fits size value)) [
        | inl fine ↦ rw fine (
            mark-IsCutOf value value false [] refl (append-nil (map clear_summaries value.formats))
              flag (λ kept. refl) (inl fine))
        | inr long ↦ elim (Bool-cases (shape_fits size candidate)) [
          | inl fine ↦
              rw (long, fine)
                (mark-IsCutOf value candidate cut [] refl
                  (append-nil (map clear_summaries (map clear_summaries value.formats))
                    ∙ clear_formats_twice value.formats)
                  flag
                  (λ kept.
                    ap (λ t. record value { formats = t }) (clear_formats_none value.formats kept))
                  (inl fine))
          | inr over ↦
              rw (long, over)
                (mark-IsCutOf value end.1 end.0 (map clear_summaries popped.dropped)
                  popped.references
                  (sym (map-append clear_summaries end.1.formats popped.dropped)
                    ∙ ap (map clear_summaries) popped.front
                    ∙ clear_formats_twice value.formats)
                  (popped.flag ∙ flag)
                  (λ kept.
                    let (uncut, same) = popped.whole kept in
                    same ∙ untouched value (ground (arith, uncut)) (ground (arith, uncut)))
                  popped.short)
        ]
      ]
