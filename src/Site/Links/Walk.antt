-- ===== src/Site/Links/Walk.antt =====
-- A client that follows the links of a listing.
use hifld_next.Common.{
  ℕ, zero, suc, ◌+◌, ◌-◌, ◌*◌, ◌/◌, ◌≤◌, ◌<◌, true, false, ltb, if◌then◌else◌, List, ◌++◌, length,
  Option, none, some, ◌≡◌, refl, ap, ◌∙◌, arith, Bool-cases, inl, inr,
}
use hifld_next.Site.Pages.{drop, page, page-last, page-append-drop}
use hifld_next.Site.Links.{PaginationNums, pagination_offsets, last_offset}

-- The items of the pages from an offset on, each page's link to the next one followed; none where
-- the fuel runs out first.
abbrev ahead : {A : Type 0} → List A → Option (List A) → Option (List A)
ahead xs none = none
ahead xs (some ys) = some (xs ++ ys)

module _ {A : Type 0} (items : List A) (limit : ℕ) where
  abbrev nums_at : ℕ → PaginationNums
  nums_at offset = record { total = length items; limit = limit; offset = offset }

  pub follow_next : ℕ → ℕ → Option (List A)
  follow_next zero offset = none
  follow_next (suc fuel) offset = elim (pagination_offsets (nums_at offset)).next [
    | none ↦ some (page limit offset items)
    | some next ↦ ahead (page limit offset items) (follow_next fuel next)
  ]

  next_of :
      (offset : ℕ)
      → 0 < limit
      → (pagination_offsets (nums_at offset)).next
        ≡ (if ltb (offset + limit) (length items) then some (offset + limit) else none)
  unfolding pagination_offsets
  next_of offset h = ground arith

  -- The step at an offset, for each of its two next links.
  step_at :
      (fuel offset : ℕ)
      → 0 < limit
      → follow_next (suc fuel) offset ≡ (
          if ltb (offset + limit) (length items)
          then ahead (page limit offset items) (follow_next fuel (offset + limit))
          else some (page limit offset items))
  unfolding follow_next
  step_at fuel offset h =
      ap
        (λ o. elim o [
          | none ↦ some (page limit offset items)
          | some next ↦ ahead (page limit offset items) (follow_next fuel next)
        ])
        (next_of offset h)
      ∙ elim (ltb (offset + limit) (length items))
          as (λ b.
            elim (if b then some (offset + limit) else none) [
              | none ↦ some (page limit offset items)
              | some next ↦ ahead (page limit offset items) (follow_next fuel next)
            ]
            ≡ (if b
                then ahead (page limit offset items) (follow_next fuel (offset + limit))
                else some (page limit offset items))) [ true ↦ refl | false ↦ refl ]

  follow_next-drop :
      (fuel offset : ℕ)
      → 0 < limit
      → offset ≤ length items
      → length items < offset + fuel
      → follow_next fuel offset ≡ some (drop offset items)
  follow_next-drop zero offset h o k = absurd (omega arith)
  follow_next-drop (suc fuel) offset h o k =
      step_at fuel offset h ∙ elim (Bool-cases (ltb (offset + limit) (length items))) [
        | inl more ↦
            rw (more, follow_next-drop fuel (offset + limit) h (ground arith) (omega arith))
              (ap some (page-append-drop limit offset items))
        | inr over ↦ rw over (ap some (page-last limit offset items (ground arith)))
      ]

  -- A client that starts at the first page of a listing and follows each page's next link comes to
  -- an end, after at most one page more than there are items, and has got every item once and in
  -- order, whatever the limit above zero is.
  pub follow_next_all :
      (fuel : ℕ) → 0 < limit → length items < fuel → follow_next fuel 0 ≡ some items
  follow_next_all fuel h k = follow_next-drop fuel 0 h (omega arith) (omega arith)

-- Where a page has a link to the next one, that is further on and within the listing, and the link
-- of the next page to its previous one leads back.
pub pagination_offsets-inverse :
    (nums : PaginationNums) (next : ℕ)
    → (pagination_offsets nums).next ≡ some next
    → ((pagination_offsets (record nums { offset = next })).prev ≡ some nums.offset)
      × (nums.offset < next)
      × (next < nums.total)
unfolding pagination_offsets
pagination_offsets-inverse nums next h = ground arith

-- The last link of a listing that is not empty starts within it, at a whole number of pages, and
-- its page reaches the end.
pub last_offset_ends :
    (nums : PaginationNums)
    → 0 < nums.limit
    → 0 < nums.total
    → (last_offset nums < nums.total)
      × (nums.total ≤ last_offset nums + nums.limit)
      × ((pages : ℕ) × (last_offset nums ≡ pages * nums.limit))
unfolding last_offset
last_offset_ends nums h k =
    (grind arith, grind arith, ((nums.total - 1) / nums.limit, ground arith))
