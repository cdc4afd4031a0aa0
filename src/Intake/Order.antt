-- ===== src/Intake/Order.antt =====
-- The intake loop keeps the order of the candidates, and changes nothing that already fits.
use mathlib.Core.List.{Sublist, sublist-cons_self}
use mathlib.Core.List.Sublist
use hifld_next.Common.{
  ◌+◌, ◌≤◌, String, false, List, [], ◌∷◌, ◌++◌, map, count-append, insert, includes,
  includes-append, Distinct, append_assoc, append-nil, ◌==◌, eq_iff, eq_refl, ◌≡◌, refl, sym, subst,
  arith, map-append, Bool-cases, leb, ap, ◌∙◌, inl, inr,
}
use hifld_next.Intake.{Intake, offer, take_all, max_selected_features, group_count}
use hifld_next.Intake.Bounds.{in_group, IsValid, offer-IsValid}

module _ {A : Type 0} (key group : A → String) where
  -- Taking in two lists is taking in one after the other.
  pub take_all-append :
      (s : Intake A) (xs ys : List A)
      → take_all key group s (xs ++ ys) ≡ take_all key group (take_all key group s xs) ys
  unfolding take_all
  take_all-append s [] ys = refl
  take_all-append s (x ∷ xs) ys = take_all-append (offer key group s x) xs ys

  offer-sublist :
      (s : Intake A) (x : A) (xs : List A)
      → Sublist ((offer key group s x).rows ++ xs) (s.rows ++ x ∷ xs)
  unfolding offer
  offer-sublist s x xs = elim (Bool-cases (includes s.seen (key x))) [
    | inl old ↦ rw old (skip s.rows)
    | inr fresh ↦ elim (Bool-cases (leb max_selected_features (group_count group s.counts x))) [
      | inl full ↦ rw (fresh, full) (skip s.rows)
      | inr room ↦ rw (fresh, room, append_assoc) (Sublist.refl _)
    ]
  ]
    where
      skip : (ys : List A) → Sublist (ys ++ xs) (ys ++ x ∷ xs)
      skip ys = Sublist.append (Sublist.refl ys) (sublist-cons_self x xs)

  pub take_all-sublist :
      (s : Intake A) (xs : List A) → Sublist (take_all key group s xs).rows (s.rows ++ xs)
  unfolding take_all
  take_all-sublist s [] = rw append-nil (Sublist.refl s.rows)
  take_all-sublist s (x ∷ xs) =
      Sublist.trans (take_all-sublist (offer key group s x) xs) (offer-sublist s x xs)

  -- The loop has met exactly the keys of its rows.
  abbrev IsExact : Intake A → Type 0
  IsExact s = (k : String) → includes s.seen k ≡ includes (map key s.rows) k

  fresh_in_middle :
      (js bs : List String) (k : String) → Distinct (js ++ k ∷ bs) → includes js k ≡ false
  fresh_in_middle [] bs k d = refl
  fresh_in_middle (j ∷ js) bs k (e, d) =
      ground
        (arith, includes-append js (k ∷ bs) j, fresh_in_middle js bs k d, eq_iff j k, eq_refl k)

  abbrev accepted : Intake A → A → Intake A
  accepted s x = record s {
    rows = s.rows ++ x ∷ [];
    seen = key x ∷ s.seen;
    counts = insert (group x) (group_count group s.counts x + 1) s.counts;
  }

  offer_fits :
      (s : Intake A) (x : A) (xs : List A)
      → IsValid key group s
      → IsExact s
      → Distinct (map key (s.rows ++ x ∷ xs))
      → ((g : String) → in_group key group g (s.rows ++ x ∷ xs) ≤ max_selected_features)
      → offer key group s x ≡ accepted s x
  unfolding offer
  offer_fits s x xs v exact d fits =
      let new : includes (map key s.rows) (key x) ≡ false =
        fresh_in_middle (map key s.rows) (map key xs) (key x)
          (rw (map-append key s.rows (x ∷ xs)) at d) in
      let room : leb max_selected_features (group_count group s.counts x) ≡ false = ground (
        arith,
        v.counted (group x),
        fits (group x),
        count-append (λ y. group y == group x) s.rows (x ∷ xs),
        eq_refl (group x),
      ) in
      ground (arith, exact (key x), new, room)

  accepted-IsExact : (s : Intake A) (x : A) → IsExact s → IsExact (accepted s x)
  accepted-IsExact s x exact k = ground (
    arith,
    exact k,
    map-append key s.rows (x ∷ []),
    includes-append (map key s.rows) (key x ∷ []) k,
  )

  -- What is distinct and within the cap passes whole.
  pub take_all_fits :
      (s : Intake A) (xs : List A)
      → IsValid key group s
      → IsExact s
      → Distinct (map key (s.rows ++ xs))
      → ((g : String) → in_group key group g (s.rows ++ xs) ≤ max_selected_features)
      → ((take_all key group s xs).rows ≡ s.rows ++ xs)
        × ((take_all key group s xs).was_capped ≡ s.was_capped)
  unfolding take_all
  take_all_fits s [] v exact d fits = (sym (append-nil s.rows), refl)
  take_all_fits s (x ∷ xs) v exact d fits =
      let same = offer_fits s x xs v exact d fits in
      let whole = append_assoc s.rows (x ∷ []) xs in
      let (rows, capped) =
        take_all_fits (accepted s x) xs
          (subst (IsValid key group) same (offer-IsValid key group s x v))
          (accepted-IsExact s x exact) (rw whole d) (λ g. rw whole (fits g)) in
      (rw (same, take_all) (rows ∙ whole), rw (same, take_all) capped)

  -- The rows that were there stay in front.
  offer_extends :
      (s : Intake A) (x : A) → (ys : List A) × ((offer key group s x).rows ≡ s.rows ++ ys)
  unfolding offer
  offer_extends s x = elim (Bool-cases (includes s.seen (key x))) [
    | inl old ↦ ([], rw old (sym (append-nil s.rows)))
    | inr fresh ↦ elim (Bool-cases (leb max_selected_features (group_count group s.counts x))) [
      | inl full ↦ ([], rw (fresh, full) (sym (append-nil s.rows)))
      | inr room ↦ (x ∷ [], rw (fresh, room))
    ]
  ]

  pub take_all_extends :
      (s : Intake A) (xs : List A) → (ys : List A) × ((take_all key group s xs).rows ≡ s.rows ++ ys)
  unfolding take_all
  take_all_extends s [] = ([], sym (append-nil s.rows))
  take_all_extends s (x ∷ xs) =
      let (ys, e) = offer_extends s x in
      let (zs, f) = take_all_extends (offer key group s x) xs in
      (ys ++ zs, f ∙ ap (λ l. l ++ zs) e ∙ append_assoc s.rows ys zs)
