-- ===== src/Intake/Bounds.antt =====
-- The invariant of the intake loop: keys are distinct, and no group passes the cap.
use hifld_next.Common.{
  ℕ, ◌+◌, ◌≤◌, String, true, false, List, [], ◌∷◌, ◌++◌, map, count, count-append, get_or, lookup,
  lookup-insert, includes, includes-append, Distinct, Distinct-append_one, ◌==◌, eq_iff, ◌≡◌, refl,
  arith, map-append, if◌then◌else◌, Bool-cases, leb, inl, inr,
}
use hifld_next.Intake.{Intake, offer, take_all, start, max_selected_features, group_count}

module _ {A : Type 0} (key group : A → String) where
  -- The rows of a group.
  abbrev pub in_group : String → List A → ℕ
  in_group g = count (λ x. group x == g)

  pub record IsValid (s : Intake A) : Type 0 where
    pub distinct : Distinct (map key s.rows)
    pub bounded : (g : String) → in_group g s.rows ≤ max_selected_features
    pub counted : (g : String) → get_or (lookup g s.counts) 0 ≡ in_group g s.rows
    pub known : (k : String) → includes (map key s.rows) k ≡ true → includes s.seen k ≡ true

  pub start-IsValid : IsValid start
  start-IsValid = record {
    distinct = tt;
    bounded = λ g. omega arith;
    counted = λ g. refl;
    known = λ k h. h;
  }

  pub in_group-append_one :
      (g : String) (xs : List A) (x : A)
      → in_group g (xs ++ x ∷ []) ≡ in_group g xs + (if group x == g then 1 else 0)
  in_group-append_one g xs x = ground (arith, count-append (λ y. group y == g) xs (x ∷ []))

  module _ (s : Intake A) (x : A) (v : IsValid s) (fresh : includes s.seen (key x) ≡ false) where
    pub fresh_row : includes (map key s.rows) (key x) ≡ false
    fresh_row = elim (Bool-cases (includes (map key s.rows) (key x))) [
      | inl old ↦ absurd (ground (arith, v.known (key x) old))
      | inr new ↦ new
    ]

    capped-IsValid :
        leb max_selected_features (group_count group s.counts x) ≡ true
        → IsValid (offer key group s x)
    unfolding offer
    capped-IsValid full =
        rw (fresh, full)
          (record {
            distinct = v.distinct;
            bounded = v.bounded;
            counted = v.counted;
            known = λ k h. ground (arith, v.known k h);
          })

    accepted-IsValid :
        leb max_selected_features (group_count group s.counts x) ≡ false
        → IsValid (offer key group s x)
    unfolding offer
    accepted-IsValid room =
        rw (fresh, room)
          (record {
            distinct =
                rw (map-append key s.rows (x ∷ []))
                  (Distinct-append_one (map key s.rows) (key x) v.distinct fresh_row);
            bounded = λ g. ground (
              arith,
              in_group-append_one g s.rows x,
              eq_iff (group x) g,
              v.bounded g,
              v.counted g,
            );
            counted = λ g. ground (
              arith,
              in_group-append_one g s.rows x,
              lookup-insert (group x) g (group_count group s.counts x + 1) s.counts,
              eq_iff (group x) g,
              v.counted g,
            );
            known = λ k h. ground (
              arith,
              map-append key s.rows (x ∷ []),
              includes-append (map key s.rows) (key x ∷ []) k,
              v.known k,
            );
          })

  pub offer-IsValid : (s : Intake A) (x : A) → IsValid s → IsValid (offer key group s x)
  offer-IsValid s x v = elim (Bool-cases (includes s.seen (key x))) [
    | inl old ↦ unfold offer in rw old v
    | inr fresh ↦ elim (Bool-cases (leb max_selected_features (group_count group s.counts x))) [
      | inl full ↦ capped-IsValid s x v fresh full
      | inr room ↦ accepted-IsValid s x v fresh room
    ]
  ]

  pub take_all-IsValid :
      (s : Intake A) (xs : List A) → IsValid s → IsValid (take_all key group s xs)
  unfolding take_all
  take_all-IsValid s [] v = v
  take_all-IsValid s (x ∷ xs) v = take_all-IsValid (offer key group s x) xs (offer-IsValid s x v)
