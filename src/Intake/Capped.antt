-- ===== src/Intake/Capped.antt =====
-- When the intake loop reports that it left something out.
use mathlib.Core.List.{Memᴰ}
use hifld_next.Common.{
  ◌≤◌, String, true, false, ◌||◌, List, [], ◌∷◌, map, includes, includes-append, ◌⊎◌, ◌↔◌, eq_iff,
  eq_refl, ◌≡◌, refl, arith, map-append, Bool-cases, leb, inl, inr,
}
use hifld_next.Intake.{Intake, offer, take_all, start, max_selected_features, group_count}
use hifld_next.Intake.Bounds.{
  in_group, IsValid, start-IsValid, offer-IsValid, take_all-IsValid, in_group-append_one, fresh_row,
}

module _ {A : Type 0} (key group : A → String) where
  -- The loop has met the key and holds no row with it.
  pub record IsLeftOut (s : Intake A) (k : String) : Type 0 where
    pub met : includes s.seen k ≡ true
    pub absent : includes (map key s.rows) k ≡ false

  offer-IsLeftOut :
      (s : Intake A) (x : A) (k : String) → IsLeftOut s k → IsLeftOut (offer key group s x) k
  unfolding offer
  offer-IsLeftOut s x k h = record {
    met = ground (arith, h.met);
    absent = ground (
      arith,
      map-append key s.rows (x ∷ []),
      includes-append (map key s.rows) (key x ∷ []) k,
      eq_iff (key x) k,
      h.met,
      h.absent,
    );
  }

  take_all-IsLeftOut :
      (s : Intake A) (xs : List A) (k : String)
      → IsLeftOut s k
      → IsLeftOut (take_all key group s xs) k
  unfolding take_all
  take_all-IsLeftOut s [] k h = h
  take_all-IsLeftOut s (x ∷ xs) k h =
      take_all-IsLeftOut (offer key group s x) xs k (offer-IsLeftOut s x k h)

  -- A group only grows.
  in_group-le-offer :
      (s : Intake A) (x : A) (g : String)
      → in_group key group g s.rows ≤ in_group key group g (offer key group s x).rows
  unfolding offer
  in_group-le-offer s x g = ground (arith, in_group-append_one key group g s.rows x)

  in_group-le-take_all :
      (s : Intake A) (xs : List A) (g : String)
      → in_group key group g s.rows ≤ in_group key group g (take_all key group s xs).rows
  unfolding take_all
  in_group-le-take_all s [] g = omega arith
  in_group-le-take_all s (x ∷ xs) g =
      omega (arith, in_group-le-take_all (offer key group s x) xs g, in_group-le-offer s x g)

  -- What a round leaves out has a full group.
  offer_capped :
      (s : Intake A) (x : A)
      → IsValid key group s
      → (offer key group s x).was_capped ≡ true
      → (s.was_capped ≡ true)
        ⊎ (IsLeftOut (offer key group s x) (key x)
            × (max_selected_features ≤ in_group key group (group x) (offer key group s x).rows))
  unfolding offer
  offer_capped s x v h = elim (Bool-cases (includes s.seen (key x))) [
    | inl old ↦ inl (ground arith)
    | inr fresh ↦ elim (Bool-cases (leb max_selected_features (group_count group s.counts x))) [
      | inl full ↦ inr (
          rw (fresh, full)
            (
              record {
                met = ground (arith, eq_refl (key x));
                absent = fresh_row key group s x v fresh;
              },
              ground (arith, v.counted (group x)),
            ))
      | inr room ↦ inl (ground arith)
    ]
  ]

  -- A candidate that was left out: no row has its key, and its group is full.
  abbrev pub IsDropped : List A → List A → Type 0
  IsDropped rows candidates =
      (x : A) × Memᴰ x candidates
      × (includes (map key rows) (key x) ≡ false)
      × (in_group key group (group x) rows ≡ max_selected_features)

  take_all_capped :
      (s : Intake A) (xs : List A)
      → IsValid key group s
      → (take_all key group s xs).was_capped ≡ true
      → (s.was_capped ≡ true) ⊎ IsDropped (take_all key group s xs).rows xs
  unfolding take_all
  take_all_capped s [] v h = inl h
  take_all_capped s (x ∷ xs) v h =
      elim (take_all_capped (offer key group s x) xs (offer-IsValid key group s x v) h) [
        | inr (y, m, lacks, full) ↦ inr (y, Memᴰ.tail m, lacks, full)
        | inl now ↦ elim (offer_capped s x v now) [
          | inl before ↦ inl before
          | inr (left_out, full) ↦
              let s' = offer key group s x in
              let v' = take_all-IsValid key group s' xs (offer-IsValid key group s x v) in
              inr (
                x,
                Memᴰ.head refl,
                (take_all-IsLeftOut s' xs (key x) left_out).absent,
                omega (arith, v'.bounded (group x), in_group-le-take_all s' xs (group x)),
              )
        ]
      ]

  -- Without a report every key that was met has a row.
  abbrev KeepsAll : Intake A → Type 0
  KeepsAll s =
      s.was_capped ≡ false
      → (k : String) → includes s.seen k ≡ true
      → includes (map key s.rows) k ≡ true

  offer-KeepsAll : (s : Intake A) (x : A) → KeepsAll s → KeepsAll (offer key group s x)
  unfolding offer
  offer-KeepsAll s x keeps h k met = ground (
    arith,
    map-append key s.rows (x ∷ []),
    includes-append (map key s.rows) (key x ∷ []) k,
    λ (q : s.was_capped ≡ false). keeps q k,
  )

  take_all-KeepsAll : (s : Intake A) (xs : List A) → KeepsAll s → KeepsAll (take_all key group s xs)
  unfolding take_all
  take_all-KeepsAll s [] keeps = keeps
  take_all-KeepsAll s (x ∷ xs) keeps =
      take_all-KeepsAll (offer key group s x) xs (offer-KeepsAll s x keeps)

  seen-take_all :
      (s : Intake A) (xs : List A) (k : String)
      → includes (take_all key group s xs).seen k ≡ includes s.seen k || includes (map key xs) k
  unfolding take_all offer
  seen-take_all s [] k = ground arith
  seen-take_all s (x ∷ xs) k =
      ground (arith, seen-take_all (offer key group s x) xs k, eq_iff (key x) k)

  key_of_mem : (x : A) (xs : List A) → Memᴰ x xs → includes (map key xs) (key x) ≡ true
  key_of_mem x [] m = elim m [ ]
  key_of_mem x (y ∷ xs) (Memᴰ.head e) = rw e (ground (arith, eq_refl (key y)))
  key_of_mem x (y ∷ xs) (Memᴰ.tail m) = ground (arith, key_of_mem x xs m)

  -- The report is exact: it is made just when a candidate was left out because its group is full.
  pub was_capped_iff :
      (xs : List A)
      → ((take_all key group start xs).was_capped ≡ true)
        ↔ IsDropped (take_all key group start xs).rows xs
  was_capped_iff xs = (there, back)
    where
      there :
          (take_all key group start xs).was_capped ≡ true
          → IsDropped (take_all key group start xs).rows xs
      there h = elim (take_all_capped start xs (start-IsValid key group) h) [
        | inl e ↦ absurd (ground arith)
        | inr d ↦ d
      ]

      back :
          IsDropped (take_all key group start xs).rows xs
          → (take_all key group start xs).was_capped ≡ true
      back (x, m, lacks, full) = elim (Bool-cases (take_all key group start xs).was_capped) [
        | inl yes_capped ↦ yes_capped
        | inr not_capped ↦ absurd (
            ground (
              arith,
              take_all-KeepsAll start xs (λ _ k e. e) not_capped (key x),
              seen-take_all start xs (key x),
              key_of_mem x xs m,
            ))
      ]
