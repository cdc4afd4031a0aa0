-- ===== src/Diff/Matching/Pool.antt =====
-- The pool of right features that are still to be matched, as the set of their ids.
use mathlib.Core.List.{Memᴰ, Perm}
use mathlib.Core.List.Perm
use hifld_next.Common.{
  String, true, false, ◌==◌, eq_iff, eq_refl, if◌then◌else◌, List, [], ◌∷◌, map, filter, includes,
  Distinct, ◌≡◌, refl, sym, ap, arith, Bool-cases, inl, inr, subst,
}
use hifld_next.Diff.Matching.{delete}

module _ {A : Type 0} (id : A → String) where
  -- Those whose id is in the set.
  abbrev pub pool : List String → List A → List A
  pool ids = filter (λ x. includes ids (id x))

  pub includes_id : (x : A) (xs : List A) → Memᴰ x xs → includes (map id xs) (id x) ≡ true
  includes_id x [] m = elim m [ ]
  includes_id x (y ∷ xs) (Memᴰ.head e) = rw e (ground (arith, eq_refl (id y)))
  includes_id x (y ∷ xs) (Memᴰ.tail m) = ground (arith, includes_id x xs m)

  pub includes-delete :
      (k j : String) (s : List String)
      → includes (delete k s) j ≡ (if j == k then false else includes s j)
  unfolding delete
  includes-delete k j [] = ground arith
  includes-delete k j (i ∷ s) =
      ground (arith, includes-delete k j s, eq_iff i k, eq_iff i j, eq_iff j k)

  pool_skips :
      (k : String) (s : List String) (xs : List A)
      → includes (map id xs) k ≡ false
      → pool (delete k s) xs ≡ pool s xs
  pool_skips k s [] h = refl
  pool_skips k s (x ∷ xs) h =
      ground (arith, pool_skips k s xs, includes-delete k (id x) s, eq_iff (id x) k)

  -- To delete an id takes one feature out of the pool.
  pub pool-delete :
      (x : A) (s : List String) (xs : List A)
      → Distinct (map id xs)
      → Memᴰ x xs
      → includes s (id x) ≡ true
      → Perm (x ∷ pool (delete (id x) s) xs) (pool s xs)
  pool-delete x s [] d m h = elim m [ ]
  pool-delete x s (y ∷ xs) (fresh, d) (Memᴰ.head e) h =
      let here : includes (delete (id y) s) (id y) ≡ false =
        ground (arith, includes-delete (id y) (id y) s, eq_refl (id y)) in
      let there : includes s (id y) ≡ true = rw e at h in
      subst (λ z. Perm (z ∷ pool (delete (id z) s) (y ∷ xs)) (pool s (y ∷ xs))) (sym e)
        (rw (here, there) (rw (pool_skips (id y) s xs fresh) (Perm.refl (y ∷ pool s xs))))
  pool-delete x s (y ∷ xs) (fresh, d) (Memᴰ.tail m) h =
      let other : (id y == id x) ≡ false = elim (Bool-cases (id y == id x)) [
        | inl e ↦ absurd (ground (arith, includes_id x xs m, eq_iff (id y) (id x)))
        | inr n ↦ n
      ] in
      let ih = pool-delete x s xs d m h in
      let kept : includes (delete (id x) s) (id y) ≡ includes s (id y) =
        ground (arith, includes-delete (id x) (id y) s) in
      elim (Bool-cases (includes s (id y))) [
        | inl present ↦
            rw (kept, present)
              (Perm.trans (Perm.swap y x (pool (delete (id x) s) xs)) (Perm.cons y ih))
        | inr gone ↦ rw (kept, gone) ih
      ]

  pub pool_all :
      (s : List String) (xs : List A)
      → ((x : A) → Memᴰ x xs → includes s (id x) ≡ true)
      → pool s xs ≡ xs
  pool_all s [] h = refl
  pool_all s (x ∷ xs) h =
      rw (h x (Memᴰ.head refl)) (ap (λ l. x ∷ l) (pool_all s xs (λ y m. h y (Memᴰ.tail m))))
