-- ===== src/Dataset/Best.antt =====
-- The best of the candidates of each key, as a map keeps it, against the leftmost one of the highest
-- score.
use hifld_next.Common.{
  ℕ, String, Bool, true, false, ◌||◌, ◌==◌, eq_iff, ltb, List, [], ◌∷◌, map, any, count, keys,
  lookup, insert, lookup-insert, includes, Distinct, All, Option, none, some, is_some,
  if◌then◌else◌, Bool-cases, inl, inr, ◌≡◌, refl, ap, sym, ◌∙◌, arith,
}
use hifld_next.Js.Sort.{sort, insert_sorted}

module _ {A : Type 0} (key : A → String) (score : A → ℕ) where
  -- `!existing || candidate.score > existing.score`
  abbrev beats : Option A → A → Bool
  beats none x = true
  beats (some existing) x = ltb (score existing) (score x)

  -- One round of the loop, and the loop.
  unfoldable pub keep_best : A → List (String × A) → List (String × A)
  keep_best x m = if beats (lookup (key x) m) x then insert (key x) x m else m

  unfoldable pub keep_all : List (String × A) → List A → List (String × A)
  keep_all m [] = m
  keep_all m (x ∷ xs) = keep_all (keep_best x m) xs

  -- The better of two, the first where they are alike.
  abbrev pub better : A → Option A → A
  better x none = x
  better x (some y) = if ltb (score x) (score y) then y else x

  -- The leftmost of the candidates of a key that none of them beats.
  abbrev pub leftmost_best : String → List A → Option A
  leftmost_best k [] = none
  leftmost_best k (x ∷ xs) =
      let rest = leftmost_best k xs in if key x == k then some (better x rest) else rest

  abbrev pick : Option A → Option A → Option A
  pick none o = o
  pick (some x) o = some (better x o)

  pick_assoc : (a b c : Option A) → pick (pick a b) c ≡ pick a (pick b c)
  pick_assoc none b c = refl
  pick_assoc (some x) none c = refl
  pick_assoc (some x) (some y) none = refl
  pick_assoc (some x) (some y) (some z) = ground arith

  pick_one : (o : Option A) (x : A) → pick o (some x) ≡ (if beats o x then some x else o)
  pick_one none x = refl
  pick_one (some y) x = ground arith

  lookup-keep_best :
      (k : String) (x : A) (m : List (String × A))
      → lookup k (keep_best x m) ≡ (if key x == k then pick (lookup k m) (some x) else lookup k m)
  unfolding keep_best
  lookup-keep_best k x m =
      let same_key : key x == k ≡ true → lookup (key x) m ≡ lookup k m =
        λ same. ap (λ j. lookup j m) ((eq_iff (key x) k).0 same) in
      ground (arith, same_key, lookup-insert (key x) k x m, pick_one (lookup k m) x)

  lookup-keep_all :
      (k : String) (m : List (String × A)) (xs : List A)
      → lookup k (keep_all m xs) ≡ pick (lookup k m) (leftmost_best k xs)
  unfolding keep_all
  lookup-keep_all k m [] = ground arith
  lookup-keep_all k m (x ∷ xs) = ground (
    arith,
    lookup-keep_all k (keep_best x m) xs,
    lookup-keep_best k x m,
    pick_assoc (lookup k m) (some x) (leftmost_best k xs),
  )

  -- Each entry stands under the key of its value, and no key twice.
  record IsKeyed (m : List (String × A)) : Type 0 where
    keyed : All (λ (e : String × A). key e.1 ≡ e.0) m
    distinct : Distinct (keys m)

  insert-keyed :
      (x : A) (m : List (String × A))
      → All (λ (e : String × A). key e.1 ≡ e.0) m
      → All (λ (e : String × A). key e.1 ≡ e.0) (insert (key x) x m)
  insert-keyed x [] h = (refl, tt)
  insert-keyed x ((i, old) ∷ rest) (e, h) = elim (Bool-cases (i == key x)) [
    | inl same ↦ rw same (refl, h)
    | inr other ↦ rw other (e, insert-keyed x rest h)
  ]

  includes-insert :
      (k j : String) (x : A) (m : List (String × A))
      → includes (keys (insert k x m)) j ≡ includes (keys m) j || k == j
  includes-insert k j x [] = ground arith
  includes-insert k j x ((i, old) ∷ rest) =
      ground (arith, includes-insert k j x rest, eq_iff i k, eq_iff k j, eq_iff i j)

  Distinct-insert :
      (k : String) (x : A) (m : List (String × A))
      → Distinct (keys m)
      → Distinct (keys (insert k x m))
  Distinct-insert k x [] d = (refl, tt)
  Distinct-insert k x ((i, old) ∷ rest) (fresh, d) = elim (Bool-cases (i == k)) [
    | inl same ↦ rw same (ground (arith, (eq_iff i k).0 same), d)
    | inr other ↦ rw other (
      ground (arith, includes-insert k i x rest, eq_iff i k, eq_iff k i),
      Distinct-insert k x rest d,
    )
  ]

  keep_all-IsKeyed : (m : List (String × A)) (xs : List A) → IsKeyed m → IsKeyed (keep_all m xs)
  unfolding keep_all keep_best
  keep_all-IsKeyed m [] h = h
  keep_all-IsKeyed m (x ∷ xs) h =
      keep_all-IsKeyed (keep_best x m) xs (elim (Bool-cases (beats (lookup (key x) m) x)) [
        | inl better_one ↦ rw better_one (record {
          keyed = insert-keyed x m h.keyed;
          distinct = Distinct-insert (key x) x m h.distinct;
        })
        | inr kept ↦ rw kept h
      ])

  abbrev pub values : List (String × A) → List A
  values = map (λ (e : String × A). e.1)

  is_some-lookup : (k : String) (m : List (String × A)) → is_some (lookup k m) ≡ includes (keys m) k
  is_some-lookup k [] = refl
  is_some-lookup k ((i, v) ∷ m) = ground (arith, is_some-lookup k m)

  -- A key that is fresh is not found.
  fresh_key :
      (i k : String) (m : List (String × A))
      → includes (keys m) i ≡ false
      → i == k ≡ true
      → is_some (lookup k m) ≡ false
  fresh_key i k m fresh same =
      is_some-lookup k m ∙ ap (includes (keys m)) (sym ((eq_iff i k).0 same)) ∙ fresh

  count-values :
      (k : String) (m : List (String × A))
      → IsKeyed m
      → count (λ v. key v == k) (values m) ≡ (if is_some (lookup k m) then 1 else 0)
  count-values k [] h = refl
  count-values k ((i, v) ∷ m) h =
      let (e, keyed) = h.keyed in
      let (fresh, distinct) = h.distinct in
      let rest = count-values k m (record { keyed = keyed; distinct = distinct }) in
      rw e (ground (arith, rest, fresh_key i k m fresh))

  All-map : {P Q : A → Type 0} (xs : List A) → ((x : A) → P x → Q x) → All P xs → All Q xs
  All-map [] f h = tt
  All-map (x ∷ xs) f (p, h) = (f x p, All-map xs f h)

  values-lookup :
      (m : List (String × A)) → IsKeyed m → All (λ v. lookup (key v) m ≡ some v) (values m)
  values-lookup [] h = tt
  values-lookup ((i, v) ∷ m) h =
      let (e, keyed) = h.keyed in
      let (fresh, distinct) = h.distinct in
      let rest = values-lookup m (record { keyed = keyed; distinct = distinct }) in
      (
        ground (arith, (eq_iff i (key v)).1 (sym e)),
        All-map (values m) (λ w found. ground (arith, fresh_key i (key w) m fresh, found)) rest,
      )

  -- The values that the loop keeps: one for each key that a candidate has, and the leftmost best of
  -- the candidates of its key.
  pub keep_all_lem :
      (xs : List A)
      → ((k : String)
          → count (λ v. key v == k) (values (keep_all [] xs))
            ≡ (if is_some (leftmost_best k xs) then 1 else 0))
        × All (λ v. leftmost_best (key v) xs ≡ some v) (values (keep_all [] xs))
  keep_all_lem xs =
      let keyed = keep_all-IsKeyed [] xs (record { keyed = tt; distinct = tt }) in
      (
        λ k.
            count-values k (keep_all [] xs) keyed
            ∙ ap (λ o. if is_some o then 1 else 0) (lookup-keep_all k [] xs),
        All-map (values (keep_all [] xs)) (λ v found. sym (lookup-keep_all (key v) [] xs) ∙ found)
            (values-lookup (keep_all [] xs) keyed),
      )

-- A key that some candidate has is one that has a best.
pub is_some-leftmost_best :
    {A : Type 0} (key : A → String) (score : A → ℕ) (k : String) (xs : List A)
    → is_some (leftmost_best key score k xs) ≡ any (λ x. key x == k) xs
is_some-leftmost_best key score k [] = refl
is_some-leftmost_best key score k (x ∷ xs) = ground (arith, is_some-leftmost_best key score k xs)

module _ {A : Type 0} (after : A → A → Bool) (P : A → Type 0) where
  insert_sorted-All : (x : A) (xs : List A) → P x → All P xs → All P (insert_sorted after x xs)
  unfolding insert_sorted
  insert_sorted-All x [] p h = (p, tt)
  insert_sorted-All x (y ∷ ys) p (q, h) = elim (Bool-cases (after x y)) [
    | inl later ↦ rw later (q, insert_sorted-All x ys p h)
    | inr first ↦ rw first (p, (q, h))
  ]

  pub sort-All : (xs : List A) → All P xs → All P (sort after xs)
  unfolding sort
  sort-All [] h = tt
  sort-All (x ∷ xs) (p, h) = insert_sorted-All x (sort after xs) p (sort-All xs h)
