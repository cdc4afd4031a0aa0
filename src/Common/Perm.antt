-- ===== src/Common/Perm.antt =====
-- Permutations under the shared list functions.
use mathlib.Core.List.{List, [], ◌∷◌, Perm, Permᴰ, Perm-prop}
use mathlib.Core.List.Perm
use mathlib.Core.Logic.{∥∥₁_elim}
use mathlib.Core.Bool.{Bool}
use mathlib.Core.Option.{Option, none, some}
use mathlib.Core.Path.{◌≡◌, refl, ◌∙◌}
use native.Mathlib.Nat.{ℕ_set}
use native.Mathlib.Omega.{arith}
use hifld_next.Common.Lists.{length, count, filter_map, prepend}

module _ {A : Type 0} where
  length-Permᴰ : {xs ys : List A} → Permᴰ xs ys → length xs ≡ length ys
  length-Permᴰ Permᴰ.nil = refl
  length-Permᴰ (Permᴰ.cons e p) = omega (arith, length-Permᴰ p)
  length-Permᴰ (Permᴰ.swap e f) = refl
  length-Permᴰ (Permᴰ.trans p q) = length-Permᴰ p ∙ length-Permᴰ q

  pub length-perm : {xs ys : List A} → Perm xs ys → length xs ≡ length ys
  length-perm p = ∥∥₁_elim p (ℕ_set _ _) length-Permᴰ

module _ {B : Type 0} where
  prepend_cons : (o : Option B) {xs ys : List B} → Perm xs ys → Perm (prepend o xs) (prepend o ys)
  prepend_cons none p = p
  prepend_cons (some b) p = Perm.cons b p

  prepend_swap :
      (o o' : Option B) (xs : List B) → Perm (prepend o (prepend o' xs)) (prepend o' (prepend o xs))
  prepend_swap none o' xs = Perm.refl (prepend o' xs)
  prepend_swap (some b) none xs = Perm.refl (b ∷ xs)
  prepend_swap (some b) (some b') xs = Perm.swap b' b xs

module _ {A B : Type 0} (f : A → Option B) where
  filter_map-Permᴰ : {xs ys : List A} → Permᴰ xs ys → Perm (filter_map f xs) (filter_map f ys)
  filter_map-Permᴰ Permᴰ.nil = Perm.refl []
  filter_map-Permᴰ (Permᴰ.cons {b = b} e p) = rw e (prepend_cons (f b) (filter_map-Permᴰ p))
  filter_map-Permᴰ (Permᴰ.swap {a' = a'} {b' = b'} {l = xs} e g) =
      rw (e, g) (prepend_swap (f b') (f a') (filter_map f xs))
  filter_map-Permᴰ (Permᴰ.trans p q) = Perm.trans (filter_map-Permᴰ p) (filter_map-Permᴰ q)

  pub filter_map-perm : {xs ys : List A} → Perm xs ys → Perm (filter_map f xs) (filter_map f ys)
  filter_map-perm p = ∥∥₁_elim p Perm-prop filter_map-Permᴰ

module _ {A : Type 0} (p : A → Bool) where
  count-Permᴰ : {xs ys : List A} → Permᴰ xs ys → count p xs ≡ count p ys
  count-Permᴰ Permᴰ.nil = refl
  count-Permᴰ (Permᴰ.cons {b = b} e q) = rw e (ground (arith, count-Permᴰ q))
  count-Permᴰ (Permᴰ.swap {a' = a'} {b' = b'} e g) = rw (e, g) (ground arith)
  count-Permᴰ (Permᴰ.trans q r) = count-Permᴰ q ∙ count-Permᴰ r

  pub count-perm : {xs ys : List A} → Perm xs ys → count p xs ≡ count p ys
  count-perm q = ∥∥₁_elim q (ℕ_set _ _) count-Permᴰ
