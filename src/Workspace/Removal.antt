-- ===== src/Workspace/Removal.antt =====
-- What a removal takes away, and what it leaves.
use hifld_next.Common.{
  String, Bool, true, false, not, ◌&&◌, ◌==◌, eq_iff, if◌then◌else◌, List, [], ◌∷◌, any, filter,
  includes, lookup, none, ok, >>-ok-eq-ok, ◌≡◌, refl, ap, sym, ◌∙◌, arith, Bool-cases, inl, inr,
}
use hifld_next.Js.{Js}
use hifld_next.Layers.{LoadedMapLayer}
use hifld_next.Workspace.Layer.{assert_valid_layer_removal}
use hifld_next.Workspace.State.{
  Workspace, VectorLayer, ids, summaries, remove_layer, without_styles,
}

module _ {V : Type 0} where
  lookup-filter :
      (p : String → Bool) (k : String) (m : List (String × V))
      → lookup k (filter (λ (e : String × V). p e.0) m) ≡ (if p k then lookup k m else none)
  lookup-filter p k [] = ground arith
  lookup-filter p k ((j, v) ∷ m) = elim (Bool-cases (j == k)) [
    | inl same ↦
        let alike : p j ≡ p k = ap p ((eq_iff j k).0 same) in
        ground (arith, alike, same, lookup-filter p k m)
    | inr other ↦ ground (arith, other, lookup-filter p k m)
  ]

if_not {ℓ} : {A : Type ℓ} → (b : Bool) (x y : A) → (if not b then x else y) ≡ (if b then y else x)
if_not true x y = refl
if_not false x y = refl

module _ (js : Js) where
  -- Whether a style is one of a style layer of the removed layer.
  abbrev pub is_style_of : String → List (VectorLayer js) → String → Bool
  is_style_of removed vector_layers k =
      any (λ (v : VectorLayer js). v.loaded_layer_id == removed && v.target.id == k) vector_layers

  ids-filter :
      (removed k : String) (ls : List (LoadedMapLayer js))
      → includes (ids js (filter (λ (l : LoadedMapLayer js). not (l.id == removed)) ls)) k
        ≡ (includes (ids js ls) k && not (k == removed))
  ids-filter removed k [] = refl
  ids-filter removed k (l ∷ ls) =
      ground (arith, ids-filter removed k ls, eq_iff l.id k, eq_iff l.id removed, eq_iff k removed)

  -- After a removal that goes through, the layer ids are the former ones without the removed one,
  -- and the styles are the former ones without those of the style layers of the removed layer.
  pub remove_layer_lem :
      (removed : String) (w w' : Workspace js)
      → remove_layer js removed w ≡ ok w'
      → ((k : String)
          → includes (ids js w'.layers) k ≡ (includes (ids js w.layers) k && not (k == removed)))
        × ((k : String)
            → lookup k w'.layer_styles
              ≡ (if is_style_of removed w.vector_layers k then none else lookup k w.layer_styles))
  unfolding remove_layer without_styles
  remove_layer_lem removed w w' h =
      let (_, e) =
        >>-ok-eq-ok (assert_valid_layer_removal removed (summaries js w.rendered)) _ w' h in
      (
        λ k. rw (ap (λ (u : Workspace js). u.layers) (sym e)) (ids-filter removed k w.layers),
        λ k. rw (ap (λ (u : Workspace js). u.layer_styles) (sym e)) (
            lookup-filter (λ j. not (is_style_of removed w.vector_layers j)) k w.layer_styles
            ∙ if_not (is_style_of removed w.vector_layers k) _ _),
      )
