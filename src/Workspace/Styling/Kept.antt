-- ===== src/Workspace/Styling/Kept.antt =====
-- What a style update leaves alone, and what it sets.
use hifld_next.Common.{
  List, eq_iff, eq_refl, ◌∙◌, lookup, lookup-insert, String, ◌==◌, find, insert, some, Option-cases,
  ok, >>-ok-eq-ok, ◌≡◌, sym, ap, arith, inl, inr,
}
use hifld_next.Js.{Js}
use hifld_next.Workspace.Style.{LayerStyleUpdate}
use hifld_next.Workspace.Style.Accept.{assert_valid_layer_style_update}
use hifld_next.Workspace.State.{VectorLayer, Workspace, with_styles}
use hifld_next.Workspace.Styling.{effective_update, style_of, restyle, set_layer_style}

module _ {V : Type 0} where
  lookup-insert_same :
      (k : String) (v : V) (m : List (String × V)) → lookup k (insert k v m) ≡ some v
  lookup-insert_same k v m = ground (arith, lookup-insert k k v m, eq_refl k)

  lookup-insert_other :
      (k j : String) (v : V) (m : List (String × V))
      → (j ≡ k → ⊥)
      → lookup j (insert k v m) ≡ lookup j m
  lookup-insert_other k j v m other = ground (arith, lookup-insert k j v m, eq_iff k j, other)

module _ (js : Js) where
  -- A style update that goes through, by what it was checked against and what it wrote.
  pub set_layer_style_inv :
      (id : String) (update : LayerStyleUpdate js) (w w' : Workspace js)
      → set_layer_style js id update w ≡ ok w'
      → (v : VectorLayer js) × (find (λ (v : VectorLayer js). v.target.id == id) w.vector_layers
          ≡ some v)
        × (assert_valid_layer_style_update js v.target
              (effective_update js v.target (style_of js id w.rendered_styles) update)
            ≡ ok tt)
        × (with_styles js
              (insert id
                (restyle js v.target
                  (effective_update js v.target (style_of js id w.rendered_styles) update)
                  (style_of js id w.layer_styles))
                w.layer_styles)
              w
            ≡ w')
  unfolding set_layer_style
  set_layer_style_inv id update w w' h =
      elim (Option-cases (find (λ (v : VectorLayer js). v.target.id == id) w.vector_layers)) [
        | inl e ↦ absurd (ground (arith, e, h))
        | inr (v, e) ↦
            let (valid, same) =
              >>-ok-eq-ok
                (assert_valid_layer_style_update js v.target
                  (effective_update js v.target (style_of js id w.rendered_styles) update))
                _ w' (rw (e, set_layer_style) at h) in
            (v, e, valid, same)
      ]

  pub set_layer_style_keeps :
      (id : String) (update : LayerStyleUpdate js) (w w' : Workspace js)
      → set_layer_style js id update w ≡ ok w'
      → (w'.layers ≡ w.layers) × (w'.rendered ≡ w.rendered) × (w'.pending ≡ w.pending)
  set_layer_style_keeps id update w w' h =
      let (_, _, _, e) = set_layer_style_inv id update w w' h in
      (
        ap (λ (u : Workspace js). u.layers) (sym e),
        ap (λ (u : Workspace js). u.rendered) (sym e),
        ap (λ (u : Workspace js). u.pending) (sym e),
      )

  -- After a style update that goes through, the layers and the styles of all other style layers are
  -- as before, and the style layer has its former style updated by the effective update, which was
  -- accepted for the first style layer of that id.
  pub set_layer_style_lem :
      (id : String) (update : LayerStyleUpdate js) (w w' : Workspace js)
      → set_layer_style js id update w ≡ ok w'
      → (w'.layers ≡ w.layers)
        × ((k : String) → (k ≡ id → ⊥) → lookup k w'.layer_styles ≡ lookup k w.layer_styles)
        × ((v : VectorLayer js) × (find (λ (v : VectorLayer js). v.target.id == id) w.vector_layers
              ≡ some v)
            × (assert_valid_layer_style_update js v.target
                  (effective_update js v.target (style_of js id w.rendered_styles) update)
                ≡ ok tt)
            × (lookup id w'.layer_styles
                ≡ some (
                    restyle js v.target
                      (effective_update js v.target (style_of js id w.rendered_styles) update)
                      (style_of js id w.layer_styles))))
  set_layer_style_lem id update w w' h =
      let (v, found, valid, e) = set_layer_style_inv id update w w' h in
      let new =
        restyle js v.target (effective_update js v.target (style_of js id w.rendered_styles) update)
          (style_of js id w.layer_styles) in
      let styles : w'.layer_styles ≡ insert id new w.layer_styles =
        ap (λ (u : Workspace js). u.layer_styles) (sym e) in
      (
        (set_layer_style_keeps id update w w' h).0,
        λ k other. ap (lookup k) styles ∙ lookup-insert_other id k new w.layer_styles other,
        (v, found, valid, ap (lookup id) styles ∙ lookup-insert_same id new w.layer_styles),
      )
