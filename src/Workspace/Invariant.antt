-- ===== src/Workspace/Invariant.antt =====
-- What holds between any two commands, and that each command preserves it.
use hifld_next.Common.{
  String, Bool, false, not, ◌==◌, List, [], ◌∷◌, map, map-append, any, filter, includes, Distinct,
  Distinct-append_one, Distinct-add, fail_if, Result-cases, >>-eq-ok, >>=-eq-ok, ok_inj, Option,
  none, some, Result, ok, fail, >>-ok-eq-ok, ◌≡◌, refl, ap, sym, arith, Bool-cases, inl, inr, subst,
}
use hifld_next.Js.{Js}
use hifld_next.Layers.{LoadedMapLayer}
use hifld_next.Workspace.Layer.{
  assert_valid_basemap, DatasetLayerInput, assert_valid_add_dataset_layer, assert_valid_layer_order,
  assert_valid_layer_removal, assert_valid_layer_visibility,
}
use hifld_next.Workspace.State.{
  Workspace, VectorLayer, layer_id, ids, summaries, render, begin_add, finish_add, append_layer,
  take_resolved, end_pending, remove_layer, show, set_layer_visibility, reorder_layers, set_basemap,
}
use hifld_next.Workspace.Styling.Kept.{set_layer_style_keeps}
use hifld_next.Workspace.Style.{LayerStyleUpdate}
use hifld_next.Workspace.Styling.{set_layer_style}
use hifld_next.Workspace.Commands.{reorder_layers-Distinct}

map_self : (ks : List String) → map (λ (k : String). k) ks ≡ ks
map_self [] = refl
map_self (k ∷ ks) = ap (λ js. k ∷ js) (map_self ks)

module _ {A : Type 0} (id : A → String) where
  includes-filter :
      (p : A → Bool) (xs : List A) (k : String)
      → includes (map id xs) k ≡ false
      → includes (map id (filter p xs)) k ≡ false
  includes-filter p [] k h = h
  includes-filter p (x ∷ xs) k h = ground (arith, includes-filter p xs k)

  Distinct-filter :
      (p : A → Bool) (xs : List A) → Distinct (map id xs) → Distinct (map id (filter p xs))
  Distinct-filter p [] d = tt
  Distinct-filter p (x ∷ xs) (fresh, d) = elim (Bool-cases (p x)) [
    | inl kept ↦ rw kept (includes-filter p xs (id x) fresh, Distinct-filter p xs d)
    | inr gone ↦ rw gone (Distinct-filter p xs d)
  ]

Distinct-keep : (p : String → Bool) (ks : List String) → Distinct ks → Distinct (filter p ks)
Distinct-keep p ks d =
    subst Distinct (map_self (filter p ks))
      (Distinct-filter (λ k. k) p ks (subst Distinct (sym (map_self ks)) d))

module _ (js : Js) where
  any_id :
      (k : String) (ls : List (LoadedMapLayer js))
      → any (λ (l : LoadedMapLayer js). l.id == k) ls ≡ includes (ids js ls) k
  any_id k [] = refl
  any_id k (l ∷ ls) = rw (any_id k ls) refl

  append_layer-Distinct :
      (l : LoadedMapLayer js) (ls : List (LoadedMapLayer js))
      → Distinct (ids js ls)
      → Distinct (ids js (append_layer js l ls))
  unfolding append_layer
  append_layer-Distinct l ls d = elim (Bool-cases (includes (ids js ls) l.id)) [
    | inl old ↦ rw (any_id l.id ls, old) d
    | inr new ↦
        rw (any_id l.id ls, new)
          (rw (map-append (layer_id js) ls (l ∷ [])) (Distinct-append_one (ids js ls) l.id d new))
  ]

  ids-show :
      (k : String) (visible : Bool) (ls : List (LoadedMapLayer js))
      → ids js (map (show js k visible) ls) ≡ ids js ls
  unfolding show
  ids-show k visible [] = refl
  ids-show k visible (l ∷ ls) = ground (arith, ids-show k visible ls)

  -- What holds between any two commands: no two layers have one id, in the state as in the
  -- references, and no id is pending twice.
  pub record IsWorkspace (w : Workspace js) : Type 0 where
    pub layers : Distinct (ids js w.layers)
    pub rendered : Distinct (ids js w.rendered)
    pub pending : Distinct w.pending

  pub render-IsWorkspace :
      (vs : List (VectorLayer js)) (w : Workspace js) → IsWorkspace w → IsWorkspace (render js vs w)
  unfolding render
  render-IsWorkspace vs w i = record { layers = i.layers; rendered = i.layers; pending = i.pending }

  pub begin_add-IsWorkspace :
      (input : DatasetLayerInput) (w w' : Workspace js)
      → begin_add js input w ≡ ok w'
      → IsWorkspace w
      → IsWorkspace w'
  unfolding begin_add
  begin_add-IsWorkspace input w w' h i =
      let (_, h) = >>-eq-ok (assert_valid_add_dataset_layer input (summaries js w.rendered)) _ h in
      let (_, e) = >>-ok-eq-ok (fail_if (includes w.pending input.layer_id) _) _ w' h in
      subst IsWorkspace e (record {
        layers = i.layers;
        rendered = i.rendered;
        pending = Distinct-add w.pending input.layer_id i.pending;
      })

  take_resolved-IsWorkspace :
      (input : DatasetLayerInput) (resolved : Result (Option (LoadedMapLayer js)))
      (w w' : Workspace js)
      → take_resolved js input resolved w ≡ ok w'
      → IsWorkspace w
      → IsWorkspace w'
  unfolding take_resolved
  take_resolved-IsWorkspace input (fail m) w w' h i = cc
  take_resolved-IsWorkspace input (ok none) w w' h i = cc
  take_resolved-IsWorkspace input (ok (some l)) w w' h i =
      let (_, h) = >>-eq-ok (fail_if (not (l.id == input.layer_id)) _) _ h in
      let (_, e) =
        >>-ok-eq-ok
          (assert_valid_add_dataset_layer (record { layer_id = l.id; label = l.label })
            (summaries js w.rendered))
          _ w' h in
      subst IsWorkspace e (record {
        layers = append_layer-Distinct l w.layers i.layers;
        rendered = i.rendered;
        pending = i.pending;
      })

  end_pending-IsWorkspace :
      (id : String) (w : Workspace js) → IsWorkspace w → IsWorkspace (end_pending js id w)
  unfolding end_pending
  end_pending-IsWorkspace id w i = record {
    layers = i.layers;
    rendered = i.rendered;
    pending = Distinct-keep (λ k. not (k == id)) w.pending i.pending;
  }

  pub finish_add-IsWorkspace :
      (input : DatasetLayerInput) (resolved : Result (Option (LoadedMapLayer js)))
      (w : Workspace js)
      → IsWorkspace w
      → IsWorkspace (finish_add js input resolved w).0
  unfolding finish_add
  finish_add-IsWorkspace input resolved w i =
      elim (Result-cases (take_resolved js input resolved w)) [
        | inl (w', e) ↦
            rw (e, finish_add)
              (end_pending-IsWorkspace input.layer_id w'
                (take_resolved-IsWorkspace input resolved w w' e i))
        | inr (m, e) ↦ rw (e, finish_add) (end_pending-IsWorkspace input.layer_id w i)
      ]

  pub remove_layer-IsWorkspace :
      (removed : String) (w w' : Workspace js)
      → remove_layer js removed w ≡ ok w'
      → IsWorkspace w
      → IsWorkspace w'
  unfolding remove_layer
  remove_layer-IsWorkspace removed w w' h i =
      let (_, e) =
        >>-ok-eq-ok (assert_valid_layer_removal removed (summaries js w.rendered)) _ w' h in
      subst IsWorkspace e (record {
        layers = Distinct-filter (layer_id js) _ w.layers i.layers;
        rendered = i.rendered;
        pending = i.pending;
      })

  pub set_layer_visibility-IsWorkspace :
      (shown : String) (visible : Bool) (w w' : Workspace js)
      → set_layer_visibility js shown visible w ≡ ok w'
      → IsWorkspace w
      → IsWorkspace w'
  unfolding set_layer_visibility
  set_layer_visibility-IsWorkspace shown visible w w' h i =
      let (_, e) =
        >>-ok-eq-ok (assert_valid_layer_visibility shown visible (summaries js w.rendered)) _ w'
          h in
      subst IsWorkspace e (record {
        layers = rw (ids-show shown visible w.layers) i.layers;
        rendered = i.rendered;
        pending = i.pending;
      })

  pub reorder_layers-IsWorkspace :
      (layer_ids : List String) (w w' : Workspace js)
      → reorder_layers js layer_ids w ≡ ok w'
      → IsWorkspace w
      → IsWorkspace w'
  unfolding reorder_layers
  reorder_layers-IsWorkspace layer_ids w w' h i =
      let (_, e) =
        >>-ok-eq-ok (assert_valid_layer_order layer_ids (summaries js w.rendered)) _ w' h in
      record {
        layers = reorder_layers-Distinct layer_ids w w' h;
        rendered = subst (λ (u : Workspace js). Distinct (ids js u.rendered)) e i.rendered;
        pending = subst (λ (u : Workspace js). Distinct u.pending) e i.pending;
      }

  pub set_basemap-IsWorkspace :
      (mode : String) (w w' : Workspace js)
      → set_basemap js mode w ≡ ok w'
      → IsWorkspace w
      → IsWorkspace w'
  unfolding set_basemap
  set_basemap-IsWorkspace mode w w' h i =
      let (_, _, e) = >>=-eq-ok (assert_valid_basemap mode) _ h in
      subst IsWorkspace (ok_inj _ w' e)
        (record { layers = i.layers; rendered = i.rendered; pending = i.pending })

  pub set_layer_style-IsWorkspace :
      (id : String) (update : LayerStyleUpdate js) (w w' : Workspace js)
      → set_layer_style js id update w ≡ ok w'
      → IsWorkspace w
      → IsWorkspace w'
  set_layer_style-IsWorkspace id update w w' h i =
      let (a, b, c) = set_layer_style_keeps js id update w w' h in
      record { layers = rw a i.layers; rendered = rw b i.rendered; pending = rw c i.pending }
