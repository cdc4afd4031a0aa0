-- ===== src/Workspace/Commands.antt =====
-- What a reordering leaves.
use mathlib.Core.List.{Memᴰ}
use hifld_next.Common.{
  String, true, ◌||◌, ◌==◌, eq_iff, eq_refl, List, [], ◌∷◌, map, All, includes, Distinct, lookup,
  insert, lookup-insert, some, is_some, Option-cases, ok, ◌≡◌, >>-ok-eq-ok, refl, ap, sym, arith,
  Bool-cases, ◌⊎◌, inl, inr, subst,
}
use hifld_next.Js.{Js}
use hifld_next.Layers.{LoadedMapLayer}
use hifld_next.Workspace.Layer.{summary_id, assert_valid_layer_order}
use hifld_next.Workspace.Order.{assert_valid_layer_order_iff}
use hifld_next.Workspace.State.{Workspace, ids, summaries, index_by_id, reordered, reorder_layers}

module _ {js : Js} where
  lookup_index :
      (k : String) (ls : List (LoadedMapLayer js)) (m : List (String × LoadedMapLayer js))
      → is_some (lookup k (index_by_id js ls m)) ≡ includes (ids js ls) k || is_some (lookup k m)
  unfolding index_by_id
  lookup_index k [] m = refl
  lookup_index k (l ∷ ls) m =
      ground (arith, lookup_index k ls (insert l.id l m), lookup-insert l.id k l m)

  index_source :
      (k : String) (v : LoadedMapLayer js) (ls : List (LoadedMapLayer js))
      (m : List (String × LoadedMapLayer js))
      → lookup k (index_by_id js ls m) ≡ some v
      → (Memᴰ v ls × (v.id ≡ k)) ⊎ (lookup k m ≡ some v)
  unfolding index_by_id
  index_source k v [] m h = inr h
  index_source k v (l ∷ ls) m h = elim (index_source k v ls (insert l.id l m) h) [
    | inl (there, e) ↦ inl (Memᴰ.tail there, e)
    | inr found ↦ elim (Bool-cases (l.id == k)) [
      | inl same ↦
          let here : l ≡ v = cc (lookup-insert l.id k l m, found, same) in
          inl (
            subst (λ u. Memᴰ v (u ∷ ls)) (sym here) (Memᴰ.head refl),
            subst (λ u. u.id ≡ k) here ((eq_iff l.id k).0 same),
          )
      | inr other ↦ inr (cc (lookup-insert l.id k l m, found, other))
    ]
  ]

  -- A lookup in the index by id of layers that have the id.
  lookup_found :
      (k : String) (current : List (LoadedMapLayer js))
      → includes (ids js current) k ≡ true
      → (v : LoadedMapLayer js) × (lookup k (index_by_id js current []) ≡ some v)
        × Memᴰ v current
        × (v.id ≡ k)
  lookup_found k current h = elim (Option-cases (lookup k (index_by_id js current []))) [
    | inl e ↦ absurd (ground (arith, e, h, lookup_index k current []))
    | inr (v, e) ↦ elim (index_source k v current [] e) [
      | inl (there, same) ↦ (v, e, there, same)
      | inr f ↦ absurd (ground (arith, f))
    ]
  ]

  reordered-All :
      (layer_ids : List String) (current : List (LoadedMapLayer js))
      → ((k : String) → includes layer_ids k ≡ true → includes (ids js current) k ≡ true)
      → (ids js (reordered js layer_ids current) ≡ layer_ids)
        × All (λ l. Memᴰ l current) (reordered js layer_ids current)
  unfolding reordered
  reordered-All [] current h = (refl, tt)
  reordered-All (k ∷ ks) current h =
      let (v, e, there, same) = lookup_found k current (h k (ground (arith, eq_refl k))) in
      let (ordered, members) = reordered-All ks current (λ j f. h j (ground (arith, f))) in
      (rw e (rw (same, ordered) refl), rw e (there, members))

  summary_ids : (ls : List (LoadedMapLayer js)) → map summary_id (summaries js ls) ≡ ids js ls
  summary_ids [] = refl
  summary_ids (l ∷ ls) = ap (λ xs. l.id ∷ xs) (summary_ids ls)

  pub reorder_inv :
      (layer_ids : List String) (w w' : Workspace js)
      → reorder_layers js layer_ids w ≡ ok w'
      → (assert_valid_layer_order layer_ids (summaries js w.rendered) ≡ ok tt)
        × (w'.layers ≡ reordered js layer_ids w.rendered)
  unfolding reorder_layers
  reorder_inv layer_ids w w' h =
      let (valid, e) =
        >>-ok-eq-ok (assert_valid_layer_order layer_ids (summaries js w.rendered)) _ w' h in
      (valid, ap (λ (u : Workspace js). u.layers) (sym e))

  -- After a reordering that goes through, the ids of the layers are the given ids in the given
  -- order, and each layer is one of those of the last render.
  pub reorder_layers_lem :
      (layer_ids : List String) (w w' : Workspace js)
      → reorder_layers js layer_ids w ≡ ok w'
      → (ids js w'.layers ≡ layer_ids) × All (λ l. Memᴰ l w.rendered) w'.layers
  reorder_layers_lem layer_ids w w' h =
      let (valid, e) = reorder_inv layer_ids w w' h in
      let order = (assert_valid_layer_order_iff layer_ids (summaries js w.rendered)).0 valid in
      rw e (
        reordered-All layer_ids w.rendered
          (λ k f. rw (sym (summary_ids w.rendered)) (ground (arith, order.same k, f))))

  pub reorder_layers-Distinct :
      (layer_ids : List String) (w w' : Workspace js)
      → reorder_layers js layer_ids w ≡ ok w'
      → Distinct (ids js w'.layers)
  reorder_layers-Distinct layer_ids w w' h =
      let (valid, e) = reorder_inv layer_ids w w' h in
      let order = (assert_valid_layer_order_iff layer_ids (summaries js w.rendered)).0 valid in
      rw ((reorder_layers_lem layer_ids w w' h).0) order.distinct
