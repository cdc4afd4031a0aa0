-- ===== src/Workspace/Order.antt =====
-- What the validation of a layer order accepts.
use hifld_next.Common.{
  suc, ◌≤◌, ◌+◌, String, true, false, not, eq_iff, eq_refl, List, [], ◌∷◌, map, any, length,
  length-append, includes, includes-append, includes-to_set, add, add_all, to_set, Distinct, ok,
  ◌≡◌, ◌↔◌, refl, arith, Bool-cases, inl, inr,
}
use hifld_next.Diff.Matching.{delete}
use hifld_next.Diff.Matching.Pool.{includes-delete}
use hifld_next.Workspace.Layer.{MapLayerSummary, summary_id, assert_valid_layer_order}

length-add :
    (s : List String) (k : String) → includes s k ≡ false → length (add s k) ≡ suc (length s)
length-add s k h = rw h (ground (arith, length-append s (k ∷ [])))

length-add_le : (s : List String) (k : String) → length (add s k) ≤ suc (length s)
length-add_le s k = ground (arith, length-append s (k ∷ []))

length-add_all_le : (s ks : List String) → length (add_all s ks) ≤ length s + length ks
unfolding add_all
length-add_all_le s [] = omega arith
length-add_all_le s (k ∷ ks) = omega (arith, length-add_all_le (add s k) ks, length-add_le s k)

-- Where no member was lost, none stands twice and none was there before.
add_all_full :
    (s ks : List String)
    → length (add_all s ks) ≡ length s + length ks
    → Distinct ks × ((k : String) → includes ks k ≡ true → includes s k ≡ false)
unfolding add_all
add_all_full s [] h = (tt, λ k e. ground arith)
add_all_full s (j ∷ js) h = elim (Bool-cases (includes s j)) [
  | inl old ↦ absurd (ground (arith, length-add_all_le s js, h, old))
  | inr new ↦
      let (d, fresh) = add_all_full (add s j) js (omega (arith, h, length-add s j new)) in
      (
        (
          elim (Bool-cases (includes js j)) [
            | inl e ↦ absurd (ground (arith, fresh j e, includes-append s (j ∷ []) j, eq_refl j))
            | inr e ↦ e
          ],
          d,
        ),
        λ k e. ground (arith, fresh k, includes-append s (j ∷ []) k, eq_iff j k, new),
      )
]

length-delete_le : (k : String) (ys : List String) → length (delete k ys) ≤ length ys
unfolding delete
length-delete_le k [] = omega arith
length-delete_le k (y ∷ ys) = ground (arith, length-delete_le k ys)

length-delete :
    (k : String) (ys : List String) → includes ys k ≡ true → suc (length (delete k ys)) ≤ length ys
unfolding delete
length-delete k [] h = ground arith
length-delete k (y ∷ ys) h = ground (arith, length-delete_le k ys, length-delete k ys)

-- Distinct texts that all stand in a list are no more than its elements.
subset_le :
    (xs ys : List String)
    → Distinct xs
    → ((k : String) → includes xs k ≡ true → includes ys k ≡ true)
    → length xs ≤ length ys
subset_le [] ys d h = omega arith
subset_le (x ∷ xs) ys (fresh, d) h =
    let here : includes ys x ≡ true = h x (ground (arith, eq_refl x)) in
    let rest =
      subset_le xs (delete x ys) d (λ k e.
        ground (arith, h k, includes-delete (λ (i : String). i) x k ys, eq_iff k x, fresh)) in
    omega (arith, rest, length-delete x ys here)

-- As many distinct texts that all stand in a list are all of its texts.
pub covers :
    (xs ys : List String)
    → Distinct xs
    → ((k : String) → includes xs k ≡ true → includes ys k ≡ true)
    → length ys ≤ length xs
    → (k : String) → includes ys k ≡ true
    → includes xs k ≡ true
covers xs ys d h le k e = elim (Bool-cases (includes xs k)) [
  | inl here ↦ here
  | inr gone ↦ absurd (
      omega
        (arith, subset_le (k ∷ xs) ys (gone, d) (λ j f. ground (arith, h j, eq_iff k j, e)), le))
]

length-add_all :
    (s ks : List String)
    → Distinct ks
    → ((k : String) → includes ks k ≡ true → includes s k ≡ false)
    → length (add_all s ks) ≡ length s + length ks
unfolding add_all
length-add_all s [] d h = omega arith
length-add_all s (j ∷ js) (fresh, d) h =
    let new : includes s j ≡ false = h j (ground (arith, eq_refl j)) in
    omega (
      arith,
      length-add s j new,
      length-add_all (add s j) js d
          (λ k e. ground (arith, h k, new, fresh, eq_iff j k, includes-append s (j ∷ []) k)),
    )

pub to_set-Distinct : (ks : List String) → Distinct ks → length (to_set ks) ≡ length ks
to_set-Distinct ks d = omega (arith, length-add_all [] ks d (λ k e. refl))

pub Distinct-to_set : (ks : List String) → length (to_set ks) ≡ length ks → Distinct ks
Distinct-to_set ks h = (add_all_full [] ks (omega (arith, h))).0

-- The members of one list are those of the other, and neither holds one twice.
pub record IsOrderOf (ids others : List String) : Type 0 where
  pub distinct : Distinct ids
  pub others_distinct : Distinct others
  pub same : (k : String) → includes ids k ≡ includes others k

IsOrderOf-length : (ids others : List String) → IsOrderOf ids others → length ids ≡ length others
IsOrderOf-length ids others o = omega (
  arith,
  subset_le ids others o.distinct (λ k e. ground (arith, o.same k, e)),
  subset_le others ids o.others_distinct (λ k e. ground (arith, o.same k, e)),
)

any_missing :
    (ids others : List String)
    → any (λ k. not (includes ids k)) others ≡ false
    → (k : String) → includes others k ≡ true
    → includes ids k ≡ true
any_missing ids [] h k e = ground arith
any_missing ids (j ∷ others) h k e = elim (Bool-cases (includes others k)) [
  | inl there ↦ any_missing ids others (ground (arith, h)) k there
  | inr gone ↦ ground (arith, eq_iff j k, h, e, gone)
]

none_missing :
    (ids others : List String)
    → ((k : String) → includes others k ≡ true → includes ids k ≡ true)
    → any (λ k. not (includes ids k)) others ≡ false
none_missing ids [] h = refl
none_missing ids (j ∷ others) h =
    ground (arith, h j, eq_refl j, none_missing ids others (λ k e. h k (ground (arith, e))))

length-map_id : (layers : List MapLayerSummary) → length (map summary_id layers) ≡ length layers
length-map_id [] = refl
length-map_id (l ∷ layers) = omega (arith, length-map_id layers)

order_facts :
    (ids : List String) (layers : List MapLayerSummary)
    → assert_valid_layer_order ids layers ≡ ok tt
    → (length ids ≡ length layers)
      × (length (to_set ids) ≡ length ids)
      × (length (to_set ids) ≡ length (to_set (map summary_id layers)))
      × (any (λ k. not (includes (to_set ids) k)) (to_set (map summary_id layers)) ≡ false)
unfolding assert_valid_layer_order
order_facts ids layers h = ground arith

accepts :
    (ids : List String) (layers : List MapLayerSummary)
    → length ids ≡ length layers
    → length (to_set ids) ≡ length ids
    → length (to_set ids) ≡ length (to_set (map summary_id layers))
    → any (λ k. not (includes (to_set ids) k)) (to_set (map summary_id layers)) ≡ false
    → assert_valid_layer_order ids layers ≡ ok tt
unfolding assert_valid_layer_order
accepts ids layers a b c d = ground arith

order_sound :
    (ids : List String) (layers : List MapLayerSummary)
    → assert_valid_layer_order ids layers ≡ ok tt
    → IsOrderOf ids (map summary_id layers)
order_sound ids layers h =
    let (a, b, c, d) = order_facts ids layers h in
    let others = map summary_id layers in
    let distinct = Distinct-to_set ids b in
    let others_distinct = Distinct-to_set others (omega (arith, a, b, c, length-map_id layers)) in
    let missing : (k : String) → includes others k ≡ true → includes ids k ≡ true = λ k e. ground (
      arith,
      any_missing (to_set ids) (to_set others) d k,
      includes-to_set ids k,
      includes-to_set others k,
      e,
    ) in
    let found =
      covers others ids others_distinct missing (omega (arith, a, length-map_id layers)) in
    record {
      distinct = distinct;
      others_distinct = others_distinct;
      same = λ k. ground (arith, missing k, found k);
    }

order_complete :
    (ids : List String) (layers : List MapLayerSummary)
    → IsOrderOf ids (map summary_id layers)
    → assert_valid_layer_order ids layers ≡ ok tt
order_complete ids layers o =
    let others = map summary_id layers in
    let lengths = IsOrderOf-length ids others o in
    let set_ids = to_set-Distinct ids o.distinct in
    let set_others = to_set-Distinct others o.others_distinct in
    accepts ids layers (omega (arith, lengths, length-map_id layers)) set_ids
      (omega (arith, lengths, set_ids, set_others))
      (none_missing (to_set ids) (to_set others)
        (λ k e. ground (arith, o.same k, includes-to_set ids k, includes-to_set others k, e)))

-- An order of layers is accepted just when it and the list of the layers' ids have the same members
-- and neither holds one twice.
pub assert_valid_layer_order_iff :
    (ids : List String) (layers : List MapLayerSummary)
    → (assert_valid_layer_order ids layers ≡ ok tt) ↔ IsOrderOf ids (map summary_id layers)
assert_valid_layer_order_iff ids layers = (order_sound ids layers, order_complete ids layers)
