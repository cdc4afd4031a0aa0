-- ===== src/Workspace/Layer.antt =====
-- The validation of the commands that name layers.
use hifld_next.Common.{
  String, Bool, not, ◌||◌, ◌==◌, eqb, if◌then◌else◌, List, [], ◌∷◌, map, any, find, length,
  includes, to_set, concat, none, some, Result, ok, fail, fail_if, ◌>>=◌, ◌>>◌,
}
use hifld_next.Js.Trim.{is_blank}

pub data LayerSort : Type 0 where
  catalog_layer query_layer : LayerSort

pub record MapLayerSummary : Type 0 where
  pub id : String
  pub label : String
  pub kind : LayerSort
  pub visible : Bool

pub record DatasetLayerInput : Type 0 where
  pub layer_id : String
  pub label : String

abbrev pub summary_id : MapLayerSummary → String
summary_id s = s.id

unfoldable pub layer_by_id : String → List MapLayerSummary → Result MapLayerSummary
layer_by_id layer_id layers =
    if is_blank layer_id
    then fail "layer ID must not be empty"
    else elim (find (λ (s : MapLayerSummary). s.id == layer_id) layers) [
      | none ↦ fail (concat ("layer " ∷ layer_id ∷ " does not exist" ∷ []))
      | some s ↦ ok s
    ]

unfoldable pub assert_valid_add_dataset_layer :
    DatasetLayerInput → List MapLayerSummary → Result (Unit {0})
assert_valid_add_dataset_layer input layers = do
  fail_if (is_blank input.layer_id) "layer ID must not be empty"
  fail_if (is_blank input.label) "layer label must not be empty"
  fail_if (any (λ (s : MapLayerSummary). s.id == input.layer_id) layers)
      (concat ("layer " ∷ input.layer_id ∷ " is already loaded" ∷ []))

unfoldable pub assert_valid_layer_removal : String → List MapLayerSummary → Result (Unit {0})
assert_valid_layer_removal layer_id layers = do _ ← layer_by_id layer_id layers; ok tt

-- That `visible` is a Boolean is given by its type here.
unfoldable pub assert_valid_layer_visibility :
    String → Bool → List MapLayerSummary → Result (Unit {0})
assert_valid_layer_visibility layer_id visible layers = do _ ← layer_by_id layer_id layers; ok tt

abbrev pub order_message : String
order_message = "layer order must contain every loaded layer exactly once"

unfoldable pub assert_valid_layer_order : List String → List MapLayerSummary → Result (Unit {0})
assert_valid_layer_order layer_ids layers = do
  fail_if (not (eqb (length layer_ids) (length layers))) order_message
  let expected = to_set (map summary_id layers)
  let actual = to_set layer_ids
  fail_if
      (not (eqb (length actual) (length layer_ids))
        || not (eqb (length actual) (length expected))
        || any (λ id. not (includes actual id)) expected)
      order_message

pub data BasemapMode : Type 0 where
  street satellite : BasemapMode

-- The mode as the caller sends it.
unfoldable pub assert_valid_basemap : String → Result BasemapMode
assert_valid_basemap mode =
    if mode == "street"
    then ok street
    else if mode == "satellite"
    then ok satellite
    else fail "basemap mode is invalid"
