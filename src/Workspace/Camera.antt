-- ===== src/Workspace/Camera.antt =====
-- The validation of the camera commands.
pub mod Laws
use hifld_next.Common.{
  ℕ, String, Bool, false, not, ◌||◌, eqb, List, [], ◌∷◌, any, filter, length, Option, none, some,
  is_some, Result, ok, fail_if, ◌>>=◌, ◌>>◌,
}
use hifld_next.Js.{Js, whole}
use hifld_next.Js.Trim.{is_blank}
use hifld_next.Layers.{MapBounds}
use hifld_next.Workspace.Style.Accept.{is_out_of_range}

module _ (js : Js) where
  pub record MapCameraTarget : Type 0 where
    pub bounds : Option (MapBounds js)
    pub center : Option (js.Number × js.Number)
    pub layer_ids : Option (List String)
    pub feature_id : Option String
    pub zoom : Option js.Number

  pub record MapCameraInput : Type 0 where
    pub target : Option MapCameraTarget
    pub bounds : Option (MapBounds js)
    pub center : Option (js.Number × js.Number)
    pub layer_ids : Option (List String)
    pub feature_id : Option String
    pub zoom : Option js.Number
    pub bearing : Option js.Number
    pub pitch : Option js.Number
    pub padding : Option js.Number

  -- `[...].filter((value) => value !== undefined).length`
  unfoldable pub given :
      Option (MapBounds js)
      → Option (js.Number × js.Number)
      → Option (List String)
      → Option String
      → ℕ
  given bounds center layer_ids feature_id = length (
      filter (λ b. b)
        (is_some bounds ∷ is_some center ∷ is_some layer_ids ∷ is_some feature_id ∷ []))

  -- A direct target takes no zoom over from the input.
  unfoldable pub camera_target : MapCameraInput → Result MapCameraTarget
  camera_target input = elim input.target [
    | none ↦ ok (record {
      bounds = input.bounds;
      center = input.center;
      layer_ids = input.layer_ids;
      feature_id = input.feature_id;
      zoom = none;
    })
    | some target ↦
        fail_if (not (eqb (given input.bounds input.center input.layer_ids input.feature_id) 0))
          "camera must use exactly one target form"
        >> ok target
  ]

  unfoldable pub bad_bounds : Option (MapBounds js) → Bool
  bad_bounds none = false
  bad_bounds (some b) =
      any (λ n. not (js.is_finite n)) (b.min_x ∷ b.min_y ∷ b.max_x ∷ b.max_y ∷ [])
      || js.lt b.max_x b.min_x
      || js.lt b.max_y b.min_y

  unfoldable pub bad_center : Option (js.Number × js.Number) → Bool
  bad_center none = false
  bad_center (some (lng, lat)) =
      any (λ n. not (js.is_finite n)) (lng ∷ lat ∷ [])
      || js.lt lng (js.minus (whole js 180))
      || js.lt (whole js 180) lng
      || js.lt lat (js.minus (whole js 90))
      || js.lt (whole js 90) lat

  unfoldable pub bad_layer_ids : Option (List String) → Bool
  bad_layer_ids none = false
  bad_layer_ids (some ids) = eqb (length ids) 0 || any is_blank ids

  unfoldable pub bad_feature_id : Option String → Bool
  bad_feature_id none = false
  bad_feature_id (some id) = is_blank id

  unfoldable pub validate_camera_target : MapCameraTarget → Result (Unit {0})
  validate_camera_target target = do
    fail_if (bad_bounds target.bounds) "camera bounds are invalid"
    fail_if (bad_center target.center) "camera center is invalid"
    fail_if (bad_layer_ids target.layer_ids) "camera layer IDs are invalid"
    fail_if (bad_feature_id target.feature_id) "camera feature ID must not be empty"
    fail_if (is_out_of_range js (whole js 0) (whole js 24) target.zoom) "camera zoom is invalid"

  unfoldable pub not_finite : Option js.Number → Bool
  not_finite none = false
  not_finite (some n) = not (js.is_finite n)

  unfoldable pub out_of_pitch : Option js.Number → Bool
  out_of_pitch none = false
  out_of_pitch (some n) = js.lt n (whole js 0) || js.lt (whole js 85) n

  unfoldable pub is_negative : Option js.Number → Bool
  is_negative none = false
  is_negative (some n) = js.lt n (whole js 0)

  unfoldable pub validate_camera_options : MapCameraInput → Result (Unit {0})
  validate_camera_options input = do
    fail_if (not_finite input.zoom) "camera zoom is invalid"
    fail_if (not_finite input.bearing) "camera bearing is invalid"
    fail_if (not_finite input.pitch) "camera pitch is invalid"
    fail_if (not_finite input.padding) "camera padding is invalid"
    fail_if (out_of_pitch input.pitch) "camera pitch is invalid"
    fail_if (is_negative input.padding) "camera padding is invalid"

  unfoldable pub assert_valid_camera_input : MapCameraInput → Result (Unit {0})
  assert_valid_camera_input input = do
    target ← camera_target input
    fail_if (not (eqb (given target.bounds target.center target.layer_ids target.feature_id) 1))
        "camera must contain exactly one target form"
    validate_camera_target target
    validate_camera_options input
