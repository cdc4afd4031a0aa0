-- ===== src/Workspace/Camera/Laws.antt =====
-- What an accepted camera guarantees.
use hifld_next.Common.{false, ok, ◌≡◌, arith, Result-cases, inl, inr}
use hifld_next.Js.{Js, whole}
use hifld_next.Workspace.Style.Accept.{is_out_of_range}
use hifld_next.Workspace.Camera.{
  MapCameraTarget, MapCameraInput, given, camera_target, bad_bounds, bad_center, bad_layer_ids,
  bad_feature_id, validate_camera_target, not_finite, out_of_pitch, is_negative,
  validate_camera_options, assert_valid_camera_input,
}

module _ (js : Js) where
  -- The target has just one form and lies within its ranges.
  pub record IsTarget (target : MapCameraTarget js) : Type 0 where
    pub one_form : given js target.bounds target.center target.layer_ids target.feature_id ≡ 1
    pub bounds : bad_bounds js target.bounds ≡ false
    pub center : bad_center js target.center ≡ false
    pub layer_ids : bad_layer_ids js target.layer_ids ≡ false
    pub feature_id : bad_feature_id js target.feature_id ≡ false
    pub zoom : is_out_of_range js (whole js 0) (whole js 24) target.zoom ≡ false

  -- So do the options.
  pub record AreOptions (input : MapCameraInput js) : Type 0 where
    pub finite_zoom : not_finite js input.zoom ≡ false
    pub finite_bearing : not_finite js input.bearing ≡ false
    pub finite_pitch : not_finite js input.pitch ≡ false
    pub finite_padding : not_finite js input.padding ≡ false
    pub pitch : out_of_pitch js input.pitch ≡ false
    pub padding : is_negative js input.padding ≡ false

  validate_camera_target-IsTarget :
      (target : MapCameraTarget js)
      → given js target.bounds target.center target.layer_ids target.feature_id ≡ 1
      → validate_camera_target js target ≡ ok tt
      → IsTarget target
  unfolding validate_camera_target
  validate_camera_target-IsTarget target one h = record {
    one_form = one;
    bounds = ground arith;
    center = ground arith;
    layer_ids = ground arith;
    feature_id = ground arith;
    zoom = ground arith;
  }

  validate_camera_options-AreOptions :
      (input : MapCameraInput js) → validate_camera_options js input ≡ ok tt → AreOptions input
  unfolding validate_camera_options
  validate_camera_options-AreOptions input h = record {
    finite_zoom = ground arith;
    finite_bearing = ground arith;
    finite_pitch = ground arith;
    finite_padding = ground arith;
    pitch = ground arith;
    padding = ground arith;
  }

  camera_parts :
      (input : MapCameraInput js)
      → assert_valid_camera_input js input ≡ ok tt
      → (target : MapCameraTarget js) × (camera_target js input ≡ ok target)
        × (given js target.bounds target.center target.layer_ids target.feature_id ≡ 1)
        × (validate_camera_target js target ≡ ok tt)
        × (validate_camera_options js input ≡ ok tt)
  unfolding assert_valid_camera_input
  camera_parts input h = elim (Result-cases (camera_target js input)) [
    | inl (target, e) ↦ (target, e, ground (arith, e), ground (arith, e), ground (arith, e))
    | inr (m, e) ↦ absurd (ground (arith, e))
  ]

  -- An input for the camera that is accepted has a target of just one form, whose bounds, center,
  -- layer ids, feature id and zoom pass their tests, and its options are finite, with a pitch
  -- within 0 to 85 and a padding that is not negative.
  pub assert_valid_camera_input-IsTarget :
      (input : MapCameraInput js)
      → assert_valid_camera_input js input ≡ ok tt
      → (target : MapCameraTarget js) × (camera_target js input ≡ ok target)
        × IsTarget target
        × AreOptions input
  assert_valid_camera_input-IsTarget input h =
      let (target, e, one, valid, options) = camera_parts input h in
      (
        target,
        e,
        validate_camera_target-IsTarget target one valid,
        validate_camera_options-AreOptions input options,
      )
