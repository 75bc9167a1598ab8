-- ===== src/Transform/Tests.antt =====
-- domain/TargetTransform and domain/CameraCalibration: the theorems at concrete inputs.
use companion_lab.Prelude.{ℕ, [], ◌∷◌, ◌≡◌, refl}
use companion_lab.Examples.{thousandths, ahead}
use companion_lab.Prelude.Outcomes.{ok}
use companion_lab.Transform.{
  CameraCalibration, validate_camera_extrinsics, camera_to_body_frd, validate_camera_calibration,
  is_invalid, row_dot, determinant, exceeds, has_finite_values, is_finite_position, rotate,
}
use companion_lab.Transform.Rigid.{Judges, IsRigid, validate_camera_extrinsics-IsRigid}

validate_camera_extrinsics-IsRigid_example :
    Judges (validate_camera_extrinsics ahead) (IsRigid ahead)
validate_camera_extrinsics-IsRigid_example = validate_camera_extrinsics-IsRigid ahead

abbrev wide_angle : CameraCalibration ℕ
wide_angle = record {
  camera_model = "imx708_wide";
  image_width = 640;
  image_height = 480;
  focus_mode = "manual";
  lens_position = "0.5";
  fx_px = 350000;
  fy_px = 350000;
  cx_px = 320000;
  cy_px = 240000;
  distortion = 0 ∷ 10 ∷ [];
}

-- Both are accepted, and a target is moved by the offset.
both_accepted :
    (validate_camera_extrinsics ahead ≡ ok tt)
    × (validate_camera_calibration wide_angle ≡ ok tt)
    × (camera_to_body_frd (record { right_m = 1; down_m = 2; forward_m = 3 }) ahead
        ≡ ok (record { forward_m = 101; right_m = 2; down_m = 3 }))
unfolding validate_camera_extrinsics validate_camera_calibration is_invalid camera_to_body_frd
    row_dot determinant exceeds has_finite_values is_finite_position rotate
both_accepted = (refl, refl, refl)
