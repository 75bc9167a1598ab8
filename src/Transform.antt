-- ===== src/Transform.antt =====
-- domain/TargetTransform and domain/CameraCalibration: the checks of the camera's extrinsics and
-- intrinsics, and the transform of a target from the camera's frame into the body's.
pub mod Rigid
mod Tests
use companion_lab.Prelude.{
  ℕ, zero, suc, ◌+◌, ◌*◌, Bool, not, ◌&&◌, ◌||◌, List, [], ◌∷◌, String, all, ◌==◌,
}
use companion_lab.Prelude.Int.{pos}
use companion_lab.Prelude.Text.{str_eq}
use companion_lab.Prelude.Doubles.{Doubles}
use companion_lab.Prelude.Outcomes.{Outcome, ok, throw_if, ◌>>=◌, ◌>>◌}
use companion_lab.Tracker.{CameraFramePosition}
use companion_lab.Decision.{BodyFramePosition}

-- The nine numbers of the rotation, row by row.
pub record CameraExtrinsics (D : Type 0) : Type 0 where
  pub rotation_camera_to_body : List D
  pub camera_origin_in_body : BodyFramePosition D

pub record CameraCalibration (D : Type 0) : Type 0 where
  pub camera_model : String
  pub image_width : ℕ
  pub image_height : ℕ
  pub focus_mode : String
  pub lens_position : String
  pub fx_px : D
  pub fy_px : D
  pub cx_px : D
  pub cy_px : D
  pub distortion : List D

module _ {D : Type 0} ⦃d : Doubles D⦄ where
  -- An element of an array; the indices used are those of the array.
  abbrev pub at : List D → ℕ → D
  at [] i = d.of_decimal 0 0
  at (x ∷ xs) zero = x
  at (x ∷ xs) (suc i) = at xs i

  unfoldable pub row_dot : List D → ℕ → ℕ → D
  row_dot rotation first second =
      let product = λ (column : ℕ).
        d.mul (at rotation (first * 3 + column)) (at rotation (second * 3 + column)) in
      d.add (d.add (d.add (d.of_decimal 0 0) (product 0)) (product 1)) (product 2)

  unfoldable pub determinant : List D → D
  determinant rotation =
      let r = at rotation in
      d.add
        (d.sub (d.mul (r 0) (d.sub (d.mul (r 4) (r 8)) (d.mul (r 5) (r 7))))
          (d.mul (r 1) (d.sub (d.mul (r 3) (r 8)) (d.mul (r 5) (r 6)))))
        (d.mul (r 2) (d.sub (d.mul (r 3) (r 7)) (d.mul (r 4) (r 6))))

  -- `std::abs(value) > kRotationTolerance`.
  unfoldable pub exceeds : D → Bool
  exceeds value = d.lt (d.of_decimal 1 6) (d.abs value)

  unfoldable pub has_finite_values : CameraExtrinsics D → Bool
  has_finite_values e =
      all d.is_finite e.rotation_camera_to_body
      && (d.is_finite e.camera_origin_in_body.forward_m
          && (d.is_finite e.camera_origin_in_body.right_m
              && d.is_finite e.camera_origin_in_body.down_m))

  check_unit : List D → ℕ → Outcome (Unit {0})
  check_unit rotation row =
      throw_if (exceeds (d.sub (row_dot rotation row row) (d.of_decimal 1 0)))
        "camera rotation rows must have unit length"

  check_orthogonal : List D → ℕ → ℕ → Outcome (Unit {0})
  check_orthogonal rotation row other =
      throw_if (exceeds (row_dot rotation row other)) "camera rotation rows must be orthogonal"

  -- The two loops, unrolled in their order.
  unfoldable pub validate_camera_extrinsics : CameraExtrinsics D → Outcome (Unit {0})
  unfolding check_unit check_orthogonal
  validate_camera_extrinsics extrinsics = do
    let rotation = extrinsics.rotation_camera_to_body
    throw_if (not (has_finite_values extrinsics)) "camera extrinsics must contain finite values"
    check_unit rotation 0
    check_orthogonal rotation 0 1
    check_orthogonal rotation 0 2
    check_unit rotation 1
    check_orthogonal rotation 1 2
    check_unit rotation 2
    throw_if (exceeds (d.sub (determinant rotation) (d.of_decimal 1 0)))
        "camera rotation must be a right-handed rigid transform"

  unfoldable pub is_finite_position : CameraFramePosition D → Bool
  is_finite_position p = d.is_finite p.right_m && (d.is_finite p.down_m && d.is_finite p.forward_m)

  -- A row of the rotation times the position, added from zero on.
  unfoldable pub rotate : List D → CameraFramePosition D → ℕ → D
  rotate rotation p row =
      let r = λ (column : ℕ). at rotation (row * 3 + column) in
      d.add (d.add (d.add (d.of_decimal 0 0) (d.mul (r 0) p.right_m)) (d.mul (r 1) p.down_m))
        (d.mul (r 2) p.forward_m)

  unfoldable pub camera_to_body_frd :
      CameraFramePosition D → CameraExtrinsics D → Outcome (BodyFramePosition D)
  camera_to_body_frd camera_position extrinsics = do
    let rotation = extrinsics.rotation_camera_to_body
    validate_camera_extrinsics extrinsics
    throw_if (not (is_finite_position camera_position)) "camera target position must be finite"
    ok (record {
      forward_m =
          d.add (rotate rotation camera_position 0) extrinsics.camera_origin_in_body.forward_m;
      right_m = d.add (rotate rotation camera_position 1) extrinsics.camera_origin_in_body.right_m;
      down_m = d.add (rotate rotation camera_position 2) extrinsics.camera_origin_in_body.down_m;
    })

  -- The condition of `validate_camera_calibration`.
  unfoldable pub is_invalid : CameraCalibration D → Bool
  is_invalid c =
      let finite_intrinsics =
        d.is_finite c.fx_px
        && (d.is_finite c.fy_px && (d.is_finite c.cx_px && d.is_finite c.cy_px)) in
      let finite_distortion = all d.is_finite c.distortion in
      let zero_px = d.of_decimal 0 0 in
      (str_eq c.camera_model ""
        || (str_eq c.focus_mode ""
            || (str_eq c.lens_position ""
                || (c.image_width == 0
                    || (c.image_height == 0
                        || (not finite_intrinsics
                            || (not finite_distortion
                                || (d.le c.fx_px zero_px
                                    || (d.le c.fy_px zero_px
                                        || (d.lt c.cx_px zero_px
                                            || (d.lt c.cy_px zero_px
                                                || (d.le (d.of_int (pos c.image_width)) c.cx_px
                                                    || d.le (d.of_int (pos c.image_height))
                                                        c.cy_px))))))))))))

  unfoldable pub validate_camera_calibration : CameraCalibration D → Outcome (Unit {0})
  validate_camera_calibration calibration =
      throw_if (is_invalid calibration) "invalid camera calibration"
