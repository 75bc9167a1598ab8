-- ===== src/Loaders.antt =====
-- adapters/vision: CameraExtrinsicsLoader and CameraCalibrationLoader, from the values that the JSON
-- library reads. A document in which a value is missing or of another type is an exception of that
-- library, and no document here.
pub mod Checked
use companion_lab.Prelude.{ℕ, Bool, true, false, not, ◌&&◌, ◌||◌, List, [], ◌∷◌, String, ◌==◌}
use companion_lab.Prelude.Text.{str_eq}
use companion_lab.Prelude.Doubles.{Doubles}
use companion_lab.Prelude.Outcomes.{Outcome, ok, throw_if, ◌>>=◌, ◌>>◌}
use companion_lab.Decision.{BodyFramePosition}
use companion_lab.Transform.{
  CameraExtrinsics, CameraCalibration, at, validate_camera_extrinsics, validate_camera_calibration,
}

-- The nine numbers of the rotation are read row by row.
pub record ExtrinsicsDocument (D : Type 0) : Type 0 where
  pub schema_version : ℕ
  pub frame_from : String
  pub frame_to : String
  pub rotation_camera_to_body : List D
  pub camera_origin_in_body_m : BodyFramePosition D

-- `quality.checks`.
pub record QualityChecks : Type 0 where
  pub minimum_views_reached : Bool
  pub rms_error_within_limit : Bool
  pub every_view_error_within_limit : Bool

pub record CalibrationDocument (D : Type 0) : Type 0 where
  pub schema_version : ℕ
  pub model : String
  pub coefficient_order : List String
  pub result : String
  pub checks : QualityChecks
  pub camera_matrix : List D
  pub values : CameraCalibration D

-- `==` of arrays of texts.
abbrev pub names_eq : List String → List String → Bool
names_eq [] [] = true
names_eq (x ∷ xs) (y ∷ ys) = str_eq x y && names_eq xs ys
names_eq _ _ = false

module _ {D : Type 0} where
  unfoldable pub require_quality_pass : CalibrationDocument D → Outcome (Unit {0})
  require_quality_pass document =
      throw_if
        (not (str_eq document.result "PASS")
          || (not document.checks.minimum_views_reached
              || (not document.checks.rms_error_within_limit
                  || not document.checks.every_view_error_within_limit)))
        "camera calibration did not pass its quality gates"

  unfoldable pub require_supported_schema : CalibrationDocument D → Outcome (Unit {0})
  require_supported_schema document = do
    throw_if
        (not (document.schema_version == 1)
          || not (str_eq document.model "opencv_pinhole_brown_conrady_5"))
        "unsupported camera calibration schema or model"
    throw_if (not (names_eq document.coefficient_order ("k1" ∷ "k2" ∷ "p1" ∷ "p2" ∷ "k3" ∷ [])))
        "unsupported camera distortion coefficient order"

module _ {D : Type 0} ⦃d : Doubles D⦄ where
  -- Not further apart than `kMatrixTolerance`.
  unfoldable pub close : D → D → Bool
  close left right = d.le (d.abs (d.sub left right)) (d.of_decimal 1 9)

  -- The matrix is that of the focal lengths and the principal point.
  unfoldable pub agrees : List D → CameraCalibration D → Bool
  agrees matrix c =
      let m = at matrix in
      let zero_px = d.of_decimal 0 0 in
      close (m 0) c.fx_px
      && (close (m 4) c.fy_px
          && (close (m 2) c.cx_px
              && (close (m 5) c.cy_px
                  && (close (m 1) zero_px
                      && (close (m 3) zero_px
                          && (close (m 6) zero_px
                              && (close (m 7) zero_px && close (m 8) (d.of_decimal 1 0))))))))

  unfoldable pub require_consistent_matrix : List D → CameraCalibration D → Outcome (Unit {0})
  require_consistent_matrix matrix calibration =
      throw_if (not (agrees matrix calibration)) "camera matrix disagrees with scalar intrinsics"

  unfoldable pub parse_calibration : CalibrationDocument D → Outcome (CameraCalibration D)
  parse_calibration document = do
    require_supported_schema document
    require_quality_pass document
    require_consistent_matrix document.camera_matrix document.values
    validate_camera_calibration document.values
    ok document.values

  unfoldable pub parse_extrinsics : ExtrinsicsDocument D → Outcome (CameraExtrinsics D)
  parse_extrinsics document = do
    throw_if
        (not (document.schema_version == 1)
          || (not (str_eq document.frame_from "camera_optical")
              || not (str_eq document.frame_to "body_frd")))
        "unsupported camera extrinsics schema or coordinate frames"
    let extrinsics : CameraExtrinsics D = record {
      rotation_camera_to_body = document.rotation_camera_to_body;
      camera_origin_in_body = document.camera_origin_in_body_m;
    }
    validate_camera_extrinsics extrinsics
    ok extrinsics
