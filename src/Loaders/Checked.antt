-- ===== src/Loaders/Checked.antt =====
-- adapters/vision: what loaded extrinsics and calibrations are.
use companion_lab.Prelude.{String, ◌≡◌, Bool, true, false, arith, ◌==◌, not, ◌||◌, [], ◌∷◌}
use companion_lab.Prelude.Text.{str_eq}
use companion_lab.Prelude.Doubles.{Doubles}
use companion_lab.Prelude.Outcomes.{
  Outcome, ok, threw, fault, throw_if, ◌>>◌, Yields, Yields-bind, throw_if-Yields,
}
use companion_lab.Transform.{
  CameraExtrinsics, CameraCalibration, validate_camera_extrinsics, validate_camera_calibration,
}
use companion_lab.Transform.Rigid.{
  Judges, IsRigid, IsUsable, validate_camera_extrinsics-IsRigid,
  validate_camera_calibration-IsUsable,
}
use companion_lab.Loaders.{
  ExtrinsicsDocument, CalibrationDocument, require_quality_pass, require_supported_schema, agrees,
  names_eq, require_consistent_matrix, parse_calibration, parse_extrinsics,
}

-- A judgement that is passed.
Judges-Yields :
    {B : Type 0} (P : Type 0) (Q : B → Type 0) (v : Outcome (Unit {0})) (k : Outcome B)
    → Judges v P
    → (P → Yields Q k)
    → Yields Q (v >> k)
Judges-Yields P Q (ok u) k j h = h j
Judges-Yields P Q (threw text) k j h = tt
Judges-Yields P Q fault k j h = absurd j

two-Yields :
    (b c : Bool) (t u : String) → Yields (λ (v : Unit {0}). Unit {0}) (throw_if b t >> throw_if c u)
two-Yields true c t u = tt
two-Yields false true t u = tt
two-Yields false false t u = tt

module _ {D : Type 0} ⦃d : Doubles D⦄ where
  -- Extrinsics that are loaded are a rigid transform, and loading them is defined.
  pub parse_extrinsics-IsRigid :
      (document : ExtrinsicsDocument D) → Yields IsRigid (parse_extrinsics document)
  unfolding parse_extrinsics
  parse_extrinsics-IsRigid document =
      let extrinsics : CameraExtrinsics D = record {
        rotation_camera_to_body = document.rotation_camera_to_body;
        camera_origin_in_body = document.camera_origin_in_body_m;
      } in
      throw_if-Yields (IsRigid {D = D} ⦃d = d⦄)
        (not (document.schema_version == 1)
          || (not (str_eq document.frame_from "camera_optical")
              || not (str_eq document.frame_to "body_frd")))
        _ (validate_camera_extrinsics extrinsics >> ok extrinsics)
        λ supported.
          Judges-Yields (IsRigid extrinsics) (IsRigid {D = D} ⦃d = d⦄)
            (validate_camera_extrinsics extrinsics) (ok extrinsics)
            (validate_camera_extrinsics-IsRigid extrinsics) (λ rigid. rigid)

  -- A calibration that is loaded passed its quality gates, agrees with its matrix, and can be used.
  pub record IsLoaded (document : CalibrationDocument D) (c : CameraCalibration D) : Type 0 where
    pub passed : str_eq document.result "PASS" ≡ true
    pub viewed : document.checks.minimum_views_reached ≡ true
    pub precise : document.checks.rms_error_within_limit ≡ true
    pub even : document.checks.every_view_error_within_limit ≡ true
    pub agreed : agrees document.camera_matrix c ≡ true
    pub usable : IsUsable c

  pub parse_calibration-IsLoaded :
      (document : CalibrationDocument D) → Yields (IsLoaded document) (parse_calibration document)
  unfolding parse_calibration require_quality_pass require_supported_schema
      require_consistent_matrix
  parse_calibration-IsLoaded document =
      let c = document.values in
      Yields-bind (λ u. Unit) (IsLoaded document) (require_supported_schema document) _
        (two-Yields
          (not (document.schema_version == 1)
            || not (str_eq document.model "opencv_pinhole_brown_conrady_5"))
          (not (names_eq document.coefficient_order ("k1" ∷ "k2" ∷ "p1" ∷ "p2" ∷ "k3" ∷ []))) _ _)
        λ u supported.
          throw_if-Yields (IsLoaded document)
            (not (str_eq document.result "PASS")
              || (not document.checks.minimum_views_reached
                  || (not document.checks.rms_error_within_limit
                      || not document.checks.every_view_error_within_limit)))
            _ _
            λ passed.
              throw_if-Yields (IsLoaded document) (not (agrees document.camera_matrix c)) _ _
                λ agreed.
                  Judges-Yields (IsUsable c) (IsLoaded document) (validate_camera_calibration c)
                    (ok c) (validate_camera_calibration-IsUsable c)
                    λ usable. record {
                      passed = ground arith;
                      viewed = ground arith;
                      precise = ground arith;
                      even = ground arith;
                      agreed = ground arith;
                      usable = usable;
                    }
