-- ===== src/Transform/Rigid.antt =====
-- domain/TargetTransform: which extrinsics and positions are accepted, and where a target is then.
use companion_lab.Prelude.{◌<◌, ◌≡◌, ◌≢◌, all, refl, sym, String, Bool, true, false, not, arith}
use mathlib.Core.Bool.{false≢true}
use companion_lab.Prelude.Int.{pos}
use companion_lab.Prelude.Text.{str_eq}
use companion_lab.Prelude.Doubles.{Doubles}
use companion_lab.Prelude.Outcomes.{Outcome, ok, threw, fault, throw_if, ◌>>◌}
use companion_lab.Tracker.{CameraFramePosition}
use companion_lab.Transform.{
  at, CameraExtrinsics, row_dot, determinant, exceeds, has_finite_values, is_finite_position,
  rotate, validate_camera_extrinsics, camera_to_body_frd, CameraCalibration, is_invalid,
  validate_camera_calibration,
}

not-false : (b : Bool) → not b ≡ false → b ≡ true
not-false b h = ground arith

-- Passed exactly if `P` holds, refused otherwise.
abbrev pub Judges : Outcome (Unit {0}) → Type 0 → Type 0
Judges (ok u) P = P
Judges (threw t) P = ¬ P
Judges fault P = ⊥

throw_if-Judges :
    (b : Bool) (text : String) (P : Type 0)
    → (P → b ≡ false)
    → (b ≡ false → P)
    → Judges (throw_if b text) P
throw_if-Judges true text P refuses passes = λ h. absurd (false≢true (sym (refuses h)))
throw_if-Judges false text P refuses passes = passes refl

>>-Judges :
    (b : Bool) (text : String) (k : Outcome (Unit {0})) (P : Type 0)
    → (P → b ≡ false)
    → (b ≡ false → Judges k P)
    → Judges (throw_if b text >> k) P
>>-Judges true text k P refuses passes = λ h. absurd (false≢true (sym (refuses h)))
>>-Judges false text k P refuses passes = passes refl

Judges-defined : (v : Outcome (Unit {0})) (P : Type 0) → Judges v P → v ≢ fault
Judges-defined (ok u) P j h = cc
Judges-defined (threw t) P j h = cc
Judges-defined fault P j h = j

Judges-ok : (v : Outcome (Unit {0})) (P : Type 0) → Judges v P → P → v ≡ ok tt
Judges-ok (ok u) P j h = refl
Judges-ok (threw t) P j h = absurd (j h)
Judges-ok fault P j h = elim j [ ]

ok-defined {ℓ} : {B : Type ℓ} (b : B) → ok b ≢ fault
ok-defined b h = cc

>>-defined {ℓ} :
    {B : Type ℓ} (v : Outcome (Unit {0})) (k : Outcome B) → v ≢ fault → k ≢ fault → (v >> k) ≢ fault
>>-defined (ok u) k a b = b
>>-defined (threw t) k a b = λ h. cc
>>-defined fault k a b = absurd (a refl)

throw_if-defined : (b : Bool) (text : String) → throw_if b text ≢ fault
throw_if-defined true text h = cc
throw_if-defined false text h = cc

module _ {D : Type 0} ⦃d : Doubles D⦄ where
  -- At most a millionth from zero, and from one.
  abbrev IsNearZero : D → Type 0
  IsNearZero x = d.lt (d.of_decimal 1 6) (d.abs x) ≡ false

  abbrev IsNearOne : D → Type 0
  IsNearOne x = IsNearZero (d.sub x (d.of_decimal 1 0))

  -- The product of two rows, summed from the left.
  abbrev product : D → D → D → D → D → D → D
  product a b c x y z = d.add (d.add (d.add (d.of_decimal 0 0) (d.mul a x)) (d.mul b y)) (d.mul c z)

  -- `a (e i - f h) - b (d i - f g) + c (d h - e g)` for the rows `a b c`, `d e f` and `g h i`, whose
  -- `d` and `e` are called `k` and `l` here.
  abbrev expansion : D → D → D → D → D → D → D → D → D → D
  expansion a b c k l f g h i =
      let minor = λ (p q s t : D). d.sub (d.mul p t) (d.mul q s) in
      d.add (d.sub (d.mul a (minor l f h i)) (d.mul b (minor k f g i))) (d.mul c (minor k l g h))

  -- The rotation is rigid, up to the tolerance: its rows are of unit length and orthogonal to each
  -- other, and it is right-handed. The numbers of the rotation and of the origin are finite.
  pub record IsRigid (e : CameraExtrinsics D) : Type 0 where
    pub finite_rotation : all d.is_finite e.rotation_camera_to_body ≡ true
    pub finite_forward : d.is_finite e.camera_origin_in_body.forward_m ≡ true
    pub finite_right : d.is_finite e.camera_origin_in_body.right_m ≡ true
    pub finite_down : d.is_finite e.camera_origin_in_body.down_m ≡ true
    pub unit_0 :
        let r = at e.rotation_camera_to_body in
        IsNearOne (product (r 0) (r 1) (r 2) (r 0) (r 1) (r 2))
    pub unit_1 :
        let r = at e.rotation_camera_to_body in
        IsNearOne (product (r 3) (r 4) (r 5) (r 3) (r 4) (r 5))
    pub unit_2 :
        let r = at e.rotation_camera_to_body in
        IsNearOne (product (r 6) (r 7) (r 8) (r 6) (r 7) (r 8))
    pub orthogonal_01 :
        let r = at e.rotation_camera_to_body in
        IsNearZero (product (r 0) (r 1) (r 2) (r 3) (r 4) (r 5))
    pub orthogonal_02 :
        let r = at e.rotation_camera_to_body in
        IsNearZero (product (r 0) (r 1) (r 2) (r 6) (r 7) (r 8))
    pub orthogonal_12 :
        let r = at e.rotation_camera_to_body in
        IsNearZero (product (r 3) (r 4) (r 5) (r 6) (r 7) (r 8))
    pub right_handed :
        let r = at e.rotation_camera_to_body in
        IsNearOne (expansion (r 0) (r 1) (r 2) (r 3) (r 4) (r 5) (r 6) (r 7) (r 8))

  not_finite-false : (e : CameraExtrinsics D) → IsRigid e → not (has_finite_values e) ≡ false
  unfolding has_finite_values
  not_finite-false e h =
      ground (arith, h.finite_rotation, h.finite_forward, h.finite_right, h.finite_down)

  finite_numbers :
      (e : CameraExtrinsics D)
      → not (has_finite_values e) ≡ false
      → (all d.is_finite e.rotation_camera_to_body ≡ true)
        × (d.is_finite e.camera_origin_in_body.forward_m ≡ true)
        × (d.is_finite e.camera_origin_in_body.right_m ≡ true)
        × (d.is_finite e.camera_origin_in_body.down_m ≡ true)
  unfolding has_finite_values
  finite_numbers e h = ground arith

  -- Extrinsics pass exactly if every number of the rotation and of the origin is finite, the three
  -- rows of the rotation have the square length one and the product zero with each other, and its
  -- determinant is one, each up to a millionth. Otherwise they are refused by an exception.
  pub validate_camera_extrinsics-IsRigid :
      (e : CameraExtrinsics D) → Judges (validate_camera_extrinsics e) (IsRigid e)
  unfolding validate_camera_extrinsics exceeds row_dot determinant
  validate_camera_extrinsics-IsRigid e = >>-Judges _ _ _ _ (not_finite-false e) λ finite.
      >>-Judges _ _ _ _ (λ (h : IsRigid e). h.unit_0)
        λ unit_0.
          >>-Judges _ _ _ _ (λ (h : IsRigid e). h.orthogonal_01)
            λ apart_01.
              >>-Judges _ _ _ _ (λ (h : IsRigid e). h.orthogonal_02)
                λ apart_02.
                  >>-Judges _ _ _ _ (λ (h : IsRigid e). h.unit_1)
                    λ unit_1.
                      >>-Judges _ _ _ _ (λ (h : IsRigid e). h.orthogonal_12)
                        λ apart_12.
                          >>-Judges _ _ _ _ (λ (h : IsRigid e). h.unit_2)
                            λ unit_2.
                              throw_if-Judges _ _ _ (λ (h : IsRigid e). h.right_handed)
                                λ right_handed.
                                  let numbers = finite_numbers e finite in
                                  record {
                                    finite_rotation = numbers.0;
                                    finite_forward = numbers.1;
                                    finite_right = numbers.2;
                                    finite_down = numbers.3;
                                    unit_0 = unit_0;
                                    unit_1 = unit_1;
                                    unit_2 = unit_2;
                                    orthogonal_01 = apart_01;
                                    orthogonal_02 = apart_02;
                                    orthogonal_12 = apart_12;
                                    right_handed = right_handed;
                                  }

  -- A calibration that can be used: the camera, its focus mode and its lens position have names, the
  -- image has an area, all numbers are finite, the focal lengths are positive, and the principal point
  -- lies in the image.
  pub record IsUsable (c : CameraCalibration D) : Type 0 where
    pub model_named : str_eq c.camera_model "" ≡ false
    pub focus_named : str_eq c.focus_mode "" ≡ false
    pub lens_named : str_eq c.lens_position "" ≡ false
    pub wide : 0 < c.image_width
    pub high : 0 < c.image_height
    pub finite_fx : d.is_finite c.fx_px ≡ true
    pub finite_fy : d.is_finite c.fy_px ≡ true
    pub finite_cx : d.is_finite c.cx_px ≡ true
    pub finite_cy : d.is_finite c.cy_px ≡ true
    pub finite_distortion : all d.is_finite c.distortion ≡ true
    pub positive_fx : d.le c.fx_px (d.of_decimal 0 0) ≡ false
    pub positive_fy : d.le c.fy_px (d.of_decimal 0 0) ≡ false
    pub right_of_left : d.lt c.cx_px (d.of_decimal 0 0) ≡ false
    pub below_top : d.lt c.cy_px (d.of_decimal 0 0) ≡ false
    pub left_of_right : d.le (d.of_int (pos c.image_width)) c.cx_px ≡ false
    pub above_bottom : d.le (d.of_int (pos c.image_height)) c.cy_px ≡ false

  IsUsable-is_invalid : (c : CameraCalibration D) → IsUsable c → is_invalid c ≡ false
  unfolding is_invalid
  IsUsable-is_invalid c h = ground arith

  is_invalid-IsUsable : (c : CameraCalibration D) → is_invalid c ≡ false → IsUsable c
  unfolding is_invalid
  is_invalid-IsUsable c h = ground arith

  -- A calibration is refused exactly if it cannot be used.
  pub validate_camera_calibration-IsUsable :
      (c : CameraCalibration D) → Judges (validate_camera_calibration c) (IsUsable c)
  unfolding validate_camera_calibration
  validate_camera_calibration-IsUsable c =
      throw_if-Judges (is_invalid c) _ _ (λ (h : IsUsable c). IsUsable-is_invalid c h)
        (is_invalid-IsUsable c)

  -- Moving a target is defined: an exception at worst.
  pub camera_to_body_frd-defined :
      (p : CameraFramePosition D) (e : CameraExtrinsics D) → camera_to_body_frd p e ≢ fault
  unfolding camera_to_body_frd
  camera_to_body_frd-defined p e =
      >>-defined _ _ (Judges-defined _ (IsRigid e) (validate_camera_extrinsics-IsRigid e))
        (>>-defined _ _ (throw_if-defined _ _) (ok-defined _))

  -- By rigid extrinsics a target is moved exactly if its position is finite.
  pub camera_to_body_frd-rigid :
      (p : CameraFramePosition D) (e : CameraExtrinsics D)
      → IsRigid e
      → camera_to_body_frd p e ≡ (
          throw_if (not (is_finite_position p)) "camera target position must be finite"
          >> ok (record {
            forward_m =
                d.add (rotate e.rotation_camera_to_body p 0) e.camera_origin_in_body.forward_m;
            right_m = d.add (rotate e.rotation_camera_to_body p 1) e.camera_origin_in_body.right_m;
            down_m = d.add (rotate e.rotation_camera_to_body p 2) e.camera_origin_in_body.down_m;
          }))
  unfolding camera_to_body_frd
  camera_to_body_frd-rigid p e h = rw (
      Judges-ok (validate_camera_extrinsics e) (IsRigid e) (validate_camera_extrinsics-IsRigid e) h)
