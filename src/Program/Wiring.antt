-- ===== src/Program/Wiring.antt =====
-- main.cpp: what the application is constructed from.
use companion_lab.Prelude.{
  ◌≡◌, refl, Bool, true, false, not, ◌&&◌, ◌||◌, Option, none, some, arith, ◌==◌, is_some,
}
use companion_lab.Prelude.Int.{pos}
use companion_lab.Prelude.Doubles.{Doubles}
use companion_lab.Prelude.Outcomes.{
  Outcome, ok, threw, fault, defined, outside, Yields, Yields-bind, throw_if-Yields, outside-Yields,
  Yields-map, ◌>>=◌, ◌>>◌,
}
use companion_lab.Motion.{
  RuntimeEnvironment, sitl, hardware_or_unknown, MavlinkTransport, udp, serial,
  evaluate_motion_safety,
}
use companion_lab.Startup.{make as make_startup}
use companion_lab.Runtime.{make as make_runtime}
use companion_lab.Tracker.{make as make_tracker}
use companion_lab.Vision.{make as make_vision}
use companion_lab.Transform.Rigid.{IsRigid}
use companion_lab.Loaders.{parse_extrinsics, parse_calibration}
use companion_lab.Loaders.Checked.{IsLoaded, parse_extrinsics-IsRigid, parse_calibration-IsLoaded}
use companion_lab.Application.Members.{Impl}
use companion_lab.Application.Construct.{
  CompanionApplicationOptions, default_tracker, make_monitor, make,
}
use companion_lab.Application.Invariant.{RigidIfAny, Inv}
use companion_lab.Application.Consistent.{IsConsistent, Accepts, Answers, make-Answers}
use companion_lab.CommandLine.{CommandLineOptions}
use companion_lab.CommandLine.Validate.{is_empty}
use companion_lab.CommandLine.Configuration.{IsConfiguration, Watches, empty_lem}
use companion_lab.Program.{
  Setting, environment_of, transport_of, only_if, motion_safety, pose, detect, mount, prepare,
}

-- What the program's own numbers are as `double`: 8.0 is finite and positive, 0.35 finite and in
-- (0, 1], and 20.0 finite and not negative.
pub record HasDefaults {D : Type 0} (d : Doubles D) : Type 0 where
  pub finite_altitude : d.is_finite (d.of_decimal 8 0) ≡ true
  pub positive_altitude : d.le (d.of_decimal 8 0) (d.of_decimal 0 0) ≡ false
  pub finite_factor : d.is_finite (d.of_decimal 35 2) ≡ true
  pub positive_factor : d.le (d.of_decimal 35 2) (d.of_decimal 0 0) ≡ false
  pub factor_to_one : d.lt (d.of_decimal 1 0) (d.of_decimal 35 2) ≡ false
  pub finite_margin : d.is_finite (d.of_decimal 20 0) ≡ true
  pub margin_from_zero : d.lt (d.of_decimal 20 0) (d.of_decimal 0 0) ≡ false

-- A valid configuration that asks for motion may move.
valid-allowed :
    (e : RuntimeEnvironment) (t : MavlinkTransport) (requested : Bool)
    → let r = evaluate_motion_safety e t requested in
      not r.configuration_valid ≡ false → requested ≡ true → r.motion_commands_allowed ≡ true
unfolding evaluate_motion_safety
valid-allowed sitl udp requested h k = ground arith
valid-allowed sitl serial requested h k = ground arith
valid-allowed hardware_or_unknown t requested h k = ground arith

runtime-accepted :
    (D : Type 0) (enabled : Bool)
    → is_some
        (make_runtime {D = D} (record { enabled = enabled; target_loss_land_after = pos 5000 }))
      ≡ true
unfolding make_runtime
runtime-accepted D enabled = refl

only_if-Yields :
    {B : Type 0} (Q : B → Type 0) (b : Bool) (o : Option (Unit {0})) (k : Outcome B)
    → Yields Q k
    → Yields Q (only_if b (outside o) >> k)
only_if-Yields Q false o k h = h
only_if-Yields Q true none k h = tt
only_if-Yields Q true (some u) k h = h

module _ {D : Type 0} ⦃d : Doubles D⦄ where
  -- What the checks of the command line are good for here.
  pub record Fits (camera : Bool) (o : CommandLineOptions D) : Type 0 where
    mounted : o.autonomous ≡ true → camera ≡ true → not (is_empty o.camera_extrinsics_file) ≡ true
    detected : not (is_empty o.camera_extrinsics_file) ≡ true → o.apriltag_enabled ≡ true
    filmed : (o.apriltag_enabled || o.camera_preview_enabled) ≡ true → camera ≡ true
    pub sized :
        not (is_empty o.camera_calibration_file) ≡ true → is_some o.apriltag_tag_size_m ≡ true

  pub Watches-Fits : (b : Bool) (o : CommandLineOptions D) → Watches b o → Fits b o
  Watches-Fits false o w = record {
    mounted = λ a c. ground arith;
    detected = λ e. ground (arith, empty_lem o.camera_extrinsics_file, w.extrinsics);
    filmed = λ e. ground (arith, w.apriltag, w.preview);
    sized = λ e. ground (arith, empty_lem o.camera_calibration_file, w.calibration);
  }
  Watches-Fits true o w = record {
    mounted = λ a c. ground (arith, empty_lem o.camera_extrinsics_file, w.1.mounted a);
    detected =
        λ e. ground (arith, empty_lem o.camera_extrinsics_file, w.1.detected, w.1.calibrated);
    filmed = λ e. refl;
    sized = λ e. ground (arith, empty_lem o.camera_calibration_file, w.1.sized);
  }

  monitor-accepted :
      (camera detector : Bool)
      → HasDefaults d
      → is_some (make_monitor {D = D} camera detector) ≡ true
  unfolding make_monitor make_vision make_tracker default_tracker
  monitor-accepted false detector h = refl
  monitor-accepted true false h = refl
  monitor-accepted true true h = ground (
    arith, h.finite_factor, h.positive_factor, h.factor_to_one, h.finite_margin, h.margin_from_zero,
  )

  startup-accepted :
      (enabled : Bool)
      → HasDefaults d
      → is_some (make_startup (record { enabled = enabled; takeoff_altitude_m = d.of_decimal 8 0 }))
        ≡ true
  unfolding make_startup
  startup-accepted enabled h = ground (arith, h.finite_altitude, h.positive_altitude)

then-Yields :
    {B : Type 0} (Q : B → Type 0) (v : Outcome (Unit {0})) (k : Outcome B)
    → Yields (λ u. Unit {0}) v
    → Yields Q k
    → Yields Q (v >> k)
then-Yields Q v k h l = Yields-bind (λ u. Unit {0}) Q v (λ u. k) h (λ u w. l)

sized-Yields :
    {D : Type 0} (o : Option D)
    → is_some o ≡ true
    → Yields (λ (u : Unit {0}). Unit {0}) (defined o >>= λ size. ok tt)
sized-Yields none h = cc
sized-Yields (some size) h = tt

outside_unit-Yields : (o : Option (Unit {0})) → Yields (λ u. Unit {0}) (outside o)
outside_unit-Yields none = tt
outside_unit-Yields (some u) = tt

module _ {T D : Type 0} ⦃d : Doubles D⦄ where
  pose-Yields :
      (b : Bool) (o : CommandLineOptions D) (e : Setting T D)
      → (b ≡ true → is_some o.apriltag_tag_size_m ≡ true)
      → Yields (λ u. Unit {0}) (pose b o e)
  unfolding pose
  pose-Yields false o e h = tt
  pose-Yields true o e h =
      outside-Yields (λ u. Unit {0}) e.calibration _
        λ document got.
          Yields-bind (IsLoaded document) (λ u. Unit {0}) (parse_calibration document) _
            (parse_calibration-IsLoaded document)
            λ c loaded.
              throw_if-Yields (λ (u : Unit {0}). Unit {0})
                (not (c.image_width == o.camera_width) || not (c.image_height == o.camera_height)) _
                _ (λ fits. sized-Yields o.apriltag_tag_size_m (h refl))

  detect-Yields :
      (b : Bool) (o : CommandLineOptions D) (e : Setting T D)
      → (not (is_empty o.camera_calibration_file) ≡ true → is_some o.apriltag_tag_size_m ≡ true)
      → Yields (λ u. Unit {0}) (detect b o e)
  unfolding detect
  detect-Yields false o e h = tt
  detect-Yields true o e h =
      then-Yields (λ u. Unit {0}) (pose (not (is_empty o.camera_calibration_file)) o e) _
        (pose-Yields (not (is_empty o.camera_calibration_file)) o e h)
        (outside_unit-Yields e.detector)

  mount-Yields :
      (b : Bool) (e : Setting T D) → Yields (λ x. (is_some x ≡ b) × RigidIfAny x) (mount b e)
  unfolding mount
  mount-Yields false e = (refl, tt)
  mount-Yields true e =
      outside-Yields (λ x. (is_some x ≡ true) × RigidIfAny x) e.extrinsics _
        λ document got.
          Yields-bind IsRigid (λ x. (is_some x ≡ true) × RigidIfAny x) (parse_extrinsics document) _
            (parse_extrinsics-IsRigid document) (λ x rigid. (refl, rigid))

  -- The options of the application fit together, unless an autonomous flight has no camera.
  abbrev pub Wired : CommandLineOptions D → CompanionApplicationOptions D × T → Type 0
  Wired o a =
      RigidIfAny a.0.camera_extrinsics
      × (HasDefaults d → (o.autonomous ≡ true → o.camera_enabled ≡ true) → IsConsistent a.0)

  pub prepare-Wired :
      (o : CommandLineOptions D) (e : Setting T D)
      → IsConfiguration o
      → Yields (Wired o) (prepare o e)
  unfolding prepare motion_safety
  prepare-Wired o e q =
      let fits = Watches-Fits o.camera_enabled o q.camera in
      let safety =
        evaluate_motion_safety (environment_of o.sitl_mode) (transport_of o.transport)
          (o.autonomous || o.interactive) in
      only_if-Yields (Wired o) (not o.json_output) e.board_types _ (
        throw_if-Yields (Wired o) (not safety.configuration_valid) _ _ λ valid.
          throw_if-Yields (Wired o) (o.interactive && not (not o.json_output && e.terminal)) _ _
            λ live. outside-Yields (Wired o) e.transport _ λ transport opened.
              only_if-Yields (Wired o) o.camera_enabled e.camera_source _ (
                then-Yields (Wired o) (detect o.apriltag_enabled o e) _
                  (detect-Yields o.apriltag_enabled o e fits.sized)
                  (Yields-bind
                    (λ x. (is_some x ≡ not (is_empty o.camera_extrinsics_file)) × RigidIfAny x)
                    (Wired o) (mount (not (is_empty o.camera_extrinsics_file)) e) _
                    (mount-Yields (not (is_empty o.camera_extrinsics_file)) e)
                    λ x m. only_if-Yields (Wired o) o.camera_preview_enabled e.preview _ (
                      m.1,
                      λ h with_camera. record {
                        startup = startup-accepted o.autonomous h;
                        runtime = runtime-accepted D o.autonomous;
                        tracker = monitor-accepted o.camera_enabled o.apriltag_enabled h;
                        together = refl;
                        permitted = λ a.
                            valid-allowed (environment_of o.sitl_mode) (transport_of o.transport)
                              (o.autonomous || o.interactive) valid (ground arith);
                        guided = λ a. ground (arith, m.0, fits.mounted a (with_camera a));
                        detected = λ i. fits.detected (ground (arith, m.0));
                        filmed = fits.filmed;
                      },
                    ))))

-- The application is made, with its invariant.
abbrev pub Constructed : {T P D : Type 0} ⦃d : Doubles D⦄ → Outcome (Impl T P D) → Type 0
Constructed (ok s) = Inv s
Constructed (threw text) = ⊥
Constructed fault = ⊥

module _ {T P D : Type 0} ⦃d : Doubles D⦄ where
  consistent-Constructed :
      (a : CompanionApplicationOptions D) (u : Outcome (Impl T P D))
      → Answers (Accepts a) (IsConsistent a) u
      → IsConsistent a
      → Constructed u
  consistent-Constructed a (ok s) h q = h.0
  consistent-Constructed a (threw text) h q = absurd (h q)
  consistent-Constructed a fault h q = h

  -- Getting as far as the constructor is defined, and the constructor refuses nothing there.
  pub prepare-Yields :
      (o : CommandLineOptions D) (e : Setting T D) (parser : P)
      → HasDefaults d
      → IsConfiguration o
      → (o.autonomous ≡ true → o.camera_enabled ≡ true)
      → Yields (λ a. Constructed (make a.0 a.1 parser)) (prepare o e)
  prepare-Yields o e parser h q with_camera =
      Yields-map (Wired o) _ (prepare o e) (prepare-Wired o e q) (λ a w.
        consistent-Constructed a.0 (make a.0 a.1 parser) (make-Answers a.0 a.1 parser w.0)
          (w.1 h with_camera))
