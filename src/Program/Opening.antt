-- ===== src/Program/Opening.antt =====
-- main.cpp: when the program gets as far as its loop.
use companion_lab.Prelude.{
  ℕ, ◌≡◌, refl, ◌≢◌, ◌||◌, ◌&&◌, Bool, true, false, not, Option, none, some, [], arith, is_some,
  ◌==◌,
}
use companion_lab.Prelude.Doubles.{Doubles}
use companion_lab.Prelude.Outcomes.{
  Outcome, ok, threw, fault, outside, defined, throw_if, Yields, ◌>>=◌, ◌>>◌,
}
use companion_lab.Motion.{evaluate_motion_safety}
use companion_lab.Transform.{CameraCalibration, CameraExtrinsics}
use companion_lab.Loaders.{
  ExtrinsicsDocument, CalibrationDocument, parse_extrinsics, parse_calibration,
}
use companion_lab.Application.Construct.{make}
use companion_lab.CommandLine.{TransportBackend, udp, serial, CommandLineOptions}
use companion_lab.CommandLine.Validate.{is_empty}
use companion_lab.CommandLine.Configuration.{IsConfiguration, Carries, empty_lem}
use companion_lab.Program.{
  Setting, environment_of, transport_of, only_if, motion_safety, pose, detect, mount, prepare,
}
use companion_lab.Program.Wiring.{HasDefaults, Constructed, Watches-Fits, prepare-Yields}

module _ {T D : Type 0} ⦃d : Doubles D⦄ where
  -- All that these options ask for is there: what is opened opens, and what is read is a calibration
  -- for this resolution and the mount of a camera that the loaders accept.
  pub record Opens (o : CommandLineOptions D) (e : Setting T D) : Type 0 where
    pub board_types : o.json_output ≡ false → is_some e.board_types ≡ true
    pub terminal : o.interactive ≡ true → e.terminal ≡ true
    pub transport : (t : T) × (e.transport ≡ some t)
    pub camera_source : o.camera_enabled ≡ true → is_some e.camera_source ≡ true
    pub calibration :
        o.camera_calibration_file ≢ []
        → (document : CalibrationDocument D) × (c : CameraCalibration D) × (e.calibration
            ≡ some document)
          × (parse_calibration document ≡ ok c)
          × (c.image_width ≡ o.camera_width)
          × (c.image_height ≡ o.camera_height)
    pub detector : o.apriltag_enabled ≡ true → is_some e.detector ≡ true
    pub extrinsics :
        o.camera_extrinsics_file ≢ []
        → (document : ExtrinsicsDocument D) × (x : CameraExtrinsics D) × (e.extrinsics
            ≡ some document)
          × (parse_extrinsics document ≡ ok x)
    pub preview : o.camera_preview_enabled ≡ true → is_some e.preview ≡ true

-- A value, for which P holds.
abbrev pub Succeeds : {A : Type 0} → (A → Type 0) → Outcome A → Type 0
Succeeds P (ok a) = P a
Succeeds P (threw text) = ⊥
Succeeds P fault = ⊥

Yields-Succeeds :
    {A : Type 0} (P : A → Type 0) (u : Outcome A)
    → Yields P u
    → Succeeds (λ a. Unit {0}) u
    → Succeeds P u
Yields-Succeeds P (ok a) h k = h
Yields-Succeeds P (threw text) h k = k
Yields-Succeeds P fault h k = k

opened : (o : Option (Unit {0})) → is_some o ≡ true → outside o ≡ ok tt
opened none h = cc
opened (some tt) h = refl

only_if-ok :
    (b : Bool) (o : Option (Unit {0}))
    → (b ≡ true → is_some o ≡ true)
    → only_if b (outside o) ≡ ok tt
only_if-ok false o h = refl
only_if-ok true o h = opened o (h refl)

same_size : (n : ℕ) → (n == n) ≡ true
same_size n = ground arith

fitting :
    {D : Type 0} (width height : ℕ) (size : Option D)
    → is_some size ≡ true
    → (throw_if
          (not (width == width) || not (height == height))
          "camera runtime resolution does not match calibration"
        >> (defined size >>= λ s. ok (tt {0})))
      ≡ ok tt
fitting width height none h = cc
fitting width height (some s) h = rw (same_size width, same_size height) refl

-- A configuration that simulates whenever it asks for motion is valid.
motion-valid :
    {D : Type 0} (t : TransportBackend) (sitl requested : Bool) (o : CommandLineOptions D)
    → o.sitl_mode ≡ sitl
    → Carries t o
    → (requested ≡ true → sitl ≡ true)
    → (evaluate_motion_safety (environment_of sitl) (transport_of t) requested).configuration_valid
      ≡ true
unfolding evaluate_motion_safety
motion-valid udp true requested o e c h = ground arith
motion-valid udp false requested o e c h = ground arith
motion-valid serial true requested o e c h = ground (arith, c.2)
motion-valid serial false requested o e c h = ground arith

live :
    (interactive json terminal : Bool)
    → (interactive ≡ true → json ≡ false)
    → (interactive ≡ true → terminal ≡ true)
    → (interactive && not (not json && terminal)) ≡ false
live interactive json terminal h k = ground arith

module _ {T D : Type 0} ⦃d : Doubles D⦄ where
  pose-ok :
      (b : Bool) (o : CommandLineOptions D) (e : Setting T D)
      → b ≡ not (is_empty o.camera_calibration_file)
      → (not (is_empty o.camera_calibration_file) ≡ true → is_some o.apriltag_tag_size_m ≡ true)
      → Opens o e
      → pose b o e ≡ ok tt
  unfolding pose
  pose-ok false o e h sized w = refl
  pose-ok true o e h sized w =
      let (document, c, read, loaded, wide, high) =
        w.calibration (ground (arith, empty_lem o.camera_calibration_file)) in
      rw (read, loaded, wide, high)
        (fitting o.camera_width o.camera_height o.apriltag_tag_size_m (ground (arith, sized)))

  detect-ok :
      (b : Bool) (o : CommandLineOptions D) (e : Setting T D)
      → b ≡ o.apriltag_enabled
      → (not (is_empty o.camera_calibration_file) ≡ true → is_some o.apriltag_tag_size_m ≡ true)
      → Opens o e
      → detect b o e ≡ ok tt
  unfolding detect
  detect-ok false o e h sized w = refl
  detect-ok true o e h sized w =
      rw
        (
          pose-ok (not (is_empty o.camera_calibration_file)) o e refl sized w,
          opened e.detector (ground (arith, w.detector)),
        )
        refl

  mount-ok :
      (b : Bool) (o : CommandLineOptions D) (e : Setting T D)
      → b ≡ not (is_empty o.camera_extrinsics_file)
      → Opens o e
      → (x : Option (CameraExtrinsics D)) × (mount b e ≡ ok x)
  unfolding mount
  mount-ok false o e h w = (none, refl)
  mount-ok true o e h w =
      let (document, x, read, loaded) =
        w.extrinsics (ground (arith, empty_lem o.camera_extrinsics_file)) in
      (some x, rw (read, loaded) refl)

  prepare-ok :
      (o : CommandLineOptions D) (e : Setting T D)
      → IsConfiguration o
      → (o.autonomous || o.interactive ≡ true → o.sitl_mode ≡ true)
      → Opens o e
      → Succeeds (λ a. Unit {0}) (prepare o e)
  unfolding prepare motion_safety
  prepare-ok o e q simulates w =
      let fits = Watches-Fits o.camera_enabled o q.camera in
      let (t, linked) = w.transport in
      let (x, mounted) = mount-ok (not (is_empty o.camera_extrinsics_file)) o e refl w in
      rw
        (
          only_if-ok (not o.json_output) e.board_types (λ h. w.board_types (ground arith)),
          motion-valid o.transport o.sitl_mode (o.autonomous || o.interactive) o refl q.transport
              simulates,
          live o.interactive o.json_output e.terminal q.one_output w.terminal,
          only_if-ok o.camera_enabled e.camera_source w.camera_source,
          detect-ok o.apriltag_enabled o e refl fits.sized w,
          mounted,
          only_if-ok o.camera_preview_enabled e.preview w.preview,
          linked,
        )
        tt

module _ {T P D : Type 0} ⦃d : Doubles D⦄ where
  -- If 8.0, 0.35 and 20.0 are what they seem, the command line accepts the options, an autonomous
  -- flight has a camera, a flight that is autonomous or interactive is simulated by `--sitl`, and all
  -- that the options ask for opens and loads, then the program gets as far as the constructor of the
  -- application, and the constructor makes it, in a well-formed state.
  pub prepare-Constructed :
      (o : CommandLineOptions D) (e : Setting T D) (parser : P)
      → HasDefaults d
      → IsConfiguration o
      → (o.autonomous ≡ true → o.camera_enabled ≡ true)
      → (o.autonomous || o.interactive ≡ true → o.sitl_mode ≡ true)
      → Opens o e
      → Succeeds (λ a. Constructed (make a.0 a.1 parser)) (prepare o e)
  prepare-Constructed o e parser h q with_camera simulates w =
      Yields-Succeeds _ (prepare o e) (prepare-Yields o e parser h q with_camera)
        (prepare-ok o e q simulates w)
