-- ===== src/CommandLine/Configuration.antt =====
-- presentation/cli/CommandLine: what accepted options are.
use companion_lab.Prelude.{
  ◌<◌, ◌%◌, ◌≡◌, ◌≢◌, ◌↔◌, refl, Bool, true, false, none, [], ◌∷◌, arith, is_some,
}
use companion_lab.Prelude.Text.{Bytes, bytes}
use companion_lab.Prelude.Doubles.{Doubles}
use companion_lab.CommandLine.{
  TransportBackend, udp, serial, CameraBackend, rpicam, gstreamer, CommandLineOptions, Parsed,
  parsed, refused, refuse_if, ◌>>◌,
}
use companion_lab.CommandLine.Validate.{is_empty, bad_size}

-- P holds if the checks are passed.
abbrev pub Passes : {A : Type 0} → (A → Type 0) → Parsed A → Type 0
Passes P (parsed a) = P a
Passes P (refused text) = Unit

-- Of one check, and of one after another.
pub refuse_if-Passes :
    {A : Type 0} (P : A → Type 0) (b : Bool) (text : Bytes) (k : Parsed A)
    → (b ≡ false → Passes P k)
    → Passes P (refuse_if b text >> k)
refuse_if-Passes P true text k h = tt
refuse_if-Passes P false text k h = h refl

pub last-Passes :
    (P : Type 0) (b : Bool) (text : Bytes)
    → (b ≡ false → P)
    → Passes (λ (u : Unit {0}). P) (refuse_if b text)
last-Passes P true text h = tt
last-Passes P false text h = h refl

pub bind-Passes :
    {A : Type 0} (P : Type 0) (Q : A → Type 0) (v : Parsed (Unit {0})) (k : Parsed A)
    → Passes (λ (u : Unit {0}). P) v
    → (P → Passes Q k)
    → Passes Q (v >> k)
bind-Passes P Q (parsed u) k p h = h p
bind-Passes P Q (refused t) k p h = tt

module _ {D : Type 0} where
  -- The chosen transport is set up, and nothing is set for the other.
  abbrev pub Carries : TransportBackend → CommandLineOptions D → Type 0
  Carries udp o =
      (o.udp_bind ≢ []) × (0 < o.udp_port) × (o.serial_device ≡ []) × (o.baud_rate ≡ 115200)
  Carries serial o =
      (o.serial_device ≢ [])
      × (0 < o.baud_rate)
      × (o.sitl_mode ≡ false)
      × (o.udp_bind ≡ bytes "0.0.0.0")
      × (o.udp_port ≡ 14550)

  -- Without a camera nothing is set for it.
  pub record IsDark (o : CommandLineOptions D) : Type 0 where
    pub backend : o.camera_backend ≡ rpicam
    pub port : o.camera_udp_port ≡ 5601
    pub width : o.camera_width ≡ 640
    pub height : o.camera_height ≡ 480
    pub fps : o.camera_fps ≡ 30
    pub preview_port : o.camera_preview_port ≡ 8080
    pub apriltag : o.apriltag_enabled ≡ false
    pub preview : o.camera_preview_enabled ≡ false
    pub calibration : o.camera_calibration_file ≡ []
    pub extrinsics : o.camera_extrinsics_file ≡ []
    pub size : o.apriltag_tag_size_m ≡ none

  -- The source of a camera is set up, with nothing for the other one or for a preview that is off.
  abbrev pub Sources : CameraBackend → CommandLineOptions D → Type 0
  Sources rpicam o = (0 < o.camera_fps) × (o.camera_udp_port ≡ 5601)
  Sources gstreamer o = (0 < o.camera_udp_port) × (o.camera_fps ≡ 30)

  pub record IsFilming (o : CommandLineOptions D) : Type 0 where
    pub width : (0 < o.camera_width) × (o.camera_width % 2 ≡ 0)
    pub height : (0 < o.camera_height) × (o.camera_height % 2 ≡ 0)
    pub source : Sources o.camera_backend o
    pub previewed : o.camera_preview_enabled ≡ true → 0 < o.camera_preview_port
    pub unpreviewed : o.camera_preview_enabled ≡ false → o.camera_preview_port ≡ 8080

module _ {D : Type 0} ⦃d : Doubles D⦄ where
  -- A calibration and the size of the tag come together, with the detector and before extrinsics, which
  -- an autonomous flight has.
  pub record IsSeeing (o : CommandLineOptions D) : Type 0 where
    pub sized : (o.camera_calibration_file ≢ []) ↔ (is_some o.apriltag_tag_size_m ≡ true)
    pub detected : o.camera_calibration_file ≢ [] → o.apriltag_enabled ≡ true
    pub size : bad_size o.apriltag_tag_size_m ≡ false
    pub calibrated : o.camera_extrinsics_file ≢ [] → o.camera_calibration_file ≢ []
    pub mounted : o.autonomous ≡ true → o.camera_extrinsics_file ≢ []

  abbrev pub Watches : Bool → CommandLineOptions D → Type 0
  Watches true o = IsFilming o × IsSeeing o
  Watches false o = IsDark o

  -- Options that fit together.
  pub record IsConfiguration (o : CommandLineOptions D) : Type 0 where
    pub interval : 0 < o.snapshot_interval_ms
    pub exits : o.exit_after_autonomy ≡ true → o.autonomous ≡ true
    pub one_output : o.interactive ≡ true → o.json_output ≡ false
    pub transport : Carries o.transport o
    pub camera : Watches o.camera_enabled o

pub map-Passes :
    {A : Type 0} (P Q : A → Type 0) (v : Parsed A) → Passes P v → ((a : A) → P a → Q a) → Passes Q v
map-Passes P Q (parsed a) p f = f a p
map-Passes P Q (refused t) p f = tt

pub empty_lem : (b : Bytes) → (is_empty b ≡ true) ↔ (b ≡ [])
empty_lem [] = ground arith
empty_lem (c ∷ cs) = ground arith
