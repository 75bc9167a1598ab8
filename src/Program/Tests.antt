-- ===== src/Program/Tests.antt =====
-- main.cpp: the theorems at concrete inputs.
use companion_lab.Prelude.{ℕ, ◌≡◌, refl, true, false, none, some, List, [], ◌∷◌, arith, Option}
use companion_lab.Prelude.Time.{seconds}
use companion_lab.Prelude.Text.{Bytes, bytes}
use companion_lab.Prelude.Outcomes.{ok}
use companion_lab.Examples.{
  dialect, thousandths, thousandth_casts, one_byte, messages, ahead, port, around,
}
use companion_lab.Application.Construct.{make}
use companion_lab.CommandLine.{CommandLineOptions, defaults}
use companion_lab.CommandLine.Configuration.{IsConfiguration}
use companion_lab.CommandLine.Parse.{parse_command_line}
use companion_lab.Program.{Setting, Turn, prepare, main}
use companion_lab.Program.Wiring.{HasDefaults, Constructed}
use companion_lab.Program.Opening.{Opens, Succeeds, prepare-Constructed}
use companion_lab.Loaders.{
  CalibrationDocument, ExtrinsicsDocument, parse_calibration, parse_extrinsics,
  require_supported_schema, require_quality_pass, require_consistent_matrix, agrees, close,
}
use companion_lab.Transform.{
  CameraCalibration, CameraExtrinsics, validate_camera_calibration, is_invalid,
  validate_camera_extrinsics, row_dot, determinant, exceeds, has_finite_values,
}
use companion_lab.Program.Loop.{Returns, main-Returns}

-- A terminal, a link, and a camera with its two documents.
abbrev setting : Setting ℕ ℕ
setting = record {
  terminal = true;
  board_types = some tt;
  transport = some 0;
  camera_source = some tt;
  calibration = some (record {
    schema_version = 1;
    model = "opencv_pinhole_brown_conrady_5";
    coefficient_order = "k1" ∷ "k2" ∷ "p1" ∷ "p2" ∷ "k3" ∷ [];
    result = "PASS";
    checks = record {
      minimum_views_reached = true;
      rms_error_within_limit = true;
      every_view_error_within_limit = true;
    };
    camera_matrix = 350000 ∷ 0 ∷ 320000 ∷ 0 ∷ 350000 ∷ 240000 ∷ 0 ∷ 0 ∷ 1000 ∷ [];
    values = record {
      camera_model = "imx708_wide";
      image_width = 640;
      image_height = 480;
      focus_mode = "manual";
      lens_position = "0.5";
      fx_px = 350000;
      fy_px = 350000;
      cx_px = 320000;
      cy_px = 240000;
      distortion = 0 ∷ 0 ∷ 0 ∷ 0 ∷ 0 ∷ [];
    };
  });
  detector = some tt;
  extrinsics = some (record {
    schema_version = 1;
    frame_from = "camera_optical";
    frame_to = "body_frd";
    rotation_camera_to_body = ahead.rotation_camera_to_body;
    camera_origin_in_body_m = ahead.camera_origin_in_body;
  });
  preview = none;
}

-- `--sitl --autonomous --camera --apriltag` with the two documents and a tag of 16 cm.
abbrev autonomous : CommandLineOptions ℕ
autonomous = record defaults.options {
  camera_enabled = true;
  apriltag_enabled = true;
  camera_calibration_file = bytes "camera.json";
  camera_extrinsics_file = bytes "mount.json";
  apriltag_tag_size_m = some 160;
  sitl_mode = true;
  autonomous = true;
}

thousandths-HasDefaults : HasDefaults thousandths
thousandths-HasDefaults = record {
  finite_altitude = refl;
  positive_altitude = refl;
  finite_factor = refl;
  positive_factor = refl;
  factor_to_one = refl;
  finite_margin = refl;
  margin_from_zero = refl;
}

autonomous-IsConfiguration : IsConfiguration autonomous
unfolding defaults
autonomous-IsConfiguration = record {
  interval = omega arith;
  exits = λ e. refl;
  one_output = λ e. refl;
  transport = (λ e. cc, omega arith, refl, refl);
  camera = (
    record {
      width = (omega arith, refl);
      height = (omega arith, refl);
      source = (omega arith, refl);
      previewed = λ e. omega arith;
      unpreviewed = λ e. refl;
    },
    record {
      sized = ground arith;
      detected = λ h. refl;
      size = refl;
      calibrated = λ h e. cc;
      mounted = λ h e. cc;
    },
  );
}

-- The two documents load.
autonomous-calibration :
    (document : CalibrationDocument ℕ) × (c : CameraCalibration ℕ) × (setting.calibration
      ≡ some document)
    × (parse_calibration document ≡ ok c)
    × (c.image_width ≡ 640)
    × (c.image_height ≡ 480)
unfolding parse_calibration require_supported_schema require_quality_pass require_consistent_matrix
    agrees close validate_camera_calibration is_invalid
autonomous-calibration = (_, _, refl, refl, refl, refl)

autonomous-extrinsics :
    (document : ExtrinsicsDocument ℕ) × (x : CameraExtrinsics ℕ) × (setting.extrinsics
      ≡ some document)
    × (parse_extrinsics document ≡ ok x)
unfolding parse_extrinsics validate_camera_extrinsics row_dot determinant exceeds has_finite_values
autonomous-extrinsics = (_, _, refl, refl)

setting-Opens : Opens autonomous setting
unfolding defaults
setting-Opens = record {
  board_types = λ e. refl;
  terminal = λ e. refl;
  transport = (0, refl);
  camera_source = λ e. refl;
  calibration = λ e. autonomous-calibration;
  detector = λ e. refl;
  extrinsics = λ e. autonomous-extrinsics;
  preview = λ e. cc;
}

prepare-Constructed_example :
    Succeeds (λ a. Constructed (make a.0 a.1 (tt {0}))) (prepare autonomous setting)
prepare-Constructed_example =
    prepare-Constructed autonomous setting tt thousandths-HasDefaults autonomous-IsConfiguration
      (λ e. refl) (λ e. refl) setting-Opens

abbrev arguments : List Bytes
arguments = bytes "--sitl" ∷ bytes "--interactive" ∷ []

-- Two turns, with a key that starts the flight and one that ends the program.
abbrev turns : List (Turn ℕ)
turns =
    record {
      keys = (b's', seconds 1) ∷ [];
      interrupted = false;
      surroundings = around 1;
      now = seconds 1;
    }
    ∷ record {
      keys = (b'q', seconds 2) ∷ [];
      interrupted = false;
      surroundings = around 2;
      now = seconds 2;
    }
    ∷ []

abbrev no_double : Bytes → Option ℕ
no_double text = none

main-Returns_example :
    Returns
      (parse_command_line no_double arguments)
      (main port one_byte messages no_double arguments setting (tt {0}) (seconds 0) turns)
main-Returns_example =
    main-Returns port one_byte messages no_double arguments setting tt (seconds 0) turns
