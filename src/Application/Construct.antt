-- ===== src/Application/Construct.antt =====
-- application/CompanionApplication: the constructor, with the checks of its options.
use companion_lab.Prelude.{differ, Bool, true, false, not, ◌&&◌, ◌||◌, Option, none, some, is_some}
use companion_lab.Prelude.Int.{pos}
use companion_lab.Prelude.Doubles.{Doubles}
use companion_lab.Prelude.Outcomes.{Outcome, ok, throw_if, or_throw, ◌>>=◌, ◌>>◌}
use companion_lab.Vehicle.{initial}
use companion_lab.Failsafe.{reset as reset_failsafe}
use companion_lab.Telemetry.{reset as reset_telemetry}
use companion_lab.Startup.{FlightStartupConfig, FlightStartupPhase, make as make_startup}
use companion_lab.Runtime.{AutonomyRuntimeConfig, AutonomyRuntimePhase, make as make_runtime}
use companion_lab.Tracker.{TargetTrackerConfig}
use companion_lab.Vision.{VisionMonitor, make as make_vision}
use companion_lab.Camera.{CameraMonitor, make as make_camera}
use companion_lab.Transform.{CameraExtrinsics}
use companion_lab.Application.{empty_log}
use companion_lab.Application.Members.{Impl}

-- Of the three pointers the constructor sees whether they are null.
pub record CompanionApplicationOptions (D : Type 0) : Type 0 where
  pub flight_startup : FlightStartupConfig D
  pub autonomy_runtime : AutonomyRuntimeConfig
  pub motion_commands_allowed : Bool
  pub camera_source : Bool
  pub target_detector : Bool
  pub camera_preview_sink : Bool
  pub camera_extrinsics : Option (CameraExtrinsics D)

-- `phase != disabled`.
abbrev pub startup_enabled : FlightStartupPhase → Bool
startup_enabled FlightStartupPhase.disabled = false
startup_enabled _ = true

abbrev pub runtime_enabled : AutonomyRuntimePhase → Bool
runtime_enabled AutonomyRuntimePhase.disabled = false
runtime_enabled _ = true

module _ {D : Type 0} ⦃d : Doubles D⦄ where
  -- The default configuration of a tracker.
  unfoldable pub default_tracker : TargetTrackerConfig D
  default_tracker = record {
    required_consecutive_observations = 3;
    loss_timeout = pos 500;
    position_smoothing_factor = d.of_decimal 35 2;
    minimum_decision_margin = d.of_decimal 20 0;
  }

  abbrev pub with_vision : Option (VisionMonitor D) → Option (Option (CameraMonitor D))
  with_vision none = none
  with_vision (some v) = some (some (make_camera (some v)))

  -- `camera_monitor_.emplace`, or none without a camera source; `none` outside is an exception of the
  -- tracker's constructor, which refuses no number of observations and no timeout of the default.
  unfoldable pub make_monitor : Bool → Bool → Option (Option (CameraMonitor D))
  make_monitor false target_detector = some none
  make_monitor true false = some (some (make_camera none))
  make_monitor true true = with_vision (make_vision default_tracker)

module _ {T P D : Type 0} ⦃d : Doubles D⦄ where
  unfoldable pub make : CompanionApplicationOptions D → T → P → Outcome (Impl T P D)
  make options transport parser = do
    startup ←
        or_throw (make_startup options.flight_startup)
          "takeoff altitude must be finite and positive"
    runtime ←
        or_throw (make_runtime options.autonomy_runtime) "target-loss LAND timeout must be positive"
    throw_if (differ (startup_enabled startup.phase) (runtime_enabled runtime.phase))
        "flight startup and autonomy runtime must be enabled together"
    throw_if (not options.motion_commands_allowed && startup_enabled startup.phase)
        "automated flight requires explicit motion permission"
    camera ←
        or_throw (make_monitor options.camera_source options.target_detector)
          "target tracker smoothing factor must be in (0, 1]"
    throw_if (not options.camera_source && (options.target_detector || options.camera_preview_sink))
        "vision and preview require a camera source"
    throw_if (is_some options.camera_extrinsics && not options.target_detector)
        "camera extrinsics require AprilTag pose detection"
    throw_if (runtime_enabled runtime.phase && not (is_some options.camera_extrinsics))
        "autonomy runtime requires vision guidance"
    ok (record {
      transport = transport;
      receive_state = parser;
      motion_commands_allowed = options.motion_commands_allowed;
      autonomy_scenario_configured =
          options.flight_startup.enabled && options.autonomy_runtime.enabled;
      vehicle_state = initial D;
      companion_link_failsafe = reset_failsafe none;
      telemetry_configurator = reset_telemetry;
      flight_startup = startup;
      autonomy_runtime = runtime;
      camera_monitor = camera;
      camera_extrinsics = options.camera_extrinsics;
      next_heartbeat = 0;
      next_battery_parameter_request = 0;
      next_failsafe_parameter_request = 0;
      next_autopilot_version_request = 0;
      log = empty_log;
      vehicle_was_connected = false;
      previous_flight_mode = none;
      previous_armed = none;
      autopilot_metadata_was_available = false;
      companion_heartbeat_active = false;
      failsafe_parameter_index = 0;
    })
