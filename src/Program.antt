-- ===== src/Program.antt =====
-- main.cpp: how the program is put together from its options, and its loop. A signal that comes
-- after a turn's poll ends the loop there, so the turns are a list of any length.
pub mod Wiring
pub mod Opening
pub mod Loop
mod Tests
use companion_lab.Prelude.{
  ℕ, ◌+◌, Bool, true, false, not, ◌&&◌, ◌||◌, Option, none, some, List, [], ◌∷◌, String, ◌==◌, leb,
  if◌then◌else◌,
}
use companion_lab.Prelude.Int.{pos}
use companion_lab.Prelude.Time.{TimePoint, milliseconds}
use companion_lab.Prelude.Text.{Bytes}
use companion_lab.Prelude.Doubles.{Doubles}
use companion_lab.Prelude.Outcomes.{
  Outcome, ok, threw, fault, throw_if, defined, outside, ◌>>=◌, ◌>>◌,
}
use companion_lab.Mavlink.{Mavlink}
use companion_lab.Mavlink.Messages.{Messages, Framing}
use companion_lab.Mavlink.Encoder.{Casts}
use companion_lab.Motion.{
  RuntimeEnvironment, MavlinkTransport, MotionSafetyDecision, evaluate_motion_safety,
}
use companion_lab.Vehicle.Snapshot.{snapshot as vehicle_snapshot}
use companion_lab.Runtime.{AutonomyRuntimePhase}
use companion_lab.Transform.{CameraCalibration, CameraExtrinsics}
use companion_lab.Loaders.{
  ExtrinsicsDocument, CalibrationDocument, parse_extrinsics, parse_calibration,
}
use companion_lab.Application.{start_of}
use companion_lab.Application.Frames.{Transport}
use companion_lab.Application.Members.{Impl}
use companion_lab.Application.Watch.{Surroundings}
use companion_lab.Application.Construct.{CompanionApplicationOptions, make}
use companion_lab.Application.Runs.{Event, polled, start_requested, step}
use companion_lab.CommandLine.{TransportBackend, CommandLineOptions, Parsed, parsed, refused}
use companion_lab.CommandLine.Validate.{is_empty}
use companion_lab.CommandLine.Parse.{parse_command_line}

-- What the program finds outside: whether standard input is a terminal, and what is opened or read, with
-- `none` for an exception.
pub record Setting (T D : Type 0) : Type 0 where
  pub terminal : Bool
  pub board_types : Option (Unit {0})
  pub transport : Option T
  pub camera_source : Option (Unit {0})
  pub calibration : Option (CalibrationDocument D)
  pub detector : Option (Unit {0})
  pub extrinsics : Option (ExtrinsicsDocument D)
  pub preview : Option (Unit {0})

abbrev pub environment_of : Bool → RuntimeEnvironment
environment_of true = RuntimeEnvironment.sitl
environment_of false = RuntimeEnvironment.hardware_or_unknown

abbrev pub transport_of : TransportBackend → MavlinkTransport
transport_of TransportBackend.udp = MavlinkTransport.udp
transport_of TransportBackend.serial = MavlinkTransport.serial

-- What is done under a condition.
abbrev pub only_if : Bool → Outcome (Unit {0}) → Outcome (Unit {0})
only_if false m = ok tt
only_if true m = m

module _ {D : Type 0} where
  unfoldable pub motion_safety : CommandLineOptions D → MotionSafetyDecision
  motion_safety o =
      evaluate_motion_safety (environment_of o.sitl_mode) (transport_of o.transport)
        (o.autonomous || o.interactive)

module _ {T D : Type 0} ⦃d : Doubles D⦄ where
  -- The calibration, if there is one, fits the image.
  unfoldable pub pose : Bool → CommandLineOptions D → Setting T D → Outcome (Unit {0})
  pose false o e = ok tt
  pose true o e = do
    document ← outside e.calibration
    calibration ← parse_calibration document
    throw_if
        (not (calibration.image_width == o.camera_width)
          || not (calibration.image_height == o.camera_height))
        "camera runtime resolution does not match calibration"
    size ← defined o.apriltag_tag_size_m
    ok tt

  unfoldable pub detect : Bool → CommandLineOptions D → Setting T D → Outcome (Unit {0})
  detect false o e = ok tt
  detect true o e = pose (not (is_empty o.camera_calibration_file)) o e >> outside e.detector

  unfoldable pub mount : Bool → Setting T D → Outcome (Option (CameraExtrinsics D))
  mount false e = ok none
  mount true e = do
    document ← outside e.extrinsics
    extrinsics ← parse_extrinsics document
    ok (some extrinsics)

  -- Up to the construction of the application, with what it is constructed from.
  unfoldable pub prepare :
      CommandLineOptions D → Setting T D → Outcome (CompanionApplicationOptions D × T)
  prepare o e = do
    only_if (not o.json_output) (outside e.board_types)
    throw_if (not (motion_safety o).configuration_valid) (motion_safety o).reason
    throw_if (o.interactive && not (not o.json_output && e.terminal))
        "--interactive requires a live terminal"
    transport ← outside e.transport
    only_if o.camera_enabled (outside e.camera_source)
    detect o.apriltag_enabled o e
    extrinsics ← mount (not (is_empty o.camera_extrinsics_file)) e
    only_if o.camera_preview_enabled (outside e.preview)
    ok (
      record {
        flight_startup = record { enabled = o.autonomous; takeoff_altitude_m = d.of_decimal 8 0 };
        autonomy_runtime = record { enabled = o.autonomous; target_loss_land_after = pos 5000 };
        motion_commands_allowed = (motion_safety o).motion_commands_allowed;
        camera_source = o.camera_enabled;
        target_detector = o.apriltag_enabled;
        camera_preview_sink = o.camera_preview_enabled;
        camera_extrinsics = extrinsics;
      },
      transport,
    )

-- The variables of the loop.
pub record Session (T P D : Type 0) : Type 0 where
  pub application : Impl T P D
  pub next_snapshot : TimePoint
  pub keep_running : Bool
  pub autonomy_failed : Bool

-- What a turn of the loop finds: the keys pressed, with the times at which they are read, whether a
-- signal comes before the poll, what the poll finds, and the time after it.
pub record Turn (D : Type 0) : Type 0 where
  pub keys : List (ℕ × TimePoint)
  pub interrupted : Bool
  pub surroundings : Surroundings D
  pub now : TimePoint

abbrev pub has_failed : AutonomyRuntimePhase → Bool
has_failed AutonomyRuntimePhase.failed = true
has_failed _ = false

abbrev pub has_ended : AutonomyRuntimePhase → Bool
has_ended AutonomyRuntimePhase.completed = true
has_ended AutonomyRuntimePhase.failed = true
has_ended _ = false

-- `main` returns 1 after any exception. `none` is undefined behaviour.
abbrev pub returned : Outcome ℕ → Option ℕ
returned (ok code) = some code
returned (threw text) = some 1
returned fault = none

-- In milliseconds.
abbrev pub snapshot_interval : {D : Type 0} → CommandLineOptions D → ℕ
snapshot_interval o =
    if o.json_output
    then o.snapshot_interval_ms
    else (if leb o.snapshot_interval_ms 100 then o.snapshot_interval_ms else 100)

module _ {T P D : Type 0} ⦃d : Doubles D⦄ where
  -- What `snapshot` changes of the application.
  unfoldable pub look_at : TimePoint → Impl T P D → Impl T P D
  look_at now s = record s {
    vehicle_state = (vehicle_snapshot now s.vehicle_state).0;
    log = record s.log { started_at = some (start_of s.log.started_at now) };
  }

  -- The flag that a signal clears.
  abbrev pub handle_signal : Bool → Session T P D → Session T P D
  handle_signal interrupted s = record s {
    keep_running = if interrupted then false else s.keep_running;
  }

  -- A snapshot is shown, and ends the program after the flight if that is asked for.
  unfoldable pub show : CommandLineOptions D → TimePoint → Session T P D → Session T P D
  show o now s =
      let ends = o.exit_after_autonomy && has_ended s.application.autonomy_runtime.phase in
      if leb s.next_snapshot now
      then record s {
        application = look_at now s.application;
        next_snapshot = now + milliseconds (snapshot_interval o);
        keep_running = if ends then false else s.keep_running;
        autonomy_failed =
            if ends then has_failed s.application.autonomy_runtime.phase else s.autonomy_failed;
      }
      else s

module _ {T P M D : Type 0} ⦃m : Mavlink⦄ ⦃d : Doubles D⦄ ⦃c : Casts D⦄ (port : Transport T)
    (framing : Framing P M) (lib : Messages M D) where
  unfoldable pub press : ℕ → TimePoint → Session T P D → Outcome (Session T P D)
  press key now s =
      if key == b's' || key == b'S'
      then (step port framing lib (start_requested now) s.application >>= λ application.
          ok (record s { application = application; next_snapshot = now }))
      else ok (if key == b'q' || key == b'Q' then record s { keep_running = false } else s)

  unfoldable pub press_all : List (ℕ × TimePoint) → Session T P D → Outcome (Session T P D)
  press_all [] s = ok s
  press_all ((key, now) ∷ keys) s = press key now s >>= press_all keys

  -- The part of a turn after the keys, unless one of them ends the program.
  unfoldable pub go_on :
      Bool → CommandLineOptions D → Turn D → Session T P D → Outcome (Session T P D)
  go_on false o e s = ok s
  go_on true o e s = do
    application ← step port framing lib (polled e.surroundings) s.application
    ok (show o e.now (record s { application = application }))

  unfoldable pub turn : CommandLineOptions D → Turn D → Session T P D → Outcome (Session T P D)
  turn o e s = do
    pressed ← press_all e.keys s
    let heard = handle_signal e.interrupted pressed
    go_on heard.keep_running o e heard

  -- The loop, as long as there are turns and nothing ends it.
  unfoldable pub loop :
      CommandLineOptions D → List (Turn D) → Session T P D → Outcome (Session T P D)
  loop o [] s = ok s
  loop o (e ∷ es) s = let rest = turn o e s >>= loop o es in if s.keep_running then rest else ok s

  -- Begun at a time, the program returns 2 after a failed flight, and 0 otherwise.
  unfoldable pub fly :
      CommandLineOptions D → Setting T D → P → TimePoint → List (Turn D) → Outcome ℕ
  fly o e parser now es = do
    (options, transport) ← prepare o e
    application ← make options transport parser
    s ← loop o es (record {
      application = application;
      next_snapshot = now;
      keep_running = true;
      autonomy_failed = false;
    })
    ok (if s.autonomy_failed then 2 else 0)

  abbrev pub begin :
      Parsed (CommandLineOptions D) → Setting T D → P → TimePoint → List (Turn D) → Option ℕ
  begin (refused text) e parser now es = some 1
  begin (parsed o) e parser now es =
      if o.show_help then some 0 else returned (fly o e parser now es)

  unfoldable pub main :
      (Bytes → Option D) → List Bytes → Setting T D → P → TimePoint → List (Turn D) → Option ℕ
  main from_chars arguments e parser now es =
      begin (parse_command_line from_chars arguments) e parser now es
