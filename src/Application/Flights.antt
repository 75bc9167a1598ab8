-- ===== src/Application/Flights.antt =====
-- application/CompanionApplication: the theorems on a whole application at concrete inputs.
use companion_lab.Prelude.{ℕ, ◌≡◌, refl, true, false, some, List, [], ◌∷◌}
use companion_lab.Prelude.Int.{pos}
use companion_lab.Prelude.Time.{seconds}
use companion_lab.Prelude.Outcomes.{ok}
use companion_lab.Examples.{
  dialect, thousandths, thousandth_casts, one_byte, messages, flying, ahead, port, around,
}
use companion_lab.Startup.{make as make_startup, restart as restart_startup}
use companion_lab.Runtime.{make as make_runtime, restart as restart_runtime}
use companion_lab.Tracker.{make as make_tracker, empty as empty_tracker}
use companion_lab.Vision.{make as make_vision}
use companion_lab.Camera.{make as make_camera}
use companion_lab.Transform.Rigid.{IsRigid, validate_camera_extrinsics-IsRigid}
use companion_lab.Transform.{
  validate_camera_extrinsics, row_dot, determinant, exceeds, has_finite_values,
}
use companion_lab.Application.Members.{Impl}
use companion_lab.Application.Poll.{serve}
use companion_lab.Application.Construct.{
  CompanionApplicationOptions, default_tracker, make_monitor, make,
}
use companion_lab.Application.Invariant.{Inv}
use companion_lab.Application.Parts.{Contained, Safe}
use companion_lab.Application.Consistent.{IsConsistent, Accepts, Answers, make-Answers}
use companion_lab.Application.Runs.{
  RunBreaks, Event, polled, start_requested, run, companion_run-Safe,
}
use companion_lab.Application.Quiet.{serve-Quiet}

-- An automated flight with a camera and a detector.
abbrev options : CompanionApplicationOptions ℕ
options = record {
  flight_startup = record { enabled = true; takeoff_altitude_m = 2500 };
  autonomy_runtime = record { enabled = true; target_loss_land_after = pos 1500 };
  motion_commands_allowed = true;
  camera_source = true;
  target_detector = true;
  camera_preview_sink = false;
  camera_extrinsics = some ahead;
}

ahead-IsRigid : IsRigid ahead
unfolding validate_camera_extrinsics row_dot determinant exceeds has_finite_values
ahead-IsRigid = validate_camera_extrinsics-IsRigid ahead

make-Answers_example :
    Answers (Accepts {T = ℕ} {P = Unit {0}} options) (IsConsistent options) (make options 0 tt)
make-Answers_example = make-Answers options 0 tt ahead-IsRigid

-- The application that they make.
made : (s : Impl ℕ (Unit {0}) ℕ) × (make options 0 tt ≡ ok s)
unfolding make make_startup restart_startup make_runtime restart_runtime make_monitor make_vision
    make_tracker empty_tracker make_camera default_tracker
made = (_, refl)

abbrev few_events : List (Event ℕ)
few_events =
    polled (around 1) ∷ start_requested (seconds 2) ∷ polled (around 2) ∷ polled (around 9) ∷ []

companion_run-Safe_example :
    Contained (RunBreaks port few_events) Inv (run port one_byte messages few_events made.0)
companion_run-Safe_example =
    companion_run-Safe port one_byte messages options 0 tt few_events made.0 ahead-IsRigid made.1

made-Inv : Inv made.0
unfolding run
made-Inv = companion_run-Safe port one_byte messages options 0 tt [] made.0 ahead-IsRigid made.1

serve-Quiet_example :
    Safe
      (λ s'. (s'.transport ≡ made.0.transport) × (s'.companion_heartbeat_active ≡ false))
      (serve port "AprilTag 36h11" (record flying { connected = false }) (seconds 9) made.0)
serve-Quiet_example =
    serve-Quiet port "AprilTag 36h11" (record flying { connected = false }) (seconds 9) made.0 refl
      made-Inv
