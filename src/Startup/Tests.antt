-- ===== src/Startup/Tests.antt =====
-- application/FlightStartupController: the theorems at concrete inputs.
use companion_lab.Prelude.{ℕ, ◌≡◌, refl, true, false, none, some, [], ◌∷◌, List, arith}
use companion_lab.Prelude.Time.{TimePoint, seconds}
use companion_lab.Examples.{thousandths, standing, safe}
use companion_lab.Flight.{FlightCommandAckOutcome, set_guided_mode}
use companion_lab.Startup.{
  waiting_for_vehicle, setting_guided, FlightStartupConfig, FlightStartupController, Observation,
  restart, make,
}
use companion_lab.Startup.Update.{update, loop}
use companion_lab.Startup.Invariant.{Inv, Event, Sound, run, startup_run-Sound}
use companion_lab.Startup.Safety.{AnswersTo, startup_update-Answers}
use companion_lab.Startup.Phases.{ReachesAfter, update-Reaches}
use companion_lab.Startup.Update.{turn}
use companion_lab.Startup.Rounds.{Ends, loop-settles}
use companion_lab.Startup.Liveness.{MovesOn, update-MovesOn}

abbrev config : FlightStartupConfig ℕ
config = record { enabled = true; takeoff_altitude_m = 2500 }

abbrev fresh : FlightStartupController ℕ
fresh = record {
  config = config;
  phase = waiting_for_vehicle;
  detail = "Waiting for the flight-controller heartbeat";
  vehicle_system_id = none;
  attempt = 0;
  awaiting_ack = false;
  command_accepted = false;
  acknowledgement_deadline = 0;
  phase_deadline = 0;
  failure_result = none;
}

make-fresh : make config ≡ some fresh
unfolding make restart
make-fresh = refl

abbrev at_rest : TimePoint → Observation ℕ
at_rest now = record { vehicle = standing; telemetry_ready = true; failsafe = safe; now = now }

abbrev calls : List (Event ℕ)
calls =
    Event.updated (at_rest (seconds 1))
    ∷ Event.acknowledged set_guided_mode FlightCommandAckOutcome.accepted 0 1 (seconds 2)
    ∷ Event.updated (at_rest (seconds 2))
    ∷ []

startup_run-Sound_example : Sound (run (some fresh) calls)
startup_run-Sound_example = startup_run-Sound config fresh calls make-fresh

-- GUIDED mode was asked for at 1 s, and not yet acknowledged.
abbrev asking : FlightStartupController ℕ
asking = record fresh {
  phase = setting_guided;
  vehicle_system_id = some 1;
  attempt = 1;
  awaiting_ack = true;
  acknowledgement_deadline = seconds 3;
  phase_deadline = seconds 11;
}

asking-Inv : Inv asking
asking-Inv = record {
  known = λ e. refl;
  attempts = omega arith;
  awaited = λ e. (refl, omega arith, refl);
  approved = λ e. cc;
  disabled_iff = ground arith;
  failure = λ e. cc;
}

startup_update-Answers_example :
    AnswersTo (at_rest (seconds 4)) asking (update (at_rest (seconds 4)) asking)
startup_update-Answers_example = startup_update-Answers (at_rest (seconds 4)) asking asking-Inv

update-Reaches_example :
    ReachesAfter (at_rest (seconds 4)) asking (update (at_rest (seconds 4)) asking)
update-Reaches_example = update-Reaches (at_rest (seconds 4)) asking asking-Inv

loop-settles_example :
    Ends 2 (at_rest (seconds 1)) (turn fresh.phase (at_rest (seconds 1)) fresh)
    × (loop 8 (at_rest (seconds 1)) fresh ≡ loop 3 (at_rest (seconds 1)) fresh)
loop-settles_example = loop-settles 8 (at_rest (seconds 1)) fresh (omega arith)

update-MovesOn_example : MovesOn setting_guided (update (at_rest (seconds 12)) asking)
update-MovesOn_example = update-MovesOn (at_rest (seconds 12)) asking asking-Inv refl (omega arith)
