-- ===== src/Runtime/Tests.antt =====
-- application/AutonomyRuntime: the theorems at concrete inputs.
use companion_lab.Prelude.{
  All, ◌+◌, ℕ, ◌≡◌, inl, inr, refl, true, false, none, some, [], ◌∷◌, List, arith,
}
use companion_lab.Prelude.Int.{pos}
use companion_lab.Prelude.Time.{TimePoint, seconds, milliseconds}
use companion_lab.Examples.{thousandths, flying, safe, pad}
use companion_lab.Decision.{MotionSafetyStatus, valid_target}
use companion_lab.Flight.{FlightAction, FlightCommandAckOutcome}
use companion_lab.Startup.{FlightStartupSnapshot, FlightStartupPhase}
use companion_lab.Runtime.{
  AutonomyRuntimeConfig, AutonomyRuntime, Observation, waiting_for_startup, active, restart, make,
}
use companion_lab.Runtime.Update.{update}
use companion_lab.Runtime.Invariant.{Event, Sound, run, runtime_run-Sound}
use companion_lab.Runtime.Fallback.{
  Flies, Waits, updates, LandsThen, GivesUp, update-Lands, update-GivesUp,
}

abbrev config : AutonomyRuntimeConfig
config = record { enabled = true; target_loss_land_after = pos 1500 }

abbrev fresh : AutonomyRuntime ℕ
fresh = record {
  config = config;
  phase = waiting_for_startup;
  detail = "Waiting for verified flight startup";
  motion_safety_status = MotionSafetyStatus.no_intent;
  vehicle_system_id = none;
  land_command_after = none;
  target_missing_since = none;
  next_landing_target = 0;
  acknowledgement_deadline = 0;
  landing_deadline = 0;
  land_attempt = 0;
  awaiting_land_ack = false;
  vision_landing_target_active = false;
  failure_result = none;
}

make-fresh : make config ≡ some fresh
unfolding make restart
make-fresh = refl

abbrev started : FlightStartupSnapshot ℕ
started = record {
  phase = FlightStartupPhase.completed;
  detail = "";
  target_altitude_m = 2500;
  attempt = 0;
  failure_result = none;
}

abbrev seeing : TimePoint → Observation ℕ
seeing now = record {
  vehicle = flying;
  startup = started;
  failsafe = safe;
  now = now;
  target = some pad;
}

abbrev blind : TimePoint → Observation ℕ
blind now = record (seeing now) { target = none }

abbrev calls : List (Event ℕ)
calls =
    Event.updated (seeing (seconds 1))
    ∷ Event.updated (blind (seconds 2))
    ∷ Event.updated (blind (seconds 4))
    ∷ Event.acknowledged FlightAction.land FlightCommandAckOutcome.accepted 0 1 (seconds 5)
    ∷ []

runtime_run-Sound_example : Sound (run (some fresh) calls)
runtime_run-Sound_example = runtime_run-Sound config fresh calls make-fresh

-- In flight, the target lost at 2 s.
abbrev searching : AutonomyRuntime ℕ
searching = record fresh {
  phase = active;
  vehicle_system_id = some 1;
  target_missing_since = some (seconds 2);
}

flying-Flies : (now : TimePoint) → Flies 1 (blind now)
flying-Flies now = record { connected = refl; vehicle = refl; armed = refl; failsafe = refl }

-- Two updates before the target has been missing for too long.
abbrev before : List (Observation ℕ)
before = blind (seconds 2) ∷ blind (seconds 3) ∷ []

before-Waits : All (Waits 1 (seconds 2) (seconds 2 + milliseconds 1500)) before
before-Waits = (
  (flying-Flies (seconds 2), refl, omega arith, omega arith),
  ((flying-Flies (seconds 3), refl, omega arith, omega arith), tt),
)

update-Lands_example : LandsThen 1 (blind (seconds 4)) (updates before searching)
update-Lands_example =
    update-Lands before (blind (seconds 4)) searching 1 (seconds 2) refl refl (omega arith)
      (inl refl) before-Waits (flying-Flies (seconds 4)) refl (omega arith)

-- Three LAND commands were sent, and the last is not acknowledged.
abbrev unanswered : AutonomyRuntime ℕ
unanswered = record fresh {
  phase = active;
  vehicle_system_id = some 1;
  land_command_after = some (seconds 3);
  land_attempt = 3;
  awaiting_land_ack = true;
  acknowledgement_deadline = seconds 9;
}

seeing-Flies : (now : TimePoint) → Flies 1 (seeing now)
seeing-Flies now = record { connected = refl; vehicle = refl; armed = refl; failsafe = refl }

update-GivesUp_example : GivesUp pad (update (seeing (seconds 9)) unanswered)
update-GivesUp_example =
    update-GivesUp (seeing (seconds 9)) unanswered 1 pad (seconds 3) refl (seeing-Flies (seconds 9))
      refl (unfold valid_target in refl) refl (omega arith) (omega arith) (inr (omega arith))
