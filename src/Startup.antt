-- ===== src/Startup.antt =====
-- application/FlightStartupController: brings a multicopter from its first heartbeat into the air,
-- one acknowledged command at a time. Its operations `update`, `on_action_sent` and
-- `on_command_ack` stand in the modules `Update` and `Acks`.
pub mod Update
pub mod Acks
pub mod Invariant
pub mod Phases
pub mod Rounds
pub mod Liveness
pub mod Effects
pub mod Pacing
pub mod Safety
mod Tests
use companion_lab.Prelude.{
  ℕ, ◌+◌, Bool, true, false, not, ◌||◌, Option, none, some, String, ◌==◌, if◌then◌else◌, is_some,
}
use companion_lab.Prelude.Time.{TimePoint, seconds}
use companion_lab.Prelude.Doubles.{Doubles}
use companion_lab.Prelude.Text.{◌++◌}
use companion_lab.Vehicle.Snapshot.{VehicleSnapshot}
use companion_lab.Failsafe.{CompanionLinkFailsafeSnapshot, accepts}
use companion_lab.Flight.{
  FlightAction, set_guided_mode, arm, takeoff, return_to_launch, land, landing_target,
}

pub data FlightStartupPhase : Type 0 where
  disabled waiting_for_vehicle waiting_for_readiness setting_guided arming taking_off completed :
      FlightStartupPhase
  failed : FlightStartupPhase

pub record FlightStartupConfig (D : Type 0) : Type 0 where
  pub enabled : Bool
  pub takeoff_altitude_m : D

pub record FlightStartupController (D : Type 0) : Type 0 where
  pub config : FlightStartupConfig D
  pub phase : FlightStartupPhase
  pub detail : String
  pub vehicle_system_id : Option ℕ
  pub attempt : ℕ
  pub awaiting_ack : Bool
  pub command_accepted : Bool
  pub acknowledgement_deadline : TimePoint
  pub phase_deadline : TimePoint
  pub failure_result : Option ℕ

pub record FlightStartupSnapshot (D : Type 0) : Type 0 where
  pub phase : FlightStartupPhase
  pub detail : String
  pub target_altitude_m : D
  pub attempt : ℕ
  pub failure_result : Option ℕ

-- What an update is given.
pub record Observation (D : Type 0) : Type 0 where
  pub vehicle : VehicleSnapshot D
  pub telemetry_ready : Bool
  pub failsafe : CompanionLinkFailsafeSnapshot D
  pub now : TimePoint

abbrev pub is_multicopter : Option ℕ → Bool
is_multicopter none = false
is_multicopter (some t) = t == 2 || (t == 3 || (t == 4 || (t == 13 || (t == 14 || t == 15))))

unfoldable pub action_name : FlightAction → String
action_name set_guided_mode = "GUIDED mode"
action_name arm = "arm"
action_name takeoff = "takeoff"
action_name return_to_launch = "RTL"
action_name land = "land"
action_name landing_target = "landing target"

-- `expected_action`, by the phase.
abbrev pub expected_action : FlightStartupPhase → Option FlightAction
expected_action setting_guided = some set_guided_mode
expected_action arming = some arm
expected_action taking_off = some takeoff
expected_action _ = none

abbrev pub is_over : FlightStartupPhase → Bool
is_over disabled = true
is_over completed = true
is_over failed = true
is_over _ = false

abbrev is_waiting_for_vehicle : FlightStartupPhase → Bool
is_waiting_for_vehicle waiting_for_vehicle = true
is_waiting_for_vehicle _ = false

abbrev is_waiting_for_readiness : FlightStartupPhase → Bool
is_waiting_for_readiness waiting_for_readiness = true
is_waiting_for_readiness _ = false

abbrev phase_timeout : FlightStartupPhase → Option ℕ
phase_timeout waiting_for_readiness = some (seconds 90)
phase_timeout setting_guided = some (seconds 10)
phase_timeout arming = some (seconds 10)
phase_timeout taking_off = some (seconds 45)
phase_timeout _ = none

phase_detail : FlightStartupPhase → String → String
phase_detail waiting_for_readiness old = "Waiting for telemetry and pre-arm readiness"
phase_detail setting_guided old = "Preparing GUIDED mode"
phase_detail arming old = "Preparing to arm"
phase_detail taking_off old = "Preparing takeoff"
phase_detail _ old = old

abbrev deadline_from : TimePoint → Option ℕ → TimePoint → TimePoint
deadline_from now none old = old
deadline_from now (some timeout) old = now + timeout

module _ {D : Type 0} where
  pub enter_phase :
      FlightStartupPhase → TimePoint → FlightStartupController D → FlightStartupController D
  enter_phase phase now c = record c {
    phase = phase;
    attempt = 0;
    awaiting_ack = false;
    command_accepted = false;
    phase_deadline = deadline_from now (phase_timeout phase) c.phase_deadline;
    detail = phase_detail phase c.detail;
  }

  pub fail : String → FlightStartupController D → FlightStartupController D
  fail detail c = record c {
    phase = failed;
    detail = detail;
    awaiting_ack = false;
    command_accepted = false;
  }

  unfoldable pub restart : FlightStartupController D → FlightStartupController D
  restart c = record c {
    phase = if not c.config.enabled then disabled else waiting_for_vehicle;
    detail =
        if not c.config.enabled
        then "Flight startup disabled"
        else "Waiting for the flight-controller heartbeat";
    vehicle_system_id = none;
    attempt = 0;
    awaiting_ack = false;
    command_accepted = false;
    acknowledgement_deadline = 0;
    phase_deadline = 0;
    failure_result = none;
  }

  unfoldable pub snapshot : FlightStartupController D → FlightStartupSnapshot D
  snapshot c = record {
    phase = c.phase;
    detail = c.detail;
    target_altitude_m = c.config.takeoff_altitude_m;
    attempt = c.attempt;
    failure_result = c.failure_result;
  }

  unfoldable pub readiness_detail : Observation D → String
  readiness_detail o =
      if not o.telemetry_ready
      then "Waiting for telemetry stream setup"
      else (if not (accepts o.failsafe)
          then "Autonomy blocked: " ++ o.failsafe.detail
          else (if o.vehicle.armed
              then "Waiting for the vehicle to be disarmed"
              else (if not o.vehicle.gps_ready
                  then "Waiting for a 3D GPS fix"
                  else (if not o.vehicle.battery_ready
                      then "Waiting for valid battery data"
                      else (if not o.vehicle.system_health_ok
                          then "Waiting for healthy onboard sensors"
                          else (if not o.vehicle.armable
                              then "Waiting for active PreArm warnings to clear"
                              else (if not (is_some o.vehicle.relative_altitude_m)
                                  then "Waiting for relative altitude"
                                  else "Checking readiness")))))))

module _ {D : Type 0} ⦃d : Doubles D⦄ where
  -- The constructor; `none` is its exception.
  unfoldable pub make : FlightStartupConfig D → Option (FlightStartupController D)
  unfolding restart
  make config =
      let c : FlightStartupController D = record {
        config = config;
        phase = disabled;
        detail = "Flight startup disabled";
        vehicle_system_id = none;
        attempt = 0;
        awaiting_ack = false;
        command_accepted = false;
        acknowledgement_deadline = 0;
        phase_deadline = 0;
        failure_result = none;
      } in
      if not (d.is_finite config.takeoff_altitude_m)
        || d.le config.takeoff_altitude_m (d.of_decimal 0 0)
      then none
      else some (if config.enabled then restart c else c)
