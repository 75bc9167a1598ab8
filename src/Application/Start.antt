-- ===== src/Application/Start.antt =====
-- application/CompanionApplication: the operator's request to start the autonomous flight.
use companion_lab.Prelude.{Bool, true, false, not, ◌||◌, String, if◌then◌else◌, is_some}
use companion_lab.Prelude.Time.{TimePoint}
use companion_lab.Prelude.Doubles.{Doubles}
use companion_lab.Vehicle.{VehicleState}
use companion_lab.Vehicle.Snapshot.{VehicleSnapshot, snapshot as vehicle_snapshot}
use companion_lab.Startup.{FlightStartupController, FlightStartupPhase, restart as restart_startup}
use companion_lab.Runtime.{AutonomyRuntime, AutonomyRuntimePhase, restart as restart_runtime}
use companion_lab.Application.{
  outbound, LinkEventStatus, pending, warning, failure, LinkLog, record_event,
}

-- The members that `request_autonomy_start` reads and writes.
pub record Companion (D : Type 0) : Type 0 where
  pub motion_commands_allowed : Bool
  pub autonomy_scenario_configured : Bool
  pub vehicle_state : VehicleState D
  pub flight_startup : FlightStartupController D
  pub autonomy_runtime : AutonomyRuntime D
  pub log : LinkLog

abbrev pub startup_finished : FlightStartupPhase → Bool
startup_finished FlightStartupPhase.completed = true
startup_finished FlightStartupPhase.failed = true
startup_finished _ = false

abbrev pub autonomy_finished : AutonomyRuntimePhase → Bool
autonomy_finished AutonomyRuntimePhase.completed = true
autonomy_finished AutonomyRuntimePhase.failed = true
autonomy_finished _ = false

module _ {D : Type 0} where
  abbrev answer : Bool → LinkEventStatus → String → TimePoint → Companion D → Bool × Companion D
  answer started status detail now s =
      (started, record s { log = record_event outbound status "START" detail now s.log })

  -- The end of the function, with the snapshot that it took.
  unfoldable pub start_from : VehicleSnapshot D → TimePoint → Companion D → Bool × Companion D
  start_from vehicle now s =
      if not vehicle.connected || not (is_some vehicle.system_id)
      then answer false failure "BLOCKED | NO FLIGHT CONTROLLER" now s
      else (if vehicle.armed
          then answer false failure "BLOCKED | VEHICLE IS ARMED" now s
          else (if not (startup_finished s.flight_startup.phase)
                || not (autonomy_finished s.autonomy_runtime.phase)
              then answer false warning "SCENARIO ALREADY RUNNING" now s
              else answer true pending "AUTONOMOUS FLIGHT REQUESTED" now (record s {
                flight_startup = restart_startup s.flight_startup;
                autonomy_runtime = restart_runtime s.autonomy_runtime;
              })))

module _ {D : Type 0} ⦃d : Doubles D⦄ where
  -- Whether the flight starts, and the new state.
  unfoldable pub request_autonomy_start : TimePoint → Companion D → Bool × Companion D
  request_autonomy_start now s =
      let (vehicle_state, vehicle) = vehicle_snapshot now s.vehicle_state in
      if not s.motion_commands_allowed
      then answer false failure "BLOCKED BY MOTION SAFETY POLICY" now s
      else (if not s.autonomy_scenario_configured
          then answer false failure "AUTONOMOUS SCENARIO NOT CONFIGURED" now s
          else start_from vehicle now (record s { vehicle_state = vehicle_state }))
