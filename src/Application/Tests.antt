-- ===== src/Application/Tests.antt =====
-- application/CompanionApplication: the theorems at concrete inputs.
use companion_lab.Prelude.{
  ℕ, ◌≡◌, ◌↔◌, ◌⊎◌, ◌<◌, true, false, none, some, List, [], ◌∷◌, arith, if◌then◌else◌,
}
use companion_lab.Prelude.Int.{pos}
use companion_lab.Prelude.Time.{seconds}
use companion_lab.Examples.{dialect, thousandths, thousandth_casts}
use companion_lab.Decision.{MotionSafetyStatus}
use companion_lab.Mavlink.{CommandAck}
use companion_lab.Telemetry.{reset}
use companion_lab.Vehicle.{initial}
use companion_lab.Startup.{FlightStartupController, FlightStartupPhase, restart as restart_startup}
use companion_lab.Runtime.{AutonomyRuntime, AutonomyRuntimePhase, restart as restart_runtime}
use companion_lab.Application.{outbound, inbound, pending, success, empty_log}
use companion_lab.Application.History.{Entry, Shows, run, events, history, run-empty_log-Shows}
use companion_lab.Application.Acks.{Listeners, on_command_ack}
use companion_lab.Application.Start.{Companion, request_autonomy_start}
use companion_lab.Application.Frames.{
  Transport, recording, forget_frame, Sends, write_frame, write_frame-Sends,
}
use companion_lab.Prelude.{◌-◌, ◌==◌}
use companion_lab.Prelude.Text.{Bytes}
use companion_lab.Application.Commands.{AreDistinct, IsCommand, encode_flight_action-IsCommand}
use companion_lab.Mavlink.Encoder.{encode_flight_action}
use companion_lab.Flight.{FlightActionRequest, land, landing_target}
use companion_lab.Application.Routing.{
  IsApart, Alone, Startable, on_command_ack-Alone, request_autonomy_start_iff,
}

abbrev entries : List Entry
entries =
    Entry.event outbound pending "SET_INTERVAL" "ATTITUDE at 10 Hz | ATTEMPT 1" (seconds 1)
    ∷ Entry.activity inbound "HEARTBEAT" "" (seconds 2)
    ∷ Entry.event inbound success "ACK SET_INTERVAL" "ACCEPTED | SYS 1" (seconds 2)
    ∷ []

few : events entries < 18_446_744_073_709_551_616
unfolding events
few = omega arith

run-empty_log-Shows_example : Shows (events entries) (history entries) (run entries empty_log)
run-empty_log-Shows_example = run-empty_log-Shows entries few

-- A startup and a runtime that have finished.
abbrev landed_startup : FlightStartupController ℕ
landed_startup = record {
  config = record { enabled = true; takeoff_altitude_m = 2500 };
  phase = FlightStartupPhase.completed;
  detail = "";
  vehicle_system_id = some 1;
  attempt = 0;
  awaiting_ack = false;
  command_accepted = true;
  acknowledgement_deadline = 0;
  phase_deadline = 0;
  failure_result = none;
}

abbrev landed_runtime : AutonomyRuntime ℕ
landed_runtime = record {
  config = record { enabled = true; target_loss_land_after = pos 1500 };
  phase = AutonomyRuntimePhase.completed;
  detail = "";
  motion_safety_status = MotionSafetyStatus.no_intent;
  vehicle_system_id = some 1;
  land_command_after = none;
  target_missing_since = none;
  next_landing_target = 0;
  acknowledgement_deadline = 0;
  landing_deadline = 0;
  land_attempt = 1;
  awaiting_land_ack = false;
  vision_landing_target_active = false;
  failure_result = none;
}

-- LAND was sent, and not yet acknowledged.
abbrev listeners : Listeners ℕ
listeners = record {
  telemetry_configurator = reset;
  flight_startup = landed_startup;
  autonomy_runtime = record landed_runtime {
    phase = AutonomyRuntimePhase.active;
    awaiting_land_ack = true;
  };
  log = empty_log;
}

abbrev land_accepted : CommandAck
land_accepted = record {
  source_system = 1;
  source_component = 1;
  command = 21;
  result = 0;
  progress = 0;
  result_parameter = pos 0;
  target_system = 1;
  target_component = 191;
}

dialect-IsApart : IsApart
dialect-IsApart = record {
  set_mode = λ e. omega arith;
  arm_disarm = λ e. omega arith;
  nav_takeoff = λ e. omega arith;
  nav_land = λ e. omega arith;
  nav_return = λ e. omega arith;
}

on_command_ack-Alone_example : Alone listeners (on_command_ack land_accepted (seconds 1) listeners)
on_command_ack-Alone_example =
    on_command_ack-Alone dialect-IsApart land_accepted (seconds 1) listeners

abbrev companion : Companion ℕ
companion = record {
  motion_commands_allowed = true;
  autonomy_scenario_configured = true;
  vehicle_state = initial ℕ;
  flight_startup = landed_startup;
  autonomy_runtime = landed_runtime;
  log = empty_log;
}

request_autonomy_start_iff_example :
    let (started, s') = request_autonomy_start (seconds 1) companion in
    ((started ≡ true) ↔ Startable (seconds 1) companion)
    × (s'.flight_startup ≡ (if started then restart_startup landed_startup else landed_startup))
    × (s'.autonomy_runtime ≡ (if started then restart_runtime landed_runtime else landed_runtime))
request_autonomy_start_iff_example = request_autonomy_start_iff (seconds 1) companion

-- A port that takes two bytes at each call, three calls long.
abbrev slow : Transport ℕ
slow = record {
  read = λ calls. some ([], calls);
  write = λ calls bs. some (if calls == 0 then 0 else 2, calls - 1);
}

abbrev frame : Bytes
frame = 253 ∷ 9 ∷ 0 ∷ 0 ∷ 1 ∷ []

write_frame-Sends_example :
    let recorded =
      write_frame (recording slow) frame (seconds 1) "HEARTBEAT" "" (3, []) empty_log in
    Sends slow frame (seconds 1) "HEARTBEAT" "" empty_log recorded
    × (forget_frame recorded ≡ write_frame slow frame (seconds 1) "HEARTBEAT" "" 3 empty_log)
write_frame-Sends_example = write_frame-Sends slow frame (seconds 1) "HEARTBEAT" "" 3 empty_log

dialect-AreDistinct : AreDistinct
dialect-AreDistinct = record {
  arm_mode = λ e. omega arith;
  takeoff_mode = λ e. omega arith;
  takeoff_arm = λ e. omega arith;
  land_mode = λ e. omega arith;
  land_arm = λ e. omega arith;
  land_takeoff = λ e. omega arith;
  return_mode = λ e. omega arith;
  return_arm = λ e. omega arith;
  return_takeoff = λ e. omega arith;
  return_land = λ e. omega arith;
}

abbrev second_land : FlightActionRequest ℕ
second_land = record {
  action = land;
  vehicle_system_id = 1;
  confirmation = 1;
  altitude_m = 0;
  x_m = 0;
  y_m = 0;
  z_m = 0;
  time_usec = 0;
}

encode_flight_action-IsCommand_example :
    (land ≡ landing_target) ⊎ IsCommand land 1 1 (encode_flight_action second_land)
encode_flight_action-IsCommand_example =
    encode_flight_action-IsCommand dialect-AreDistinct second_land
