-- ===== src/Application/Acks.antt =====
-- application/CompanionApplication: what its handler makes of an acknowledgement.
use companion_lab.Prelude.{
  ℕ, Bool, not, ◌&&◌, ◌||◌, Option, none, some, String, ◌==◌, if◌then◌else◌,
}
use companion_lab.Prelude.Time.{TimePoint}
use companion_lab.Prelude.Text.{to_string, str_eq}
use companion_lab.Prelude.Text.{◌++◌}
use companion_lab.Mavlink.{Mavlink, CommandAck, companion_component_id}
use companion_lab.Flight.{
  FlightAction, FlightCommandAckOutcome, set_guided_mode, arm, takeoff, land, return_to_launch,
}
use companion_lab.Telemetry.{
  TelemetryStreamConfigurator, TelemetrySetupSnapshot, is_configuring,
  on_command_ack as telemetry_on_command_ack, snapshot as telemetry_snapshot,
}
use companion_lab.Startup.{FlightStartupController}
use companion_lab.Startup.Acks.{on_command_ack as startup_on_command_ack}
use companion_lab.Runtime.{AutonomyRuntime, on_command_ack as runtime_on_command_ack}
use companion_lab.Application.{
  inbound, LinkEventStatus, pending, success, warning, failure, LinkLog, record_event,
  record_activity,
}

-- The components that an acknowledgement may concern, and the log.
pub record Listeners (D : Type 0) : Type 0 where
  pub telemetry_configurator : TelemetryStreamConfigurator
  pub flight_startup : FlightStartupController D
  pub autonomy_runtime : AutonomyRuntime D
  pub log : LinkLog

module _ ⦃m : Mavlink⦄ where
  unfoldable pub map_flight_action : ℕ → Option FlightAction
  map_flight_action command =
      if command == m.cmd_do_set_mode
      then some set_guided_mode
      else (if command == m.cmd_component_arm_disarm
          then some arm
          else (if command == m.cmd_nav_takeoff
              then some takeoff
              else (if command == m.cmd_nav_land
                  then some land
                  else (if command == m.cmd_nav_return_to_launch
                      then some return_to_launch
                      else none))))

  unfoldable pub map_ack_outcome : ℕ → FlightCommandAckOutcome
  map_ack_outcome result =
      if result == m.result_accepted
      then FlightCommandAckOutcome.accepted
      else (if result == m.result_in_progress
          then FlightCommandAckOutcome.in_progress
          else FlightCommandAckOutcome.rejected)

  unfoldable pub map_event_status : ℕ → LinkEventStatus
  map_event_status result =
      if result == m.result_accepted
      then success
      else (if result == m.result_in_progress
          then pending
          else (if result == m.result_temporarily_rejected then warning else failure))

  unfoldable pub ack_result_name : ℕ → String
  ack_result_name result =
      if result == m.result_accepted
      then "ACCEPTED"
      else (if result == m.result_temporarily_rejected
          then "TEMPORARILY REJECTED"
          else (if result == m.result_denied
              then "DENIED"
              else (if result == m.result_unsupported
                  then "UNSUPPORTED"
                  else (if result == m.result_failed
                      then "FAILED"
                      else (if result == m.result_in_progress
                          then "IN PROGRESS"
                          else (if result == m.result_cancelled
                              then "CANCELLED"
                              else "MAV_RESULT " ++ to_string result))))))

  -- `mav_command_name` without the "ACK " in front, as `command_ack_activity_detail` takes it.
  unfoldable pub command_name : ℕ → String
  command_name command =
      if command == m.cmd_set_message_interval
      then "SET_INTERVAL"
      else (if command == m.cmd_request_message
          then "REQUEST_VERSION"
          else (if command == m.cmd_do_set_mode
              then "SET_MODE"
              else (if command == m.cmd_component_arm_disarm
                  then "ARM"
                  else (if command == m.cmd_nav_takeoff
                      then "TAKEOFF"
                      else (if command == m.cmd_nav_land
                          then "LAND"
                          else (if command == m.cmd_nav_return_to_launch
                              then "RTL"
                              else "COMMAND " ++ to_string command))))))

  unfoldable pub mav_command_name : ℕ → String
  mav_command_name command = "ACK " ++ command_name command

  unfoldable pub command_ack_activity_detail : ℕ → ℕ → String
  command_ack_activity_detail command result =
      command_name command ++ (" " ++ ack_result_name result)

  -- The acknowledgement is for this component, or for all.
  abbrev pub is_for_companion : CommandAck → Bool
  is_for_companion a = a.target_component == 0 || a.target_component == companion_component_id

  unfoldable pub event_detail : CommandAck → TelemetrySetupSnapshot → String
  event_detail a telemetry =
      let stream =
        if a.command == m.cmd_set_message_interval
          && (is_configuring telemetry.phase && not (str_eq telemetry.current_stream ""))
        then telemetry.current_stream ++ " | "
        else "" in
      stream ++ (ack_result_name a.result ++ (" | SYS " ++ to_string a.source_system))

  -- The event and the activity that the log gets.
  unfoldable pub log_ack : CommandAck → TimePoint → TelemetrySetupSnapshot → LinkLog → LinkLog
  log_ack a now telemetry l =
      if not (is_for_companion a)
      then l
      else record_activity inbound "COMMAND_ACK" (command_ack_activity_detail a.command a.result)
          now
          (record_event inbound (map_event_status a.result) (mav_command_name a.command)
            (event_detail a telemetry) now l)

  -- The commands of a flight go on to the startup and the runtime.
  unfoldable pub forward :
      {D : Type 0} → Option FlightAction → CommandAck → TimePoint → Listeners D → Listeners D
  forward none a now s = s
  forward (some action) a now s =
      let outcome = map_ack_outcome a.result in
      if not (is_for_companion a) then s else record s {
        flight_startup =
            startup_on_command_ack action outcome a.result a.source_system now s.flight_startup;
        autonomy_runtime =
            runtime_on_command_ack action outcome a.result a.source_system now s.autonomy_runtime;
      }

  -- The handler that the constructor gives to the decoder.
  unfoldable pub on_command_ack : {D : Type 0} → CommandAck → TimePoint → Listeners D → Listeners D
  on_command_ack a now s = forward (map_flight_action a.command) a now (record s {
    log = log_ack a now (telemetry_snapshot s.telemetry_configurator) s.log;
    telemetry_configurator = telemetry_on_command_ack a now s.telemetry_configurator;
  })
