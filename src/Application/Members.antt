-- ===== src/Application/Members.antt =====
-- application/CompanionApplication: its members, the handlers that it gives to the decoder, and how it
-- sends a frame and logs it.
use companion_lab.Prelude.{
  ℕ, zero, suc, Bool, Option, none, some, List, [], ◌∷◌, String, if◌then◌else◌,
}
use companion_lab.Prelude.Time.{TimePoint}
use companion_lab.Prelude.Text.{Bytes, bytes, bytes_eq, to_string, str_eq}
use companion_lab.Prelude.Text.{◌++◌}
use companion_lab.Prelude.Doubles.{Doubles}
use companion_lab.Prelude.Outcomes.{Outcome, ok, ◌>>=◌}
use companion_lab.Mavlink.{Mavlink, CommandAck}
use companion_lab.Mavlink.Decoder.{Handlers, MessageObservation, ParameterValue}
use companion_lab.Vehicle.{VehicleState}
use companion_lab.Failsafe.{CompanionLinkFailsafe, on_parameter as failsafe_on_parameter}
use companion_lab.Telemetry.{TelemetryStreamConfigurator}
use companion_lab.Startup.{FlightStartupController}
use companion_lab.Runtime.{AutonomyRuntime}
use companion_lab.Camera.{CameraMonitor}
use companion_lab.Transform.{CameraExtrinsics}
use companion_lab.Application.{
  outbound, inbound, pending, failure, LinkLog, record_event, record_activity,
}
use companion_lab.Application.Acks.{Listeners, on_command_ack}
use companion_lab.Application.Frames.{Transport, write_frame}
use companion_lab.Application.Observe.{Witnessed}

-- What the decoder's handlers change.
pub record Client (D : Type 0) : Type 0 where
  pub listeners : Listeners D
  pub companion_link_failsafe : CompanionLinkFailsafe D

-- The members of the class: `T` is the state of the transport, `P` that of the library's parser.
pub record Impl (T P D : Type 0) : Type 0 where
  pub transport : T
  pub receive_state : P
  pub motion_commands_allowed : Bool
  pub autonomy_scenario_configured : Bool
  pub vehicle_state : VehicleState D
  pub companion_link_failsafe : CompanionLinkFailsafe D
  pub telemetry_configurator : TelemetryStreamConfigurator
  pub flight_startup : FlightStartupController D
  pub autonomy_runtime : AutonomyRuntime D
  pub camera_monitor : Option (CameraMonitor D)
  pub camera_extrinsics : Option (CameraExtrinsics D)
  pub next_heartbeat : TimePoint
  pub next_battery_parameter_request : TimePoint
  pub next_failsafe_parameter_request : TimePoint
  pub next_autopilot_version_request : TimePoint
  pub log : LinkLog
  pub vehicle_was_connected : Bool
  pub previous_flight_mode : Option ℕ
  pub previous_armed : Option Bool
  pub autopilot_metadata_was_available : Bool
  pub companion_heartbeat_active : Bool
  pub failsafe_parameter_index : ℕ

-- `CompanionLinkFailsafe::parameter_names`.
unfoldable pub parameter_name : ℕ → Option String
parameter_name zero = some "FS_GCS_ENABLE"
parameter_name (suc zero) = some "FS_GCS_TIMEOUT"
parameter_name (suc (suc zero)) = some "FS_OPTIONS"
parameter_name (suc (suc (suc zero))) = some "SYSID_MYGCS"
parameter_name _ = none

abbrev parameter_names : List String
parameter_names = "FS_GCS_ENABLE" ∷ "FS_GCS_TIMEOUT" ∷ "FS_OPTIONS" ∷ "SYSID_MYGCS" ∷ []

-- The expected name that an id is.
unfoldable pub expected_name : List String → Bytes → Option String
expected_name [] id = none
expected_name (name ∷ names) id =
    if bytes_eq id (bytes name) then some name else expected_name names id

abbrev name_or_empty : Option String → String
name_or_empty none = ""
name_or_empty (some name) = name

abbrev tell_parameter : Option String → TimePoint → LinkLog → LinkLog
tell_parameter none now l = l
tell_parameter (some name) now l = record_activity inbound "PARAM_VALUE" name now l

abbrev log_in : {D : Type 0} → (LinkLog → LinkLog) → Client D → Client D
log_in f c = record c { listeners = record c.listeners { log = f c.listeners.log } }

module _ {D : Type 0} ⦃m : Mavlink⦄ ⦃d : Doubles D⦄ where
  on_ack : CommandAck → TimePoint → Client D → Client D
  on_ack acknowledgement now c = record c {
    listeners = on_command_ack acknowledgement now c.listeners;
  }

  unfoldable pub on_message : MessageObservation → TimePoint → Client D → Client D
  on_message message now c =
      let name =
        if str_eq message.message_name ""
        then "MSG #" ++ to_string message.message_id
        else message.message_name in
      log_in (record_activity inbound name "" now) c

  -- An id that is none of the expected names is handed on as the empty text, which is none of them
  -- either.
  unfoldable pub on_parameter : ParameterValue D → TimePoint → Client D → Client D
  unfolding expected_name
  on_parameter parameter now c =
      let name = expected_name parameter_names parameter.id in
      log_in (tell_parameter name now) (record c {
        companion_link_failsafe =
            failsafe_on_parameter parameter.source_system parameter.source_component
              (name_or_empty name) parameter.value c.companion_link_failsafe;
      })

  -- The lambdas that the constructor hands over.
  unfoldable pub handlers : Handlers (Client D) D
  unfolding on_ack
  handlers = record {
    command_ack_handler = some on_ack;
    message_handler = some on_message;
    parameter_value_handler = some on_parameter;
  }

module _ {T P D : Type 0} where
  unfoldable pub client_of : Impl T P D → Client D
  client_of s = record {
    listeners = record {
      telemetry_configurator = s.telemetry_configurator;
      flight_startup = s.flight_startup;
      autonomy_runtime = s.autonomy_runtime;
      log = s.log;
    };
    companion_link_failsafe = s.companion_link_failsafe;
  }

  unfoldable pub with_client : Client D → Impl T P D → Impl T P D
  with_client c s = record s {
    telemetry_configurator = c.listeners.telemetry_configurator;
    flight_startup = c.listeners.flight_startup;
    autonomy_runtime = c.listeners.autonomy_runtime;
    log = c.listeners.log;
    companion_link_failsafe = c.companion_link_failsafe;
  }

  unfoldable pub witnessed_of : Impl T P D → Witnessed
  witnessed_of s = record {
    vehicle_was_connected = s.vehicle_was_connected;
    previous_flight_mode = s.previous_flight_mode;
    previous_armed = s.previous_armed;
    autopilot_metadata_was_available = s.autopilot_metadata_was_available;
    log = s.log;
  }

  unfoldable pub with_witnessed : Witnessed → Impl T P D → Impl T P D
  with_witnessed w s = record s {
    vehicle_was_connected = w.vehicle_was_connected;
    previous_flight_mode = w.previous_flight_mode;
    previous_armed = w.previous_armed;
    autopilot_metadata_was_available = w.autopilot_metadata_was_available;
    log = w.log;
  }

  -- The event of a frame that was to be sent.
  unfoldable pub announce : Bool → String → String → TimePoint → Impl T P D → Impl T P D
  announce sent label detail now s = record s {
    log =
        record_event outbound (if sent then pending else failure) label
          (detail ++ (if sent then "" else " | WRITE FAILED")) now s.log;
  }

module _ {T P D : Type 0} (port : Transport T) where
  -- `write_frame`.
  unfoldable pub deliver :
      Bytes → TimePoint → String → String → Impl T P D → Outcome (Bool × Impl T P D)
  deliver frame now message_name detail s = do
    ((sent, t), log) ← write_frame port frame now message_name detail s.transport s.log
    ok (sent, record s { transport = t; log = log })
