-- ===== src/Mavlink/Decoder.antt =====
-- adapters/mavlink/MavlinkDecoder: what a received message does to the vehicle state and to the three
-- handlers. The parser of the MAVLink library and its decoders of payloads are an interface.
pub mod Payloads
pub mod Dispatch
use companion_lab.Prelude.{
  ℕ, zero, suc, ◌+◌, ◌/◌, ◌%◌, Bool, true, false, not, ◌&&◌, Option, none, some, List, [], ◌∷◌,
  String, ltb, ◌==◌, if◌then◌else◌,
}
use companion_lab.Prelude.Int.{ℤ, pos, negsuc}
use companion_lab.Prelude.Time.{TimePoint}
use companion_lab.Prelude.Text.{Bytes, bytes, bytes_eq}
use companion_lab.Prelude.Doubles.{Doubles}
use mathlib.Core.List.{◌++◌ as append}
use companion_lab.Mavlink.{Mavlink, CommandAck}
use companion_lab.Mavlink.Messages.{Messages, Framing}
use companion_lab.Mavlink.Values.{
  battery_voltage, current_from_centiampere, remaining_percent, system_voltage, text_of,
  metadata_of,
}
use companion_lab.Vehicle.{
  VehicleState, Heartbeat, AutopilotMetadata, on_heartbeat, on_gps, on_global_position,
  on_local_position, on_attitude, on_battery, on_system_status, on_autopilot_metadata,
  on_battery_arming_voltage, on_status_text,
}

pub record MessageObservation : Type 0 where
  pub message_id : ℕ
  pub source_system : ℕ
  pub source_component : ℕ
  pub message_name : String

pub record ParameterValue (D : Type 0) : Type 0 where
  pub source_system : ℕ
  pub source_component : ℕ
  pub id : Bytes
  pub value : D
  pub kind : ℕ

-- The handlers, which change a state `S` of their own; an empty function is not called.
pub record Handlers (S D : Type 0) : Type 0 where
  pub command_ack_handler : Option (CommandAck → TimePoint → S → S)
  pub message_handler : Option (MessageObservation → TimePoint → S → S)
  pub parameter_value_handler : Option (ParameterValue D → TimePoint → S → S)

-- The vehicle state that the decoder refers to, and what its handlers change.
pub record Sinks (S D : Type 0) : Type 0 where
  pub vehicle : VehicleState D
  pub client : S

-- The labels of the `switch`.
pub data Label : Type 0 where
  heartbeat gps_raw_int global_position_int local_position_ned attitude battery_status : Label
  sys_status autopilot_version param_value statustext command_ack other : Label

module _ {M D : Type 0} ⦃m : Mavlink⦄ (lib : Messages M D) where
  unfoldable pub label_of : ℕ → Label
  label_of id =
      if id == lib.id_heartbeat
      then heartbeat
      else (if id == m.gps_raw_int
          then gps_raw_int
          else (if id == m.global_position_int
              then global_position_int
              else (if id == m.local_position_ned
                  then local_position_ned
                  else (if id == m.attitude
                      then attitude
                      else (if id == m.battery_status
                          then battery_status
                          else (if id == m.sys_status
                              then sys_status
                              else (if id == m.autopilot_version
                                  then autopilot_version
                                  else (if id == lib.id_param_value
                                      then param_value
                                      else (if id == lib.id_statustext
                                          then statustext
                                          else (if id == lib.id_command_ack
                                              then command_ack
                                              else other))))))))))

abbrev pub call {ℓ κ} :
    {A : Type ℓ} {S : Type κ} → Option (A → TimePoint → S → S) → A → TimePoint → S → S
call none a now s = s
call (some handler) a now s = handler a now s

module _ {M D : Type 0} (lib : Messages M D) where
  unfoldable pub parameter_of : M → ParameterValue D
  unfolding text_of
  parameter_of message =
      let parameter = lib.param_value message in
      record {
        source_system = lib.sysid message;
        source_component = lib.compid message;
        id = text_of parameter.param_id;
        value = lib.widen parameter.param_value;
        kind = parameter.param_type;
      }

  unfoldable pub acknowledgement_of : M → CommandAck
  acknowledgement_of message =
      let a = lib.command_ack message in
      record {
        source_system = lib.sysid message;
        source_component = lib.compid message;
        command = a.command;
        result = a.result;
        progress = a.progress;
        result_parameter = a.result_param2;
        target_system = a.target_system;
        target_component = a.target_component;
      }

abbrev name_or_empty : Option String → String
name_or_empty none = ""
name_or_empty (some name) = name

module _ {M D : Type 0} (lib : Messages M D) where
  unfoldable pub observation_of : M → MessageObservation
  observation_of message = record {
    message_id = lib.msgid message;
    source_system = lib.sysid message;
    source_component = lib.compid message;
    message_name = name_or_empty (lib.info_name (lib.msgid message));
  }

abbrev pub observed : {S D : Type 0} → (VehicleState D → VehicleState D) → Sinks S D → Sinks S D
observed f s = record s { vehicle = f s.vehicle }

module _ {M D S : Type 0} ⦃m : Mavlink⦄ ⦃d : Doubles D⦄ (lib : Messages M D) where
  -- The cases of the `switch`.
  unfoldable pub handle : Handlers S D → Label → M → TimePoint → Sinks S D → Sinks S D
  unfolding parameter_of acknowledgement_of
  handle h heartbeat message now s =
      let b = lib.heartbeat message in
      if b.autopilot == m.autopilot_invalid
      then s
      else observed
          (on_heartbeat
            (record {
              system_id = lib.sysid message;
              component_id = lib.compid message;
              vehicle_type = b.vehicle_type;
              autopilot_type = b.autopilot;
              base_mode = b.base_mode;
              custom_mode = b.custom_mode;
              system_status = b.system_status;
            })
            now)
          s
  handle h gps_raw_int message now s =
      let (fix_type, satellites) = lib.gps_raw_int message in
      observed (on_gps fix_type satellites now) s
  handle h global_position_int message now s =
      observed (on_global_position (lib.global_position_int message) now) s
  handle h local_position_ned message now s =
      let (x, y, z) = lib.local_position_ned message in
      observed (on_local_position (lib.widen x) (lib.widen y) (lib.widen z) now) s
  handle h attitude message now s =
      let (roll, pitch, yaw) = lib.attitude message in
      observed (on_attitude (lib.widen roll) (lib.widen pitch) (lib.widen yaw) now) s
  handle h battery_status message now s =
      let battery = lib.battery_status message in
      observed
        (on_battery (battery_voltage battery) (current_from_centiampere battery.current_battery)
          (remaining_percent battery.battery_remaining) now)
        s
  handle h sys_status message now s =
      let status = lib.sys_status message in
      observed
        (on_system_status status.sensors_enabled status.sensors_health (system_voltage status)
          (current_from_centiampere status.current_battery)
          (remaining_percent status.battery_remaining) now)
        s
  handle h autopilot_version message now s =
      if not (lib.compid message == m.comp_id_autopilot1)
      then s
      else observed (on_autopilot_metadata (metadata_of (lib.autopilot_version message))) s
  handle h param_value message now s =
      let parameter = parameter_of lib message in
      let t =
        if bytes_eq parameter.id (bytes "BATT_ARM_VOLT")
        then observed (on_battery_arming_voltage parameter.value) s
        else s in
      record t { client = call h.parameter_value_handler parameter now t.client }
  handle h statustext message now s =
      let (severity, text) = lib.statustext message in
      observed (on_status_text severity (text_of text) now) s
  handle h command_ack message now s = record s {
    client = call h.command_ack_handler (acknowledgement_of lib message) now s.client;
  }
  handle h other message now s = s

module _ {M D S : Type 0} ⦃m : Mavlink⦄ ⦃d : Doubles D⦄ (lib : Messages M D) where
  unfoldable pub handle_message : Handlers S D → M → TimePoint → Sinks S D → Sinks S D
  handle_message h message now s = handle lib h (label_of lib (lib.msgid message)) message now s

module _ {P M D S : Type 0} ⦃m : Mavlink⦄ ⦃d : Doubles D⦄ (framing : Framing P M)
    (lib : Messages M D) (h : Handlers S D) where
  -- What a completed message causes.
  unfoldable pub receive : Option M → TimePoint → Sinks S D → Sinks S D
  unfolding observation_of
  receive none now s = s
  receive (some message) now s =
      handle_message lib h message now
        (record s { client = call h.message_handler (observation_of lib message) now s.client })

  unfoldable pub ingest : Bytes → TimePoint → P × Sinks S D → P × Sinks S D
  ingest [] now (p, s) = (p, s)
  ingest (b ∷ bs) now (p, s) =
      let (p', message) = framing.frame_char p b in ingest bs now (p', receive message now s)
