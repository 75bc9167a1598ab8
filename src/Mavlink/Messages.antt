-- ===== src/Mavlink/Messages.antt =====
-- adapters/mavlink/MavlinkDecoder: the messages of the MAVLink library and its decoders of payloads, as
-- an interface.
use companion_lab.Prelude.{ℕ, Option, List, String}
use companion_lab.Prelude.Int.{ℤ}
use companion_lab.Prelude.Text.{Bytes}

-- The decoded payloads of the library, as far as the decoder reads them. A `float` is the number that
-- its bits encode.
pub record BatteryStatus : Type 0 where
  pub voltages : List ℕ
  pub voltages_ext : List ℕ
  pub current_battery : ℤ
  pub battery_remaining : ℤ

pub record SysStatus : Type 0 where
  pub sensors_enabled : ℕ
  pub sensors_health : ℕ
  pub voltage_battery : ℕ
  pub current_battery : ℤ
  pub battery_remaining : ℤ

pub record AutopilotVersion : Type 0 where
  pub flight_sw_version : ℕ
  pub capabilities : ℕ
  pub board_version : ℕ
  pub vendor_id : ℕ
  pub product_id : ℕ

pub record ParamValue : Type 0 where
  pub param_value : ℕ
  pub param_id : Bytes
  pub param_type : ℕ

pub record HeartbeatPayload : Type 0 where
  pub vehicle_type : ℕ
  pub autopilot : ℕ
  pub base_mode : ℕ
  pub custom_mode : ℕ
  pub system_status : ℕ

pub record CommandAckPayload : Type 0 where
  pub command : ℕ
  pub result : ℕ
  pub progress : ℕ
  pub result_param2 : ℤ
  pub target_system : ℕ
  pub target_component : ℕ

-- Messages `M` of the library: their headers, the ids of the `switch` that Mavlink does not have, and
-- the decoders.
pub record Messages (M D : Type 0) : Type 0 where
  pub msgid : M → ℕ
  pub sysid : M → ℕ
  pub compid : M → ℕ
  -- The name of a message id, if the library knows it.
  pub info_name : ℕ → Option String
  pub id_heartbeat : ℕ
  pub id_param_value : ℕ
  pub id_statustext : ℕ
  pub id_command_ack : ℕ
  pub heartbeat : M → HeartbeatPayload
  -- The kind of fix and the number of satellites; the altitude; three floats each.
  pub gps_raw_int : M → ℕ × ℕ
  pub global_position_int : M → ℤ
  pub local_position_ned : M → ℕ × ℕ × ℕ
  pub attitude : M → ℕ × ℕ × ℕ
  pub battery_status : M → BatteryStatus
  pub sys_status : M → SysStatus
  pub autopilot_version : M → AutopilotVersion
  pub param_value : M → ParamValue
  -- The severity and the array of characters.
  pub statustext : M → ℕ × Bytes
  pub command_ack : M → CommandAckPayload
  -- A `float` as a `double`.
  pub widen : ℕ → D

-- `mavlink_frame_char_buffer`: the parser's state after a byte, and the message that it completes.
pub record Framing (P M : Type 0) : Type 0 where
  pub frame_char : P → ℕ → P × Option M
