-- ===== src/Mavlink.antt =====
-- adapters/mavlink: what the MAVLink library offers, as an interface, and the part of MavlinkEncoder
-- and CommandAck that the telemetry setup uses. The encoder's flight commands stand in the module
-- `Encoder`.
pub mod Encoder
pub mod Messages
pub mod Values
pub mod Decoder
mod Tests
use companion_lab.Prelude.{ℕ, List, [], ◌∷◌}
use companion_lab.Prelude.Int.{ℤ}
use companion_lab.Prelude.Text.{Bytes}

-- The constants and functions of the generated MAVLink headers. A `float` is the number that its
-- 32 bits encode.
pub record Mavlink : Type 0 where
  pub sys_status : ℕ
  pub gps_raw_int : ℕ
  pub battery_status : ℕ
  pub global_position_int : ℕ
  pub local_position_ned : ℕ
  pub attitude : ℕ
  pub cmd_set_message_interval : ℕ
  pub cmd_request_message : ℕ
  pub cmd_do_set_mode : ℕ
  pub cmd_component_arm_disarm : ℕ
  pub cmd_nav_takeoff : ℕ
  pub cmd_nav_land : ℕ
  pub cmd_nav_return_to_launch : ℕ
  pub result_accepted : ℕ
  pub result_temporarily_rejected : ℕ
  pub result_denied : ℕ
  pub result_unsupported : ℕ
  pub result_failed : ℕ
  pub result_cancelled : ℕ
  pub result_in_progress : ℕ
  pub mode_flag_custom_mode_enabled : ℕ
  pub frame_body_frd : ℕ
  pub landing_target_type_vision_fiducial : ℕ
  pub autopilot_version : ℕ
  pub autopilot_invalid : ℕ
  pub type_onboard_controller : ℕ
  pub state_active : ℕ
  pub comp_id_autopilot1 : ℕ
  pub frame_local_offset_ned : ℕ
  -- `static_cast<float>`.
  pub float_of : ℕ → ℕ
  -- `mavlink_msg_command_long_pack` and `mavlink_msg_to_send_buffer`: the sender's system and
  -- component, the target system and component, the command, the confirmation, the parameters.
  pub command_long : ℕ → ℕ → ℕ → ℕ → ℕ → ℕ → List ℕ → Bytes
  -- `mavlink_msg_landing_target_pack` and `mavlink_msg_to_send_buffer`: the sender's system and
  -- component, the time, the number of the target, the frame, the angles and the distance, the sizes,
  -- the position, the orientation, the type, and whether the position is valid.
  pub landing_target : ℕ → ℕ → ℕ → ℕ → ℕ → List ℕ → List ℕ → List ℕ → List ℕ → ℕ → ℕ → Bytes
  -- `mavlink_msg_heartbeat_pack` and the buffer: the sender's system and component, the type, the
  -- autopilot, the base mode, the custom mode, the status.
  pub heartbeat : ℕ → ℕ → ℕ → ℕ → ℕ → ℕ → ℕ → Bytes
  -- `mavlink_msg_param_request_read_pack` and the buffer: the sender's system and component, the
  -- target system and component, the array of the id's characters, the index.
  pub param_request_read : ℕ → ℕ → ℕ → ℕ → Bytes → ℤ → Bytes
  -- `mavlink_msg_set_position_target_local_ned_pack` and the buffer: the sender's system and
  -- component, the time, the target system and component, the frame, the mask, the floats.
  pub set_position_target_local_ned : ℕ → ℕ → ℕ → ℕ → ℕ → ℕ → ℕ → List ℕ → Bytes

pub record CommandAck : Type 0 where
  pub source_system : ℕ
  pub source_component : ℕ
  pub command : ℕ
  pub result : ℕ
  pub progress : ℕ
  pub result_parameter : ℤ
  pub target_system : ℕ
  pub target_component : ℕ

abbrev pub companion_component_id : ℕ
companion_component_id = 191

module _ ⦃m : Mavlink⦄ where
  unfoldable pub encode_command_long : ℕ → ℕ → ℕ → ℕ → List ℕ → Bytes
  encode_command_long vehicle component command confirmation parameters =
      m.command_long vehicle component vehicle 0 command confirmation parameters

  unfoldable pub encode_set_message_interval : ℕ → ℕ → ℕ → ℕ → Bytes
  unfolding encode_command_long
  encode_set_message_interval vehicle message_id interval_microseconds confirmation =
      let zero_f = m.float_of 0 in
      encode_command_long vehicle companion_component_id m.cmd_set_message_interval confirmation (
        m.float_of message_id
        ∷ m.float_of interval_microseconds
        ∷ zero_f
        ∷ zero_f
        ∷ zero_f
        ∷ zero_f
        ∷ zero_f
        ∷ [])
