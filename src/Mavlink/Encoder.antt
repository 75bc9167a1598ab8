-- ===== src/Mavlink/Encoder.antt =====
-- adapters/mavlink/MavlinkEncoder: the frames that the companion sends, and
-- the choice among them that application/CompanionApplication makes in `encode_flight_action`.
use companion_lab.Prelude.{
  ℕ, zero, suc, ◌||◌, Option, none, some, List, [], ◌∷◌, length, ltb, ◌==◌, if◌then◌else◌,
}
use companion_lab.Prelude.Int.{negsuc}
use companion_lab.Prelude.Text.{Bytes, bytes}
use companion_lab.Prelude.Doubles.{Doubles}
use companion_lab.Mavlink.{Mavlink, companion_component_id, encode_command_long}
use companion_lab.Flight.{
  FlightAction, FlightActionRequest, set_guided_mode, arm, takeoff, land, return_to_launch,
  landing_target,
}

-- `static_cast<float>` of a double, as the number that its bits encode, and `std::sqrt`.
pub record Casts (D : Type 0) : Type 0 where
  pub to_float : D → ℕ
  pub sqrt : D → D

-- An array of characters, zeros at first, into which the text is copied.
unfoldable pub pad : ℕ → Bytes → Bytes
pad zero text = []
pad (suc n) [] = 0 ∷ pad n []
pad (suc n) (c ∷ text) = c ∷ pad n text

module _ ⦃m : Mavlink⦄ where
  -- The seven parameters of a command that uses the first two only.
  abbrev parameters : ℕ → ℕ → List ℕ
  parameters p q =
      let zero_f = m.float_of 0 in p ∷ q ∷ zero_f ∷ zero_f ∷ zero_f ∷ zero_f ∷ zero_f ∷ []

  unfoldable pub encode_companion_heartbeat : ℕ → Bytes
  encode_companion_heartbeat system =
      m.heartbeat system companion_component_id m.type_onboard_controller m.autopilot_invalid 0 0
        m.state_active

  -- `none` is the exception for an id that does not have 1 to 16 characters.
  unfoldable pub encode_parameter_request_read : ℕ → Bytes → Option Bytes
  unfolding pad
  encode_parameter_request_read vehicle parameter_id =
      if length parameter_id == 0 || ltb 16 (length parameter_id)
      then none
      else some (
          m.param_request_read vehicle companion_component_id vehicle m.comp_id_autopilot1
            (pad 16 parameter_id) (negsuc 0))

  unfoldable pub encode_battery_arming_voltage_request : ℕ → Option Bytes
  unfolding encode_parameter_request_read
  encode_battery_arming_voltage_request vehicle =
      encode_parameter_request_read vehicle (bytes "BATT_ARM_VOLT")

  unfoldable pub encode_autopilot_version_request : ℕ → Bytes
  encode_autopilot_version_request vehicle =
      let zero_f = m.float_of 0 in
      encode_command_long vehicle companion_component_id m.cmd_request_message 0 (
        m.float_of m.autopilot_version
        ∷ zero_f
        ∷ zero_f
        ∷ zero_f
        ∷ zero_f
        ∷ zero_f
        ∷ m.float_of 1
        ∷ [])

  unfoldable pub encode_set_guided_mode : ℕ → ℕ → Bytes
  encode_set_guided_mode vehicle confirmation =
      encode_command_long vehicle companion_component_id m.cmd_do_set_mode confirmation
        (parameters (m.float_of m.mode_flag_custom_mode_enabled) (m.float_of 4))

  unfoldable pub encode_arm : ℕ → ℕ → Bytes
  encode_arm vehicle confirmation =
      encode_command_long vehicle companion_component_id m.cmd_component_arm_disarm confirmation
        (parameters (m.float_of 1) (m.float_of 0))

  unfoldable pub encode_land : ℕ → ℕ → Bytes
  encode_land vehicle confirmation =
      encode_command_long vehicle companion_component_id m.cmd_nav_land confirmation
        (parameters (m.float_of 0) (m.float_of 0))

  unfoldable pub encode_return_to_launch : ℕ → ℕ → Bytes
  encode_return_to_launch vehicle confirmation =
      encode_command_long vehicle companion_component_id m.cmd_nav_return_to_launch confirmation
        (parameters (m.float_of 0) (m.float_of 0))

module _ {D : Type 0} ⦃m : Mavlink⦄ ⦃d : Doubles D⦄ ⦃c : Casts D⦄ where
  unfoldable pub encode_takeoff : ℕ → D → ℕ → Bytes
  encode_takeoff vehicle altitude_m confirmation =
      let zero_f = m.float_of 0 in
      encode_command_long vehicle companion_component_id m.cmd_nav_takeoff confirmation
        (zero_f ∷ zero_f ∷ zero_f ∷ zero_f ∷ zero_f ∷ zero_f ∷ c.to_float altitude_m ∷ [])

  unfoldable pub encode_local_position_target : ℕ → D → D → D → Bytes
  encode_local_position_target vehicle north_m east_m down_m =
      let zero_f = m.float_of 0 in
      m.set_position_target_local_ned vehicle companion_component_id 0 vehicle 0
        m.frame_local_offset_ned 3576
        (c.to_float north_m
          ∷ c.to_float east_m
          ∷ c.to_float down_m
          ∷ zero_f
          ∷ zero_f
          ∷ zero_f
          ∷ zero_f
          ∷ zero_f
          ∷ zero_f
          ∷ zero_f
          ∷ zero_f
          ∷ [])

  unfoldable pub encode_landing_target : ℕ → ℕ → D → D → D → Bytes
  encode_landing_target vehicle time_usec forward_m right_m down_m =
      let zero_f = m.float_of 0 in
      let distance =
        c.sqrt (
          d.add (d.add (d.mul forward_m forward_m) (d.mul right_m right_m))
            (d.mul down_m down_m)) in
      m.landing_target vehicle companion_component_id time_usec 0 m.frame_body_frd
        (zero_f ∷ zero_f ∷ c.to_float distance ∷ []) (zero_f ∷ zero_f ∷ [])
        (c.to_float forward_m ∷ c.to_float right_m ∷ c.to_float down_m ∷ [])
        (m.float_of 1 ∷ zero_f ∷ zero_f ∷ zero_f ∷ []) m.landing_target_type_vision_fiducial 1

  -- The `switch` of `encode_flight_action`.
  unfoldable pub encode_action : FlightAction → FlightActionRequest D → Bytes
  encode_action set_guided_mode r = encode_set_guided_mode r.vehicle_system_id r.confirmation
  encode_action arm r = encode_arm r.vehicle_system_id r.confirmation
  encode_action takeoff r = encode_takeoff r.vehicle_system_id r.altitude_m r.confirmation
  encode_action return_to_launch r = encode_return_to_launch r.vehicle_system_id r.confirmation
  encode_action land r = encode_land r.vehicle_system_id r.confirmation
  encode_action landing_target r =
      encode_landing_target r.vehicle_system_id r.time_usec r.x_m r.y_m r.z_m

  unfoldable pub encode_flight_action : FlightActionRequest D → Bytes
  unfolding encode_action
  encode_flight_action r = encode_action r.action r
