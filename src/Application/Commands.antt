-- ===== src/Application/Commands.antt =====
-- application/CompanionApplication: the command that a request becomes, and the action that its
-- acknowledgement is taken for.
use companion_lab.Prelude.{ℕ, ◌≡◌, refl, ◌≢◌, ◌⊎◌, inl, inr, some, List, arith}
use companion_lab.Prelude.Text.{Bytes}
use companion_lab.Prelude.Doubles.{Doubles}
use companion_lab.Mavlink.{Mavlink, companion_component_id, encode_command_long}
use companion_lab.Mavlink.Encoder.{
  Casts, encode_set_guided_mode, encode_arm, encode_takeoff, encode_land, encode_return_to_launch,
  encode_action, encode_flight_action,
}
use companion_lab.Flight.{
  FlightAction, FlightActionRequest, set_guided_mode, arm, takeoff, land, return_to_launch,
  landing_target,
}
use companion_lab.Application.Acks.{map_flight_action}

module _ ⦃m : Mavlink⦄ where
  -- The commands of a flight differ: they are labels of one `switch`.
  pub record AreDistinct : Type 0 where
    pub arm_mode : m.cmd_component_arm_disarm ≢ m.cmd_do_set_mode
    pub takeoff_mode : m.cmd_nav_takeoff ≢ m.cmd_do_set_mode
    pub takeoff_arm : m.cmd_nav_takeoff ≢ m.cmd_component_arm_disarm
    pub land_mode : m.cmd_nav_land ≢ m.cmd_do_set_mode
    pub land_arm : m.cmd_nav_land ≢ m.cmd_component_arm_disarm
    pub land_takeoff : m.cmd_nav_land ≢ m.cmd_nav_takeoff
    pub return_mode : m.cmd_nav_return_to_launch ≢ m.cmd_do_set_mode
    pub return_arm : m.cmd_nav_return_to_launch ≢ m.cmd_component_arm_disarm
    pub return_takeoff : m.cmd_nav_return_to_launch ≢ m.cmd_nav_takeoff
    pub return_land : m.cmd_nav_return_to_launch ≢ m.cmd_nav_land

  -- The frame is a command for the vehicle, from the companion, whose acknowledgement is taken for
  -- this action.
  pub record IsCommand (action : FlightAction) (vehicle confirmation : ℕ) (frame : Bytes)
      : Type 0 where
    pub command : ℕ
    pub parameters : List ℕ
    pub encoded :
        frame
        ≡ m.command_long vehicle companion_component_id vehicle 0 command confirmation parameters
    pub mapped : map_flight_action command ≡ some action

module _ {D : Type 0} ⦃m : Mavlink⦄ ⦃d : Doubles D⦄ ⦃c : Casts D⦄ where
  action-IsCommand :
      (h : AreDistinct) (a : FlightAction) (r : FlightActionRequest D)
      → (a ≡ landing_target) ⊎ IsCommand a r.vehicle_system_id r.confirmation (encode_action a r)
  unfolding encode_action encode_set_guided_mode encode_arm encode_takeoff encode_land
      encode_return_to_launch encode_command_long map_flight_action
  action-IsCommand h set_guided_mode r = inr (record {
    command = m.cmd_do_set_mode;
    parameters = _;
    encoded = refl;
    mapped = ground arith;
  })
  action-IsCommand h arm r = inr (record {
    command = m.cmd_component_arm_disarm;
    parameters = _;
    encoded = refl;
    mapped = ground (arith, h.arm_mode);
  })
  action-IsCommand h takeoff r = inr (record {
    command = m.cmd_nav_takeoff;
    parameters = _;
    encoded = refl;
    mapped = ground (arith, h.takeoff_mode, h.takeoff_arm);
  })
  action-IsCommand h land r = inr (record {
    command = m.cmd_nav_land;
    parameters = _;
    encoded = refl;
    mapped = ground (arith, h.land_mode, h.land_arm, h.land_takeoff);
  })
  action-IsCommand h return_to_launch r = inr (record {
    command = m.cmd_nav_return_to_launch;
    parameters = _;
    encoded = refl;
    mapped = ground (arith, h.return_mode, h.return_arm, h.return_takeoff, h.return_land);
  })
  action-IsCommand h landing_target r = inl refl

  -- If the commands of a flight differ, every request but a landing target becomes a COMMAND_LONG
  -- from the companion to the request's vehicle with its confirmation, whose acknowledgement is taken
  -- for the same action.
  pub encode_flight_action-IsCommand :
      (h : AreDistinct) (r : FlightActionRequest D)
      → (r.action ≡ landing_target)
        ⊎ IsCommand r.action r.vehicle_system_id r.confirmation (encode_flight_action r)
  unfolding encode_flight_action
  encode_flight_action-IsCommand h r = action-IsCommand h r.action r
