-- ===== src/Flight.antt =====
-- application/FlightCommand: what the companion asks the flight controller to do.
use companion_lab.Prelude.{ℕ, Bool, true, false}
use companion_lab.Prelude.Doubles.{Doubles}

pub data FlightAction : Type 0 where
  set_guided_mode arm takeoff return_to_launch land landing_target : FlightAction

pub data FlightCommandAckOutcome : Type 0 where
  accepted in_progress rejected : FlightCommandAckOutcome

pub record FlightActionRequest (D : Type 0) : Type 0 where
  pub action : FlightAction
  pub vehicle_system_id : ℕ
  pub confirmation : ℕ
  pub altitude_m : D
  pub x_m : D
  pub y_m : D
  pub z_m : D
  pub time_usec : ℕ

-- `==` of the enumeration.
abbrev pub same_action : FlightAction → FlightAction → Bool
same_action set_guided_mode set_guided_mode = true
same_action arm arm = true
same_action takeoff takeoff = true
same_action return_to_launch return_to_launch = true
same_action land land = true
same_action landing_target landing_target = true
same_action _ _ = false

-- A request with the members' initializers for all that a command does not use.
unfoldable pub command_request :
    {D : Type 0} ⦃d : Doubles D⦄ → FlightAction → ℕ → ℕ → FlightActionRequest D
command_request {D} ⦃d⦄ action vehicle confirmation = record {
  action = action;
  vehicle_system_id = vehicle;
  confirmation = confirmation;
  altitude_m = d.of_decimal 0 0;
  x_m = d.of_decimal 0 0;
  y_m = d.of_decimal 0 0;
  z_m = d.of_decimal 0 0;
  time_usec = 0;
}
