-- ===== src/Application/Labels.antt =====
-- application/CompanionApplication: how the log names actions and flight modes.
use companion_lab.Prelude.{ℕ, ◌+◌, String, ◌==◌, if◌then◌else◌}
use companion_lab.Prelude.Text.{to_string}
use companion_lab.Prelude.Text.{◌++◌}
use companion_lab.Prelude.Doubles.{Doubles}
use companion_lab.Flight.{
  FlightAction, FlightActionRequest, set_guided_mode, arm, takeoff, land, return_to_launch,
  landing_target,
}

unfoldable pub flight_action_name : FlightAction → String
flight_action_name set_guided_mode = "SET_MODE"
flight_action_name arm = "ARM"
flight_action_name takeoff = "TAKEOFF"
flight_action_name return_to_launch = "RTL"
flight_action_name land = "LAND"
flight_action_name landing_target = "LANDING_TARGET"

unfoldable pub flight_action_message_name : FlightAction → String
flight_action_message_name landing_target = "LANDING_TARGET"
flight_action_message_name _ = "COMMAND_LONG"

module _ {D : Type 0} ⦃d : Doubles D⦄ where
  -- The `switch`, and the attempt behind the actions that expect an acknowledgement.
  detail_of : FlightAction → FlightActionRequest D → String → String
  detail_of set_guided_mode r attempt = "GUIDED" ++ attempt
  detail_of arm r attempt = "SAFETY CHECKS ON" ++ attempt
  detail_of takeoff r attempt = (d.fixed 1 r.altitude_m ++ " M") ++ attempt
  detail_of return_to_launch r attempt = "RETURN TO HOME" ++ attempt
  detail_of land r attempt = "LAND MODE" ++ attempt
  detail_of landing_target r attempt =
      "F/R/D "
      ++ (d.fixed 1 r.x_m ++ ("/" ++ (d.fixed 1 r.y_m ++ ("/" ++ (d.fixed 1 r.z_m ++ " M")))))

  unfoldable pub flight_action_detail : FlightActionRequest D → String
  unfolding detail_of
  flight_action_detail r = detail_of r.action r (" | ATTEMPT " ++ to_string (r.confirmation + 1))

unfoldable pub flight_mode_name : ℕ → String
flight_mode_name mode =
    if mode == 0
    then "STABILIZE"
    else (if mode == 3
        then "AUTO"
        else (if mode == 4
            then "GUIDED"
            else (if mode == 5
                then "LOITER"
                else (if mode == 6
                    then "RTL"
                    else (if mode == 9
                        then "LAND"
                        else (if mode == 16
                            then "POSITION HOLD"
                            else "MODE " ++ to_string mode))))))
