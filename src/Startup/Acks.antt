-- ===== src/Startup/Acks.antt =====
-- application/FlightStartupController: what became of a command.
use companion_lab.Prelude.{
  ℕ, ◌+◌, Bool, true, false, not, ◌||◌, none, some, leb, if◌then◌else◌, has,
}
use companion_lab.Prelude.Time.{TimePoint, seconds}
use companion_lab.Prelude.Text.{to_string}
use companion_lab.Prelude.Text.{◌++◌}
use companion_lab.Flight.{FlightAction, FlightCommandAckOutcome, FlightActionRequest, same_action}
use companion_lab.Startup.{FlightStartupController, action_name, expected_action, fail}

module _ {D : Type 0} where
  unfoldable pub on_action_sent :
      FlightActionRequest D → Bool → FlightStartupController D → FlightStartupController D
  on_action_sent request sent c = elim (expected_action c.phase) [
    | none ↦ c
    | some expected ↦
        let unsent = record c { awaiting_ack = false } in
        if not (same_action request.action expected) || sent
        then c
        else (if leb 3 c.attempt
            then fail ("Failed to send " ++ action_name request.action) unsent
            else unsent)
  ]

  acknowledge :
      FlightAction
      → FlightCommandAckOutcome
      → ℕ
      → TimePoint
      → FlightStartupController D
      → FlightStartupController D
  acknowledge action FlightCommandAckOutcome.accepted raw_result now c = record c {
    awaiting_ack = false;
    command_accepted = true;
    detail = action_name action ++ " accepted; verifying vehicle state";
  }
  acknowledge action FlightCommandAckOutcome.in_progress raw_result now c = record c {
    acknowledgement_deadline = now + seconds 2;
    detail = action_name action ++ " is in progress";
  }
  acknowledge action FlightCommandAckOutcome.rejected raw_result now c =
      fail (action_name action ++ (" was rejected with MAV_RESULT " ++ to_string raw_result))
        (record c { failure_result = some raw_result })

  unfoldable pub on_command_ack :
      FlightAction
      → FlightCommandAckOutcome
      → ℕ
      → ℕ
      → TimePoint
      → FlightStartupController D
      → FlightStartupController D
  unfolding acknowledge
  on_command_ack action outcome raw_result source_system now c = elim (expected_action c.phase) [
    | none ↦ c
    | some expected ↦
        if not (same_action action expected)
          || (not c.awaiting_ack || not (has c.vehicle_system_id source_system))
        then c
        else acknowledge action outcome raw_result now c
  ]
