-- ===== src/Startup/Effects.antt =====
-- application/FlightStartupController: the effect of an acknowledgement.
use companion_lab.Prelude.{ℕ, ◌+◌, ◌≡◌, ◌⊎◌, true, false, some, arith}
use companion_lab.Prelude.Time.{TimePoint, seconds}
use companion_lab.Flight.{FlightAction, FlightCommandAckOutcome}
use companion_lab.Startup.{failed, FlightStartupController, expected_action, fail}
use companion_lab.Startup.Acks.{on_command_ack}

module _ {D : Type 0} where
  -- The acknowledgement is of the command that the phase waits for, and from the known vehicle.
  abbrev pub Expected : FlightAction → ℕ → FlightStartupController D → Type 0
  Expected action source c =
      (expected_action c.phase ≡ some action)
      × (c.awaiting_ack ≡ true)
      × (c.vehicle_system_id ≡ some source)

  -- What an expected acknowledgement does, by its outcome.
  abbrev pub Effect :
      FlightCommandAckOutcome
      → ℕ
      → TimePoint
      → FlightStartupController D
      → FlightStartupController D
      → Type 0
  Effect FlightCommandAckOutcome.accepted raw now c c' =
      (c'.phase ≡ c.phase) × (c'.command_accepted ≡ true) × (c'.awaiting_ack ≡ false)
  Effect FlightCommandAckOutcome.in_progress raw now c c' =
      (c'.phase ≡ c.phase)
      × (c'.awaiting_ack ≡ true)
      × (c'.acknowledgement_deadline ≡ now + seconds 2)
  Effect FlightCommandAckOutcome.rejected raw now c c' =
      (c'.phase ≡ failed) × (c'.awaiting_ack ≡ false) × (c'.failure_result ≡ some raw)

  -- An acknowledgement that is not expected changes nothing. An expected one that accepts ends the
  -- wait and is remembered, one that reports progress prolongs the wait to two seconds from now, one
  -- that rejects fails the startup with its result; only the last leaves the phase.
  pub on_command_ack-Effect :
      (action : FlightAction) (outcome : FlightCommandAckOutcome) (raw source : ℕ) (now : TimePoint)
      (c : FlightStartupController D)
      → let c' = on_command_ack action outcome raw source now c in
        (¬ Expected action source c × (c' ≡ c))
        ⊎ (Expected action source c × Effect outcome raw now c c')
  unfolding on_command_ack fail
  on_command_ack-Effect action FlightCommandAckOutcome.accepted raw source now c = ground arith
  on_command_ack-Effect action FlightCommandAckOutcome.in_progress raw source now c = ground arith
  on_command_ack-Effect action FlightCommandAckOutcome.rejected raw source now c = ground arith
