-- ===== src/Startup/Update.antt =====
-- application/FlightStartupController: `update`, one round of its loop at a time.
use companion_lab.Prelude.{
  ℕ, zero, suc, ◌+◌, ◌%◌, Bool, true, false, not, ◌&&◌, ◌||◌, Option, none, some, List, [], ◌∷◌,
  String, ltb, leb, if◌then◌else◌, is_some, has,
}
use companion_lab.Prelude.Time.{TimePoint, seconds}
use companion_lab.Prelude.Text.{to_string}
use companion_lab.Prelude.Doubles.{Doubles}
use companion_lab.Prelude.Text.{◌++◌}
use companion_lab.Failsafe.{accepts}
use companion_lab.Flight.{
  FlightAction, set_guided_mode, arm, takeoff, FlightActionRequest, command_request,
}
use companion_lab.Startup.{
  FlightStartupPhase, disabled, waiting_for_vehicle, waiting_for_readiness, setting_guided, arming,
  taking_off, completed, failed, FlightStartupController, Observation, is_multicopter, action_name,
  is_over, is_waiting_for_vehicle, is_waiting_for_readiness, enter_phase, fail, readiness_detail,
}

-- One round of the loop in `update`: `continue`, `return actions`, or a read of an empty optional.
pub data Turn (D : Type 0) : Type 0 where
  again : FlightStartupController D → Turn D
  done : FlightStartupController D → List (FlightActionRequest D) → Turn D
  fault : Turn D

abbrev pub Updated : Type 0 → Type 0
Updated D = Option (FlightStartupController D × List (FlightActionRequest D))

abbrev pub follow : {D : Type 0} → (FlightStartupController D → Updated D) → Turn D → Updated D
follow next (again c) = next c
follow next (done c requests) = some (c, requests)
follow next fault = none

module _ {D : Type 0} ⦃d : Doubles D⦄ where
  altitude_detail : Option D → D → String
  altitude_detail none target = "waiting for altitude / target " ++ (d.general target ++ " m")
  altitude_detail (some altitude) target =
      d.fixed 2 altitude ++ (" m / target " ++ (d.fixed 2 target ++ " m"))

  -- A command for the vehicle, if there is one: `*vehicle_system_id_`.
  issue : FlightAction → TimePoint → Option ℕ → FlightStartupController D → Turn D
  issue action now none c = fault
  issue action now (some vehicle) c =
      done
        (record c {
          attempt = c.attempt + 1;
          awaiting_ack = true;
          acknowledgement_deadline = now + seconds 2;
          detail =
              "Sending "
              ++ (action_name action ++ (" | attempt " ++ (to_string (c.attempt + 1) ++ "/3")));
        })
        (command_request action vehicle (c.attempt % 256) ∷ [])

  -- `update_command`, whose request the caller returns.
  unfoldable pub update_command : FlightAction → TimePoint → FlightStartupController D → Turn D
  unfolding issue
  update_command action now c =
      if c.command_accepted
      then done c []
      else (if c.awaiting_ack && ltb now c.acknowledgement_deadline
          then done c []
          else (if leb 3 c.attempt
              then done
                  (fail ("No COMMAND_ACK for " ++ (action_name action ++ " after 3 attempts"))
                    (record c { awaiting_ack = false }))
                  []
              else issue action now c.vehicle_system_id (record c { awaiting_ack = false })))

  set_altitude : D → List (FlightActionRequest D) → List (FlightActionRequest D)
  set_altitude altitude [] = []
  set_altitude altitude (r ∷ rs) = record r { altitude_m = altitude } ∷ rs

  unfoldable pub with_altitude : D → Turn D → Turn D
  unfolding set_altitude
  with_altitude altitude (again c) = again c
  with_altitude altitude (done c requests) = done c (set_altitude altitude requests)
  with_altitude altitude fault = fault

  unfoldable pub high_enough : D → Option D → Bool
  high_enough target none = false
  high_enough target (some altitude) = d.le (d.sub target (d.of_decimal 35 2)) altitude

  unfoldable pub climb : Observation D → FlightStartupController D → FlightStartupController D
  unfolding altitude_detail
  climb o c = record c {
    detail =
        if c.command_accepted
        then "Climbing: "
          ++ altitude_detail o.vehicle.relative_altitude_m c.config.takeoff_altitude_m
        else c.detail;
  }

  -- The `switch` of `update`.
  unfoldable pub turn : FlightStartupPhase → Observation D → FlightStartupController D → Turn D
  turn waiting_for_vehicle o c =
      if not o.vehicle.connected || not (is_some o.vehicle.system_id)
      then done c []
      else (if not (has o.vehicle.autopilot_type 3) || not (is_multicopter o.vehicle.vehicle_type)
          then done (fail "Autonomy requires an ArduPilot multicopter" c) []
          else again (
              enter_phase waiting_for_readiness o.now
                (record c { vehicle_system_id = o.vehicle.system_id })))
  turn waiting_for_readiness o c =
      if leb c.phase_deadline o.now
      then done (fail "Vehicle did not become ready within 90 seconds" c) []
      else (if o.telemetry_ready
            && (o.vehicle.armable
                && (not o.vehicle.armed
                    && (accepts o.failsafe && is_some o.vehicle.relative_altitude_m)))
          then again (enter_phase setting_guided o.now c)
          else done (record c { detail = readiness_detail o }) [])
  turn setting_guided o c =
      if c.command_accepted && has o.vehicle.flight_mode 4
      then again (enter_phase arming o.now c)
      else (if leb c.phase_deadline o.now
          then done (fail "ArduCopter did not enter GUIDED mode" c) []
          else update_command set_guided_mode o.now c)
  turn arming o c =
      if c.command_accepted && o.vehicle.armed
      then again (enter_phase taking_off o.now c)
      else (if leb c.phase_deadline o.now
          then done (fail "ArduCopter did not become armed" c) []
          else update_command arm o.now c)
  turn taking_off o c =
      if not o.vehicle.armed && c.command_accepted
      then done (fail "Vehicle disarmed during takeoff" c) []
      else (if c.command_accepted
            && high_enough c.config.takeoff_altitude_m o.vehicle.relative_altitude_m
          then done
              (record c {
                phase = completed;
                detail = "Takeoff complete; autonomy may start";
                attempt = 0;
                awaiting_ack = false;
              })
              []
          else (if leb c.phase_deadline o.now
              then done (fail "Vehicle did not reach takeoff altitude" c) []
              else with_altitude c.config.takeoff_altitude_m
                  (update_command takeoff o.now (climb o c))))
  turn disabled o c = done c []
  turn completed o c = done c []
  turn failed o c = done c []

  -- The loop of `update`, at most `rounds` times round; `none` is undefined behaviour.
  unfoldable pub loop : ℕ → Observation D → FlightStartupController D → Updated D
  loop zero o c = some (fail "Flight startup made too many immediate transitions" c, [])
  loop (suc rounds) o c = follow (loop rounds o) (turn c.phase o c)

  unfoldable pub update : Observation D → FlightStartupController D → Updated D
  update o c =
      if is_over c.phase
      then some (c, [])
      else (if not (is_waiting_for_vehicle c.phase) && not o.vehicle.connected
          then some (fail "Flight-controller heartbeat was lost during startup" c, [])
          else (if not (is_waiting_for_vehicle c.phase)
                && (not (is_waiting_for_readiness c.phase) && not (accepts o.failsafe))
              then some
                  (fail ("Companion-link failsafe is no longer valid: " ++ o.failsafe.detail) c, [])
              else loop 8 o c))
