-- ===== src/Application/Requests.antt =====
-- application/CompanionApplication: the frames that `poll` sends, each by its schedule, and the actions
-- of the startup and the runtime.
use companion_lab.Prelude.{
  ℕ, ◌+◌, Bool, true, false, not, ◌&&◌, Option, none, some, List, [], ◌∷◌, String, leb,
  if◌then◌else◌,
}
use companion_lab.Prelude.Time.{TimePoint, seconds, milliseconds}
use companion_lab.Prelude.Text.{Bytes, bytes, to_string}
use companion_lab.Prelude.Text.{◌++◌}
use companion_lab.Prelude.Doubles.{Doubles}
use companion_lab.Prelude.Outcomes.{Outcome, ok, defined, or_throw, ◌>>=◌}
use companion_lab.Mavlink.{Mavlink}
use companion_lab.Mavlink.Encoder.{
  Casts, encode_companion_heartbeat, encode_parameter_request_read,
  encode_battery_arming_voltage_request, encode_autopilot_version_request, encode_flight_action,
}
use companion_lab.Vehicle.Snapshot.{VehicleSnapshot}
use companion_lab.Failsafe.{accepts}
use companion_lab.Telemetry.{
  TelemetrySetupPhase, update as telemetry_update, snapshot as telemetry_snapshot,
}
use companion_lab.Flight.{FlightActionRequest}
use companion_lab.Application.Frames.{Transport}
use companion_lab.Application.Labels.{
  flight_action_name, flight_action_message_name, flight_action_detail,
}
use companion_lab.Application.Members.{Impl, parameter_name, announce, deliver}

abbrev is_active : TelemetrySetupPhase → Bool
is_active TelemetrySetupPhase.active = true
is_active _ = false

abbrev pub is_ready : {T P D : Type 0} ⦃m : Mavlink⦄ → Impl T P D → Bool
is_ready s = is_active (telemetry_snapshot s.telemetry_configurator).phase

module _ {T P D : Type 0} where
  -- The next index and time of the requests for the failsafe's parameters.
  unfoldable pub advance : TimePoint → Impl T P D → Impl T P D
  advance now s =
      if leb 4 (s.failsafe_parameter_index + 1)
      then record s {
        failsafe_parameter_index = 0;
        next_failsafe_parameter_request =
            now + (if accepts s.companion_link_failsafe.snapshot then seconds 10 else seconds 2);
      }
      else record s {
        failsafe_parameter_index = s.failsafe_parameter_index + 1;
        next_failsafe_parameter_request = now + milliseconds 200;
      }

module _ {T P D : Type 0} ⦃m : Mavlink⦄ (port : Transport T) where
  -- A frame that is sent, and its event.
  unfoldable pub ask :
      Bytes → TimePoint → String → String → String → String → Impl T P D → Outcome (Impl T P D)
  ask frame now message_name activity label detail s = do
    (sent, t) ← deliver port frame now message_name activity s
    ok (announce sent label detail now t)

  -- The frame for a vehicle that is known and connected.
  unfoldable pub beat_now : Bool → Option ℕ → TimePoint → Impl T P D → Outcome (Impl T P D)
  beat_now connected none now s = ok s
  beat_now false (some system) now s = ok s
  beat_now true (some system) now s = do
    (sent, t) ← deliver port (encode_companion_heartbeat system) now "HEARTBEAT" "" s
    ok (record t {
      companion_heartbeat_active = if sent then true else t.companion_heartbeat_active;
    })

  -- The companion's heartbeat, once a second.
  unfoldable pub beat : VehicleSnapshot D → TimePoint → Impl T P D → Outcome (Impl T P D)
  beat vehicle now s =
      if leb s.next_heartbeat now
      then (beat_now vehicle.connected vehicle.system_id now s >>= λ t.
          ok (record t { next_heartbeat = now + seconds 1 }))
      else ok s

  -- The frame of the telemetry setup.
  abbrev pub set_up : Option Bytes → TimePoint → Impl T P D → Outcome (Impl T P D)
  set_up none now s = ok s
  set_up (some frame) now s =
      let setup = telemetry_snapshot s.telemetry_configurator in
      ask frame now "COMMAND_LONG" ("SET_INTERVAL " ++ setup.current_stream) "SET_INTERVAL"
        (setup.current_stream ++ (" | ATTEMPT " ++ to_string setup.attempt)) s

  unfoldable pub set_up_telemetry :
      VehicleSnapshot D → TimePoint → Impl T P D → Outcome (Impl T P D)
  set_up_telemetry vehicle now s = do
    (configurator, frame) ←
        defined (telemetry_update vehicle.connected vehicle.system_id now s.telemetry_configurator)
    set_up frame now (record s { telemetry_configurator = configurator })

  unfoldable pub read_parameter : ℕ → TimePoint → Impl T P D → Outcome (Impl T P D)
  read_parameter system now s = do
    name ← defined (parameter_name s.failsafe_parameter_index)
    frame ←
        or_throw (encode_parameter_request_read system (bytes name))
          "MAVLink parameter id must contain 1 to 16 characters"
    t ← ask frame now "PARAM_REQUEST_READ" name "PARAM READ" name s
    ok (advance now t)

  unfoldable pub ask_failsafe_parameter :
      Bool → Option ℕ → TimePoint → Impl T P D → Outcome (Impl T P D)
  ask_failsafe_parameter ready none now s = ok s
  ask_failsafe_parameter ready (some system) now s =
      if ready && leb s.next_failsafe_parameter_request now
      then read_parameter system now s
      else ok s

  -- Whether the version is known is an argument.
  unfoldable pub ask_version :
      Bool → Bool → Option ℕ → TimePoint → Impl T P D → Outcome (Impl T P D)
  ask_version ready known none now s = ok s
  ask_version ready known (some system) now s =
      if ready && (not known && leb s.next_autopilot_version_request now)
      then ask (encode_autopilot_version_request system) now "COMMAND_LONG"
          "REQUEST AUTOPILOT_VERSION" "REQUEST_VERSION" "AUTOPILOT_VERSION"
          (record s { next_autopilot_version_request = now + seconds 2 })
      else ok s

  unfoldable pub read_battery_parameter : ℕ → TimePoint → Impl T P D → Outcome (Impl T P D)
  read_battery_parameter system now s = do
    frame ←
        or_throw (encode_battery_arming_voltage_request system)
          "MAVLink parameter id must contain 1 to 16 characters"
    ask frame now "PARAM_REQUEST_READ" "BATT_ARM_VOLT" "PARAM READ" "BATT_ARM_VOLT"
        (record s { next_battery_parameter_request = now + seconds 2 })

  -- Whether the voltage is known is an argument.
  unfoldable pub ask_battery_parameter :
      Bool → Bool → Option ℕ → TimePoint → Impl T P D → Outcome (Impl T P D)
  ask_battery_parameter ready known none now s = ok s
  ask_battery_parameter ready known (some system) now s =
      if ready && (not known && leb s.next_battery_parameter_request now)
      then read_battery_parameter system now s
      else ok s

module _ {T P D : Type 0} ⦃m : Mavlink⦄ ⦃d : Doubles D⦄ ⦃c : Casts D⦄ (port : Transport T) where
  -- An action that is sent, what its component learns of that, and the event.
  unfoldable pub act :
      (FlightActionRequest D → Bool → Impl T P D → Impl T P D)
      → FlightActionRequest D
      → TimePoint
      → Impl T P D
      → Outcome (Impl T P D)
  act on_action_sent action now s = do
    (sent, t) ←
        deliver port (encode_flight_action action) now (flight_action_message_name action.action)
          (flight_action_name action.action) s
    ok (
        announce sent (flight_action_name action.action) (flight_action_detail action) now
          (on_action_sent action sent t))

  unfoldable pub act_all :
      (FlightActionRequest D → Bool → Impl T P D → Impl T P D)
      → List (FlightActionRequest D)
      → TimePoint
      → Impl T P D
      → Outcome (Impl T P D)
  act_all on_action_sent [] now s = ok s
  act_all on_action_sent (action ∷ actions) now s =
      act on_action_sent action now s >>= act_all on_action_sent actions now
