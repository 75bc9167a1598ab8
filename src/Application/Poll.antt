-- ===== src/Application/Poll.antt =====
-- application/CompanionApplication: the frames that `poll` sends, each by its schedule, and the actions
-- of the startup and the runtime.
use companion_lab.Prelude.{is_some, Bool, String}
use companion_lab.Prelude.Time.{TimePoint}
use companion_lab.Prelude.Doubles.{Doubles}
use companion_lab.Prelude.Outcomes.{Outcome, ok, outside, defined, ◌>>=◌}
use companion_lab.Mavlink.{Mavlink}
use companion_lab.Mavlink.Messages.{Messages, Framing}
use companion_lab.Mavlink.Decoder.{ingest}
use companion_lab.Mavlink.Encoder.{Casts}
use companion_lab.Vehicle.Snapshot.{VehicleSnapshot, snapshot as vehicle_snapshot}
use companion_lab.Flight.{FlightActionRequest}
use companion_lab.Startup.{snapshot as startup_snapshot}
use companion_lab.Startup.Update.{update as startup_update}
use companion_lab.Startup.Acks.{on_action_sent as startup_on_action_sent}
use companion_lab.Runtime.{on_action_sent as runtime_on_action_sent}
use companion_lab.Runtime.Update.{update as runtime_update}
use companion_lab.Application.Frames.{Transport}
use companion_lab.Application.Watch.{Surroundings, watch, meet_vehicle, current_landing_target}
use companion_lab.Application.Requests.{
  is_ready, beat, set_up_telemetry, ask_failsafe_parameter, ask_version, ask_battery_parameter,
  act_all,
}
use companion_lab.Application.Members.{Impl, handlers, client_of, with_client}

abbrev pub startup_sent : {T P D : Type 0} → FlightActionRequest D → Bool → Impl T P D → Impl T P D
startup_sent action sent s = record s {
  flight_startup = startup_on_action_sent action sent s.flight_startup;
}

abbrev pub runtime_sent :
    {T P D : Type 0} ⦃d : Doubles D⦄ → FlightActionRequest D → Bool → Impl T P D → Impl T P D
runtime_sent action sent s = record s {
  autonomy_runtime = runtime_on_action_sent action sent s.autonomy_runtime;
}

module _ {T P D : Type 0} ⦃m : Mavlink⦄ ⦃d : Doubles D⦄ ⦃c : Casts D⦄ (port : Transport T) where
  unfoldable pub run_startup :
      Bool → VehicleSnapshot D → TimePoint → Impl T P D → Outcome (Impl T P D)
  run_startup ready vehicle now s = do
    (startup, actions) ← defined (
        startup_update
          (record {
            vehicle = vehicle;
            telemetry_ready = ready;
            failsafe = s.companion_link_failsafe.snapshot;
            now = now;
          })
          s.flight_startup)
    act_all port startup_sent actions now (record s { flight_startup = startup })

  unfoldable pub run_autonomy :
      String → VehicleSnapshot D → TimePoint → Impl T P D → Outcome (Impl T P D)
  run_autonomy description vehicle now s = do
    target ← current_landing_target description now s
    (runtime, actions) ← defined (
        runtime_update
          (record {
            vehicle = vehicle;
            startup = startup_snapshot s.flight_startup;
            failsafe = s.companion_link_failsafe.snapshot;
            now = now;
            target = target;
          })
          s.autonomy_runtime)
    act_all port runtime_sent actions now (record s { autonomy_runtime = runtime })

  -- All that follows the snapshot of the vehicle.
  unfoldable pub serve : String → VehicleSnapshot D → TimePoint → Impl T P D → Outcome (Impl T P D)
  serve description vehicle now s = do
    s1 ← beat port vehicle now (meet_vehicle vehicle now s)
    s2 ← set_up_telemetry port vehicle now s1
    let ready = is_ready s2
    s3 ← ask_failsafe_parameter port ready vehicle.system_id now s2
    s4 ← ask_version port ready (is_some vehicle.autopilot_metadata) vehicle.system_id now s3
    s5 ←
        ask_battery_parameter port ready (is_some vehicle.battery_arming_voltage_v)
          vehicle.system_id now s4
    s6 ← run_startup ready vehicle now s5
    run_autonomy description vehicle now s6

module _ {T P M D : Type 0} ⦃m : Mavlink⦄ ⦃d : Doubles D⦄ ⦃c : Casts D⦄ (port : Transport T)
    (framing : Framing P M) (lib : Messages M D) where
  -- What the transport has, decoded. An empty read completes no message.
  unfoldable pub receive : TimePoint → Impl T P D → Outcome (Impl T P D)
  receive now s = do
    (received, transport) ← outside (port.read s.transport)
    let (receive_state, sinks) =
        ingest framing lib handlers received now
          (s.receive_state, record { vehicle = s.vehicle_state; client = client_of s })
    ok (record (with_client sinks.client s) {
      transport = transport;
      receive_state = receive_state;
      vehicle_state = sinks.vehicle;
    })

  unfoldable pub poll : Surroundings D → Impl T P D → Outcome (Impl T P D)
  poll e s = do
    watched ← watch e s
    heard ← receive e.now watched
    let (vehicle_state, vehicle) = vehicle_snapshot e.now heard.vehicle_state
    serve port e.description vehicle e.now (record heard { vehicle_state = vehicle_state })
