-- ===== src/Telemetry/Tests.antt =====
-- adapters/mavlink/TelemetryStreamConfigurator: the theorems at concrete inputs.
use companion_lab.Prelude.{true, none, some, [], ◌∷◌, List, arith}
use companion_lab.Prelude.Int.{pos}
use companion_lab.Prelude.Time.{seconds}
use companion_lab.Mavlink.{CommandAck}
use companion_lab.Examples.{dialect}
use companion_lab.Telemetry.{TelemetryStreamConfigurator, configuring, reset, update}
use companion_lab.Telemetry.Invariant.{Inv, Event, Sound, run, telemetry_run-Sound}
use companion_lab.Telemetry.Requests.{Asks, update-Asks}

abbrev yes : CommandAck
yes = record {
  source_system = 1;
  source_component = 1;
  command = 511;
  result = 0;
  progress = 0;
  result_parameter = pos 0;
  target_system = 0;
  target_component = 0;
}

abbrev calls : List Event
calls =
    Event.updated true (some 1) (seconds 1)
    ∷ Event.acknowledged yes (seconds 2)
    ∷ Event.updated true (some 1) (seconds 2)
    ∷ []

telemetry_run-Sound_example : Sound (run (some reset) calls)
telemetry_run-Sound_example = telemetry_run-Sound calls

-- The third stream was asked for three times.
abbrev asking : TelemetryStreamConfigurator
asking = record {
  phase = configuring;
  vehicle_system_id = some 1;
  current_request = 2;
  completed_requests = 2;
  attempt = 3;
  awaiting_ack = true;
  acknowledgement_deadline = seconds 9;
  failure_result = none;
}

asking-Inv : Inv asking
asking-Inv = ground arith

update-Asks_example :
    Asks true (some 2) (seconds 5) asking (update true (some 2) (seconds 5) asking)
update-Asks_example = update-Asks true (some 2) (seconds 5) asking asking-Inv
