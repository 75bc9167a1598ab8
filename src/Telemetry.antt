-- ===== src/Telemetry.antt =====
-- adapters/mavlink/TelemetryStreamConfigurator: asks the vehicle for six telemetry streams, one
-- acknowledged request after another.
pub mod Invariant
pub mod Requests
mod Tests
use companion_lab.Prelude.{
  ℕ, zero, suc, ◌+◌, ◌%◌, Bool, true, false, not, ◌&&◌, ◌||◌, Option, none, some, String, ltb, leb,
  ◌==◌, if◌then◌else◌, has,
}
use companion_lab.Prelude.Time.{TimePoint, seconds}
use companion_lab.Prelude.Text.{Bytes}
use companion_lab.Mavlink.{Mavlink, CommandAck, companion_component_id, encode_set_message_interval}

pub data TelemetrySetupPhase : Type 0 where
  waiting_for_vehicle configuring active failed : TelemetrySetupPhase

pub record TelemetrySetupSnapshot : Type 0 where
  pub phase : TelemetrySetupPhase
  pub completed_requests : ℕ
  pub total_requests : ℕ
  pub current_stream : String
  pub attempt : ℕ
  pub failure_result : Option ℕ

pub record StreamRequest : Type 0 where
  pub message_id : ℕ
  pub interval_microseconds : ℕ
  pub name : String

pub record TelemetryStreamConfigurator : Type 0 where
  pub phase : TelemetrySetupPhase
  pub vehicle_system_id : Option ℕ
  pub current_request : ℕ
  pub completed_requests : ℕ
  pub attempt : ℕ
  pub awaiting_ack : Bool
  pub acknowledgement_deadline : TimePoint
  pub failure_result : Option ℕ

-- The member's initializers, and `reset`, which restores them all.
unfoldable pub reset : TelemetryStreamConfigurator
reset = record {
  phase = waiting_for_vehicle;
  vehicle_system_id = none;
  current_request = 0;
  completed_requests = 0;
  attempt = 0;
  awaiting_ack = false;
  acknowledgement_deadline = 0;
  failure_result = none;
}

unfoldable pub begin : ℕ → TelemetryStreamConfigurator
begin vehicle = record reset { phase = configuring; vehicle_system_id = some vehicle }

abbrev pub is_configuring : TelemetrySetupPhase → Bool
is_configuring configuring = true
is_configuring _ = false

-- The object after a call, and the bytes to send if there are any; `none` is the exception of
-- `at`, or a read of an empty optional.
abbrev pub Updated : Type 0
Updated = Option (TelemetryStreamConfigurator × Option Bytes)

-- The object that the vehicle's id leaves: another vehicle begins the setup anew.
unfoldable pub meet : ℕ → TelemetryStreamConfigurator → TelemetryStreamConfigurator
meet vehicle c = if has c.vehicle_system_id vehicle then c else begin vehicle

name_of : Option StreamRequest → String
name_of none = ""
name_of (some r) = r.name

module _ ⦃m : Mavlink⦄ where
  -- `kStreamRequests.at`.
  unfoldable pub stream_request : ℕ → Option StreamRequest
  stream_request zero = some (record {
    message_id = m.sys_status;
    interval_microseconds = 1_000_000;
    name = "SYS_STATUS at 1 Hz";
  })
  stream_request (suc zero) = some (record {
    message_id = m.gps_raw_int;
    interval_microseconds = 500_000;
    name = "GPS_RAW_INT at 2 Hz";
  })
  stream_request (suc (suc zero)) = some (record {
    message_id = m.battery_status;
    interval_microseconds = 1_000_000;
    name = "BATTERY_STATUS at 1 Hz";
  })
  stream_request (suc (suc (suc zero))) = some (record {
    message_id = m.global_position_int;
    interval_microseconds = 200_000;
    name = "GLOBAL_POSITION_INT at 5 Hz";
  })
  stream_request (suc (suc (suc (suc zero)))) = some (record {
    message_id = m.local_position_ned;
    interval_microseconds = 100_000;
    name = "LOCAL_POSITION_NED at 10 Hz";
  })
  stream_request (suc (suc (suc (suc (suc zero))))) = some (record {
    message_id = m.attitude;
    interval_microseconds = 100_000;
    name = "ATTITUDE at 10 Hz";
  })
  stream_request _ = none

  abbrev request_bytes : ℕ → StreamRequest → ℕ → Bytes
  request_bytes vehicle r attempt =
      encode_set_message_interval vehicle r.message_id r.interval_microseconds (attempt % 256)

  -- The end of `update`, with the vehicle's id and the request that it reads.
  send : TimePoint → Option ℕ → Option StreamRequest → TelemetryStreamConfigurator → Updated
  send now none r c = none
  send now (some vehicle) none c = none
  send now (some vehicle) (some r) c = some (
    record c {
      attempt = c.attempt + 1;
      awaiting_ack = true;
      acknowledgement_deadline = now + seconds 2;
    },
    some (request_bytes vehicle r c.attempt),
  )

  -- `update` for a connected vehicle, after its id was compared.
  request : TimePoint → TelemetryStreamConfigurator → Updated
  unfolding send
  request now c =
      if not (is_configuring c.phase)
      then some (c, none)
      else (if c.awaiting_ack && ltb now c.acknowledgement_deadline
          then some (c, none)
          else (if c.awaiting_ack && leb 3 c.attempt
              then some (record c { phase = failed; failure_result = none }, none)
              else send now c.vehicle_system_id (stream_request c.current_request)
                  (record c { awaiting_ack = false })))

  unfoldable pub update : Bool → Option ℕ → TimePoint → TelemetryStreamConfigurator → Updated
  unfolding request
  update connected none now c = some (reset, none)
  update connected (some vehicle) now c =
      if not connected then some (reset, none) else request now (meet vehicle c)

  -- The acknowledgement is of the request that is awaited.
  unfoldable pub is_awaited : CommandAck → TelemetryStreamConfigurator → Bool
  is_awaited a c =
      is_configuring c.phase
      && (c.awaiting_ack
          && (a.command == m.cmd_set_message_interval
              && (has c.vehicle_system_id a.source_system
                  && ((a.target_system == 0 || has c.vehicle_system_id a.target_system)
                      && (a.target_component == 0
                          || a.target_component == companion_component_id)))))

  unfoldable pub on_command_ack :
      CommandAck → TimePoint → TelemetryStreamConfigurator → TelemetryStreamConfigurator
  on_command_ack a now c =
      if not (is_awaited a c)
      then c
      else (if a.result == m.result_in_progress
          then record c { acknowledgement_deadline = now + seconds 2 }
          else (if not (a.result == m.result_accepted)
              then record c { phase = failed; failure_result = some a.result; awaiting_ack = false }
              else record c {
                completed_requests = c.completed_requests + 1;
                current_request = c.current_request + 1;
                attempt = 0;
                awaiting_ack = false;
                failure_result = none;
                phase = if c.current_request + 1 == 6 then active else c.phase;
              }))

  unfoldable pub snapshot : TelemetryStreamConfigurator → TelemetrySetupSnapshot
  unfolding name_of
  snapshot c = record {
    phase = c.phase;
    completed_requests = c.completed_requests;
    total_requests = 6;
    current_stream = name_of (stream_request c.current_request);
    attempt = c.attempt;
    failure_result = c.failure_result;
  }
