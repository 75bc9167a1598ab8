-- ===== src/Application/Observe.antt =====
-- application/CompanionApplication: what the log tells of the vehicle, in `observe_vehicle`.
use companion_lab.Prelude.{
  differ, ℕ, Bool, true, false, not, Option, none, some, String, if◌then◌else◌, is_some, same,
}
use companion_lab.Prelude.Time.{TimePoint}
use companion_lab.Prelude.Text.{to_string}
use companion_lab.Prelude.Text.{◌++◌}
use companion_lab.Vehicle.{AutopilotMetadata}
use companion_lab.Vehicle.Snapshot.{VehicleSnapshot}
use companion_lab.Application.{inbound, success, warning, LinkLog, record_event}
use companion_lab.Application.Labels.{flight_mode_name}

-- The members that remember the last observation, and the log.
pub record Witnessed : Type 0 where
  pub vehicle_was_connected : Bool
  pub previous_flight_mode : Option ℕ
  pub previous_armed : Option Bool
  pub autopilot_metadata_was_available : Bool
  pub log : LinkLog

abbrev id_part : String → Option ℕ → String
id_part label none = ""
id_part label (some id) = label ++ to_string id

abbrev version_text : AutopilotMetadata → String
version_text metadata =
    to_string metadata.firmware_major
    ++ ("." ++ (to_string metadata.firmware_minor ++ ("." ++ to_string metadata.firmware_patch)))

abbrev tell_version : Option AutopilotMetadata → Bool → TimePoint → LinkLog → LinkLog
tell_version none was now l = l
tell_version (some metadata) true now l = l
tell_version (some metadata) false now l =
    record_event inbound success "AUTOPILOT_VERSION" (version_text metadata) now l

abbrev tell_mode : Option ℕ → Option ℕ → TimePoint → LinkLog → LinkLog
tell_mode none previous now l = l
tell_mode (some mode) previous now l =
    if same (some mode) previous
    then l
    else record_event inbound success "HEARTBEAT" ("MODE " ++ flight_mode_name mode) now l

abbrev tell_armed : Bool → Option Bool → TimePoint → LinkLog → LinkLog
tell_armed armed none now l = l
tell_armed armed (some previous) now l =
    if differ armed previous
    then record_event inbound success "HEARTBEAT" (if armed then "ARMED" else "DISARMED") now l
    else l

unfoldable pub lost : TimePoint → Witnessed → Witnessed
lost now w = record w {
  log =
      if w.vehicle_was_connected
      then record_event inbound warning "LINK" "HEARTBEAT LOST" now w.log
      else w.log;
  vehicle_was_connected = false;
  previous_flight_mode = none;
  previous_armed = none;
  autopilot_metadata_was_available = false;
}

module _ {D : Type 0} where
  unfoldable pub met : VehicleSnapshot D → TimePoint → Witnessed → Witnessed
  met vehicle now w = record w {
    log =
        record_event inbound success "HEARTBEAT"
          ("FLIGHT CONTROLLER ONLINE"
            ++ (id_part " | SYS " vehicle.system_id ++ id_part " COMP " vehicle.component_id))
          now w.log;
    vehicle_was_connected = true;
    previous_flight_mode = vehicle.flight_mode;
    previous_armed = some vehicle.armed;
    autopilot_metadata_was_available = is_some vehicle.autopilot_metadata;
  }

  unfoldable pub seen_again : VehicleSnapshot D → TimePoint → Witnessed → Witnessed
  seen_again vehicle now w = record w {
    log = tell_armed vehicle.armed w.previous_armed now (
        tell_mode vehicle.flight_mode w.previous_flight_mode now
          (tell_version vehicle.autopilot_metadata w.autopilot_metadata_was_available now w.log));
    autopilot_metadata_was_available = is_some vehicle.autopilot_metadata;
    previous_flight_mode = vehicle.flight_mode;
    previous_armed = some vehicle.armed;
  }

  unfoldable pub observe_vehicle : VehicleSnapshot D → TimePoint → Witnessed → Witnessed
  observe_vehicle vehicle now w =
      if not vehicle.connected
      then lost now w
      else (if not w.vehicle_was_connected then met vehicle now w else seen_again vehicle now w)
