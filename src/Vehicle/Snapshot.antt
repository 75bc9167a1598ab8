-- ===== src/Vehicle/Snapshot.antt =====
-- domain/VehicleState: `snapshot`, the view of the state at one time.
use companion_lab.Prelude.{
  ℕ, ◌-◌, Bool, true, false, not, ◌&&◌, ◌||◌, Option, none, some, List, [], ◌∷◌, map, bit_and, ltb,
  leb, ◌==◌, if◌then◌else◌, any,
}
use companion_lab.Prelude.Int.{ℤ, pos, leb_ℤ}
use companion_lab.Prelude.Time.{TimePoint, seconds}
use companion_lab.Prelude.Text.{Bytes}
use companion_lab.Prelude.Doubles.{Doubles}
use companion_lab.Vehicle.{
  VehicleState, WarningEntry, AutopilotMetadata, is_fresh, heartbeat_timeout, contains_battery,
}

pub record VehicleSnapshot (D : Type 0) : Type 0 where
  pub connected : Bool
  pub gps_ready : Bool
  pub battery_ready : Bool
  pub system_health_known : Bool
  pub system_health_ok : Bool
  pub armable : Bool
  pub armed : Bool
  pub system_id : Option ℕ
  pub component_id : Option ℕ
  pub vehicle_type : Option ℕ
  pub autopilot_type : Option ℕ
  pub system_status : Option ℕ
  pub flight_mode : Option ℕ
  pub gps_fix_type : Option ℕ
  pub satellites_visible : Option ℕ
  pub relative_altitude_m : Option D
  pub local_north_m : Option D
  pub local_east_m : Option D
  pub local_down_m : Option D
  pub roll_rad : Option D
  pub pitch_rad : Option D
  pub yaw_rad : Option D
  pub battery_voltage_v : Option D
  pub battery_current_a : Option D
  pub battery_remaining_pct : Option ℤ
  pub battery_arming_voltage_v : Option D
  pub autopilot_metadata : Option AutopilotMetadata
  pub warnings : List Bytes

-- `std::erase_if` of the warnings older than thirty seconds.
unfoldable pub erase_stale : TimePoint → List WarningEntry → List WarningEntry
erase_stale now [] = []
erase_stale now (w ∷ ws) =
    if ltb (seconds 30) (now - w.last_seen) then erase_stale now ws else w ∷ erase_stale now ws

abbrev pub when_fresh {ℓ} : {A : Type ℓ} → Bool → Option A → Option A
when_fresh true a = a
when_fresh false a = none

abbrev pub at_least : ℕ → Option ℕ → Bool
at_least n none = false
at_least n (some m) = leb n m

-- The state of charge counts only where it is known.
abbrev pub charged : Option ℤ → Bool
charged none = true
charged (some remaining_pct) = leb_ℤ (pos 20) remaining_pct

unfoldable pub battery_sensor_healthy : ℕ → ℕ → Bool
battery_sensor_healthy enabled healthy =
    not (bit_and enabled 0x200_0000 == 0) && not (bit_and healthy 0x200_0000 == 0)

-- `(enabled & ~healthy) == 0` on 32 bits.
unfoldable pub sensors_ok : ℕ → ℕ → Bool
sensors_ok enabled healthy = bit_and enabled (0xffff_ffff - healthy) == 0

unfoldable pub has_recent_warning : TimePoint → List WarningEntry → Bool
has_recent_warning now ws = any (λ w. leb (now - w.last_seen) (seconds 5)) ws

unfoldable pub has_battery_warning : List WarningEntry → Bool
has_battery_warning ws = any (λ w. contains_battery w.text) ws

module _ {D : Type 0} ⦃d : Doubles D⦄ where
  unfoldable pub meets_threshold : Option D → Option D → Bool
  meets_threshold none threshold = false
  meets_threshold (some voltage) none = false
  meets_threshold (some voltage) (some threshold) =
      d.eq threshold (d.of_decimal 0 0) || d.le threshold voltage

-- The fields that are set whether or not the controller is connected.
unfoldable pub identity : {D : Type 0} → Bool → VehicleState D → VehicleSnapshot D
identity connected s = record {
  connected = connected;
  gps_ready = false;
  battery_ready = false;
  system_health_known = false;
  system_health_ok = false;
  armable = false;
  armed = s.armed;
  system_id = s.system_id;
  component_id = s.component_id;
  vehicle_type = s.vehicle_type;
  autopilot_type = s.autopilot_type;
  system_status = s.system_status;
  flight_mode = s.flight_mode;
  gps_fix_type = none;
  satellites_visible = none;
  relative_altitude_m = none;
  local_north_m = none;
  local_east_m = none;
  local_down_m = none;
  roll_rad = none;
  pitch_rad = none;
  yaw_rad = none;
  battery_voltage_v = none;
  battery_current_a = none;
  battery_remaining_pct = none;
  battery_arming_voltage_v = none;
  autopilot_metadata = s.autopilot_metadata;
  warnings = map (λ w. w.text) s.warnings;
}

module _ {D : Type 0} ⦃d : Doubles D⦄ where
  -- The rest of `snapshot`, for a controller that is connected.
  unfoldable pub telemetry : VehicleState D → TimePoint → VehicleSnapshot D → VehicleSnapshot D
  unfolding meets_threshold
  telemetry s now r =
      let gps_fresh = is_fresh s.last_gps now (seconds 5) in
      let local_fresh = is_fresh s.last_local_position now (seconds 2) in
      let attitude_fresh = is_fresh s.last_attitude now (seconds 2) in
      let status_fresh = is_fresh s.last_system_status now (seconds 5) in
      let battery_fresh = is_fresh s.last_battery now (seconds 10) in
      let gps_ready = gps_fresh && at_least 3 s.gps_fix_type in
      let battery_ready =
        battery_fresh
        && (meets_threshold s.battery_voltage_v s.battery_arming_voltage_v
            && ((status_fresh && battery_sensor_healthy s.sensors_enabled s.sensors_healthy)
                && (not (has_battery_warning s.warnings) && charged s.battery_remaining_pct))) in
      let health_ok = status_fresh && sensors_ok s.sensors_enabled s.sensors_healthy in
      record r {
        gps_fix_type = when_fresh gps_fresh s.gps_fix_type;
        satellites_visible = when_fresh gps_fresh s.satellites_visible;
        gps_ready = gps_ready;
        relative_altitude_m =
            when_fresh (is_fresh s.last_global_position now (seconds 2)) s.relative_altitude_m;
        local_north_m = when_fresh local_fresh s.local_north_m;
        local_east_m = when_fresh local_fresh s.local_east_m;
        local_down_m = when_fresh local_fresh s.local_down_m;
        roll_rad = when_fresh attitude_fresh s.roll_rad;
        pitch_rad = when_fresh attitude_fresh s.pitch_rad;
        yaw_rad = when_fresh attitude_fresh s.yaw_rad;
        battery_voltage_v = when_fresh battery_fresh s.battery_voltage_v;
        battery_current_a = when_fresh battery_fresh s.battery_current_a;
        battery_remaining_pct = when_fresh battery_fresh s.battery_remaining_pct;
        battery_arming_voltage_v = when_fresh battery_fresh s.battery_arming_voltage_v;
        battery_ready = battery_ready;
        system_health_known = status_fresh;
        system_health_ok = health_ok;
        armable =
            gps_ready && (battery_ready && (health_ok && not (has_recent_warning now s.warnings)));
      }

  unfoldable pub snapshot : TimePoint → VehicleState D → VehicleState D × VehicleSnapshot D
  unfolding telemetry identity erase_stale
  snapshot now s =
      let t = record s { warnings = erase_stale now s.warnings } in
      let connected = is_fresh s.last_heartbeat now heartbeat_timeout in
      let r = identity connected t in (t, if connected then telemetry t now r else r)
