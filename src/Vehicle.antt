-- ===== src/Vehicle.antt =====
-- domain/VehicleState: what the flight controller last reported, and when. The mutex of the class
-- makes each operation atomic, so an operation is a function on the state.
pub mod Events
pub mod Warnings
pub mod Readiness
pub mod Freshness
pub mod Snapshot
pub mod Json
mod Tests
use companion_lab.Prelude.{
  ◌+◌, ℕ, ◌-◌, Bool, true, false, not, ◌&&◌, ◌||◌, Option, none, some, List, [], ◌∷◌, bit_and, ltb,
  leb, ◌==◌, if◌then◌else◌, is_some, or_keep,
}
use companion_lab.Prelude.Int.{ℤ}
use companion_lab.Prelude.Time.{TimePoint, seconds}
use companion_lab.Prelude.Text.{Bytes, bytes, bytes_eq}
use companion_lab.Prelude.Doubles.{Doubles}

pub record AutopilotMetadata : Type 0 where
  pub firmware_major : ℕ
  pub firmware_minor : ℕ
  pub firmware_patch : ℕ
  pub firmware_release_type : ℕ
  pub capabilities : ℕ
  pub board_version : ℕ
  pub vendor_id : ℕ
  pub product_id : ℕ

pub record WarningEntry : Type 0 where
  pub text : Bytes
  pub last_seen : TimePoint

pub record VehicleState (D : Type 0) : Type 0 where
  pub last_heartbeat : Option TimePoint
  pub last_gps : Option TimePoint
  pub last_global_position : Option TimePoint
  pub last_local_position : Option TimePoint
  pub last_attitude : Option TimePoint
  pub last_battery : Option TimePoint
  pub last_system_status : Option TimePoint
  pub system_id : Option ℕ
  pub component_id : Option ℕ
  pub vehicle_type : Option ℕ
  pub autopilot_type : Option ℕ
  pub system_status : Option ℕ
  pub flight_mode : Option ℕ
  pub gps_fix_type : Option ℕ
  pub satellites_visible : Option ℕ
  pub relative_altitude_m : Option D
  pub local_north_m : Option D
  pub local_east_m : Option D
  pub local_down_m : Option D
  pub roll_rad : Option D
  pub pitch_rad : Option D
  pub yaw_rad : Option D
  pub battery_voltage_v : Option D
  pub battery_current_a : Option D
  pub battery_remaining_pct : Option ℤ
  pub battery_arming_voltage_v : Option D
  pub autopilot_metadata : Option AutopilotMetadata
  pub sensors_enabled : ℕ
  pub sensors_healthy : ℕ
  pub armed : Bool
  pub warnings : List WarningEntry

-- The members' initializers.
unfoldable pub initial : (D : Type 0) → VehicleState D
initial D = record {
  last_heartbeat = none;
  last_gps = none;
  last_global_position = none;
  last_local_position = none;
  last_attitude = none;
  last_battery = none;
  last_system_status = none;
  system_id = none;
  component_id = none;
  vehicle_type = none;
  autopilot_type = none;
  system_status = none;
  flight_mode = none;
  gps_fix_type = none;
  satellites_visible = none;
  relative_altitude_m = none;
  local_north_m = none;
  local_east_m = none;
  local_down_m = none;
  roll_rad = none;
  pitch_rad = none;
  yaw_rad = none;
  battery_voltage_v = none;
  battery_current_a = none;
  battery_remaining_pct = none;
  battery_arming_voltage_v = none;
  autopilot_metadata = none;
  sensors_enabled = 0;
  sensors_healthy = 0;
  armed = false;
  warnings = [];
}

abbrev pub heartbeat_timeout : ℕ
heartbeat_timeout = seconds 3

unfoldable pub is_fresh : Option TimePoint → TimePoint → ℕ → Bool
is_fresh none now timeout = false
is_fresh (some observed_at) now timeout = leb (now - observed_at) timeout

-- `std::tolower` of the default locale.
tolower : ℕ → ℕ
tolower c = if leb b'A' c && leb c b'Z' then c + 32 else c

starts_with : Bytes → Bytes → Bool
starts_with s [] = true
starts_with [] (e ∷ es) = false
starts_with (c ∷ s) (e ∷ es) = tolower c == e && starts_with s es

-- The text is lowered and searched for `expected` at every position.
unfoldable pub contains_case_insensitive : Bytes → Bytes → Bool
unfolding starts_with tolower
contains_case_insensitive [] expected = starts_with [] expected
contains_case_insensitive (c ∷ s) expected =
    starts_with (c ∷ s) expected || contains_case_insensitive s expected

unfoldable pub contains_prearm : Bytes → Bool
unfolding contains_case_insensitive
contains_prearm text = contains_case_insensitive text (bytes "prearm:")

unfoldable pub contains_battery : Bytes → Bool
unfolding contains_case_insensitive
contains_battery text = contains_case_insensitive text (bytes "battery")

pub record Heartbeat : Type 0 where
  pub system_id : ℕ
  pub component_id : ℕ
  pub vehicle_type : ℕ
  pub autopilot_type : ℕ
  pub base_mode : ℕ
  pub custom_mode : ℕ
  pub system_status : ℕ

abbrev differs : Option ℕ → ℕ → Bool
differs none n = false
differs (some m) n = not (m == n)

-- `find_if` on the text, and a refreshed time or an entry at the end.
unfoldable pub record_warning : Bytes → TimePoint → List WarningEntry → List WarningEntry
record_warning text now [] = record { text = text; last_seen = now } ∷ []
record_warning text now (w ∷ ws) =
    if bytes_eq w.text text
    then record w { last_seen = now } ∷ ws
    else w ∷ record_warning text now ws

is_empty : Bytes → Bool
is_empty [] = true
is_empty (c ∷ s) = false

module _ {D : Type 0} where
  unfoldable pub on_heartbeat : Heartbeat → TimePoint → VehicleState D → VehicleState D
  unfolding is_fresh
  on_heartbeat h now s =
      let reconnecting =
        is_some s.last_heartbeat && not (is_fresh s.last_heartbeat now heartbeat_timeout) in
      let controller_changed =
        differs s.system_id h.system_id || differs s.component_id h.component_id in
      record s {
        autopilot_metadata =
            if reconnecting || controller_changed then none else s.autopilot_metadata;
        last_heartbeat = some now;
        system_id = some h.system_id;
        component_id = some h.component_id;
        vehicle_type = some h.vehicle_type;
        autopilot_type = some h.autopilot_type;
        system_status = some h.system_status;
        flight_mode = some h.custom_mode;
        armed = not (bit_and h.base_mode 128 == 0);
      }

  unfoldable pub on_gps : ℕ → ℕ → TimePoint → VehicleState D → VehicleState D
  on_gps fix_type satellites now s = record s {
    last_gps = some now;
    gps_fix_type = some fix_type;
    satellites_visible = some satellites;
  }

  unfoldable pub on_local_position : D → D → D → TimePoint → VehicleState D → VehicleState D
  on_local_position north_m east_m down_m now s = record s {
    last_local_position = some now;
    local_north_m = some north_m;
    local_east_m = some east_m;
    local_down_m = some down_m;
  }

  unfoldable pub on_attitude : D → D → D → TimePoint → VehicleState D → VehicleState D
  on_attitude roll pitch yaw now s = record s {
    last_attitude = some now;
    roll_rad = some roll;
    pitch_rad = some pitch;
    yaw_rad = some yaw;
  }

  unfoldable pub update_battery_locked :
      Option D → Option D → Option ℤ → TimePoint → VehicleState D → VehicleState D
  update_battery_locked voltage_v current_a remaining_pct now s = record s {
    last_battery = some now;
    battery_voltage_v = or_keep voltage_v s.battery_voltage_v;
    battery_current_a = or_keep current_a s.battery_current_a;
    battery_remaining_pct = or_keep remaining_pct s.battery_remaining_pct;
  }

  unfoldable pub on_battery :
      Option D → Option D → Option ℤ → TimePoint → VehicleState D → VehicleState D
  unfolding update_battery_locked
  on_battery = update_battery_locked

  unfoldable pub on_autopilot_metadata : AutopilotMetadata → VehicleState D → VehicleState D
  on_autopilot_metadata metadata s = record s { autopilot_metadata = some metadata }

  unfoldable pub on_system_status :
      ℕ → ℕ → Option D → Option D → Option ℤ → TimePoint → VehicleState D → VehicleState D
  unfolding update_battery_locked
  on_system_status enabled healthy voltage_v current_a remaining_pct now s =
      let t = record s {
        sensors_enabled = enabled;
        sensors_healthy = healthy;
        last_system_status = some now;
      } in
      if is_some voltage_v || is_some current_a || is_some remaining_pct
      then update_battery_locked voltage_v current_a remaining_pct now t
      else t

  unfoldable pub on_status_text : ℕ → Bytes → TimePoint → VehicleState D → VehicleState D
  unfolding record_warning contains_prearm is_empty
  on_status_text severity text now s =
      if is_empty text || ltb 4 severity && not (contains_prearm text)
      then s
      else record s { warnings = record_warning text now s.warnings }

module _ {D : Type 0} ⦃d : Doubles D⦄ where
  unfoldable pub on_global_position : ℤ → TimePoint → VehicleState D → VehicleState D
  on_global_position relative_altitude_mm now s = record s {
    last_global_position = some now;
    relative_altitude_m = some (d.div (d.of_int relative_altitude_mm) (d.of_decimal 1000 0));
  }

  -- `std::max(0.0, voltage_v)` is the voltage only where 0.0 is below it.
  unfoldable pub on_battery_arming_voltage : D → VehicleState D → VehicleState D
  on_battery_arming_voltage voltage_v s =
      let zero_v = d.of_decimal 0 0 in
      record s {
        battery_arming_voltage_v = some (if d.lt zero_v voltage_v then voltage_v else zero_v);
      }
