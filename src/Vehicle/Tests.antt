-- ===== src/Vehicle/Tests.antt =====
-- domain/VehicleState: the theorems at concrete inputs.
use companion_lab.Prelude.{All, inl, inr, arith, ℕ, ◌≡◌, ◌↔◌, refl, true, none, some, List, [], ◌∷◌}
use companion_lab.Prelude.Int.{pos}
use companion_lab.Prelude.Time.{TimePoint, seconds}
use companion_lab.Prelude.Text.{Bytes, bytes}
use companion_lab.Examples.{thousandths}
use companion_lab.Vehicle.{
  VehicleState, Heartbeat, initial, is_fresh, on_status_text, on_system_status, on_battery,
  on_battery_arming_voltage, on_gps, on_heartbeat,
}
use companion_lab.Vehicle.Snapshot.{
  battery_sensor_healthy, has_battery_warning, sensors_ok, has_recent_warning, snapshot,
}
use mathlib.Core.List.{◌++◌ as append}
use companion_lab.Vehicle.Json.{IsShown, json_escape, read_string, read_string-json_escape}
use companion_lab.Vehicle.Events.{Event, step, run}
use companion_lab.Vehicle.Readiness.{Within, IsArmable, armable_iff}
use companion_lab.Vehicle.Freshness.{IsSilent, snapshot-IsSilent}

abbrev beat : Heartbeat
beat = record {
  system_id = 1;
  component_id = 1;
  vehicle_type = 2;
  autopilot_type = 3;
  base_mode = 209;
  custom_mode = 4;
  system_status = 4;
}

-- A vehicle that reported all that arming needs, one event a second.
abbrev reports : List (TimePoint × Event ℕ)
reports =
    (seconds 1, Event.heartbeat beat)
    ∷ (seconds 1, Event.gps 3 12)
    ∷ (seconds 2, Event.battery_arming_voltage 11000)
    ∷ (seconds 2, Event.battery (some 12600) none (some (pos 80)))
    ∷ (seconds 2, Event.sensors 0x200_0000 0x200_0000 none none none)
    ∷ (seconds 3, Event.status_text 6 (bytes "EKF3 active"))
    ∷ []

abbrev ready : VehicleState ℕ
ready = run (initial ℕ) reports

ready-armable : (snapshot (seconds 3) ready).1.armable ≡ true
unfolding run step initial snapshot is_fresh on_status_text on_system_status on_battery
    on_battery_arming_voltage on_gps on_heartbeat battery_sensor_healthy has_battery_warning
    sensors_ok has_recent_warning
ready-armable = refl

armable_iff_example : ((snapshot (seconds 3) ready).1.armable ≡ true) ↔ IsArmable (seconds 3) ready
armable_iff_example = armable_iff ready (seconds 3)

abbrev warned : List (TimePoint × Event ℕ)
warned =
    (seconds 1, Event.status_text 2 (bytes "PreArm: Compass not calibrated"))
    ∷ (seconds 2, Event.status_text 2 (bytes "PreArm: Compass not calibrated"))
    ∷ (seconds 3, Event.observed)
    ∷ []

-- A vehicle that was heard a second ago for the last time but one, with recent readings.
abbrev silent : VehicleState ℕ
silent = record ready {
  last_heartbeat = some (seconds 1);
  last_gps = some (seconds 9);
  last_battery = some (seconds 9);
}

unheard : ¬ Within (seconds 3) (seconds 9) silent.last_heartbeat
unheard (t, e, l) = ground arith

snapshot-IsSilent_example : IsSilent (snapshot (seconds 9) silent).1
snapshot-IsSilent_example = snapshot-IsSilent silent (seconds 9) unheard

abbrev known : VehicleState ℕ
known = record (initial ℕ) {
  last_heartbeat = some (seconds 1);
  system_id = some 1;
  component_id = some 1;
  autopilot_metadata = some (record {
    firmware_major = 4;
    firmware_minor = 5;
    firmware_patch = 1;
    firmware_release_type = 255;
    capabilities = 0;
    board_version = 0;
    vendor_id = 0;
    product_id = 0;
  });
}

-- A line feed, a quote, a tab and a letter.
abbrev broken : Bytes
broken = 10 ∷ 34 ∷ 9 ∷ 71 ∷ []

broken-IsShown : All IsShown broken
broken-IsShown =
    (inr (inl refl), (inl (omega arith), (inr (inr (inr refl)), (inl (omega arith), tt))))

read_string-json_escape_example :
    read_string (append (json_escape broken) (34 ∷ bytes ",")) ≡ some (broken, bytes ",")
read_string-json_escape_example = read_string-json_escape broken (bytes ",") broken-IsShown
