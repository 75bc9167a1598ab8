-- ===== src/Vehicle/Events.antt =====
-- domain/VehicleState: the calls on one object as a sequence. `snapshot` changes the state too.
use companion_lab.Prelude.{ℕ, Option, List, [], ◌∷◌}
use companion_lab.Prelude.Int.{ℤ}
use companion_lab.Prelude.Time.{TimePoint}
use companion_lab.Prelude.Text.{Bytes}
use companion_lab.Prelude.Doubles.{Doubles}
use companion_lab.Vehicle.{
  VehicleState, AutopilotMetadata, Heartbeat, on_heartbeat, on_gps, on_global_position,
  on_local_position, on_attitude, on_battery, on_battery_arming_voltage, on_autopilot_metadata,
  on_system_status, on_status_text,
}
use companion_lab.Vehicle.Snapshot.{snapshot}

pub data Event (D : Type 0) : Type 0 where
  heartbeat : Heartbeat → Event D
  gps : ℕ → ℕ → Event D
  global_position : ℤ → Event D
  local_position : D → D → D → Event D
  attitude : D → D → D → Event D
  battery : Option D → Option D → Option ℤ → Event D
  battery_arming_voltage : D → Event D
  metadata : AutopilotMetadata → Event D
  sensors : ℕ → ℕ → Option D → Option D → Option ℤ → Event D
  status_text : ℕ → Bytes → Event D
  observed : Event D

module _ {D : Type 0} ⦃d : Doubles D⦄ where
  unfoldable pub step : VehicleState D → TimePoint × Event D → VehicleState D
  step s (now, heartbeat h) = on_heartbeat h now s
  step s (now, gps fix satellites) = on_gps fix satellites now s
  step s (now, global_position mm) = on_global_position mm now s
  step s (now, local_position n e w) = on_local_position n e w now s
  step s (now, attitude r p y) = on_attitude r p y now s
  step s (now, battery v c p) = on_battery v c p now s
  step s (now, battery_arming_voltage v) = on_battery_arming_voltage v s
  step s (now, metadata m) = on_autopilot_metadata m s
  step s (now, sensors e h v c p) = on_system_status e h v c p now s
  step s (now, status_text severity text) = on_status_text severity text now s
  step s (now, observed) = (snapshot now s).0

  unfoldable pub run : VehicleState D → List (TimePoint × Event D) → VehicleState D
  run s [] = s
  run s (e ∷ es) = run (step s e) es
