-- ===== src/Vehicle/Freshness.antt =====
-- What a snapshot shows of readings that have grown old, and what a heartbeat renews.
use companion_lab.Prelude.{
  ℕ, ◌+◌, ◌-◌, ◌≤◌, ◌≡◌, refl, ◌≢◌, ◌↔◌, ◌⊎◌, inl, inr, true, false, Option, none, some, List, [],
  ◌∷◌, bit_and, arith, leb, Bool-cases, is_some,
}
use companion_lab.Prelude.Time.{TimePoint, seconds}
use companion_lab.Prelude.Doubles.{Doubles}
use companion_lab.Vehicle.{VehicleState, Heartbeat, WarningEntry, is_fresh, on_heartbeat}
use companion_lab.Vehicle.Snapshot.{VehicleSnapshot, snapshot, erase_stale}
use companion_lab.Vehicle.Readiness.{Within}

is_fresh-false :
    (at : Option TimePoint) (now : TimePoint) (timeout : ℕ)
    → ¬ Within timeout now at
    → is_fresh at now timeout ≡ false
unfolding is_fresh
is_fresh-false none now timeout h = refl
is_fresh-false (some t) now timeout h = elim (Bool-cases (leb (now - t) timeout)) [
  | inl e ↦ absurd (h (t, refl, ground arith))
  | inr e ↦ e
]

-- Nothing in the snapshot lets anybody act on it.
pub record IsSilent {D : Type 0} (r : VehicleSnapshot D) : Type 0 where
  pub connected : r.connected ≡ false
  pub gps_ready : r.gps_ready ≡ false
  pub battery_ready : r.battery_ready ≡ false
  pub system_health_known : r.system_health_known ≡ false
  pub system_health_ok : r.system_health_ok ≡ false
  pub armable : r.armable ≡ false
  pub gps : (r.gps_fix_type ≡ none) × (r.satellites_visible ≡ none)
  pub relative_altitude_m : r.relative_altitude_m ≡ none
  pub local_position : (r.local_north_m ≡ none) × (r.local_east_m ≡ none) × (r.local_down_m ≡ none)
  pub attitude : (r.roll_rad ≡ none) × (r.pitch_rad ≡ none) × (r.yaw_rad ≡ none)
  pub battery : (r.battery_voltage_v ≡ none) × (r.battery_current_a ≡ none)
  pub charge : (r.battery_remaining_pct ≡ none) × (r.battery_arming_voltage_v ≡ none)

module _ {D : Type 0} ⦃d : Doubles D⦄ where
  -- A snapshot taken when no heartbeat came in the last three seconds says that nothing is ready and
  -- that the system's health is unknown, and shows no GPS fix, satellites, position, attitude,
  -- altitude or battery reading (voltage, current, charge, arming voltage), however recent those are.
  pub snapshot-IsSilent :
      (s : VehicleState D) (now : TimePoint)
      → ¬ Within (seconds 3) now s.last_heartbeat
      → IsSilent (snapshot now s).1
  unfolding snapshot
  snapshot-IsSilent s now h = ground (arith, is_fresh-false s.last_heartbeat now (seconds 3) h)

  -- After a heartbeat the vehicle is connected for three seconds and no longer, under the ids and
  -- the mode of that heartbeat.
  pub connected-on_heartbeat :
      (s : VehicleState D) (h : Heartbeat) (now later : TimePoint)
      → let r = (snapshot later (on_heartbeat h now s)).1 in
        ((r.connected ≡ true) ↔ (later ≤ now + seconds 3))
        × (r.system_id ≡ some h.system_id)
        × (r.component_id ≡ some h.component_id)
        × (r.flight_mode ≡ some h.custom_mode)
        × ((r.armed ≡ true) ↔ (bit_and h.base_mode 128 ≢ 0))
  unfolding snapshot on_heartbeat is_fresh
  connected-on_heartbeat s h now later = ground arith

  -- The heartbeat continues the last one: at most three seconds later, from the same system and
  -- component.
  abbrev pub Continues : VehicleState D → Heartbeat → TimePoint → TimePoint → Type 0
  Continues s h last now =
      (now ≤ last + seconds 3)
      × (s.system_id ≡ some h.system_id)
      × (s.component_id ≡ some h.component_id)

  -- Given an earlier heartbeat by a known system and component, a new one either continues it and
  -- leaves the autopilot's metadata alone, or does not and drops the metadata.
  pub metadata-on_heartbeat :
      (s : VehicleState D) (h : Heartbeat) (now last : TimePoint)
      → s.last_heartbeat ≡ some last
      → is_some s.system_id ≡ true
      → is_some s.component_id ≡ true
      → let kept = (on_heartbeat h now s).autopilot_metadata in
        (Continues s h last now × (kept ≡ s.autopilot_metadata))
        ⊎ (¬ Continues s h last now × (kept ≡ none))
  unfolding on_heartbeat is_fresh
  metadata-on_heartbeat s h now last e i j = ground arith

erase_stale_idem :
    (now : TimePoint) (ws : List WarningEntry)
    → erase_stale now (erase_stale now ws) ≡ erase_stale now ws
unfolding erase_stale
erase_stale_idem now [] = refl
erase_stale_idem now (w ∷ ws) = ground (arith, erase_stale_idem now ws)

module _ {D : Type 0} ⦃d : Doubles D⦄ where
  -- Observing the state again at the same time changes nothing and shows the same.
  pub snapshot_idem :
      (s : VehicleState D) (now : TimePoint) → snapshot now (snapshot now s).0 ≡ snapshot now s
  unfolding snapshot
  snapshot_idem s now = rw (erase_stale_idem now s.warnings)
