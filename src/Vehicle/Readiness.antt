-- ===== src/Vehicle/Readiness.antt =====
-- What `armable` of a snapshot means: a reading of the state, with no reference to the code.
use companion_lab.Prelude.{
  ℕ, ◌+◌, ◌-◌, ◌≤◌, ◌<◌, ◌≡◌, refl, ◌≢◌, ◌↔◌, ◌⊎◌, true, false, Option, none, some, List, [], ◌∷◌,
  bit_and, arith, All,
}
use companion_lab.Prelude.Int.{ℤ, pos, leb_ℤ}
use companion_lab.Prelude.Time.{TimePoint, seconds}
use companion_lab.Prelude.Doubles.{Doubles}
use companion_lab.Vehicle.{VehicleState, WarningEntry, is_fresh, contains_battery}
use companion_lab.Vehicle.Snapshot.{
  snapshot, erase_stale, meets_threshold, battery_sensor_healthy, sensors_ok, has_recent_warning,
  has_battery_warning, at_least, charged,
}

-- Something was observed, at most `timeout` nanoseconds before `now`.
abbrev pub Within : ℕ → TimePoint → Option TimePoint → Type 0
Within timeout now at = (t : TimePoint) × (at ≡ some t) × (now ≤ t + timeout)

is_fresh_iff :
    (at : Option TimePoint) (now : TimePoint) (timeout : ℕ)
    → (is_fresh at now timeout ≡ true) ↔ Within timeout now at
unfolding is_fresh
is_fresh_iff none now timeout = ground arith
is_fresh_iff (some t) now timeout = (λ h. (t, refl, ground arith), λ h. ground (arith, h))

-- No warning was seen in the last five seconds, and none of the last thirty is about the battery.
abbrev pub IsQuiet : TimePoint → List WarningEntry → Type 0
IsQuiet now ws =
    All
      (λ w.
        (w.last_seen + seconds 5 < now)
        × ((contains_battery w.text ≡ false) ⊎ (w.last_seen + seconds 30 < now)))
      ws

IsQuiet-warnings_iff :
    (now : TimePoint) (ws : List WarningEntry)
    → ((has_recent_warning now (erase_stale now ws) ≡ false)
        × (has_battery_warning (erase_stale now ws) ≡ false))
      ↔ IsQuiet now ws
unfolding has_recent_warning has_battery_warning erase_stale
IsQuiet-warnings_iff now [] = ((λ h. tt), (λ h. (refl, refl)))
IsQuiet-warnings_iff now (w ∷ ws) = ground (arith, IsQuiet-warnings_iff now ws)

charge-charged :
    (remaining : Option ℤ)
    → ((p : ℤ) → remaining ≡ some p → leb_ℤ (pos 20) p ≡ true)
    → charged remaining ≡ true
charge-charged none h = refl
charge-charged (some p) h = h p refl

module _ {D : Type 0} ⦃d : Doubles D⦄ where
  -- The battery can carry a flight: voltage and charge are high enough, as far as they are known.
  pub record IsCharged (s : VehicleState D) : Type 0 where
    pub voltage :
        (v a : D) × (s.battery_voltage_v ≡ some v)
        × (s.battery_arming_voltage_v ≡ some a)
        × ((d.eq a (d.of_decimal 0 0) ≡ true) ⊎ (d.le a v ≡ true))
    pub charge : (p : ℤ) → s.battery_remaining_pct ≡ some p → leb_ℤ (pos 20) p ≡ true

  pub record IsArmable (now : TimePoint) (s : VehicleState D) : Type 0 where
    pub heard : Within (seconds 3) now s.last_heartbeat
    pub located : Within (seconds 5) now s.last_gps
    pub fix : (f : ℕ) × (s.gps_fix_type ≡ some f) × (3 ≤ f)
    pub powered : Within (seconds 10) now s.last_battery
    pub charged : IsCharged s
    pub reported : Within (seconds 5) now s.last_system_status
    pub battery_sensor :
        (bit_and s.sensors_enabled 0x200_0000 ≢ 0) × (bit_and s.sensors_healthy 0x200_0000 ≢ 0)
    pub healthy : bit_and s.sensors_enabled (0xffff_ffff - s.sensors_healthy) ≡ 0
    pub quiet : IsQuiet now s.warnings

  meets_threshold-voltage :
      (voltage threshold : Option D)
      → meets_threshold voltage threshold ≡ true
      → (v a : D) × (voltage ≡ some v)
        × (threshold ≡ some a)
        × ((d.eq a (d.of_decimal 0 0) ≡ true) ⊎ (d.le a v ≡ true))
  unfolding meets_threshold
  meets_threshold-voltage none threshold h = cc
  meets_threshold-voltage (some v) none h = cc
  meets_threshold-voltage (some v) (some a) h = (v, a, refl, refl, ground arith)

  -- The tests that `snapshot` makes, one by one.
  abbrev Tests : TimePoint → VehicleState D → Type 0
  Tests now s =
      (is_fresh s.last_heartbeat now (seconds 3) ≡ true)
      × (is_fresh s.last_gps now (seconds 5) ≡ true)
      × (at_least 3 s.gps_fix_type ≡ true)
      × (is_fresh s.last_battery now (seconds 10) ≡ true)
      × (meets_threshold s.battery_voltage_v s.battery_arming_voltage_v ≡ true)
      × (charged s.battery_remaining_pct ≡ true)
      × (is_fresh s.last_system_status now (seconds 5) ≡ true)
      × (battery_sensor_healthy s.sensors_enabled s.sensors_healthy ≡ true)
      × (sensors_ok s.sensors_enabled s.sensors_healthy ≡ true)
      × (has_recent_warning now (erase_stale now s.warnings) ≡ false)
      × (has_battery_warning (erase_stale now s.warnings) ≡ false)

  armable-Tests :
      (s : VehicleState D) (now : TimePoint) → ((snapshot now s).1.armable ≡ true) ↔ Tests now s
  unfolding snapshot
  armable-Tests s now = ground arith

  Tests→IsArmable : (s : VehicleState D) (now : TimePoint) → Tests now s → IsArmable now s
  unfolding battery_sensor_healthy sensors_ok
  Tests→IsArmable s now h = record {
    heard = (is_fresh_iff s.last_heartbeat now (seconds 3)).0 h.0;
    located = (is_fresh_iff s.last_gps now (seconds 5)).0 h.1;
    fix = ground arith;
    powered = (is_fresh_iff s.last_battery now (seconds 10)).0 h.3;
    charged = record {
      voltage = meets_threshold-voltage s.battery_voltage_v s.battery_arming_voltage_v h.4;
      charge = λ p e. ground arith;
    };
    reported = (is_fresh_iff s.last_system_status now (seconds 5)).0 h.6;
    battery_sensor = ground arith;
    healthy = ground arith;
    quiet = (IsQuiet-warnings_iff now s.warnings).0 (h.9, h.10);
  }

  IsArmable→Tests : (s : VehicleState D) (now : TimePoint) → IsArmable now s → Tests now s
  unfolding battery_sensor_healthy sensors_ok meets_threshold
  IsArmable→Tests s now h =
      let (v, a, ev, ea, high) = h.charged.voltage in
      let (f, ef, lf) = h.fix in
      let quiet = (IsQuiet-warnings_iff now s.warnings).1 h.quiet in
      (
        (is_fresh_iff s.last_heartbeat now (seconds 3)).1 h.heard,
        (is_fresh_iff s.last_gps now (seconds 5)).1 h.located,
        ground arith,
        (is_fresh_iff s.last_battery now (seconds 10)).1 h.powered,
        ground arith,
        charge-charged s.battery_remaining_pct h.charged.charge,
        (is_fresh_iff s.last_system_status now (seconds 5)).1 h.reported,
        ground arith,
        ground arith,
        quiet.0,
        quiet.1,
      )

  -- `armable` is reported exactly when the heartbeat, the position fix, the battery and the system
  -- status are recent and good enough, every enabled sensor is healthy, the battery's among them,
  -- and the warnings are quiet.
  pub armable_iff :
      (s : VehicleState D) (now : TimePoint) → ((snapshot now s).1.armable ≡ true) ↔ IsArmable now s
  armable_iff s now = (
    λ h. Tests→IsArmable s now ((armable-Tests s now).0 h),
    λ h. (armable-Tests s now).1 (IsArmable→Tests s now h),
  )
