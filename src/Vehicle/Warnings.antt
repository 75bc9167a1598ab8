-- ===== src/Vehicle/Warnings.antt =====
-- domain/VehicleState: the texts in the vehicle's list of warnings.
use companion_lab.Prelude.{◌≢◌, List, [], ◌∷◌, arith, All}
use companion_lab.Prelude.Time.{TimePoint}
use companion_lab.Prelude.Text.{Bytes, bytes_eq_iff}
use companion_lab.Prelude.Doubles.{Doubles}
use companion_lab.Vehicle.{
  VehicleState, WarningEntry, record_warning, initial, on_status_text, on_heartbeat, on_gps,
  on_global_position, on_local_position, on_attitude, on_battery, on_battery_arming_voltage,
  on_autopilot_metadata, on_system_status,
}
use companion_lab.Vehicle.Snapshot.{erase_stale, snapshot}
use companion_lab.Vehicle.Events.{Event, step, run}

-- No entry has this text.
abbrev pub Lacks : Bytes → List WarningEntry → Type 0
Lacks t ws = All (λ w. w.text ≢ t) ws

-- The texts of the entries differ from one another.
abbrev pub Distinct : List WarningEntry → Type 0
Distinct [] = Unit
Distinct (w ∷ ws) = Lacks w.text ws × Distinct ws

record_warning-Lacks :
    (t text : Bytes) (now : TimePoint) (ws : List WarningEntry)
    → text ≢ t
    → Lacks t ws
    → Lacks t (record_warning text now ws)
unfolding record_warning
record_warning-Lacks t text now [] h l = (h, tt)
record_warning-Lacks t text now (w ∷ ws) h l =
    ground (arith, record_warning-Lacks t text now ws h l.1)

record_warning-Distinct :
    (text : Bytes) (now : TimePoint) (ws : List WarningEntry)
    → Distinct ws
    → Distinct (record_warning text now ws)
unfolding record_warning
record_warning-Distinct text now [] h = (tt, tt)
record_warning-Distinct text now (w ∷ ws) h = ground (
  arith,
  bytes_eq_iff w.text text,
  record_warning-Lacks w.text text now ws,
  record_warning-Distinct text now ws h.1,
)

erase_stale-Lacks :
    (t : Bytes) (now : TimePoint) (ws : List WarningEntry)
    → Lacks t ws
    → Lacks t (erase_stale now ws)
unfolding erase_stale
erase_stale-Lacks t now [] l = tt
erase_stale-Lacks t now (w ∷ ws) l = ground (arith, erase_stale-Lacks t now ws l.1)

erase_stale-Distinct :
    (now : TimePoint) (ws : List WarningEntry) → Distinct ws → Distinct (erase_stale now ws)
unfolding erase_stale
erase_stale-Distinct now [] h = tt
erase_stale-Distinct now (w ∷ ws) h =
    ground (arith, erase_stale-Lacks w.text now ws h.0, erase_stale-Distinct now ws h.1)

module _ {D : Type 0} ⦃d : Doubles D⦄ where
  step-Distinct :
      (s : VehicleState D) (e : TimePoint × Event D)
      → Distinct s.warnings
      → Distinct (step s e).warnings
  unfolding step on_status_text on_heartbeat on_gps on_global_position on_local_position on_attitude
      on_battery on_battery_arming_voltage on_autopilot_metadata on_system_status snapshot
  step-Distinct s (now, Event.status_text severity text) h =
      ground (arith, record_warning-Distinct text now s.warnings h)
  step-Distinct s (now, Event.observed) h = erase_stale-Distinct now s.warnings h
  step-Distinct s (now, e) h = ground arith

  run-Distinct :
      (s : VehicleState D) (es : List (TimePoint × Event D))
      → Distinct s.warnings
      → Distinct (run s es).warnings
  unfolding run
  run-Distinct s [] h = h
  run-Distinct s (e ∷ es) h = run-Distinct (step s e) es (step-Distinct s e h)

  -- Whatever a vehicle state has received since it was made, and whenever it was observed, no two
  -- entries of its list of warnings have the same text.
  pub run-initial-Distinct :
      (es : List (TimePoint × Event D)) → Distinct (run (initial D) es).warnings
  unfolding initial
  run-initial-Distinct es = run-Distinct (initial D) es tt
