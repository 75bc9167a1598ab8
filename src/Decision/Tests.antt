-- ===== src/Decision/Tests.antt =====
-- application/DecisionEngine and SafetySupervisor: the theorems at concrete inputs.
use companion_lab.Prelude.{ℕ, ◌+◌, ◌≡◌, ◌≢◌, ◌↔◌, ◌⊎◌, true, none, some}
use companion_lab.Prelude.Time.{seconds, milliseconds}
use companion_lab.Examples.{thousandths, flying, pad}
use companion_lab.Decision.{
  DesiredMotion, no_intent, stale_intent, make_world_state, decide, supervise, valid_target,
  supervise-decide,
}

-- The motion that is approved for the flying vehicle and the target in view.
abbrev approach : DesiredMotion ℕ
approach = record {
  vehicle_system_id = 1;
  landing_target = pad;
  created_at = seconds 1;
  valid_until = seconds 1 + milliseconds 250;
}

supervise-decide_example :
    let world = make_world_state flying (some pad) (seconds 1) in
    let r = supervise world (decide world) (seconds 1) in
    (r.status ≢ stale_intent)
    × ((r.approved ≡ some approach) ↔ (
        (flying.system_id ≡ some 1)
        × (some pad ≡ some pad)
        × (approach.created_at ≡ seconds 1)
        × (approach.valid_until ≡ seconds 1 + milliseconds 250)
        × (flying.connected ≡ true)
        × (flying.armed ≡ true)
        × (valid_target pad ≡ true)))
    × ((r.status ≡ no_intent) ↔ ((flying.system_id ≡ none) ⊎ (some pad ≡ none)))
supervise-decide_example = supervise-decide flying (some pad) (seconds 1) approach
