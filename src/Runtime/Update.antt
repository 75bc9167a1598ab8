-- ===== src/Runtime/Update.antt =====
-- application/AutonomyRuntime: `update`, in its stages.
use companion_lab.Prelude.{
  ℕ, ◌+◌, ◌-◌, ◌/◌, ◌%◌, Bool, true, false, not, ◌&&◌, ◌||◌, Option, none, some, List, [], ◌∷◌,
  String, ltb, leb, if◌then◌else◌, is_some,
}
use companion_lab.Prelude.Int.{pos_part}
use companion_lab.Prelude.Time.{TimePoint, seconds, milliseconds}
use companion_lab.Prelude.Doubles.{Doubles}
use companion_lab.Prelude.Text.{◌++◌}
use companion_lab.Decision.{BodyFramePosition, DesiredMotion, make_world_state, decide, supervise}
use companion_lab.Failsafe.{accepts}
use companion_lab.Flight.{land, landing_target, FlightActionRequest, command_request}
use companion_lab.Startup.{FlightStartupPhase}
use companion_lab.Runtime.{
  AutonomyRuntime, Observation, active, completed, is_over, is_waiting_for_startup, is_active,
  is_landing, fail,
}
use mathlib.Core.List.{◌++◌ as append}

-- The state and the requests after `update`; `none` is a read of an empty optional.
abbrev pub Updated : Type 0 → Type 0
Updated D = Option (AutonomyRuntime D × List (FlightActionRequest D))

abbrev has_failed : FlightStartupPhase → Bool
has_failed FlightStartupPhase.failed = true
has_failed _ = false

abbrev has_completed : FlightStartupPhase → Bool
has_completed FlightStartupPhase.completed = true
has_completed _ = false

abbrev pub or_else : Option TimePoint → TimePoint → TimePoint
or_else none now = now
or_else (some t) now = t

-- Whether a time is known and has come.
abbrev pub reached : Option TimePoint → TimePoint → Bool
reached none now = false
reached (some t) now = leb t now

-- A stage of `update`: it goes on with the state, or returns.
pub data Stage (D : Type 0) : Type 0 where
  on : AutonomyRuntime D → Stage D
  off : AutonomyRuntime D → Stage D

module _ {D : Type 0} where
  -- Before the startup is complete, and as it completes.
  unfoldable pub begin : Observation D → AutonomyRuntime D → Stage D
  begin o r =
      if not (is_waiting_for_startup r.phase)
      then on r
      else (if has_failed o.startup.phase
          then off (fail ("Flight startup failed: " ++ o.startup.detail) r)
          else (if not (has_completed o.startup.phase)
              then off (record r { detail = "Waiting for verified flight startup" })
              else (if not (accepts o.failsafe)
                  then off (fail ("Companion-link failsafe is not valid: " ++ o.failsafe.detail) r)
                  else on (record r {
                    phase = active;
                    detail = "Autonomy active; waiting for vision target";
                    target_missing_since = some o.now;
                    next_landing_target = o.now;
                  }))))

module _ {D : Type 0} ⦃d : Doubles D⦄ where
  pub issue : TimePoint → Option ℕ → AutonomyRuntime D → Updated D
  issue now none r = none
  issue now (some vehicle) r = some (
    record r {
      land_attempt = r.land_attempt + 1;
      awaiting_land_ack = true;
      acknowledgement_deadline = now + seconds 2;
    },
    command_request land vehicle (r.land_attempt % 256) ∷ [],
  )

  unfoldable pub update_land_command : TimePoint → AutonomyRuntime D → Updated D
  unfolding issue
  update_land_command now r =
      if not (is_active r.phase)
      then some (r, [])
      else (if r.awaiting_land_ack && ltb now r.acknowledgement_deadline
          then some (r, [])
          else (if leb 3 r.land_attempt
              then some (
                fail "No COMMAND_ACK for LAND after 3 attempts"
                    (record r { awaiting_land_ack = false }),
                [],
              )
              else issue now r.vehicle_system_id (record r { awaiting_land_ack = false })))

  touched_down : Option D → Bool
  touched_down none = false
  touched_down (some altitude) = d.le altitude (d.of_decimal 20 2)

  -- The guards between the startup and the guidance.
  unfoldable pub guard : Observation D → AutonomyRuntime D → Stage D
  unfolding touched_down
  guard o r =
      let known = record r { vehicle_system_id = o.vehicle.system_id } in
      if not o.vehicle.connected || not (is_some o.vehicle.system_id)
      then off (fail "Flight-controller heartbeat was lost during autonomy" r)
      else (if not (accepts o.failsafe)
          then off (fail ("Companion-link failsafe is no longer valid: " ++ o.failsafe.detail) r)
          else (if is_landing r.phase && not o.vehicle.armed
              then off (record known {
                phase = completed;
                detail = "Landing complete; vehicle disarmed";
                vision_landing_target_active = false;
              })
              else (if is_active r.phase && not o.vehicle.armed
                  then off (fail "Vehicle disarmed while autonomy was active" known)
                  else (if is_landing r.phase && leb r.landing_deadline o.now
                      then off (fail "Vehicle did not complete landing" known)
                      else (if is_landing r.phase && touched_down o.vehicle.relative_altitude_m
                          then off (record known {
                            vision_landing_target_active = false;
                            detail = "Touchdown detected; waiting for ArduPilot auto-disarm";
                          })
                          else on known)))))

  -- What the loss of the target resets; the time of the loss is kept if it is known.
  unfoldable pub lose : TimePoint → AutonomyRuntime D → AutonomyRuntime D
  lose now r = record r {
    vision_landing_target_active = false;
    land_command_after = none;
    next_landing_target = now;
    target_missing_since = some (or_else r.target_missing_since now);
  }

  -- No motion is approved.
  unfoldable pub without_target : TimePoint → AutonomyRuntime D → Updated D
  without_target now r =
      if is_landing r.phase
      then some (record (lose now r) { detail = "Landing without a fresh vision target" }, [])
      else (if leb (milliseconds (pos_part r.config.target_loss_land_after))
            (now - or_else r.target_missing_since now)
          then update_land_command now
              (record (lose now r) { detail = "Vision unavailable; requesting fallback LAND" })
          else some
              (record (lose now r) { detail = "Waiting for a fresh confirmed vision target" }, []))

  unfoldable pub target_request : DesiredMotion D → TimePoint → FlightActionRequest D
  target_request intent now = record {
    action = landing_target;
    vehicle_system_id = intent.vehicle_system_id;
    confirmation = 0;
    altitude_m = d.of_decimal 0 0;
    x_m = intent.landing_target.forward_m;
    y_m = intent.landing_target.right_m;
    z_m = intent.landing_target.down_m;
    time_usec = now / 1000;
  }

  unfoldable pub target_detail : BodyFramePosition D → String
  target_detail p =
      "Vision target F/R/D "
      ++ (d.fixed 1 p.forward_m
          ++ ("/" ++ (d.fixed 1 p.right_m ++ ("/" ++ (d.fixed 1 p.down_m ++ " m")))))

  -- The request of the LAND command, if any, after those that are there, and the last detail.
  unfoldable pub finish : String → List (FlightActionRequest D) → Updated D → Updated D
  finish detail requests none = none
  finish detail requests (some (r, more)) =
      some (record r { detail = detail }, append requests more)

  -- The first approved target starts the warm-up before LAND.
  unfoldable pub warm_up : TimePoint → AutonomyRuntime D → AutonomyRuntime D
  warm_up now r =
      let found = record r { target_missing_since = none } in
      if not (is_some r.land_command_after) && is_active r.phase
      then record found { land_command_after = some (now + seconds 1); next_landing_target = now }
      else found

  -- A landing target is due, and the next one comes 200 ms after it.
  unfoldable pub pace : TimePoint → AutonomyRuntime D → AutonomyRuntime D
  pace now r =
      if leb r.next_landing_target now
      then record r { next_landing_target = now + milliseconds 200 }
      else r

  -- A motion is approved.
  unfoldable pub with_target : TimePoint → DesiredMotion D → AutonomyRuntime D → Updated D
  with_target now intent r =
      let warm = warm_up now r in
      let requests =
        if leb warm.next_landing_target now then target_request intent now ∷ [] else [] in
      let sent = pace now warm in
      finish (target_detail intent.landing_target) requests (
        if is_active sent.phase && reached sent.land_command_after now
        then update_land_command now sent
        else some (sent, []))

  unfoldable pub steer : Option (DesiredMotion D) → TimePoint → AutonomyRuntime D → Updated D
  steer none now r = without_target now r
  steer (some intent) now r = with_target now intent r

  unfoldable pub guide : Observation D → AutonomyRuntime D → Updated D
  guide o r =
      let world = make_world_state o.vehicle o.target o.now in
      let supervised = supervise world (decide world) o.now in
      steer supervised.approved o.now (record r { motion_safety_status = supervised.status })

  abbrev pub proceed : (AutonomyRuntime D → Updated D) → Stage D → Updated D
  proceed next (on r) = next r
  proceed next (off r) = some (r, [])

  unfoldable pub update : Observation D → AutonomyRuntime D → Updated D
  update o r =
      if is_over r.phase
      then some (r, [])
      else proceed (λ s. proceed (guide o) (guard o s)) (begin o r)
