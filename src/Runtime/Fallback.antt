-- ===== src/Runtime/Fallback.antt =====
-- application/AutonomyRuntime: LAND without a target, and the end of the attempts.
use companion_lab.Prelude.{
  Option, List, All, refl, ℕ, ◌+◌, ◌≤◌, ◌<◌, ◌≡◌, ◌⊎◌, true, false, none, some, [], ◌∷◌, arith,
  Option-cases,
}
use companion_lab.Prelude.Int.{pos_part}
use companion_lab.Prelude.Time.{TimePoint, milliseconds}
use companion_lab.Prelude.Doubles.{Doubles}
use companion_lab.Decision.{
  BodyFramePosition, DesiredMotion, MotionSafetyStatus, make_world_state, decide, supervise,
  no_intent, valid_target,
}
use companion_lab.Failsafe.{accepts, option_bind}
use companion_lab.Flight.{land, command_request}
use companion_lab.Runtime.{AutonomyRuntime, Observation, active, failed, fail}
use companion_lab.Runtime.Update.{
  lose, warm_up, pace, steer, Updated, begin, update_land_command, guard, without_target,
  with_target, guide, update, finish,
}
use companion_lab.Runtime.Update.{target_detail}

module _ {D : Type 0} ⦃d : Doubles D⦄ where
  -- The call returns one LAND command for this vehicle, and awaits its acknowledgement.
  abbrev pub Lands : ℕ → Updated D → Type 0
  Lands i none = ⊥
  Lands i (some (r, [])) = ⊥
  Lands i (some (r, q ∷ [])) =
      (q.action ≡ land) × (q.vehicle_system_id ≡ i) × (r.awaiting_land_ack ≡ true)
  Lands i (some (r, q ∷ q' ∷ qs)) = ⊥

  -- The vehicle that the observation shows flies, under a valid failsafe.
  pub record Flies (i : ℕ) (o : Observation D) : Type 0 where
    pub connected : o.vehicle.connected ≡ true
    pub vehicle : o.vehicle.system_id ≡ some i
    pub armed : o.vehicle.armed ≡ true
    pub failsafe : accepts o.failsafe ≡ true

  active-update :
      (o : Observation D) (r : AutonomyRuntime D) (i : ℕ)
      → r.phase ≡ active
      → Flies i o
      → update o r ≡ guide o (record r { vehicle_system_id = o.vehicle.system_id })
  unfolding update begin guard
  active-update o r i a f = ground arith

  guide-lost :
      (o : Observation D) (r : AutonomyRuntime D)
      → o.target ≡ none
      → guide o r ≡ without_target o.now (record r { motion_safety_status = no_intent })
  unfolding guide steer supervise decide make_world_state
  guide-lost o r e = ground (arith, Option-cases o.vehicle.system_id)

  update_land_command-Lands :
      (now : TimePoint) (r : AutonomyRuntime D) (i : ℕ)
      → r.phase ≡ active
      → r.vehicle_system_id ≡ some i
      → r.land_attempt < 3
      → (r.awaiting_land_ack ≡ false) ⊎ (r.acknowledgement_deadline ≤ now)
      → Lands i (update_land_command now r)
  unfolding update_land_command command_request
  update_land_command-Lands now r i a k l w = ground arith

  without_target-Lands :
      (now : TimePoint) (r : AutonomyRuntime D) (i : ℕ) (t : TimePoint)
      → r.phase ≡ active
      → r.vehicle_system_id ≡ some i
      → r.target_missing_since ≡ some t
      → t + milliseconds (pos_part r.config.target_loss_land_after) ≤ now
      → r.land_attempt < 3
      → (r.awaiting_land_ack ≡ false) ⊎ (r.acknowledgement_deadline ≤ now)
      → Lands i (without_target now r)
  unfolding without_target lose
  without_target-Lands now r i t a k m late l w = ground (
    arith,
    update_land_command-Lands now
        (record (lose now r) { detail = "Vision unavailable; requesting fallback LAND" }) i a k l w,
  )

  update-Lands_late :
      (o : Observation D) (r : AutonomyRuntime D) (i : ℕ) (t : TimePoint)
      → r.phase ≡ active
      → Flies i o
      → o.target ≡ none
      → r.target_missing_since ≡ some t
      → t + milliseconds (pos_part r.config.target_loss_land_after) ≤ o.now
      → r.land_attempt < 3
      → (r.awaiting_land_ack ≡ false) ⊎ (r.acknowledgement_deadline ≤ o.now)
      → Lands i (update o r)
  update-Lands_late o r i t a f e m late l w =
      rw
        (
          active-update o r i a f,
          guide-lost o (record r { vehicle_system_id = o.vehicle.system_id }) e,
        )
        (without_target-Lands o.now
          (record r { vehicle_system_id = o.vehicle.system_id; motion_safety_status = no_intent }) i
          t a f.vehicle m late l w)

  -- The states that a row of updates leads to; what they send is left out.
  abbrev pub updates : List (Observation D) → AutonomyRuntime D → Option (AutonomyRuntime D)
  updates [] r = some r
  updates (o ∷ os) r = option_bind (update o r) (λ u. updates os u.0)

  -- The vehicle flies without a target, at a time from `t` on and before `late`.
  abbrev pub Waits : ℕ → TimePoint → TimePoint → Observation D → Type 0
  Waits i t late o = Flies i o × (o.target ≡ none) × (t ≤ o.now) × (o.now < late)

  -- The state after an update that still waits for a target.
  abbrev waiting : Observation D → TimePoint → AutonomyRuntime D → AutonomyRuntime D
  waiting o t r = record r {
    vehicle_system_id = o.vehicle.system_id;
    motion_safety_status = no_intent;
    vision_landing_target_active = false;
    land_command_after = none;
    next_landing_target = o.now;
    target_missing_since = some t;
    detail = "Waiting for a fresh confirmed vision target";
  }

  without_target-waiting :
      (now : TimePoint) (r : AutonomyRuntime D) (t : TimePoint)
      → r.phase ≡ active
      → r.target_missing_since ≡ some t
      → t ≤ now
      → now < t + milliseconds (pos_part r.config.target_loss_land_after)
      → without_target now r
        ≡ some (record (lose now r) { detail = "Waiting for a fresh confirmed vision target" }, [])
  unfolding without_target
  without_target-waiting now r t a m l early = ground arith

  update-waiting :
      (o : Observation D) (r : AutonomyRuntime D) (i : ℕ) (t : TimePoint)
      → r.phase ≡ active
      → r.target_missing_since ≡ some t
      → Waits i t (t + milliseconds (pos_part r.config.target_loss_land_after)) o
      → update o r ≡ some (waiting o t r, [])
  unfolding lose
  update-waiting o r i t a m (f, e, l, early) =
      rw
        (
          active-update o r i a f,
          guide-lost o (record r { vehicle_system_id = o.vehicle.system_id }) e,
          without_target-waiting o.now
              (record r {
                vehicle_system_id = o.vehicle.system_id;
                motion_safety_status = no_intent;
              })
              t a m l early,
          m,
        )
        refl

  -- The update after those.
  abbrev pub LandsThen : ℕ → Observation D → Option (AutonomyRuntime D) → Type 0
  LandsThen i o none = ⊥
  LandsThen i o (some r) = Lands i (update o r)

  -- Let the runtime be active, the target missing since `t`, and fewer than three LAND commands sent.
  -- After any updates, in which the connected and armed vehicle, under a valid failsafe, shows no
  -- target before the configured time from `t` on is over, the first such update from that time on
  -- returns one LAND command for the vehicle, and awaits its acknowledgement, unless at its time that
  -- of an earlier one may still come.
  pub update-Lands :
      (before : List (Observation D)) (o : Observation D) (r : AutonomyRuntime D) (i : ℕ)
      (t : TimePoint)
      → r.phase ≡ active
      → r.target_missing_since ≡ some t
      → r.land_attempt < 3
      → (r.awaiting_land_ack ≡ false) ⊎ (r.acknowledgement_deadline ≤ o.now)
      → All (Waits i t (t + milliseconds (pos_part r.config.target_loss_land_after))) before
      → Flies i o
      → o.target ≡ none
      → t + milliseconds (pos_part r.config.target_loss_land_after) ≤ o.now
      → LandsThen i o (updates before r)
  update-Lands [] o r i t a m l w h f e late = update-Lands_late o r i t a f e m late l w
  update-Lands (b ∷ before) o r i t a m l w h f e late =
      rw (update-waiting b r i t a m h.0)
        (update-Lands before o (waiting b t r) i t a refl l w h.1 f e late)

  -- The intent of an observation with a target.
  abbrev intent : ℕ → BodyFramePosition D → TimePoint → DesiredMotion D
  intent i p now = record {
    vehicle_system_id = i;
    landing_target = p;
    created_at = now;
    valid_until = now + milliseconds 250;
  }

  guide-seen :
      (o : Observation D) (r : AutonomyRuntime D) (i : ℕ) (p : BodyFramePosition D)
      → Flies i o
      → o.target ≡ some p
      → valid_target p ≡ true
      → guide o r
        ≡ with_target o.now
            (intent i p o.now)
            (record r { motion_safety_status = MotionSafetyStatus.allowed })
  unfolding guide steer supervise decide make_world_state
  guide-seen o r i p f e h = ground arith

  -- The call gives up, but shows the target where the reason should stand.
  abbrev pub GivesUp : BodyFramePosition D → Updated D → Type 0
  GivesUp p none = ⊥
  GivesUp p (some (r, requests)) = (r.phase ≡ failed) × (r.detail ≡ target_detail p)

  with_target-GivesUp :
      (now : TimePoint) (r : AutonomyRuntime D) (i : ℕ) (p : BodyFramePosition D) (t : TimePoint)
      → r.phase ≡ active
      → r.land_command_after ≡ some t
      → t ≤ now
      → 3 ≤ r.land_attempt
      → (r.awaiting_land_ack ≡ false) ⊎ (r.acknowledgement_deadline ≤ now)
      → GivesUp p (with_target now (intent i p now) r)
  unfolding with_target warm_up pace finish update_land_command fail
  with_target-GivesUp now r i p t a k late n w = ground arith

  -- When the third LAND command is not acknowledged in time while a valid target is in view, the
  -- runtime fails, and the text that it shows is the position of the target: the reason that
  -- `update_land_command` gave is overwritten.
  pub update-GivesUp :
      (o : Observation D) (r : AutonomyRuntime D) (i : ℕ) (p : BodyFramePosition D) (t : TimePoint)
      → r.phase ≡ active
      → Flies i o
      → o.target ≡ some p
      → valid_target p ≡ true
      → r.land_command_after ≡ some t
      → t ≤ o.now
      → 3 ≤ r.land_attempt
      → (r.awaiting_land_ack ≡ false) ⊎ (r.acknowledgement_deadline ≤ o.now)
      → GivesUp p (update o r)
  update-GivesUp o r i p t a f e h k late n w =
      rw
        (
          active-update o r i a f,
          guide-seen o (record r { vehicle_system_id = o.vehicle.system_id }) i p f e h,
        )
        (with_target-GivesUp o.now
          (record r {
            vehicle_system_id = o.vehicle.system_id;
            motion_safety_status = MotionSafetyStatus.allowed;
          })
          i p t a k late n w)
