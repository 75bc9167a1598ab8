-- ===== src/Runtime/Requests.antt =====
-- application/AutonomyRuntime: what a request that it sends must have behind it, and the LAND
-- command first.
use companion_lab.Prelude.{
  ◌+◌, ◌-◌, ◌≤◌, ◌≡◌, ◌⊎◌, inr, true, none, some, List, [], ◌∷◌, arith, Option-cases,
}
use companion_lab.Prelude.Int.{pos_part}
use companion_lab.Prelude.Time.{TimePoint, seconds, milliseconds}
use companion_lab.Prelude.Doubles.{Doubles}
use companion_lab.Decision.{BodyFramePosition, valid_target}
use companion_lab.Failsafe.{accepts}
use companion_lab.Flight.{land, landing_target, FlightActionRequest, command_request}
use companion_lab.Runtime.{AutonomyRuntime, Observation, active, fail}
use companion_lab.Runtime.Update.{
  lose, Updated, Stage, on, off, update_land_command, guard, without_target,
}
use companion_lab.Runtime.Invariant.{engaged, Inv}

module _ {D : Type 0} ⦃d : Doubles D⦄ where
  -- What stands behind a landing target that an update sends.
  pub record IsGuidance (o : Observation D) (r : AutonomyRuntime D) (q : FlightActionRequest D)
      : Type 0 where
    pub action : q.action ≡ landing_target
    pub position :
        (p : BodyFramePosition D) × (o.target ≡ some p)
        × (valid_target p ≡ true)
        × (q.x_m ≡ p.forward_m)
        × (q.y_m ≡ p.right_m)
        × (q.z_m ≡ p.down_m)
    pub next : r.next_landing_target ≡ o.now + milliseconds 200

  -- The warm-up that follows a target is over, or the target has been missing for too long.
  abbrev pub LandReason : TimePoint → AutonomyRuntime D → Type 0
  LandReason now r =
      ((t : TimePoint) × (r.land_command_after ≡ some t) × (t ≤ now))
      ⊎ ((t : TimePoint) × (r.target_missing_since ≡ some t)
          × (milliseconds (pos_part r.config.target_loss_land_after) ≤ now - t))

  -- What stands behind a LAND command that an update sends.
  pub record IsLandCommand (o : Observation D) (r : AutonomyRuntime D) (q : FlightActionRequest D)
      : Type 0 where
    pub action : q.action ≡ land
    pub phase : r.phase ≡ active
    pub attempt : (r.land_attempt ≤ 3) × (q.confirmation + 1 ≡ r.land_attempt)
    pub awaited : (r.awaiting_land_ack ≡ true) × (r.acknowledgement_deadline ≡ o.now + seconds 2)
    pub reason : LandReason o.now r

  -- The vehicle may be commanded, and the request is for it.
  pub record IsAddressed (o : Observation D) (q : FlightActionRequest D) : Type 0 where
    pub connected : o.vehicle.connected ≡ true
    pub armed : o.vehicle.armed ≡ true
    pub failsafe : accepts o.failsafe ≡ true
    pub vehicle : o.vehicle.system_id ≡ some q.vehicle_system_id

  abbrev pub Justified : Observation D → AutonomyRuntime D → List (FlightActionRequest D) → Type 0
  Justified o r [] = Unit
  Justified o r (q ∷ []) = IsAddressed o q × (IsGuidance o r q ⊎ IsLandCommand o r q)
  Justified o r (q ∷ q' ∷ []) =
      IsAddressed o q × IsGuidance o r q × IsAddressed o q' × IsLandCommand o r q'
  Justified o r (q ∷ q' ∷ q'' ∷ qs) = ⊥

  -- What the guard has checked, and copied.
  pub record Guarded (o : Observation D) (r : AutonomyRuntime D) : Type 0 where
    pub connected : o.vehicle.connected ≡ true
    pub armed : o.vehicle.armed ≡ true
    pub failsafe : accepts o.failsafe ≡ true
    pub vehicle : r.vehicle_system_id ≡ o.vehicle.system_id

  abbrev pub GuardedStage : Observation D → Stage D → Type 0
  GuardedStage o (on r) = Guarded o r
  GuardedStage o (off r) = Unit

  pub guard-Guarded :
      (o : Observation D) (r : AutonomyRuntime D)
      → engaged r.phase ≡ true
      → GuardedStage o (guard o r)
  unfolding guard
  guard-Guarded o r e = ground arith

  -- A LAND command, if any.
  abbrev pub Lands : Observation D → Updated D → Type 0
  Lands o none = Unit
  Lands o (some (r, [])) = Unit
  Lands o (some (r, q ∷ [])) = IsAddressed o q × IsLandCommand o r q
  Lands o (some (r, q ∷ q' ∷ qs)) = ⊥

  pub update_land_command-Lands :
      (o : Observation D) (r : AutonomyRuntime D)
      → Guarded o r
      → Inv r
      → LandReason o.now r
      → Lands o (update_land_command o.now r)
  unfolding update_land_command fail command_request
  update_land_command-Lands o r g v why = ground (arith, Option-cases r.vehicle_system_id)

  abbrev pub Answers : Observation D → Updated D → Type 0
  Answers o none = Unit
  Answers o (some (r, requests)) = Justified o r requests

  Lands-Answers : (o : Observation D) (u : Updated D) → Lands o u → Answers o u
  Lands-Answers o none h = tt
  Lands-Answers o (some (r, [])) h = tt
  Lands-Answers o (some (r, q ∷ [])) h = (h.0, inr h.1)
  Lands-Answers o (some (r, q ∷ q' ∷ qs)) h = elim h [ ]

  pub without_target-Answers :
      (o : Observation D) (r : AutonomyRuntime D)
      → Guarded o r
      → Inv r
      → Answers o (without_target o.now r)
  unfolding without_target lose
  without_target-Answers o r g v = ground (
    arith,
    Lands-Answers o (
        update_land_command o.now
          (record (lose o.now r) { detail = "Vision unavailable; requesting fallback LAND" })),
    update_land_command-Lands o
        (record (lose o.now r) { detail = "Vision unavailable; requesting fallback LAND" }),
  )
