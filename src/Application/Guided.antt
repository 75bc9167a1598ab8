-- ===== src/Application/Guided.antt =====
-- application/CompanionApplication: the updates of the startup and the runtime, and the landing target.
use companion_lab.Prelude.{refl, Bool, not, ◌||◌, Option, none, some, List, Bool-cases, inl, inr}
use companion_lab.Prelude.Int.{pos}
use companion_lab.Prelude.Doubles.{Doubles}
use companion_lab.Prelude.Outcomes.{ok, defined, ◌>>=◌}
use companion_lab.Flight.{FlightActionRequest}
use companion_lab.Startup.{FlightStartupController}
use companion_lab.Startup.Update.{Updated as StartupUpdated}
use companion_lab.Startup.Invariant.{
  Inv as StartupInv, Returns as StartupReturns, on_action_sent-Inv as startup_sent-Inv,
}
use companion_lab.Runtime.Update.{Updated as RuntimeUpdated}
use companion_lab.Runtime.{AutonomyRuntime}
use companion_lab.Runtime.Invariant.{
  Inv as RuntimeInv, Returns as RuntimeReturns, on_action_sent-Inv as runtime_sent-Inv,
}
use companion_lab.Decision.{BodyFramePosition}
use companion_lab.Tracker.{CameraFramePosition, TargetTrackPhase}
use companion_lab.Vision.{VisionSnapshot}
use companion_lab.Transform.{CameraExtrinsics, is_finite_position, camera_to_body_frd}
use companion_lab.Transform.Rigid.{IsRigid, camera_to_body_frd-rigid}
use companion_lab.Application.Parts.{Safe}
use companion_lab.Application.Members.{Impl}
use companion_lab.Application.Watch.{is_tracking, move_target, landing_target_of}
use companion_lab.Application.Poll.{startup_sent, runtime_sent}
use companion_lab.Application.Invariant.{RigidIfAny, Inv}

-- What a component learns of an action that was sent keeps the invariant.
abbrev pub Tells :
    {T P D : Type 0} ⦃d : Doubles D⦄
    → (FlightActionRequest D → Bool → Impl T P D → Impl T P D)
    → Type 0
Tells {T} {P} {D} tell =
    (a : FlightActionRequest D) (sent : Bool) (s : Impl T P D) → Inv s → Inv (tell a sent s)

module _ {T P D : Type 0} ⦃d : Doubles D⦄ where
  pub startup_sent-Tells : Tells {T = T} {P = P} {D = D} startup_sent
  startup_sent-Tells a sent s v = (
    record {
      telemetry = v.0.telemetry;
      startup = startup_sent-Inv a sent s.flight_startup v.0.startup;
      runtime = v.0.runtime;
      failsafe = v.0.failsafe;
    },
    v.1,
    v.2,
    v.3,
  )

  pub runtime_sent-Tells : Tells {T = T} {P = P} {D = D} runtime_sent
  runtime_sent-Tells a sent s v = (
    record {
      telemetry = v.0.telemetry;
      startup = v.0.startup;
      runtime = runtime_sent-Inv a sent s.autonomy_runtime v.0.runtime;
      failsafe = v.0.failsafe;
    },
    v.1,
    v.2,
    v.3,
  )

module _ {D : Type 0} ⦃d : Doubles D⦄ where
  pub startup-Safe :
      (u : StartupUpdated D)
      → StartupReturns u
      → Safe
          (λ (a : FlightStartupController D × List (FlightActionRequest D)). StartupInv a.0)
          (defined u)
  startup-Safe none h = h
  startup-Safe (some (c, actions)) h = h

  pub runtime-Safe :
      (u : RuntimeUpdated D)
      → RuntimeReturns u
      → Safe (λ (a : AutonomyRuntime D × List (FlightActionRequest D)). RuntimeInv a.0) (defined u)
  runtime-Safe none h = h
  runtime-Safe (some (r, actions)) h = h

  -- A target that is moved, or none.
  abbrev pub Anything : Option (BodyFramePosition D) → Type 0
  Anything t = Unit

  moved-Safe :
      (p : CameraFramePosition D) (e : CameraExtrinsics D)
      → IsRigid e
      → Safe Anything (camera_to_body_frd p e >>= λ target. ok (some target))
  moved-Safe p e h =
      rw (camera_to_body_frd-rigid p e h)
        (elim (Bool-cases (not (is_finite_position p))) [ inl q ↦ rw q refl | inr q ↦ rw q tt ])

  move_target-Safe :
      (phase : TargetTrackPhase) (p : Option (CameraFramePosition D)) (age : Option D)
      (e : CameraExtrinsics D)
      → IsRigid e
      → Safe Anything (move_target phase p age e)
  unfolding move_target
  move_target-Safe phase none age e h = tt
  move_target-Safe phase (some p) none e h = tt
  move_target-Safe phase (some p) (some age) e h =
      elim (Bool-cases (not (is_tracking phase) || d.lt (d.of_int (pos 250)) age)) [
        | inl q ↦ rw q tt
        | inr q ↦ rw q (moved-Safe p e h)
      ]

  pub landing_target_of-Safe :
      (o : Option (VisionSnapshot D)) (e : Option (CameraExtrinsics D))
      → RigidIfAny e
      → Safe Anything (landing_target_of o e)
  unfolding landing_target_of
  landing_target_of-Safe none e h = tt
  landing_target_of-Safe (some v) none h = tt
  landing_target_of-Safe (some v) (some e) h = move_target-Safe _ _ _ e h
