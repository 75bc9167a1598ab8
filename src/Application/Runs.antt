-- ===== src/Application/Runs.antt =====
-- application/CompanionApplication: sequences of polls and of requests to start.
use companion_lab.Prelude.{◌≡◌, ◌⊎◌, none, not, List, [], ◌∷◌, arith, Bool-cases, inl, inr}
use mathlib.Core.Path.{subst}
use companion_lab.Prelude.Time.{TimePoint}
use companion_lab.Prelude.Doubles.{Doubles}
use companion_lab.Prelude.Outcomes.{Outcome, ok, ◌>>=◌}
use companion_lab.Mavlink.{Mavlink}
use companion_lab.Mavlink.Messages.{Messages, Framing}
use companion_lab.Mavlink.Encoder.{Casts}
use companion_lab.Vehicle.Snapshot.{VehicleSnapshot}
use companion_lab.Startup.Invariant.{Inv as StartupInv, restart-Inv as startup_restart-Inv}
use companion_lab.Runtime.Invariant.{Inv as RuntimeInv, restart-Inv as runtime_restart-Inv}
use companion_lab.Application.Frames.{Transport, Breaks}
use companion_lab.Application.Start.{Companion, start_from, request_autonomy_start}
use companion_lab.Application.Members.{Impl}
use companion_lab.Application.Watch.{Surroundings}
use companion_lab.Application.Poll.{poll}
use companion_lab.Application.Construct.{CompanionApplicationOptions, make}
use companion_lab.Application.Invariant.{RigidIfAny, Inv}
use companion_lab.Application.Parts.{Contained, Contained-bind, Contained-weaken}
use companion_lab.Application.Sound.{poll-Contained}
use companion_lab.Application.Consistent.{IsConsistent, Accepts, Answers, make-Answers}

pub data Event (D : Type 0) : Type 0 where
  polled : Surroundings D → Event D
  start_requested : TimePoint → Event D

module _ {T P D : Type 0} where
  -- The members that `request_autonomy_start` reads and writes.
  companion_of : Impl T P D → Companion D
  companion_of s = record {
    motion_commands_allowed = s.motion_commands_allowed;
    autonomy_scenario_configured = s.autonomy_scenario_configured;
    vehicle_state = s.vehicle_state;
    flight_startup = s.flight_startup;
    autonomy_runtime = s.autonomy_runtime;
    log = s.log;
  }

  with_companion : Companion D → Impl T P D → Impl T P D
  with_companion c s = record s {
    vehicle_state = c.vehicle_state;
    flight_startup = c.flight_startup;
    autonomy_runtime = c.autonomy_runtime;
    log = c.log;
  }

module _ {T P M D : Type 0} ⦃m : Mavlink⦄ ⦃d : Doubles D⦄ ⦃c : Casts D⦄ (port : Transport T)
    (framing : Framing P M) (lib : Messages M D) where
  unfoldable pub step : Event D → Impl T P D → Outcome (Impl T P D)
  unfolding companion_of with_companion
  step (polled e) s = poll port framing lib e s
  step (start_requested now) s =
      ok (with_companion (request_autonomy_start now (companion_of s)).1 s)

  unfoldable pub run : List (Event D) → Impl T P D → Outcome (Impl T P D)
  run [] s = ok s
  run (e ∷ es) s = step e s >>= run es

module _ {D : Type 0} ⦃d : Doubles D⦄ where
  abbrev BothInv : Companion D → Type 0
  BothInv s = StartupInv s.flight_startup × RuntimeInv s.autonomy_runtime

  start_from-BothInv :
      (vehicle : VehicleSnapshot D) (now : TimePoint) (s : Companion D)
      → BothInv s
      → BothInv (start_from vehicle now s).1
  unfolding start_from
  start_from-BothInv vehicle now s v =
      ground (arith, startup_restart-Inv s.flight_startup, runtime_restart-Inv s.autonomy_runtime)

  request-BothInv :
      (now : TimePoint) (s : Companion D) → BothInv s → BothInv (request_autonomy_start now s).1
  unfolding request_autonomy_start
  request-BothInv now s v = elim (Bool-cases (not s.motion_commands_allowed)) [
    | inl e ↦ rw e v
    | inr e ↦ rw e (elim (Bool-cases (not s.autonomy_scenario_configured)) [
      | inl f ↦ rw f v
      | inr f ↦ rw f (start_from-BothInv _ now _ v)
    ])
  ]

module _ {T D : Type 0} (port : Transport T) where
  -- A transport that throws, or an event in which the detector does.
  abbrev pub StepBreaks : Event D → Type 0
  StepBreaks (polled e) = Breaks port ⊎ (e.batch ≡ none)
  StepBreaks (start_requested now) = ⊥

  abbrev pub RunBreaks : List (Event D) → Type 0
  RunBreaks [] = ⊥
  RunBreaks (e ∷ es) = StepBreaks e ⊎ RunBreaks es

module _ {T P M D : Type 0} ⦃m : Mavlink⦄ ⦃d : Doubles D⦄ ⦃c : Casts D⦄ (port : Transport T)
    (framing : Framing P M) (lib : Messages M D) where
  pub step-Contained :
      (e : Event D) (s : Impl T P D)
      → Inv s
      → Contained (StepBreaks port e) Inv (step port framing lib e s)
  unfolding step
  step-Contained (polled e) s v = poll-Contained port framing lib e s v
  step-Contained (start_requested now) s v =
      let both = request-BothInv now (companion_of s) (v.0.startup, v.0.runtime) in
      (
        record {
          telemetry = v.0.telemetry;
          startup = both.0;
          runtime = both.1;
          failsafe = v.0.failsafe;
        },
        v.1,
        v.2,
        v.3,
      )

  run-Contained :
      (es : List (Event D)) (s : Impl T P D)
      → Inv s
      → Contained (RunBreaks port es) Inv (run port framing lib es s)
  unfolding run
  run-Contained [] s v = v
  run-Contained (e ∷ es) s v =
      Contained-bind (RunBreaks port (e ∷ es)) Inv Inv (step port framing lib e s) _
        (Contained-weaken (StepBreaks port e) (RunBreaks port (e ∷ es)) Inv
          (step port framing lib e s) inl (step-Contained e s v))
        (λ s' v'.
          Contained-weaken (RunBreaks port es) (RunBreaks port (e ∷ es)) Inv
            (run port framing lib es s') inr (run-Contained es s' v'))

  make-Contained :
      (o : CompanionApplicationOptions D) (es : List (Event D)) (u : Outcome (Impl T P D))
      (s : Impl T P D)
      → u ≡ ok s
      → Answers (Accepts o) (IsConsistent o) u
      → Contained (RunBreaks port es) Inv (run port framing lib es s)
  make-Contained o es u s e a =
      run-Contained es s (subst (Answers (Accepts o) (IsConsistent o)) e a).0

  -- Whatever the transport, the parser, the camera, the detector and the operator do, no poll and no
  -- request to start of a constructed application with rigid extrinsics, or none, does anything
  -- undefined. The only exceptions are that for a target whose position is not finite, and one of other
  -- code, which needs a poll and a transport with a call that throws, or a poll in which the detector
  -- throws. Without an exception the invariant holds after them.
  pub companion_run-Safe :
      (o : CompanionApplicationOptions D) (t : T) (p : P) (es : List (Event D)) (s : Impl T P D)
      → RigidIfAny o.camera_extrinsics
      → make o t p ≡ ok s
      → Contained (RunBreaks port es) Inv (run port framing lib es s)
  companion_run-Safe o t p es s rigid e =
      make-Contained o es (make o t p) s e (make-Answers o t p rigid)
