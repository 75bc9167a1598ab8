-- ===== src/Runtime/Pacing.antt =====
-- application/AutonomyRuntime: when a request is due, by the state before the update that sends it.
use companion_lab.Prelude.{
  ◌≤◌, ◌≡◌, ◌⊎◌, inl, inr, true, false, Option, none, some, [], ◌∷◌, String, arith, leb, All,
  Bool-cases, Option-cases,
}
use companion_lab.Prelude.Time.{TimePoint}
use companion_lab.Prelude.Doubles.{Doubles}
use companion_lab.Decision.{DesiredMotion}
use companion_lab.Flight.{land, landing_target, FlightActionRequest, command_request}
use companion_lab.Runtime.{AutonomyRuntime, Observation, waiting_for_startup, active, is_over, fail}
use companion_lab.Runtime.Update.{
  lose, target_request, warm_up, pace, steer, Updated, Stage, on, off, begin, update_land_command,
  guard, without_target, with_target, guide, proceed, update, finish,
}

module _ {D : Type 0} ⦃d : Doubles D⦄ where
  -- By the state before an update a landing target may be sent: the time of the next one has come, or
  -- the update is the first with a target since the runtime became active or lost the last target.
  abbrev pub TargetDue : TimePoint → AutonomyRuntime D → Type 0
  TargetDue now r =
      (r.next_landing_target ≤ now)
      ⊎ (r.phase ≡ waiting_for_startup)
      ⊎ ((r.phase ≡ active) × (r.land_command_after ≡ none))

  -- By the state before an update LAND may be sent: no acknowledgement is awaited any more.
  abbrev pub LandDue : TimePoint → AutonomyRuntime D → Type 0
  LandDue now r = (r.awaiting_land_ack ≡ false) ⊎ (r.acknowledgement_deadline ≤ now)

  abbrev pub IsDue : TimePoint → AutonomyRuntime D → FlightActionRequest D → Type 0
  IsDue now r q =
      ((q.action ≡ landing_target) × TargetDue now r) ⊎ ((q.action ≡ land) × LandDue now r)

  -- What the stages before the guidance keep of the state `b` before the update.
  record Kept (b r : AutonomyRuntime D) : Type 0 where
    awaiting : r.awaiting_land_ack ≡ b.awaiting_land_ack
    deadline : r.acknowledgement_deadline ≡ b.acknowledgement_deadline
    schedule :
        (b.phase ≡ waiting_for_startup)
        ⊎ ((r.phase ≡ b.phase)
            × (r.land_command_after ≡ b.land_command_after)
            × (r.next_landing_target ≡ b.next_landing_target))

  abbrev KeptStage : AutonomyRuntime D → Stage D → Type 0
  KeptStage b (on r) = Kept b r
  KeptStage b (off r) = Unit

  begin-Kept : (o : Observation D) (r : AutonomyRuntime D) → KeptStage r (begin o r)
  unfolding begin
  begin-Kept o r = ground arith

  guard-Kept : (o : Observation D) (b r : AutonomyRuntime D) → Kept b r → KeptStage b (guard o r)
  unfolding guard
  guard-Kept o b r k = ground arith

  -- All requests of a result are due.
  abbrev pub Dues : TimePoint → AutonomyRuntime D → Updated D → Type 0
  Dues now b none = Unit
  Dues now b (some (r, requests)) = All (IsDue now b) requests

  update_land_command-Dues :
      (now : TimePoint) (b r : AutonomyRuntime D)
      → r.awaiting_land_ack ≡ b.awaiting_land_ack
      → r.acknowledgement_deadline ≡ b.acknowledgement_deadline
      → Dues now b (update_land_command now r)
  unfolding update_land_command command_request fail
  update_land_command-Dues now b r a e = ground (arith, Option-cases r.vehicle_system_id)

  finish-Dues :
      (now : TimePoint) (b : AutonomyRuntime D) (detail : String) (u : Updated D)
      → Dues now b u
      → Dues now b (finish detail [] u)
  unfolding finish
  finish-Dues now b detail none h = tt
  finish-Dues now b detail (some (r, requests)) h = h

  finish-Dues_target :
      (now : TimePoint) (b : AutonomyRuntime D) (detail : String) (q : FlightActionRequest D)
      (u : Updated D)
      → IsDue now b q
      → Dues now b u
      → Dues now b (finish detail (q ∷ []) u)
  unfolding finish
  finish-Dues_target now b detail q none k h = tt
  finish-Dues_target now b detail q (some (r, requests)) k h = (k, h)

  without_target-Dues :
      (now : TimePoint) (b r : AutonomyRuntime D) → Kept b r → Dues now b (without_target now r)
  unfolding without_target lose
  without_target-Dues now b r k = ground (
    arith,
    k,
    update_land_command-Dues now b
        (record (lose now r) { detail = "Vision unavailable; requesting fallback LAND" }) k.awaiting
        k.deadline,
  )

  target_request-IsDue :
      (now : TimePoint) (b r : AutonomyRuntime D) (m : DesiredMotion D)
      → Kept b r
      → leb (warm_up now r).next_landing_target now ≡ true
      → IsDue now b (target_request m now)
  unfolding target_request warm_up
  target_request-IsDue now b r m k h = ground (arith, k, Option-cases r.land_command_after)

  sent-Dues :
      (now : TimePoint) (b r : AutonomyRuntime D)
      → Kept b r
      → Dues now b (update_land_command now (pace now (warm_up now r)))
  unfolding pace warm_up
  sent-Dues now b r k = ground (arith, k, update_land_command-Dues now b (pace now (warm_up now r)))

  with_target-Dues :
      (now : TimePoint) (m : DesiredMotion D) (b r : AutonomyRuntime D)
      → Kept b r
      → Dues now b (with_target now m r)
  unfolding with_target
  with_target-Dues now m b r k = elim (Bool-cases (leb (warm_up now r).next_landing_target now)) [
    | inl due ↦ rw due (
        finish-Dues_target now b _ _ _ (target_request-IsDue now b r m k due)
          (ground (arith, sent-Dues now b r k)))
    | inr early ↦ rw early (finish-Dues now b _ _ (ground (arith, sent-Dues now b r k)))
  ]

  steer-Dues :
      (m : Option (DesiredMotion D)) (now : TimePoint) (b r : AutonomyRuntime D)
      → Kept b r
      → Dues now b (steer m now r)
  unfolding steer
  steer-Dues none now b r k = without_target-Dues now b r k
  steer-Dues (some m) now b r k = with_target-Dues now m b r k

  guide-Dues : (o : Observation D) (b r : AutonomyRuntime D) → Kept b r → Dues o.now b (guide o r)
  unfolding guide
  guide-Dues o b r k =
      steer-Dues _ o.now b _
        (record { awaiting = k.awaiting; deadline = k.deadline; schedule = k.schedule })

  guided-Dues :
      (o : Observation D) (b : AutonomyRuntime D) (s : Stage D)
      → KeptStage b s
      → Dues o.now b (proceed (guide o) s)
  guided-Dues o b (on r) k = guide-Dues o b r k
  guided-Dues o b (off r) k = tt

  begun-Dues :
      (o : Observation D) (b : AutonomyRuntime D) (s : Stage D)
      → KeptStage b s
      → Dues o.now b (proceed (λ r. proceed (guide o) (guard o r)) s)
  begun-Dues o b (on r) k = guided-Dues o b (guard o r) (guard-Kept o b r k)
  begun-Dues o b (off r) k = tt

  -- Whatever an update sends was due by the state before it.
  pub update-Dues : (o : Observation D) (r : AutonomyRuntime D) → Dues o.now r (update o r)
  unfolding update
  update-Dues o r = elim (Bool-cases (is_over r.phase)) [
    | inl over ↦ rw (over, update) tt
    | inr live ↦ rw (live, update) (begun-Dues o r (begin o r) (begin-Kept o r))
  ]
