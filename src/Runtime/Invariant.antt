-- ===== src/Runtime/Invariant.antt =====
-- application/AutonomyRuntime: its invariant, through every operation.
use companion_lab.Prelude.{
  ℕ, ◌≤◌, ◌≡◌, ◌↔◌, inl, inr, Bool, true, false, ◌||◌, Option, none, some, List, [], ◌∷◌, String,
  arith, Bool-cases, Option-cases, is_some,
}
use companion_lab.Prelude.Time.{TimePoint}
use companion_lab.Prelude.Doubles.{Doubles}
use companion_lab.Decision.{DesiredMotion}
use companion_lab.Flight.{FlightAction, FlightCommandAckOutcome, FlightActionRequest}
use companion_lab.Runtime.{
  AutonomyRuntimePhase, AutonomyRuntimeConfig, AutonomyRuntime, Observation, disabled, active,
  failed, is_over, is_active, is_landing, fail, restart, make, on_action_sent, on_command_ack,
}
use companion_lab.Runtime.Update.{
  lose, warm_up, pace, steer, Updated, Stage, on, off, begin, update_land_command, guard,
  without_target, with_target, guide, proceed, update, finish,
}

-- The runtime flies or lands the vehicle.
abbrev pub engaged : AutonomyRuntimePhase → Bool
engaged p = is_active p || is_landing p

module _ {D : Type 0} where
  pub record Inv (r : AutonomyRuntime D) : Type 0 where
    pub attempts : r.land_attempt ≤ 3
    pub awaited : r.awaiting_land_ack ≡ true → (r.phase ≡ active) × (1 ≤ r.land_attempt)
    pub disabled_iff : (r.phase ≡ disabled) ↔ (r.config.enabled ≡ false)
    pub idle : r.phase ≡ disabled → r.land_attempt ≡ 0
    pub failure : is_some r.failure_result ≡ true → r.phase ≡ failed
    pub known : engaged r.phase ≡ true → is_some r.vehicle_system_id ≡ true

  abbrev pub Returns : Updated D → Type 0
  Returns none = ⊥
  Returns (some (r, requests)) = Inv r

  -- A stage that goes on has engaged the vehicle.
  abbrev pub Holds : Stage D → Type 0
  Holds (on r) = Inv r × (engaged r.phase ≡ true)
  Holds (off r) = Inv r

module _ {D : Type 0} ⦃d : Doubles D⦄ where
  -- Up to the guard the vehicle's id may be missing.
  abbrev pub Engaged : Stage D → Type 0
  Engaged (on r) = Inv (record r { vehicle_system_id = some 0 }) × (engaged r.phase ≡ true)
  Engaged (off r) = Inv r

  pub begin-Engaged :
      (o : Observation D) (r : AutonomyRuntime D)
      → is_over r.phase ≡ false
      → Inv r
      → Engaged (begin o r)
  unfolding begin fail
  begin-Engaged o r h v = ground arith

  pub guard-Holds :
      (o : Observation D) (r : AutonomyRuntime D)
      → Inv (record r { vehicle_system_id = some 0 })
      → engaged r.phase ≡ true
      → Holds (guard o r)
  unfolding guard fail
  guard-Holds o r v h = ground arith

  update_land_command-Inv :
      (now : TimePoint) (r : AutonomyRuntime D) → Inv r → Returns (update_land_command now r)
  unfolding update_land_command fail
  update_land_command-Inv now r v = ground (arith, Option-cases r.vehicle_system_id)

  without_target-Inv :
      (now : TimePoint) (r : AutonomyRuntime D) → Inv r → Returns (without_target now r)
  unfolding without_target lose
  without_target-Inv now r v = ground (
    arith,
    update_land_command-Inv now
        (record (lose now r) { detail = "Vision unavailable; requesting fallback LAND" }),
  )

  pub paced-Inv : (now : TimePoint) (r : AutonomyRuntime D) → Inv r → Inv (pace now (warm_up now r))
  unfolding pace warm_up
  paced-Inv now r v = ground arith

  finish-Inv :
      (detail : String) (requests : List (FlightActionRequest D)) (u : Updated D)
      → Returns u
      → Returns (finish detail requests u)
  unfolding finish
  finish-Inv detail requests none k = k
  finish-Inv detail requests (some (r, more)) k = ground arith

  with_target-Inv :
      (now : TimePoint) (intent : DesiredMotion D) (r : AutonomyRuntime D)
      → Inv r
      → Returns (with_target now intent r)
  unfolding with_target
  with_target-Inv now intent r v = finish-Inv _ _ _ (
      ground (
        arith,
        update_land_command-Inv now (pace now (warm_up now r)) (paced-Inv now r v),
        paced-Inv now r v,
      ))

  steer-Inv :
      (m : Option (DesiredMotion D)) (now : TimePoint) (r : AutonomyRuntime D)
      → Inv r
      → Returns (steer m now r)
  unfolding steer
  steer-Inv none now r v = without_target-Inv now r v
  steer-Inv (some intent) now r v = with_target-Inv now intent r v

  guide-Inv : (o : Observation D) (r : AutonomyRuntime D) → Inv r → Returns (guide o r)
  unfolding guide
  guide-Inv o r v = steer-Inv _ o.now _ (ground arith)

  proceed-Inv :
      (next : AutonomyRuntime D → Updated D) (s : Stage D)
      → Holds s
      → ((r : AutonomyRuntime D) → Inv r → Returns (next r))
      → Returns (proceed next s)
  proceed-Inv next (on r) k h = h r k.0
  proceed-Inv next (off r) k h = k

  proceed-Engaged :
      (o : Observation D) (s : Stage D)
      → Engaged s
      → Returns (proceed (λ r. proceed (guide o) (guard o r)) s)
  proceed-Engaged o (on r) k =
      proceed-Inv (guide o) (guard o r) (guard-Holds o r k.0 k.1) (guide-Inv o)
  proceed-Engaged o (off r) k = k

  -- From a state that satisfies the invariant an update reads no empty optional, returns, and
  -- leaves the invariant true.
  pub update-Inv : (o : Observation D) (r : AutonomyRuntime D) → Inv r → Returns (update o r)
  unfolding update
  update-Inv o r v = elim (Bool-cases (is_over r.phase)) [
    | inl over ↦ rw (over, update) v
    | inr live ↦ rw (live, update) (proceed-Engaged o (begin o r) (begin-Engaged o r live v))
  ]

pub data Event (D : Type 0) : Type 0 where
  updated : Observation D → Event D
  sent : FlightActionRequest D → Bool → Event D
  acknowledged : FlightAction → FlightCommandAckOutcome → ℕ → ℕ → TimePoint → Event D
  restarted : Event D

module _ {D : Type 0} ⦃d : Doubles D⦄ where
  state : Updated D → Option (AutonomyRuntime D)
  state none = none
  state (some (r, requests)) = some r

  -- One call on the object; `none` is undefined behaviour.
  pub step : AutonomyRuntime D → Event D → Option (AutonomyRuntime D)
  unfolding state
  step r (Event.updated o) = state (update o r)
  step r (Event.sent q ok) = some (on_action_sent q ok r)
  step r (Event.acknowledged a outcome raw source now) =
      some (on_command_ack a outcome raw source now r)
  step r Event.restarted = some (restart r)

  pub run : Option (AutonomyRuntime D) → List (Event D) → Option (AutonomyRuntime D)
  run none es = none
  run (some r) [] = some r
  run (some r) (e ∷ es) = run (step r e) es

  abbrev pub Sound : Option (AutonomyRuntime D) → Type 0
  Sound none = ⊥
  Sound (some r) = Inv r

  state-Sound : (u : Updated D) → Returns u → Sound (state u)
  unfolding state
  state-Sound none k = k
  state-Sound (some (r, requests)) k = k

  pub on_action_sent-Inv :
      (q : FlightActionRequest D) (ok : Bool) (r : AutonomyRuntime D)
      → Inv r
      → Inv (on_action_sent q ok r)
  unfolding on_action_sent fail
  on_action_sent-Inv q ok r v = ground arith

  pub on_command_ack-Inv :
      (a : FlightAction) (outcome : FlightCommandAckOutcome) (raw source : ℕ) (now : TimePoint)
      (r : AutonomyRuntime D)
      → Inv r
      → Inv (on_command_ack a outcome raw source now r)
  unfolding on_command_ack fail
  on_command_ack-Inv a FlightCommandAckOutcome.accepted raw source now r v = ground arith
  on_command_ack-Inv a FlightCommandAckOutcome.in_progress raw source now r v = ground arith
  on_command_ack-Inv a FlightCommandAckOutcome.rejected raw source now r v = ground arith

  pub restart-Inv : (r : AutonomyRuntime D) → Inv (restart r)
  unfolding restart
  restart-Inv r = ground arith

  pub make-Inv :
      (config : AutonomyRuntimeConfig) (r : AutonomyRuntime D) → make config ≡ some r → Inv r
  unfolding make restart
  make-Inv config r e = ground arith

  step-Sound : (r : AutonomyRuntime D) (e : Event D) → Inv r → Sound (step r e)
  unfolding step
  step-Sound r (Event.updated o) v = state-Sound (update o r) (update-Inv o r v)
  step-Sound r (Event.sent q ok) v = on_action_sent-Inv q ok r v
  step-Sound r (Event.acknowledged a outcome raw source now) v =
      on_command_ack-Inv a outcome raw source now r v
  step-Sound r Event.restarted v = restart-Inv r

  run-Sound : (o : Option (AutonomyRuntime D)) (es : List (Event D)) → Sound o → Sound (run o es)
  unfolding run
  run-Sound none es v = v
  run-Sound (some r) [] v = v
  run-Sound (some r) (e ∷ es) v = run-Sound (step r e) es (step-Sound r e v)

  -- Whatever calls a runtime gets after its construction, none of them reads the system id of a
  -- vehicle that is not known, and the invariant holds after each: LAND is tried at most three
  -- times, its acknowledgement is awaited only while the runtime is active, a vehicle is known while
  -- it is active or landing, and the runtime is disabled exactly if it is configured so.
  pub runtime_run-Sound :
      (config : AutonomyRuntimeConfig) (r : AutonomyRuntime D) (es : List (Event D))
      → make config ≡ some r
      → Sound (run (some r) es)
  runtime_run-Sound config r es e = run-Sound (some r) es (make-Inv config r e)
