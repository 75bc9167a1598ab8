-- ===== src/Startup/Invariant.antt =====
-- application/FlightStartupController: its invariant, through every operation.
use companion_lab.Prelude.{
  ℕ, zero, suc, ◌≤◌, ◌≡◌, refl, ◌≢◌, ◌↔◌, ◌⊎◌, Bool, true, false, Option, none, some, List, [], ◌∷◌,
  String, arith, is_some,
}
use companion_lab.Prelude.Time.{TimePoint}
use companion_lab.Prelude.Doubles.{Doubles}
use companion_lab.Prelude.Text.{◌++◌}
use companion_lab.Flight.{
  FlightAction, set_guided_mode, arm, takeoff, FlightCommandAckOutcome, FlightActionRequest,
}
use companion_lab.Startup.{
  FlightStartupPhase, disabled, waiting_for_vehicle, waiting_for_readiness, setting_guided, arming,
  taking_off, completed, failed, FlightStartupController, FlightStartupConfig, restart, make,
  Observation, expected_action, is_over, enter_phase, fail,
}
use companion_lab.Startup.Update.{
  Updated, follow, climb, with_altitude, Turn, again, done, fault, update_command, turn, loop,
  update,
}
use companion_lab.Startup.Acks.{on_action_sent, on_command_ack}

abbrev pub needs_vehicle : FlightStartupPhase → Bool
needs_vehicle waiting_for_readiness = true
needs_vehicle setting_guided = true
needs_vehicle arming = true
needs_vehicle taking_off = true
needs_vehicle _ = false

module _ {D : Type 0} where
  pub record Inv (c : FlightStartupController D) : Type 0 where
    pub known : needs_vehicle c.phase ≡ true → is_some c.vehicle_system_id ≡ true
    pub attempts : c.attempt ≤ 3
    pub awaited :
        c.awaiting_ack ≡ true
        → (is_some (expected_action c.phase) ≡ true)
          × (1 ≤ c.attempt)
          × (c.command_accepted ≡ false)
    pub approved :
        c.command_accepted ≡ true
        → (is_some (expected_action c.phase) ≡ true) ⊎ (c.phase ≡ completed)
    pub disabled_iff : (c.phase ≡ disabled) ↔ (c.config.enabled ≡ false)
    pub failure : is_some c.failure_result ≡ true → c.phase ≡ failed

  -- The invariant after a round, which reads no empty optional.
  abbrev pub Keeps : Turn D → Type 0
  Keeps (again c) = Inv c × (c.phase ≢ disabled)
  Keeps (done c requests) = Inv c
  Keeps fault = ⊥

module _ {D : Type 0} ⦃d : Doubles D⦄ where
  update_command-Inv :
      (action : FlightAction) (now : TimePoint) (c : FlightStartupController D)
      → expected_action c.phase ≡ some action
      → Inv c
      → Keeps (update_command action now c)
  unfolding update_command fail
  update_command-Inv action now c e v = ground arith

  pub climb-Inv : (o : Observation D) (c : FlightStartupController D) → Inv c → Inv (climb o c)
  unfolding climb
  climb-Inv o c v = ground arith

  with_altitude-Keeps : (altitude : D) (t : Turn D) → Keeps t → Keeps (with_altitude altitude t)
  unfolding with_altitude
  with_altitude-Keeps altitude (again c) v = v
  with_altitude-Keeps altitude (done c requests) v = v
  with_altitude-Keeps altitude fault v = v

  takeoff-Inv :
      (o : Observation D) (c : FlightStartupController D)
      → c.phase ≡ taking_off
      → Inv c
      → Keeps (with_altitude c.config.takeoff_altitude_m (update_command takeoff o.now (climb o c)))
  takeoff-Inv o c e v =
      with_altitude-Keeps _ (update_command takeoff o.now (climb o c))
        (update_command-Inv takeoff o.now (climb o c) (unfold climb in rw e) (climb-Inv o c v))

  pub turn-Inv :
      (p : FlightStartupPhase) (o : Observation D) (c : FlightStartupController D)
      → c.phase ≡ p
      → Inv c
      → Keeps (turn p o c)
  unfolding turn enter_phase fail
  turn-Inv waiting_for_vehicle o c e v = ground arith
  turn-Inv waiting_for_readiness o c e v = ground arith
  turn-Inv setting_guided o c e v = ground (arith, update_command-Inv set_guided_mode o.now c)
  turn-Inv arming o c e v = ground (arith, update_command-Inv arm o.now c)
  turn-Inv taking_off o c e v = ground (arith, takeoff-Inv o c e v)
  turn-Inv disabled o c e v = v
  turn-Inv completed o c e v = v
  turn-Inv failed o c e v = v

  abbrev pub Returns : Updated D → Type 0
  Returns none = ⊥
  Returns (some (c, requests)) = Inv c

  follow-Inv :
      (next : FlightStartupController D → Updated D) (t : Turn D)
      → Keeps t
      → ((c : FlightStartupController D) → Inv c → c.phase ≢ disabled → Returns (next c))
      → Returns (follow next t)
  follow-Inv next (again c) k h = h c k.0 k.1
  follow-Inv next (done c requests) k h = k
  follow-Inv next fault k h = k

  loop-Inv :
      (n : ℕ) (o : Observation D) (c : FlightStartupController D)
      → Inv c
      → c.phase ≢ disabled
      → Returns (loop n o c)
  unfolding loop fail
  loop-Inv zero o c v h = ground arith
  loop-Inv (suc n) o c v h =
      follow-Inv (loop n o) (turn c.phase o c) (turn-Inv c.phase o c refl v) (loop-Inv n o)

  fail-Inv :
      (detail : String) (c : FlightStartupController D)
      → is_over c.phase ≡ false
      → Inv c
      → Inv (fail detail c)
  unfolding fail
  fail-Inv detail c h v = ground arith

  -- From a state that satisfies the invariant an update reads no empty optional, returns, and
  -- leaves the invariant true.
  pub update-Inv :
      (o : Observation D) (c : FlightStartupController D) → Inv c → Returns (update o c)
  unfolding update
  update-Inv o c v = ground (
    arith,
    loop-Inv 8 o c v,
    fail-Inv "Flight-controller heartbeat was lost during startup" c,
    fail-Inv ("Companion-link failsafe is no longer valid: " ++ o.failsafe.detail) c,
  )

  pub on_action_sent-Inv :
      (r : FlightActionRequest D) (sent : Bool) (c : FlightStartupController D)
      → Inv c
      → Inv (on_action_sent r sent c)
  unfolding on_action_sent fail
  on_action_sent-Inv r sent c v = ground arith

  pub on_command_ack-Inv :
      (a : FlightAction) (outcome : FlightCommandAckOutcome) (raw source : ℕ) (now : TimePoint)
      (c : FlightStartupController D)
      → Inv c
      → Inv (on_command_ack a outcome raw source now c)
  unfolding on_command_ack fail
  on_command_ack-Inv a FlightCommandAckOutcome.accepted raw source now c v = ground arith
  on_command_ack-Inv a FlightCommandAckOutcome.in_progress raw source now c v = ground arith
  on_command_ack-Inv a FlightCommandAckOutcome.rejected raw source now c v = ground arith

  pub restart-Inv : (c : FlightStartupController D) → Inv (restart c)
  unfolding restart
  restart-Inv c = ground arith

  pub make-Inv :
      (config : FlightStartupConfig D) (c : FlightStartupController D)
      → make config ≡ some c
      → Inv c
  unfolding make
  make-Inv config c e = ground arith

pub data Event (D : Type 0) : Type 0 where
  updated : Observation D → Event D
  sent : FlightActionRequest D → Bool → Event D
  acknowledged : FlightAction → FlightCommandAckOutcome → ℕ → ℕ → TimePoint → Event D
  restarted : Event D

module _ {D : Type 0} ⦃d : Doubles D⦄ where
  state : Updated D → Option (FlightStartupController D)
  state none = none
  state (some (c, requests)) = some c

  -- One call on the object; `none` is undefined behaviour.
  pub step : FlightStartupController D → Event D → Option (FlightStartupController D)
  unfolding state
  step c (Event.updated o) = state (update o c)
  step c (Event.sent r ok) = some (on_action_sent r ok c)
  step c (Event.acknowledged a outcome raw source now) =
      some (on_command_ack a outcome raw source now c)
  step c Event.restarted = some (restart c)

  pub run : Option (FlightStartupController D) → List (Event D) → Option (FlightStartupController D)
  run none es = none
  run (some c) [] = some c
  run (some c) (e ∷ es) = run (step c e) es

  abbrev pub Sound : Option (FlightStartupController D) → Type 0
  Sound none = ⊥
  Sound (some c) = Inv c

  state-Sound : (u : Updated D) → Returns u → Sound (state u)
  unfolding state
  state-Sound none k = k
  state-Sound (some (c, requests)) k = k

  step-Sound : (c : FlightStartupController D) (e : Event D) → Inv c → Sound (step c e)
  unfolding step
  step-Sound c (Event.updated o) v = state-Sound (update o c) (update-Inv o c v)
  step-Sound c (Event.sent r ok) v = on_action_sent-Inv r ok c v
  step-Sound c (Event.acknowledged a outcome raw source now) v =
      on_command_ack-Inv a outcome raw source now c v
  step-Sound c Event.restarted v = restart-Inv c

  run-Sound :
      (o : Option (FlightStartupController D)) (es : List (Event D)) → Sound o → Sound (run o es)
  unfolding run
  run-Sound none es v = v
  run-Sound (some c) [] v = v
  run-Sound (some c) (e ∷ es) v = run-Sound (step c e) es (step-Sound c e v)

  -- Whatever calls a controller gets after its construction, none of them reads the system id of a
  -- vehicle that is not known, and the invariant holds after each: a vehicle is known from the
  -- readiness phase on, no command is tried more than three times, an acknowledgement is awaited
  -- only for the command of the phase, and the controller is disabled exactly if it is configured
  -- so.
  pub startup_run-Sound :
      (config : FlightStartupConfig D) (c : FlightStartupController D) (es : List (Event D))
      → make config ≡ some c
      → Sound (run (some c) es)
  startup_run-Sound config c es e = run-Sound (some c) es (make-Inv config c e)
