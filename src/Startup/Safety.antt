-- ===== src/Startup/Safety.antt =====
-- application/FlightStartupController: what stands behind every command that it sends.
use companion_lab.Prelude.{
  ℕ, zero, suc, ◌+◌, ◌≤◌, ◌<◌, ◌≡◌, refl, ap, true, none, some, List, [], ◌∷◌, arith, Option-cases,
  is_some,
}
use companion_lab.Prelude.Time.{seconds}
use companion_lab.Prelude.Doubles.{Doubles}
use companion_lab.Failsafe.{accepts}
use companion_lab.Flight.{
  FlightAction, set_guided_mode, arm, takeoff, FlightActionRequest, command_request,
}
use companion_lab.Startup.{
  FlightStartupPhase, disabled, waiting_for_vehicle, waiting_for_readiness, setting_guided, arming,
  taking_off, completed, failed, FlightStartupController, Observation, expected_action, enter_phase,
  fail,
}
use companion_lab.Startup.Update.{
  Updated, follow, Turn, again, done, fault, climb, with_altitude, update_command, turn, loop,
  update,
}
use companion_lab.Startup.Pacing.{DueIfAny, PacesAfter, update-PacesAfter}
use companion_lab.Startup.Invariant.{climb-Inv, turn-Inv, Keeps, Inv, needs_vehicle}

module _ {D : Type 0} ⦃d : Doubles D⦄ where
  -- What stands behind a command that an update sends.
  pub record IsJustified (o : Observation D) (c : FlightStartupController D)
      (r : FlightActionRequest D) : Type 0 where
    pub connected : o.vehicle.connected ≡ true
    pub failsafe : accepts o.failsafe ≡ true
    pub action : expected_action c.phase ≡ some r.action
    pub vehicle : c.vehicle_system_id ≡ some r.vehicle_system_id
    pub attempt : (c.attempt ≤ 3) × (r.confirmation + 1 ≡ c.attempt)
    pub awaited : (c.awaiting_ack ≡ true) × (c.acknowledgement_deadline ≡ o.now + seconds 2)
    pub in_time : o.now < c.phase_deadline

  abbrev pub Justified :
      Observation D → FlightStartupController D → List (FlightActionRequest D) → Type 0
  Justified o c [] = Unit
  Justified o c (r ∷ []) = IsJustified o c r
  Justified o c (r ∷ r' ∷ rs) = ⊥

  -- What an update has checked before a round.
  abbrev Checked : Observation D → FlightStartupController D → Type 0
  Checked o c =
      (needs_vehicle c.phase ≡ true → o.vehicle.connected ≡ true)
      × (is_some (expected_action c.phase) ≡ true → accepts o.failsafe ≡ true)

  abbrev Asks : Observation D → Turn D → Type 0
  Asks o (again c) = Checked o c
  Asks o (done c requests) = Justified o c requests
  Asks o fault = Unit

  update_command-Asks :
      (o : Observation D) (a : FlightAction) (c : FlightStartupController D)
      → expected_action c.phase ≡ some a
      → o.vehicle.connected ≡ true
      → accepts o.failsafe ≡ true
      → o.now < c.phase_deadline
      → Inv c
      → Asks o (update_command a o.now c)
  unfolding update_command fail command_request
  update_command-Asks o a c e up safe early v = ground (arith, Option-cases c.vehicle_system_id)

  with_altitude-Asks :
      (altitude : D) (o : Observation D) (t : Turn D) → Asks o t → Asks o (with_altitude altitude t)
  unfolding with_altitude
  with_altitude-Asks altitude o (again c) h = h
  with_altitude-Asks altitude o (done c []) h = h
  with_altitude-Asks altitude o (done c (r ∷ [])) h = record {
    connected = h.connected;
    failsafe = h.failsafe;
    action = h.action;
    vehicle = h.vehicle;
    attempt = h.attempt;
    awaited = h.awaited;
    in_time = h.in_time;
  }
  with_altitude-Asks altitude o (done c (r ∷ r' ∷ rs)) h = h
  with_altitude-Asks altitude o fault h = h

  takeoff-Asks :
      (o : Observation D) (c : FlightStartupController D)
      → c.phase ≡ taking_off
      → Inv c
      → Checked o c
      → o.now < c.phase_deadline
      → Asks o
          (with_altitude c.config.takeoff_altitude_m (update_command takeoff o.now (climb o c)))
  takeoff-Asks o c e v k early =
      with_altitude-Asks c.config.takeoff_altitude_m o (update_command takeoff o.now (climb o c)) (
        update_command-Asks o takeoff (climb o c) (unfold climb in ap expected_action e)
          (k.0 (ap needs_vehicle e)) (k.1 (ap (λ p. is_some (expected_action p)) e))
          (unfold climb in early) (climb-Inv o c v))

  turn-Asks :
      (p : FlightStartupPhase) (o : Observation D) (c : FlightStartupController D)
      → c.phase ≡ p
      → Inv c
      → Checked o c
      → Asks o (turn p o c)
  unfolding turn enter_phase fail
  turn-Asks waiting_for_vehicle o c e v k = ground arith
  turn-Asks waiting_for_readiness o c e v k = ground arith
  turn-Asks setting_guided o c e v k = ground (
    arith,
    update_command-Asks o set_guided_mode c (ap expected_action e) (k.0 (ap needs_vehicle e))
        (k.1 (ap (λ p. is_some (expected_action p)) e)),
  )
  turn-Asks arming o c e v k = ground (
    arith,
    update_command-Asks o arm c (ap expected_action e) (k.0 (ap needs_vehicle e))
        (k.1 (ap (λ p. is_some (expected_action p)) e)),
  )
  turn-Asks taking_off o c e v k = ground (arith, takeoff-Asks o c e v k)
  turn-Asks disabled o c e v k = tt
  turn-Asks completed o c e v k = tt
  turn-Asks failed o c e v k = tt

  abbrev pub Answers : Observation D → Updated D → Type 0
  Answers o none = ⊥
  Answers o (some (c, requests)) = Justified o c requests

  follow-Answers :
      (o : Observation D) (next : FlightStartupController D → Updated D) (t : Turn D)
      → Asks o t
      → Keeps t
      → ((c : FlightStartupController D) → Inv c → Checked o c → Answers o (next c))
      → Answers o (follow next t)
  follow-Answers o next (again c) a k h = h c k.0 a
  follow-Answers o next (done c requests) a k h = a
  follow-Answers o next fault a k h = k

  loop-Answers :
      (n : ℕ) (o : Observation D) (c : FlightStartupController D)
      → Inv c
      → Checked o c
      → Answers o (loop n o c)
  unfolding loop
  loop-Answers zero o c v k = tt
  loop-Answers (suc n) o c v k =
      follow-Answers o (loop n o) (turn c.phase o c) (turn-Asks c.phase o c refl v k)
        (turn-Inv c.phase o c refl v) (loop-Answers n o)

  loops-Answers :
      (o : Observation D) (c : FlightStartupController D) → Inv c → Answers o (update o c)
  unfolding update
  loops-Answers o c v = ground (arith, loop-Answers 8 o c v)

  -- The call returns, with at most one command, which is justified by the state after it and due by
  -- the state `b` before it.
  abbrev pub AnswersTo : Observation D → FlightStartupController D → Updated D → Type 0
  AnswersTo o b none = ⊥
  AnswersTo o b (some (c, requests)) = Justified o c requests × DueIfAny o.now b c requests

  Answers-AnswersTo :
      (o : Observation D) (b : FlightStartupController D) (u : Updated D)
      → Answers o u
      → PacesAfter o.now b u
      → AnswersTo o b u
  Answers-AnswersTo o b none a p = a
  Answers-AnswersTo o b (some (c, requests)) a p = (a, p)

  -- In a well-formed state an update returns and sends at most one command. Behind it stand a connected
  -- vehicle, a valid failsafe and a phase whose time is not over; the command is that of the phase, for
  -- the known vehicle, with the number of the attempt, of which there are at most three. It is sent
  -- only if the update itself entered the phase, or if before the update the phase's command was not
  -- accepted and no acknowledgement was awaited, or its deadline had come; that deadline is then set
  -- two seconds ahead.
  pub startup_update-Answers :
      (o : Observation D) (c : FlightStartupController D) → Inv c → AnswersTo o c (update o c)
  startup_update-Answers o c v =
      Answers-AnswersTo o c (update o c) (loops-Answers o c v) (update-PacesAfter o c)
