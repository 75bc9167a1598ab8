-- ===== src/Startup/Pacing.antt =====
-- application/FlightStartupController: when a command is due, by the state before the update that sends
-- it.
use companion_lab.Prelude.{
  ℕ, zero, suc, ◌≤◌, ◌<◌, ◌≡◌, ◌⊎◌, refl, inl, inr, false, none, some, List, [], ◌∷◌, arith,
  Option-cases,
}
use companion_lab.Prelude.Time.{TimePoint}
use companion_lab.Prelude.Doubles.{Doubles}
use companion_lab.Flight.{
  FlightAction, set_guided_mode, arm, takeoff, FlightActionRequest, command_request,
}
use companion_lab.Startup.{
  FlightStartupPhase, disabled, waiting_for_vehicle, waiting_for_readiness, setting_guided, arming,
  taking_off, completed, failed, FlightStartupController, Observation, enter_phase, fail,
}
use companion_lab.Startup.Update.{
  Updated, follow, Turn, again, done, fault, climb, with_altitude, update_command, turn, loop,
  update,
}
use companion_lab.Startup.Liveness.{rank}

module _ {D : Type 0} ⦃d : Doubles D⦄ where
  -- A command may be sent in the phase that an update leads to: the phase was entered by that update,
  -- or its command was not accepted before, and no acknowledgement was awaited any more.
  abbrev pub CommandDue : TimePoint → FlightStartupController D → FlightStartupController D → Type 0
  CommandDue now b c =
      (rank b.phase < rank c.phase)
      ⊎ ((b.command_accepted ≡ false)
          × ((b.awaiting_ack ≡ false) ⊎ (b.acknowledgement_deadline ≤ now)))

  -- A round leaves the state `b` before the update as it was, or has entered a later phase.
  abbrev Kept : FlightStartupController D → FlightStartupController D → Type 0
  Kept b c =
      (rank b.phase < rank c.phase)
      ⊎ ((c.phase ≡ b.phase)
          × (c.command_accepted ≡ b.command_accepted)
          × (c.awaiting_ack ≡ b.awaiting_ack)
          × (c.acknowledgement_deadline ≡ b.acknowledgement_deadline))

  -- Requests, if any, are due.
  abbrev pub DueIfAny :
      TimePoint
      → FlightStartupController D
      → FlightStartupController D
      → List (FlightActionRequest D)
      → Type 0
  DueIfAny now b c [] = Unit
  DueIfAny now b c (r ∷ rs) = CommandDue now b c

  abbrev Paces : TimePoint → FlightStartupController D → Turn D → Type 0
  Paces now b (again c) = rank b.phase < rank c.phase
  Paces now b (done c requests) = DueIfAny now b c requests
  Paces now b fault = Unit

  update_command-Paces :
      (now : TimePoint) (a : FlightAction) (b c : FlightStartupController D)
      → Kept b c
      → Paces now b (update_command a now c)
  unfolding update_command fail command_request
  update_command-Paces now a b c k = ground (arith, Option-cases c.vehicle_system_id)

  with_altitude-Paces :
      (altitude : D) (now : TimePoint) (b : FlightStartupController D) (t : Turn D)
      → Paces now b t
      → Paces now b (with_altitude altitude t)
  unfolding with_altitude
  with_altitude-Paces altitude now b (again c) h = h
  with_altitude-Paces altitude now b (done c []) h = h
  with_altitude-Paces altitude now b (done c (r ∷ rs)) h = h
  with_altitude-Paces altitude now b fault h = h

  climbing-Paces :
      (o : Observation D) (b c : FlightStartupController D)
      → Kept b c
      → Paces o.now b
          (with_altitude c.config.takeoff_altitude_m (update_command takeoff o.now (climb o c)))
  unfolding climb
  climbing-Paces o b c k =
      with_altitude-Paces c.config.takeoff_altitude_m o.now b
        (update_command takeoff o.now (climb o c))
        (update_command-Paces o.now takeoff b (climb o c) k)

  turn-Paces :
      (p : FlightStartupPhase) (o : Observation D) (b c : FlightStartupController D)
      → c.phase ≡ p
      → Kept b c
      → Paces o.now b (turn p o c)
  unfolding turn enter_phase fail
  turn-Paces waiting_for_vehicle o b c e k = ground arith
  turn-Paces waiting_for_readiness o b c e k = ground arith
  turn-Paces setting_guided o b c e k =
      ground (arith, update_command-Paces o.now set_guided_mode b c k)
  turn-Paces arming o b c e k = ground (arith, update_command-Paces o.now arm b c k)
  turn-Paces taking_off o b c e k = ground (arith, climbing-Paces o b c k)
  turn-Paces disabled o b c e k = tt
  turn-Paces completed o b c e k = tt
  turn-Paces failed o b c e k = tt

  abbrev pub PacesAfter : TimePoint → FlightStartupController D → Updated D → Type 0
  PacesAfter now b none = Unit
  PacesAfter now b (some (c, requests)) = DueIfAny now b c requests

  follow-PacesAfter :
      (now : TimePoint) (b : FlightStartupController D)
      (next : FlightStartupController D → Updated D) (t : Turn D)
      → Paces now b t
      → ((c : FlightStartupController D) → Kept b c → PacesAfter now b (next c))
      → PacesAfter now b (follow next t)
  follow-PacesAfter now b next (again c) p h = h c (inl p)
  follow-PacesAfter now b next (done c requests) p h = p
  follow-PacesAfter now b next fault p h = tt

  loop-PacesAfter :
      (n : ℕ) (o : Observation D) (b c : FlightStartupController D)
      → Kept b c
      → PacesAfter o.now b (loop n o c)
  unfolding loop
  loop-PacesAfter zero o b c k = tt
  loop-PacesAfter (suc n) o b c k =
      follow-PacesAfter o.now b (loop n o) (turn c.phase o c) (turn-Paces c.phase o b c refl k)
        (loop-PacesAfter n o b)

  -- Whatever an update sends was due by the state before it.
  pub update-PacesAfter :
      (o : Observation D) (c : FlightStartupController D) → PacesAfter o.now c (update o c)
  unfolding update
  update-PacesAfter o c = ground (arith, loop-PacesAfter 8 o c c (inr (refl, refl, refl, refl)))
