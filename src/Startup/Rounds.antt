-- ===== src/Startup/Rounds.antt =====
-- application/FlightStartupController: how often the loop of `update` goes round.
use companion_lab.Prelude.{ℕ, zero, suc, ◌≤◌, ◌≡◌, refl, false, arith, Option-cases}
use companion_lab.Prelude.Doubles.{Doubles}
use companion_lab.Flight.{FlightAction, set_guided_mode, arm, takeoff}
use companion_lab.Startup.{
  FlightStartupPhase, disabled, waiting_for_vehicle, waiting_for_readiness, setting_guided, arming,
  taking_off, completed, failed, FlightStartupController, Observation, enter_phase,
}
use companion_lab.Startup.Update.{
  follow, Turn, again, done, fault, climb, with_altitude, update_command, turn, loop,
}

module _ {D : Type 0} ⦃d : Doubles D⦄ where
  -- At most `n` of the rounds that begin with this one go on to another.
  abbrev pub Ends : ℕ → Observation D → Turn D → Type 0
  Ends n o (done c requests) = Unit
  Ends n o fault = Unit
  Ends zero o (again c) = ⊥
  Ends (suc n) o (again c) = Ends n o (turn c.phase o c)

  update_command-Ends :
      (o : Observation D) (a : FlightAction) (c : FlightStartupController D)
      → Ends 0 o (update_command a o.now c)
  unfolding update_command
  update_command-Ends o a c = ground (arith, Option-cases c.vehicle_system_id)

  with_altitude-Ends :
      (altitude : D) (o : Observation D) (t : Turn D)
      → Ends 0 o t
      → Ends 0 o (with_altitude altitude t)
  unfolding with_altitude
  with_altitude-Ends altitude o (again c) h = h
  with_altitude-Ends altitude o (done c requests) h = tt
  with_altitude-Ends altitude o fault h = tt

  -- A phase that was just entered has no accepted command, and does not go on at once.
  guided-Ends :
      (o : Observation D) (c : FlightStartupController D)
      → c.command_accepted ≡ false
      → Ends 0 o (turn setting_guided o c)
  unfolding turn
  guided-Ends o c h = ground (arith, update_command-Ends o set_guided_mode c)

  arming-Ends :
      (o : Observation D) (c : FlightStartupController D)
      → c.command_accepted ≡ false
      → Ends 0 o (turn arming o c)
  unfolding turn
  arming-Ends o c h = ground (arith, update_command-Ends o arm c)

  takeoff-Ends :
      (o : Observation D) (c : FlightStartupController D) → Ends 0 o (turn taking_off o c)
  unfolding turn
  takeoff-Ends o c = ground (
    arith,
    with_altitude-Ends c.config.takeoff_altitude_m o (update_command takeoff o.now (climb o c))
        (update_command-Ends o takeoff (climb o c)),
  )

  readiness-Ends :
      (o : Observation D) (c : FlightStartupController D)
      → Ends 1 o (turn waiting_for_readiness o c)
  unfolding turn enter_phase
  readiness-Ends o c = ground (arith, guided-Ends o (enter_phase setting_guided o.now c) refl)

  Ends-suc : (n : ℕ) (o : Observation D) (t : Turn D) → Ends n o t → Ends (suc n) o t
  Ends-suc n o (done c requests) h = tt
  Ends-suc n o fault h = tt
  Ends-suc zero o (again c) h = elim h [ ]
  Ends-suc (suc n) o (again c) h = Ends-suc n o (turn c.phase o c) h

  -- Whatever the phase, at most two rounds go on to another.
  turn-Ends :
      (p : FlightStartupPhase) (o : Observation D) (c : FlightStartupController D)
      → Ends 2 o (turn p o c)
  unfolding turn enter_phase
  turn-Ends waiting_for_vehicle o c = ground (
    arith,
    readiness-Ends o (
        enter_phase waiting_for_readiness o.now
          (record c { vehicle_system_id = o.vehicle.system_id })),
  )
  turn-Ends waiting_for_readiness o c =
      Ends-suc 1 o (turn waiting_for_readiness o c) (readiness-Ends o c)
  turn-Ends setting_guided o c = ground (
    arith,
    update_command-Ends o set_guided_mode c,
    arming-Ends o (enter_phase arming o.now c) refl,
  )
  turn-Ends arming o c =
      ground (arith, update_command-Ends o arm c, takeoff-Ends o (enter_phase taking_off o.now c))
  turn-Ends taking_off o c =
      Ends-suc 1 o (turn taking_off o c) (Ends-suc 0 o (turn taking_off o c) (takeoff-Ends o c))
  turn-Ends disabled o c = tt
  turn-Ends completed o c = tt
  turn-Ends failed o c = tt

  follow-Ends :
      (n m : ℕ) (o : Observation D) (t : Turn D)
      → Ends n o t
      → n ≤ m
      → follow (loop m o) t ≡ follow (loop n o) t
  unfolding loop
  follow-Ends n m o (done c requests) h l = refl
  follow-Ends n m o fault h l = refl
  follow-Ends zero m o (again c) h l = elim h [ ]
  follow-Ends (suc n) zero o (again c) h l = absurd (omega arith)
  follow-Ends (suc n) (suc m) o (again c) h l = follow-Ends n m o (turn c.phase o c) h (omega arith)

  -- From any state, and for any observation, the loop of `update` goes round three times at most: at
  -- most two rounds, from the first on, go on to another instead of returning. With a bound of three
  -- or more, such as the eight of the source, the result is therefore that of the bound three, and no
  -- round is left without a result of its own.
  pub loop-settles :
      (rounds : ℕ) (o : Observation D) (c : FlightStartupController D)
      → 3 ≤ rounds
      → Ends 2 o (turn c.phase o c) × (loop rounds o c ≡ loop 3 o c)
  unfolding loop
  loop-settles zero o c h = absurd (omega arith)
  loop-settles (suc rounds) o c h =
      let ends = turn-Ends c.phase o c in
      (ends, follow-Ends 2 rounds o (turn c.phase o c) ends (omega arith))
