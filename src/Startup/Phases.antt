-- ===== src/Startup/Phases.antt =====
-- application/FlightStartupController: the phases that an update can go through, and in which order.
use companion_lab.Prelude.{
  Bool, ℕ, zero, suc, ◌≡◌, refl, sym, inl, inr, true, false, none, some, arith, Bool-cases,
  Option-cases, is_some,
}
use mathlib.Core.Path.{subst}
use companion_lab.Prelude.Doubles.{Doubles}
use companion_lab.Failsafe.{accepts}
use companion_lab.Flight.{FlightAction, set_guided_mode, arm, takeoff}
use companion_lab.Startup.{
  FlightStartupPhase, disabled, waiting_for_vehicle, waiting_for_readiness, setting_guided, arming,
  taking_off, completed, failed, FlightStartupController, Observation, is_multicopter, is_over,
  enter_phase, fail,
}
use companion_lab.Startup.Update.{
  Updated, follow, Turn, again, done, fault, climb, with_altitude, high_enough, update_command,
  turn, loop, update,
}
use companion_lab.Startup.Invariant.{Inv, Returns, update-Inv}

module _ {D : Type 0} ⦃d : Doubles D⦄ where
  -- The edges between phases, with what is so when one is taken: for the observation, the altitude
  -- asked for, and whether the command of the phase was accepted.
  pub data Edge (o : Observation D) (target : D) (accepted : Bool)
      : FlightStartupPhase → FlightStartupPhase → Type 0 where
    seen :
        o.vehicle.connected ≡ true
        → is_some o.vehicle.system_id ≡ true
        → o.vehicle.autopilot_type ≡ some 3
        → is_multicopter o.vehicle.vehicle_type ≡ true
        → Edge o target accepted waiting_for_vehicle waiting_for_readiness
    ready :
        o.telemetry_ready ≡ true
        → o.vehicle.armable ≡ true
        → o.vehicle.armed ≡ false
        → accepts o.failsafe ≡ true
        → is_some o.vehicle.relative_altitude_m ≡ true
        → Edge o target accepted waiting_for_readiness setting_guided
    guided :
        accepted ≡ true
        → o.vehicle.flight_mode ≡ some 4
        → Edge o target accepted setting_guided arming
    armed : accepted ≡ true → o.vehicle.armed ≡ true → Edge o target accepted arming taking_off
    climbed :
        (altitude : D)
        → accepted ≡ true
        → o.vehicle.armed ≡ true
        → o.vehicle.relative_altitude_m ≡ some altitude
        → d.le (d.sub target (d.of_decimal 35 2)) altitude ≡ true
        → Edge o target accepted taking_off completed
    given_up : {p : FlightStartupPhase} → is_over p ≡ false → Edge o target accepted p failed

  -- Several edges under one observation. In a phase that an edge leads to no command is accepted yet.
  pub data Reaches (o : Observation D) (target : D)
      : Bool → FlightStartupPhase → FlightStartupPhase → Type 0 where
    here : {a : Bool} {p : FlightStartupPhase} → Reaches o target a p p
    along :
        {a : Bool} {p q r : FlightStartupPhase}
        → Edge o target a p q
        → Reaches o target false q r
        → Reaches o target a p r

  stay :
      {o : Observation D} {target : D} {a : Bool} {p q : FlightStartupPhase}
      → p ≡ q
      → Reaches o target a p q
  stay {o} {target} {a} {p} e = subst (Reaches o target a p) e here

  failing :
      {o : Observation D} {target : D} {a : Bool} {p : FlightStartupPhase}
      → is_over p ≡ false
      → Reaches o target a p failed
  failing h = along (given_up h) here

  risen :
      (o : Observation D) (target : D) (a : Bool)
      → a ≡ true
      → o.vehicle.armed ≡ true
      → high_enough target o.vehicle.relative_altitude_m ≡ true
      → Reaches o target a taking_off completed
  unfolding high_enough
  risen o target a e h k = elim (Option-cases o.vehicle.relative_altitude_m) [
    | inl unknown ↦ ground arith
    | inr (altitude, known) ↦ along (climbed altitude e h known (ground arith)) here
  ]

  -- Where a round leads.
  abbrev Leads : Observation D → D → Bool → FlightStartupPhase → Turn D → Type 0
  Leads o target a p (again c) =
      Edge o target a p c.phase
      × (is_over c.phase ≡ false)
      × (c.command_accepted ≡ false)
      × (c.config.takeoff_altitude_m ≡ target)
  Leads o target a p (done c requests) = Reaches o target a p c.phase
  Leads o target a p fault = Unit

  update_command-Leads :
      (o : Observation D) (action : FlightAction) (target : D) (a : Bool) (p : FlightStartupPhase)
      (c : FlightStartupController D)
      → c.phase ≡ p
      → is_over p ≡ false
      → Leads o target a p (update_command action o.now c)
  unfolding update_command fail
  update_command-Leads o action target a p c e h =
      grind (arith, failing h, stay (sym e), Option-cases c.vehicle_system_id)

  with_altitude-Leads :
      (altitude : D) (o : Observation D) (target : D) (a : Bool) (p : FlightStartupPhase)
      (t : Turn D)
      → Leads o target a p t
      → Leads o target a p (with_altitude altitude t)
  unfolding with_altitude
  with_altitude-Leads altitude o target a p (again c) h = h
  with_altitude-Leads altitude o target a p (done c requests) h = h
  with_altitude-Leads altitude o target a p fault h = h

  -- The round of a controller, by its own altitude and acceptance.
  abbrev LeadsFrom :
      Observation D → FlightStartupController D → FlightStartupPhase → Turn D → Type 0
  LeadsFrom o c p t = Leads o c.config.takeoff_altitude_m c.command_accepted p t

  climbing-Leads :
      (o : Observation D) (c : FlightStartupController D)
      → c.phase ≡ taking_off
      → LeadsFrom o c taking_off
          (with_altitude c.config.takeoff_altitude_m (update_command takeoff o.now (climb o c)))
  unfolding climb
  climbing-Leads o c e =
      with_altitude-Leads c.config.takeoff_altitude_m o c.config.takeoff_altitude_m
        c.command_accepted taking_off (update_command takeoff o.now (climb o c))
        (update_command-Leads o takeoff c.config.takeoff_altitude_m c.command_accepted taking_off
          (climb o c) e refl)

  turn-Leads :
      (p : FlightStartupPhase) (o : Observation D) (c : FlightStartupController D)
      → c.phase ≡ p
      → LeadsFrom o c p (turn p o c)
  unfolding turn enter_phase fail
  turn-Leads waiting_for_vehicle o c e =
      grind (arith, seen, failing {o = o} {p = waiting_for_vehicle}, stay {o = o} (sym e))
  turn-Leads waiting_for_readiness o c e =
      grind (arith, ready, failing {o = o} {p = waiting_for_readiness}, stay {o = o} (sym e))
  turn-Leads setting_guided o c e = grind (
    arith,
    guided,
    failing {o = o} {p = setting_guided},
    update_command-Leads o set_guided_mode c.config.takeoff_altitude_m c.command_accepted
        setting_guided c e refl,
  )
  turn-Leads arming o c e = grind (
    arith,
    armed,
    failing {o = o} {p = arming},
    update_command-Leads o arm c.config.takeoff_altitude_m c.command_accepted arming c e refl,
  )
  turn-Leads taking_off o c e = grind (
    arith,
    risen o c.config.takeoff_altitude_m c.command_accepted,
    failing {o = o} {p = taking_off},
    climbing-Leads o c e,
  )
  turn-Leads disabled o c e = stay (sym e)
  turn-Leads completed o c e = stay (sym e)
  turn-Leads failed o c e = stay (sym e)

  abbrev pub Follows : Observation D → D → Bool → FlightStartupPhase → Updated D → Type 0
  Follows o target a p none = Unit
  Follows o target a p (some (c, requests)) = Reaches o target a p c.phase

  follow-Follows :
      (o : Observation D) (target : D) (a : Bool) (p : FlightStartupPhase) (t : Turn D)
      (next : FlightStartupController D → Updated D)
      → Leads o target a p t
      → ((c : FlightStartupController D)
          → Edge o target a p c.phase
          → is_over c.phase ≡ false
          → c.command_accepted ≡ false
          → c.config.takeoff_altitude_m ≡ target
          → Follows o target a p (next c))
      → Follows o target a p (follow next t)
  follow-Follows o target a p (again c) next l h = h c l.0 l.1 l.2 l.3
  follow-Follows o target a p (done c requests) next l h = l
  follow-Follows o target a p fault next l h = tt

  extend :
      (o : Observation D) (target : D) (a : Bool) (p q : FlightStartupPhase) (u : Updated D)
      → Edge o target a p q
      → Follows o target false q u
      → Follows o target a p u
  extend o target a p q none e h = tt
  extend o target a p q (some (c, requests)) e h = along e h

  pub loop-Follows :
      (n : ℕ) (o : Observation D) (target : D) (a : Bool) (c : FlightStartupController D)
      → is_over c.phase ≡ false
      → c.command_accepted ≡ a
      → c.config.takeoff_altitude_m ≡ target
      → Follows o target a c.phase (loop n o c)
  unfolding loop fail
  loop-Follows zero o target a c h e k = failing h
  loop-Follows (suc n) o target a c h e k =
      follow-Follows o target a c.phase (turn c.phase o c) (loop n o)
        (subst (λ x. Leads o x a c.phase (turn c.phase o c)) k
          (subst (λ x. Leads o c.config.takeoff_altitude_m x c.phase (turn c.phase o c)) e
            (turn-Leads c.phase o c refl)))
        (λ c' edge live fresh same.
          extend o target a c.phase c'.phase (loop n o c') edge
            (loop-Follows n o target false c' live fresh same))

  update-Follows :
      (o : Observation D) (c : FlightStartupController D)
      → Follows o c.config.takeoff_altitude_m c.command_accepted c.phase (update o c)
  unfolding update fail
  update-Follows o c = elim (Bool-cases (is_over c.phase)) [
    | inl over ↦ rw (over, update) here
    | inr live ↦ ground (
      arith,
      loop-Follows 8 o c.config.takeoff_altitude_m c.command_accepted c live refl refl,
      failing {o = o} {target = c.config.takeoff_altitude_m} {a = c.command_accepted} live,
    )
  ]

  -- The phase after an update is reached from that before it, for the controller's altitude and the
  -- acceptance of its command.
  abbrev pub ReachesAfter : Observation D → FlightStartupController D → Updated D → Type 0
  ReachesAfter o b none = ⊥
  ReachesAfter o b (some (c, requests)) =
      Reaches o b.config.takeoff_altitude_m b.command_accepted b.phase c.phase

  Follows-ReachesAfter :
      (o : Observation D) (c : FlightStartupController D) (u : Updated D)
      → Returns u
      → Follows o c.config.takeoff_altitude_m c.command_accepted c.phase u
      → ReachesAfter o c u
  Follows-ReachesAfter o c none r f = r
  Follows-ReachesAfter o c (some (c', requests)) r f = f

  -- In a well-formed state an update returns and moves along the edges of the phase diagram only. The
  -- vehicle is known once a connected ArduPilot multicopter with a system id is seen. GUIDED mode is
  -- asked for once telemetry is ready, the vehicle is armable, not armed and of a known altitude, and
  -- the failsafe is valid. The startup goes on to arming once the mode's command was accepted and the
  -- mode is GUIDED, to the takeoff once the arming command was accepted and the vehicle is armed, and
  -- is complete once the takeoff command was accepted and the armed vehicle is at most 0.35 m below the
  -- altitude asked for. Every phase that is not final may fail.
  pub update-Reaches :
      (o : Observation D) (c : FlightStartupController D) → Inv c → ReachesAfter o c (update o c)
  update-Reaches o c v =
      Follows-ReachesAfter o c (update o c) (update-Inv o c v) (update-Follows o c)
