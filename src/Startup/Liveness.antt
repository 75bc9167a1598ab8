-- ===== src/Startup/Liveness.antt =====
-- application/FlightStartupController: what an update does when the time of a phase is over.
use companion_lab.Prelude.{refl, Bool, ℕ, suc, ◌≤◌, ◌<◌, ◌≡◌, true, false, none, some, arith}
use companion_lab.Prelude.Doubles.{Doubles}
use companion_lab.Startup.{
  FlightStartupPhase, disabled, waiting_for_vehicle, waiting_for_readiness, setting_guided, arming,
  taking_off, completed, failed, FlightStartupController, Observation, is_over, enter_phase, fail,
}
use companion_lab.Startup.Update.{Updated, follow, Turn, again, done, fault, turn, loop, update}
use companion_lab.Startup.Invariant.{Inv, Returns, update-Inv, needs_vehicle}
use companion_lab.Startup.Phases.{
  Edge, seen, ready, guided, armed, climbed, given_up, Reaches, here, along, Follows, loop-Follows,
}

abbrev pub rank : FlightStartupPhase → ℕ
rank disabled = 0
rank waiting_for_vehicle = 0
rank waiting_for_readiness = 1
rank setting_guided = 2
rank arming = 3
rank taking_off = 4
rank completed = 5
rank failed = 6

module _ {D : Type 0} ⦃d : Doubles D⦄ where
  pub Edge-rank :
      {o : Observation D} {t : D} {a : Bool} {p q : FlightStartupPhase}
      → Edge o t a p q
      → rank p < rank q
  Edge-rank (seen a b c e) = omega arith
  Edge-rank (ready a b c e f) = omega arith
  Edge-rank (guided a b) = omega arith
  Edge-rank (armed a b) = omega arith
  Edge-rank (climbed x a b c e) = omega arith
  Edge-rank (given_up {p} h) = ground arith

  Reaches-rank :
      {o : Observation D} {t : D} {a : Bool} {p q : FlightStartupPhase}
      → Reaches o t a p q
      → rank p ≤ rank q
  Reaches-rank here = omega arith
  Reaches-rank (along e r) = omega (arith, Edge-rank e, Reaches-rank r)

  -- The phase after the call is a later one.
  abbrev pub Moves : FlightStartupPhase → Updated D → Type 0
  Moves p none = Unit
  Moves p (some (c, requests)) = rank p < rank c.phase

  abbrev Late : FlightStartupPhase → Turn D → Type 0
  Late p (again c) = (rank p < rank c.phase) × (is_over c.phase ≡ false)
  Late p (done c requests) = rank p < rank c.phase
  Late p fault = Unit

module _ {D : Type 0} ⦃d : Doubles D⦄ where
  turn-Late :
      (p : FlightStartupPhase) (o : Observation D) (c : FlightStartupController D)
      → needs_vehicle p ≡ true
      → c.phase_deadline ≤ o.now
      → Late p (turn p o c)
  unfolding turn enter_phase fail
  turn-Late waiting_for_readiness o c n h = ground arith
  turn-Late setting_guided o c n h = ground arith
  turn-Late arming o c n h = ground arith
  turn-Late taking_off o c n h = ground arith
  turn-Late waiting_for_vehicle o c n h = cc
  turn-Late disabled o c n h = cc
  turn-Late completed o c n h = cc
  turn-Late failed o c n h = cc

  Follows-Moves :
      (o : Observation D) (t : D) (a : Bool) (p q : FlightStartupPhase) (u : Updated D)
      → rank p < rank q
      → Follows o t a q u
      → Moves p u
  Follows-Moves o t a p q none l f = tt
  Follows-Moves o t a p q (some (c, requests)) l f = omega (arith, Reaches-rank f)

  follow-Moves :
      (o : Observation D) (p : FlightStartupPhase) (n : ℕ) (t : Turn D)
      → Late p t
      → Moves p (follow (loop n o) t)
  follow-Moves o p n (again c) l =
      Follows-Moves o c.config.takeoff_altitude_m c.command_accepted p c.phase (loop n o c) l.0
        (loop-Follows n o c.config.takeoff_altitude_m c.command_accepted c l.1 refl refl)
  follow-Moves o p n (done c requests) l = l
  follow-Moves o p n fault l = tt

  loop-Moves :
      (n : ℕ) (o : Observation D) (c : FlightStartupController D)
      → needs_vehicle c.phase ≡ true
      → c.phase_deadline ≤ o.now
      → Moves c.phase (loop (suc n) o c)
  unfolding loop
  loop-Moves n o c k h = follow-Moves o c.phase n (turn c.phase o c) (turn-Late c.phase o c k h)

  update-Late :
      (o : Observation D) (c : FlightStartupController D)
      → needs_vehicle c.phase ≡ true
      → c.phase_deadline ≤ o.now
      → Moves c.phase (update o c)
  unfolding update fail
  update-Late o c n h = ground (arith, loop-Moves 7 o c n h)

  abbrev pub MovesOn : FlightStartupPhase → Updated D → Type 0
  MovesOn p none = ⊥
  MovesOn p (some (c, requests)) = rank p < rank c.phase

  Moves-MovesOn : (p : FlightStartupPhase) (u : Updated D) → Returns u → Moves p u → MovesOn p u
  Moves-MovesOn p none r m = r
  Moves-MovesOn p (some (c, requests)) r m = m

  -- No phase outlasts its time: an update at or after the deadline of a phase that has one leaves
  -- the phase for a later one, be it `failed`.
  pub update-MovesOn :
      (o : Observation D) (c : FlightStartupController D)
      → Inv c
      → needs_vehicle c.phase ≡ true
      → c.phase_deadline ≤ o.now
      → MovesOn c.phase (update o c)
  update-MovesOn o c v n h =
      Moves-MovesOn c.phase (update o c) (update-Inv o c v) (update-Late o c n h)
