-- ===== src/Application/Quiet.antt =====
-- application/CompanionApplication: without a connected vehicle nothing is sent.
use companion_lab.Prelude.{
  ℕ, ◌≡◌, refl, ◌∙◌, Bool, false, Option, none, some, List, [], ◌∷◌, String, leb, Bool-cases, inl,
  inr, is_some,
}
use companion_lab.Prelude.Time.{TimePoint}
use companion_lab.Prelude.Doubles.{Doubles}
use companion_lab.Prelude.Outcomes.{Outcome, ok, threw, fault, defined}
use companion_lab.Mavlink.{Mavlink}
use companion_lab.Mavlink.Encoder.{Casts}
use companion_lab.Vehicle.Snapshot.{VehicleSnapshot}
use companion_lab.Flight.{FlightActionRequest}
use companion_lab.Telemetry.{
  TelemetryStreamConfigurator, reset, update as telemetry_update, snapshot as telemetry_snapshot,
}
use companion_lab.Telemetry.Invariant.{reset-Inv}
use companion_lab.Startup.{FlightStartupController, Observation as StartupObservation}
use companion_lab.Startup.Update.{update as startup_update, Updated as StartupUpdated}
use companion_lab.Startup.Safety.{AnswersTo as StartupAnswers, startup_update-Answers}
use companion_lab.Runtime.{AutonomyRuntime, Observation as RuntimeObservation}
use companion_lab.Runtime.Update.{update as runtime_update, Updated as RuntimeUpdated}
use companion_lab.Runtime.Guidance.{Sends as RuntimeSends, update-Sends}
use companion_lab.Application.Frames.{Transport, Breaks}
use companion_lab.Application.Members.{Impl, with_witnessed, witnessed_of}
use companion_lab.Application.Watch.{
  meet_vehicle, landing_target_of, vision_of, current_landing_target,
}
use companion_lab.Application.Requests.{
  is_ready, beat, beat_now, set_up_telemetry, ask_failsafe_parameter, ask_version,
  ask_battery_parameter, act_all,
}
use companion_lab.Application.Poll.{startup_sent, runtime_sent, run_startup, run_autonomy, serve}
use companion_lab.Application.Invariant.{Inv}
use companion_lab.Application.Parts.{Contained, Safe, Safe-bind, meet_vehicle-Inv}
use companion_lab.Application.Sound.{run_startup-Inv}
use companion_lab.Application.Guided.{Anything, landing_target_of-Safe}

module _ {D : Type 0} ⦃d : Doubles D⦄ where
  -- Disconnected, the startup and the runtime ask for nothing.
  startup-idle :
      (o : StartupObservation D) (b : FlightStartupController D) (u : StartupUpdated D)
      → o.vehicle.connected ≡ false
      → StartupAnswers o b u
      → Safe
          (λ (a : FlightStartupController D × List (FlightActionRequest D)). a.1 ≡ [])
          (defined u)
  startup-idle o b none e h = h
  startup-idle o b (some (c, [])) e h = refl
  startup-idle o b (some (c, q ∷ [])) e h = cc (e, h.0.connected)
  startup-idle o b (some (c, q ∷ q' ∷ qs)) e h = absurd h.0

  runtime-idle :
      (o : RuntimeObservation D) (b : AutonomyRuntime D) (u : RuntimeUpdated D)
      → o.vehicle.connected ≡ false
      → RuntimeSends o b u
      → Safe (λ (a : AutonomyRuntime D × List (FlightActionRequest D)). a.1 ≡ []) (defined u)
  runtime-idle o b none e h = h
  runtime-idle o b (some (r, [])) e h = refl
  runtime-idle o b (some (r, q ∷ [])) e h = cc (e, h.0.0.connected)
  runtime-idle o b (some (r, q ∷ q' ∷ [])) e h = cc (e, h.0.0.connected)
  runtime-idle o b (some (r, q ∷ q' ∷ q'' ∷ qs)) e h = absurd h.0

Safe-both :
    {A : Type 0} (E : Type 0) (P Q : A → Type 0) (o : Outcome A)
    → Safe P o
    → Contained E Q o
    → Safe (λ a. P a × Q a) o
Safe-both E P Q (ok a) p q = (p, q)
Safe-both E P Q (threw t) p q = p
Safe-both E P Q fault p q = p

Safe-map :
    {A : Type 0} (P Q : A → Type 0) (o : Outcome A) → Safe P o → ((a : A) → P a → Q a) → Safe Q o
Safe-map P Q (ok a) p f = f a p
Safe-map P Q (threw t) p f = p
Safe-map P Q fault p f = p

module _ ⦃m : Mavlink⦄ where
  unasked :
      (o : Option ℕ) (now : TimePoint) (t : TelemetryStreamConfigurator)
      → telemetry_update false o now t ≡ some (reset, none)
  unfolding telemetry_update
  unasked none now t = refl
  unasked (some vehicle) now t = refl

module _ {T P D : Type 0} ⦃m : Mavlink⦄ ⦃d : Doubles D⦄ ⦃c : Casts D⦄ (port : Transport T) where
  -- The transport is as it was, and the companion's heartbeat counts as inactive.
  abbrev Still : Impl T P D → Impl T P D → Type 0
  Still s s' =
      (s'.transport ≡ s.transport)
      × (s'.companion_heartbeat_active ≡ s.companion_heartbeat_active)
      × Inv s'

  not_now :
      (o : Option ℕ) (now : TimePoint) (s : Impl T P D)
      → Inv s
      → Safe (Still s) (beat_now port false o now s)
  unfolding beat_now
  not_now none now s v = (refl, refl, v)
  not_now (some system) now s v = (refl, refl, v)

  beat-Still :
      (vehicle : VehicleSnapshot D) (now : TimePoint) (s : Impl T P D)
      → vehicle.connected ≡ false
      → Inv s
      → Safe (Still s) (beat port vehicle now s)
  unfolding beat
  beat-Still vehicle now s e v = elim (Bool-cases (leb s.next_heartbeat now)) [
    | inl due ↦ rw due (
        Safe-bind (Still s) (Still s) (beat_now port vehicle.connected vehicle.system_id now s) _
          (rw e (not_now vehicle.system_id now s v)) (λ t w. w))
    | inr early ↦ rw early (refl, refl, v)
  ]

  -- The telemetry setup is as new, so that nothing else is asked either.
  set_up_telemetry-Still :
      (vehicle : VehicleSnapshot D) (now : TimePoint) (s : Impl T P D)
      → vehicle.connected ≡ false
      → Inv s
      → Safe (λ s'. Still s s' × (is_ready s' ≡ false)) (set_up_telemetry port vehicle now s)
  unfolding set_up_telemetry telemetry_snapshot reset
  set_up_telemetry-Still vehicle now s e v =
      rw (e, unasked vehicle.system_id now s.telemetry_configurator)
        (
          (
            refl,
            refl,
            (
              record {
                telemetry = reset-Inv;
                startup = v.0.startup;
                runtime = v.0.runtime;
                failsafe = v.0.failsafe;
              },
              v.1,
              v.2,
              v.3,
            ),
          ),
          refl,
        )

  -- The requests of a telemetry setup that is not ready.
  failsafe_parameter-unready :
      (o : Option ℕ) (now : TimePoint) (s : Impl T P D)
      → ask_failsafe_parameter port false o now s ≡ ok s
  unfolding ask_failsafe_parameter
  failsafe_parameter-unready none now s = refl
  failsafe_parameter-unready (some system) now s = refl

  version-unready :
      (known : Bool) (o : Option ℕ) (now : TimePoint) (s : Impl T P D)
      → ask_version port false known o now s ≡ ok s
  unfolding ask_version
  version-unready known none now s = refl
  version-unready known (some system) now s = refl

  battery_parameter-unready :
      (known : Bool) (o : Option ℕ) (now : TimePoint) (s : Impl T P D)
      → ask_battery_parameter port false known o now s ≡ ok s
  unfolding ask_battery_parameter
  battery_parameter-unready known none now s = refl
  battery_parameter-unready known (some system) now s = refl

  acts-none :
      (tell : FlightActionRequest D → Bool → Impl T P D → Impl T P D)
      (actions : List (FlightActionRequest D)) (now : TimePoint) (s : Impl T P D)
      → actions ≡ []
      → act_all port tell actions now s ≡ ok s
  unfolding act_all
  acts-none tell actions now s e = rw e

  abbrev Silent : Impl T P D → Impl T P D → Type 0
  Silent s s' =
      (s'.transport ≡ s.transport) × (s'.companion_heartbeat_active ≡ s.companion_heartbeat_active)

  run_startup-Silent :
      (ready : Bool) (vehicle : VehicleSnapshot D) (now : TimePoint) (s : Impl T P D)
      → vehicle.connected ≡ false
      → Inv s
      → Safe (Silent s) (run_startup port ready vehicle now s)
  unfolding run_startup
  run_startup-Silent ready vehicle now s e v =
      Safe-bind (λ a. a.1 ≡ []) (Silent s) (defined (startup_update _ s.flight_startup)) _
        (startup-idle _ s.flight_startup (startup_update _ s.flight_startup) e
          (startup_update-Answers _ s.flight_startup v.0.startup))
        (λ a none_asked. rw (acts-none startup_sent a.1 now _ none_asked) (refl, refl))

  run_autonomy-Silent :
      (description : String) (vehicle : VehicleSnapshot D) (now : TimePoint) (s : Impl T P D)
      → vehicle.connected ≡ false
      → Inv s
      → Safe (Silent s) (run_autonomy port description vehicle now s)
  unfolding run_autonomy current_landing_target
  run_autonomy-Silent description vehicle now s e v =
      Safe-bind Anything (Silent s)
        (landing_target_of (vision_of description now s.camera_monitor) s.camera_extrinsics) _
        (landing_target_of-Safe (vision_of description now s.camera_monitor) s.camera_extrinsics
          v.2)
        λ target u.
          Safe-bind (λ a. a.1 ≡ []) (Silent s) (defined (runtime_update _ s.autonomy_runtime)) _
            (runtime-idle _ s.autonomy_runtime (runtime_update _ s.autonomy_runtime) e
              (update-Sends _ s.autonomy_runtime v.0.runtime))
            (λ a none_asked. rw (acts-none runtime_sent a.1 now _ none_asked) (refl, refl))

  met-Still :
      (vehicle : VehicleSnapshot D) (now : TimePoint) (s : Impl T P D)
      → vehicle.connected ≡ false
      → let s' = meet_vehicle vehicle now s in
        (s'.transport ≡ s.transport) × (s'.companion_heartbeat_active ≡ false)
  unfolding meet_vehicle with_witnessed witnessed_of
  met-Still vehicle now s e = (refl, rw e)

  -- In a well-formed state, the part of a poll that follows the vehicle's snapshot is defined while the
  -- vehicle is not connected, and it sends no byte: unless a target's position is not finite, which is
  -- an exception, the transport is as it was afterwards, and the companion's heartbeat inactive.
  pub serve-Quiet :
      (description : String) (vehicle : VehicleSnapshot D) (now : TimePoint) (s : Impl T P D)
      → vehicle.connected ≡ false
      → Inv s
      → Safe
          (λ s'. (s'.transport ≡ s.transport) × (s'.companion_heartbeat_active ≡ false))
          (serve port description vehicle now s)
  unfolding serve
  serve-Quiet description vehicle now s e v =
      let met = met-Still vehicle now s e in
      Safe-bind (Still (meet_vehicle vehicle now s)) _
        (beat port vehicle now (meet_vehicle vehicle now s)) _
        (beat-Still vehicle now (meet_vehicle vehicle now s) e (meet_vehicle-Inv vehicle now s v))
        λ s1 h1.
          Safe-bind (λ s'. Still s1 s' × (is_ready s' ≡ false)) _
            (set_up_telemetry port vehicle now s1) _ (set_up_telemetry-Still vehicle now s1 e h1.2)
            λ s2 h2.
              rw
                (
                  h2.1,
                  failsafe_parameter-unready vehicle.system_id now s2,
                  version-unready (is_some vehicle.autopilot_metadata) vehicle.system_id now s2,
                  battery_parameter-unready (is_some vehicle.battery_arming_voltage_v)
                      vehicle.system_id now s2,
                )
                (Safe-bind (λ s'. Silent s2 s' × Inv s') _ (run_startup port false vehicle now s2) _
                  (Safe-both (Breaks port) (Silent s2) Inv (run_startup port false vehicle now s2)
                    (run_startup-Silent false vehicle now s2 e h2.0.2)
                    (run_startup-Inv port false vehicle now s2 h2.0.2))
                  λ s6 h6.
                    Safe-map (Silent s6) _ (run_autonomy port description vehicle now s6)
                      (run_autonomy-Silent description vehicle now s6 e h6.1)
                      λ s7 h7. (
                        h7.0 ∙ h6.0.0 ∙ h2.0.0 ∙ h1.0 ∙ met.0,
                        h7.1 ∙ h6.0.1 ∙ h2.0.1 ∙ h1.1 ∙ met.1,
                      ))
