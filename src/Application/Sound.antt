-- ===== src/Application/Sound.antt =====
-- application/CompanionApplication: a poll is defined, and keeps the invariant.
use companion_lab.Prelude.{◌≡◌, ◌⊎◌, inl, inr, none, Bool, List, [], ◌∷◌, String}
use companion_lab.Prelude.Time.{TimePoint}
use companion_lab.Prelude.Doubles.{Doubles}
use companion_lab.Prelude.Outcomes.{defined}
use companion_lab.Mavlink.{Mavlink}
use companion_lab.Mavlink.Messages.{Messages, Framing}
use companion_lab.Mavlink.Encoder.{Casts, encode_flight_action}
use companion_lab.Vehicle.Snapshot.{VehicleSnapshot}
use companion_lab.Flight.{FlightActionRequest}
use companion_lab.Startup.Update.{update as startup_update}
use companion_lab.Startup.Invariant.{Inv as StartupInv, update-Inv as startup_update-Inv}
use companion_lab.Runtime.Update.{update as runtime_update}
use companion_lab.Runtime.Invariant.{Inv as RuntimeInv, update-Inv as runtime_update-Inv}
use companion_lab.Application.Parts.{
  Contained, Contained-bind, Safe-Contained, Contained-weaken, outside-Contained, watch-Inv,
  meet_vehicle-Inv,
}
use companion_lab.Application.Asking.{
  deliver-Inv, beat-Inv, set_up_telemetry-Inv, ask_failsafe_parameter-Inv, ask_version-Inv,
  ask_battery_parameter-Inv,
}
use companion_lab.Application.Frames.{Transport, Breaks}
use companion_lab.Application.Members.{Impl, handlers, client_of, with_client, announce, deliver}
use companion_lab.Application.Watch.{
  Surroundings, watch, meet_vehicle, landing_target_of, vision_of, current_landing_target,
}
use companion_lab.Application.Requests.{
  is_ready, beat, set_up_telemetry, ask_failsafe_parameter, ask_version, ask_battery_parameter, act,
  act_all,
}
use companion_lab.Application.Poll.{
  startup_sent, runtime_sent, receive, run_startup, run_autonomy, serve, poll,
}
use companion_lab.Application.Invariant.{Inv, handlers-Keeps, ingest-ClientInv}
use companion_lab.Application.Guided.{
  Anything, Tells, landing_target_of-Safe, runtime-Safe, runtime_sent-Tells, startup-Safe,
  startup_sent-Tells,
}

module _ {T P D : Type 0} ⦃m : Mavlink⦄ ⦃d : Doubles D⦄ ⦃c : Casts D⦄ (port : Transport T) where
  act-Inv :
      (tell : FlightActionRequest D → Bool → Impl T P D → Impl T P D) (t : Tells tell)
      (a : FlightActionRequest D) (now : TimePoint) (s : Impl T P D)
      → Inv s
      → Contained (Breaks port) Inv (act port tell a now s)
  unfolding act announce
  act-Inv tell t a now s v =
      Contained-bind (Breaks port) (λ p. Inv p.1) Inv
        (deliver port (encode_flight_action a) now _ _ s) _
        (deliver-Inv port (encode_flight_action a) now _ _ s v) (λ p w. t a p.0 p.1 w)

  act_all-Inv :
      (tell : FlightActionRequest D → Bool → Impl T P D → Impl T P D) (t : Tells tell)
      (actions : List (FlightActionRequest D)) (now : TimePoint) (s : Impl T P D)
      → Inv s
      → Contained (Breaks port) Inv (act_all port tell actions now s)
  unfolding act_all
  act_all-Inv tell t [] now s v = v
  act_all-Inv tell t (a ∷ actions) now s v =
      Contained-bind (Breaks port) Inv Inv (act port tell a now s) _ (act-Inv tell t a now s v)
        (act_all-Inv tell t actions now)

module _ {T P D : Type 0} ⦃m : Mavlink⦄ ⦃d : Doubles D⦄ ⦃c : Casts D⦄ (port : Transport T) where
  pub run_startup-Inv :
      (ready : Bool) (vehicle : VehicleSnapshot D) (now : TimePoint) (s : Impl T P D)
      → Inv s
      → Contained (Breaks port) Inv (run_startup port ready vehicle now s)
  unfolding run_startup
  run_startup-Inv ready vehicle now s v =
      Contained-bind (Breaks port) (λ a. StartupInv a.0) Inv
        (defined (startup_update _ s.flight_startup)) _
        (Safe-Contained (Breaks port) _ (defined (startup_update _ s.flight_startup)) (
          startup-Safe (startup_update _ s.flight_startup)
            (startup_update-Inv _ s.flight_startup v.0.startup)))
        λ a w. act_all-Inv port startup_sent startup_sent-Tells a.1 now _ (
          record {
            telemetry = v.0.telemetry;
            startup = w;
            runtime = v.0.runtime;
            failsafe = v.0.failsafe;
          },
          v.1,
          v.2,
          v.3,
        )

  pub run_autonomy-Inv :
      (description : String) (vehicle : VehicleSnapshot D) (now : TimePoint) (s : Impl T P D)
      → Inv s
      → Contained (Breaks port) Inv (run_autonomy port description vehicle now s)
  unfolding run_autonomy current_landing_target
  run_autonomy-Inv description vehicle now s v =
      Contained-bind (Breaks port) Anything Inv
        (landing_target_of (vision_of description now s.camera_monitor) s.camera_extrinsics) _
        (Safe-Contained (Breaks port) Anything
          (landing_target_of (vision_of description now s.camera_monitor) s.camera_extrinsics)
          (landing_target_of-Safe (vision_of description now s.camera_monitor) s.camera_extrinsics
            v.2))
        λ target u.
          Contained-bind (Breaks port) (λ a. RuntimeInv a.0) Inv
            (defined (runtime_update _ s.autonomy_runtime)) _
            (Safe-Contained (Breaks port) _ (defined (runtime_update _ s.autonomy_runtime)) (
              runtime-Safe (runtime_update _ s.autonomy_runtime)
                (runtime_update-Inv _ s.autonomy_runtime v.0.runtime)))
            λ a w. act_all-Inv port runtime_sent runtime_sent-Tells a.1 now _ (
              record {
                telemetry = v.0.telemetry;
                startup = v.0.startup;
                runtime = w;
                failsafe = v.0.failsafe;
              },
              v.1,
              v.2,
              v.3,
            )

  serve-Inv :
      (description : String) (vehicle : VehicleSnapshot D) (now : TimePoint) (s : Impl T P D)
      → Inv s
      → Contained (Breaks port) Inv (serve port description vehicle now s)
  unfolding serve
  serve-Inv description vehicle now s v =
      Contained-bind (Breaks port) Inv Inv (beat port vehicle now (meet_vehicle vehicle now s)) _
        (beat-Inv port vehicle now (meet_vehicle vehicle now s) (meet_vehicle-Inv vehicle now s v))
        λ s1 v1.
          Contained-bind (Breaks port) Inv Inv (set_up_telemetry port vehicle now s1) _
            (set_up_telemetry-Inv port vehicle now s1 v1)
            λ s2 v2.
              Contained-bind (Breaks port) Inv Inv
                (ask_failsafe_parameter port (is_ready s2) vehicle.system_id now s2) _
                (ask_failsafe_parameter-Inv port (is_ready s2) vehicle.system_id now s2 v2)
                λ s3 v3.
                  Contained-bind (Breaks port) Inv Inv
                    (ask_version port (is_ready s2) _ vehicle.system_id now s3) _
                    (ask_version-Inv port (is_ready s2) _ vehicle.system_id now s3 v3)
                    λ s4 v4.
                      Contained-bind (Breaks port) Inv Inv
                        (ask_battery_parameter port (is_ready s2) _ vehicle.system_id now s4) _
                        (ask_battery_parameter-Inv port (is_ready s2) _ vehicle.system_id now s4 v4)
                        λ s5 v5.
                          Contained-bind (Breaks port) Inv Inv
                            (run_startup port (is_ready s2) vehicle now s5) _
                            (run_startup-Inv (is_ready s2) vehicle now s5 v5)
                            (λ s6 v6. run_autonomy-Inv description vehicle now s6 v6)

module _ {T P M D : Type 0} ⦃m : Mavlink⦄ ⦃d : Doubles D⦄ ⦃c : Casts D⦄ (port : Transport T)
    (framing : Framing P M) (lib : Messages M D) where
  receive-Inv :
      (now : TimePoint) (s : Impl T P D)
      → Inv s
      → Contained (Breaks port) Inv (receive port framing lib now s)
  unfolding receive with_client client_of
  receive-Inv now s v =
      outside-Contained (Breaks port) Inv (port.read s.transport) _ (λ e. inl (s.transport, e))
        λ r. (ingest-ClientInv lib handlers handlers-Keeps framing r.0 now _ _ v.0, v.1, v.2, v.3)

  -- From a state that satisfies the invariant, whatever is received, a poll does nothing undefined:
  -- it returns with the invariant true, or throws. An exception is the transport's, the detector's, or
  -- that for a target whose position is not finite.
  pub poll-Contained :
      (e : Surroundings D) (s : Impl T P D)
      → Inv s
      → Contained (Breaks port ⊎ (e.batch ≡ none)) Inv (poll port framing lib e s)
  unfolding poll
  poll-Contained e s v =
      let E = Breaks port ⊎ (e.batch ≡ none) in
      Contained-bind E Inv Inv (watch e s) _
        (Contained-weaken (e.batch ≡ none) E Inv (watch e s) inr (watch-Inv e s v))
        λ watched w.
          Contained-bind E Inv Inv (receive port framing lib e.now watched) _
            (Contained-weaken (Breaks port) E Inv (receive port framing lib e.now watched) inl
              (receive-Inv e.now watched w))
            λ heard h.
              Contained-weaken (Breaks port) E Inv _ inl (serve-Inv port e.description _ e.now _ h)
