-- ===== src/Application/Routing.antt =====
-- application/CompanionApplication: whom an acknowledgement reaches, and when a flight may start.
use companion_lab.Prelude.{
  ℕ, ◌≡◌, refl, ◌≢◌, ◌↔◌, ◌⊎◌, inl, inr, true, false, Option, none, some, arith, ◌==◌,
  if◌then◌else◌, Bool-cases, is_some,
}
use companion_lab.Prelude.Time.{TimePoint}
use companion_lab.Prelude.Doubles.{Doubles}
use companion_lab.Mavlink.{Mavlink, CommandAck}
use companion_lab.Flight.{
  FlightAction, FlightCommandAckOutcome, set_guided_mode, arm, takeoff, land, return_to_launch,
}
use companion_lab.Vehicle.Snapshot.{snapshot as vehicle_snapshot}
use companion_lab.Telemetry.{
  TelemetryStreamConfigurator, is_awaited, on_command_ack as telemetry_on_command_ack,
  snapshot as telemetry_snapshot,
}
use companion_lab.Startup.{FlightStartupController, restart as restart_startup}
use companion_lab.Startup.Acks.{on_command_ack as startup_on_command_ack}
use companion_lab.Runtime.{
  AutonomyRuntime, on_command_ack as runtime_on_command_ack, restart as restart_runtime,
}
use companion_lab.Application.Acks.{
  Listeners, map_flight_action, map_ack_outcome, forward, log_ack, on_command_ack,
}
use companion_lab.Application.Start.{
  Companion, startup_finished, autonomy_finished, start_from, request_autonomy_start,
}

module _ ⦃m : Mavlink⦄ where
  -- The telemetry setup's command is none of those of a flight: both are labels of one `switch`.
  pub record IsApart : Type 0 where
    pub set_mode : m.cmd_set_message_interval ≢ m.cmd_do_set_mode
    pub arm_disarm : m.cmd_set_message_interval ≢ m.cmd_component_arm_disarm
    pub nav_takeoff : m.cmd_set_message_interval ≢ m.cmd_nav_takeoff
    pub nav_land : m.cmd_set_message_interval ≢ m.cmd_nav_land
    pub nav_return : m.cmd_set_message_interval ≢ m.cmd_nav_return_to_launch

  interval-map_flight_action :
      IsApart
      → (command : ℕ) → command ≡ m.cmd_set_message_interval
      → map_flight_action command ≡ none
  unfolding map_flight_action
  interval-map_flight_action h command e =
      ground (arith, h.set_mode, h.arm_disarm, h.nav_takeoff, h.nav_land, h.nav_return)

  telemetry-keeps :
      (a : CommandAck) (now : TimePoint) (c : TelemetryStreamConfigurator)
      → a.command ≢ m.cmd_set_message_interval
      → telemetry_on_command_ack a now c ≡ c
  unfolding telemetry_on_command_ack is_awaited
  telemetry-keeps a now c h = ground arith

land-cases : (a : FlightAction) → (a ≡ land) ⊎ (a ≢ land)
land-cases land = inl refl
land-cases set_guided_mode = inr (λ e. cc)
land-cases arm = inr (λ e. cc)
land-cases takeoff = inr (λ e. cc)
land-cases return_to_launch = inr (λ e. cc)
land-cases FlightAction.landing_target = inr (λ e. cc)

module _ {D : Type 0} where
  startup-keeps :
      (a : FlightAction) (outcome : FlightCommandAckOutcome) (raw source : ℕ) (now : TimePoint)
      (c : FlightStartupController D)
      → a ≡ land
      → startup_on_command_ack a outcome raw source now c ≡ c
  unfolding startup_on_command_ack
  startup-keeps a outcome raw source now c h = ground arith

  runtime-keeps :
      (a : FlightAction) (outcome : FlightCommandAckOutcome) (raw source : ℕ) (now : TimePoint)
      (r : AutonomyRuntime D)
      → a ≢ land
      → runtime_on_command_ack a outcome raw source now r ≡ r
  unfolding runtime_on_command_ack
  runtime-keeps set_guided_mode outcome raw source now r h = refl
  runtime-keeps arm outcome raw source now r h = refl
  runtime-keeps takeoff outcome raw source now r h = refl
  runtime-keeps return_to_launch outcome raw source now r h = refl
  runtime-keeps FlightAction.landing_target outcome raw source now r h = refl
  runtime-keeps land outcome raw source now r h = absurd (h refl)

  -- Of the three components, at most one is not as it was.
  abbrev pub Alone : Listeners D → Listeners D → Type 0
  Alone s s' =
      ((s'.flight_startup ≡ s.flight_startup) × (s'.autonomy_runtime ≡ s.autonomy_runtime))
      ⊎ ((s'.telemetry_configurator ≡ s.telemetry_configurator)
          × (s'.autonomy_runtime ≡ s.autonomy_runtime))
      ⊎ ((s'.telemetry_configurator ≡ s.telemetry_configurator)
          × (s'.flight_startup ≡ s.flight_startup))

module _ {D : Type 0} ⦃m : Mavlink⦄ where
  forward-Alone :
      (o : Option FlightAction) (a : CommandAck) (now : TimePoint) (s : Listeners D)
      → let s' = forward o a now s in
        (s'.telemetry_configurator ≡ s.telemetry_configurator)
        × ((s'.flight_startup ≡ s.flight_startup) ⊎ (s'.autonomy_runtime ≡ s.autonomy_runtime))
        × ((o ≢ none)
            ⊎ ((s'.flight_startup ≡ s.flight_startup) × (s'.autonomy_runtime ≡ s.autonomy_runtime)))
  unfolding forward
  forward-Alone none a now s = (refl, inl refl, inr (refl, refl))
  forward-Alone (some f) a now s = elim (land-cases f) [
    | inl e ↦ ground (
      arith,
      startup-keeps f (map_ack_outcome a.result) a.result a.source_system now s.flight_startup,
    )
    | inr e ↦ ground (
      arith,
      runtime-keeps f (map_ack_outcome a.result) a.result a.source_system now s.autonomy_runtime e,
    )
  ]

  -- If the telemetry setup's command is none of those of a flight, an acknowledgement changes at most
  -- one of the telemetry setup, the flight startup and the autonomy runtime.
  pub on_command_ack-Alone :
      (h : IsApart) (a : CommandAck) (now : TimePoint) (s : Listeners D)
      → Alone s (on_command_ack a now s)
  unfolding on_command_ack forward
  on_command_ack-Alone h a now s = elim (Bool-cases (a.command == m.cmd_set_message_interval)) [
    | inl e ↦ rw (interval-map_flight_action h a.command (ground arith)) (inl (refl, refl))
    | inr e ↦
        let told : Listeners D = record s {
          log = log_ack a now (telemetry_snapshot s.telemetry_configurator) s.log;
          telemetry_configurator = telemetry_on_command_ack a now s.telemetry_configurator;
        } in
        ground (
          arith,
          forward-Alone (map_flight_action a.command) a now told,
          telemetry-keeps a now s.telemetry_configurator,
        )
  ]

module _ {D : Type 0} ⦃d : Doubles D⦄ where
  -- What a start needs.
  abbrev pub Startable : TimePoint → Companion D → Type 0
  Startable now s =
      let vehicle = (vehicle_snapshot now s.vehicle_state).1 in
      (s.motion_commands_allowed ≡ true)
      × (s.autonomy_scenario_configured ≡ true)
      × (vehicle.connected ≡ true)
      × (is_some vehicle.system_id ≡ true)
      × (vehicle.armed ≡ false)
      × (startup_finished s.flight_startup.phase ≡ true)
      × (autonomy_finished s.autonomy_runtime.phase ≡ true)

  -- A request starts the flight exactly if motion is allowed, the scenario configured, the vehicle
  -- connected, known and not armed, and both the startup and the runtime have finished. Then both are
  -- restarted; otherwise both are left as they are.
  pub request_autonomy_start_iff :
      (now : TimePoint) (s : Companion D)
      → let (started, s') = request_autonomy_start now s in
        ((started ≡ true) ↔ Startable now s)
        × (s'.flight_startup
            ≡ (if started then restart_startup s.flight_startup else s.flight_startup))
        × (s'.autonomy_runtime
            ≡ (if started then restart_runtime s.autonomy_runtime else s.autonomy_runtime))
  unfolding request_autonomy_start start_from
  request_autonomy_start_iff now s = ground arith
