-- ===== src/Application/Invariant.antt =====
-- application/CompanionApplication: the invariant of its members, and that received messages keep it.
use companion_lab.Prelude.{◌<◌, not, Option, none, some, [], ◌∷◌, ◌==◌, Bool-cases, inl, inr}
use companion_lab.Prelude.Time.{TimePoint}
use companion_lab.Prelude.Text.{Bytes, bytes, bytes_eq}
use companion_lab.Prelude.Doubles.{Doubles}
use companion_lab.Mavlink.{Mavlink, CommandAck}
use companion_lab.Mavlink.Messages.{Messages, Framing}
use companion_lab.Mavlink.Decoder.{
  Handlers, Sinks, MessageObservation, ParameterValue, Label, heartbeat, gps_raw_int,
  global_position_int, local_position_ned, attitude, battery_status, sys_status, autopilot_version,
  param_value, statustext, command_ack, other, label_of, handle, handle_message, receive, ingest,
  call, parameter_of, acknowledgement_of, observation_of,
}
use companion_lab.Flight.{FlightAction}
use companion_lab.Failsafe.{CompanionLinkFailsafe}
use companion_lab.Failsafe.Invariant.{
  Inv as FailsafeInv, on_parameter-Inv as failsafe-on_parameter-Inv,
}
use companion_lab.Telemetry.{TelemetryStreamConfigurator}
use companion_lab.Telemetry.Invariant.{
  Inv as TelemetryInv, on_command_ack-Inv as telemetry-on_command_ack-Inv,
}
use companion_lab.Startup.{FlightStartupController}
use companion_lab.Startup.Invariant.{
  Inv as StartupInv, on_command_ack-Inv as startup-on_command_ack-Inv,
}
use companion_lab.Runtime.{AutonomyRuntime}
use companion_lab.Runtime.Invariant.{
  Inv as RuntimeInv, on_command_ack-Inv as runtime-on_command_ack-Inv,
}
use companion_lab.Camera.{CameraMonitor}
use companion_lab.Camera.Conservation.{VisionSound}
use companion_lab.Transform.{CameraExtrinsics}
use companion_lab.Transform.Rigid.{IsRigid}
use companion_lab.Application.Acks.{
  Listeners, map_flight_action, map_ack_outcome, forward, on_command_ack, is_for_companion,
}
use companion_lab.Application.Members.{Client, Impl, handlers, on_message, on_parameter}

module _ {D : Type 0} ⦃d : Doubles D⦄ where
  -- The components that received messages change satisfy their invariants.
  pub record Holds (t : TelemetryStreamConfigurator) (u : FlightStartupController D)
      (r : AutonomyRuntime D) (f : CompanionLinkFailsafe D) : Type 0 where
    pub telemetry : TelemetryInv t
    pub startup : StartupInv u
    pub runtime : RuntimeInv r
    pub failsafe : FailsafeInv f

  abbrev pub ClientInv : Client D → Type 0
  ClientInv c =
      Holds c.listeners.telemetry_configurator c.listeners.flight_startup
        c.listeners.autonomy_runtime c.companion_link_failsafe

  -- A tracker, if there is a camera with a detector, satisfies its invariant.
  abbrev pub CameraSound : Option (CameraMonitor D) → Type 0
  CameraSound none = Unit
  CameraSound (some c) = VisionSound c.vision_monitor

  abbrev pub RigidIfAny : Option (CameraExtrinsics D) → Type 0
  RigidIfAny none = Unit
  RigidIfAny (some e) = IsRigid e

  -- The invariant of the application: those of its components, rigid extrinsics if there are any, and
  -- an index within the table of parameter names.
  abbrev pub Inv : {T P : Type 0} → Impl T P D → Type 0
  Inv s =
      Holds s.telemetry_configurator s.flight_startup s.autonomy_runtime s.companion_link_failsafe
      × CameraSound s.camera_monitor
      × RigidIfAny s.camera_extrinsics
      × (s.failsafe_parameter_index < 4)

module _ {D : Type 0} ⦃m : Mavlink⦄ ⦃d : Doubles D⦄ where
  ListenersInv : Listeners D → Type 0
  ListenersInv l =
      StartupInv l.flight_startup
      × RuntimeInv l.autonomy_runtime
      × TelemetryInv l.telemetry_configurator

  forward-Inv :
      (o : Option FlightAction) (a : CommandAck) (now : TimePoint) (l : Listeners D)
      → ListenersInv l
      → ListenersInv (forward o a now l)
  unfolding ListenersInv forward
  forward-Inv none a now l v = v
  forward-Inv (some action) a now l v = elim (Bool-cases (not (is_for_companion a))) [
    | inl e ↦ rw e v
    | inr e ↦ rw e (
      startup-on_command_ack-Inv action (map_ack_outcome a.result) a.result a.source_system now
          l.flight_startup v.0,
      runtime-on_command_ack-Inv action (map_ack_outcome a.result) a.result a.source_system now
          l.autonomy_runtime v.1,
      v.2,
    )
  ]

  on_command_ack-Inv :
      (a : CommandAck) (now : TimePoint) (l : Listeners D)
      → ListenersInv l
      → ListenersInv (on_command_ack a now l)
  unfolding on_command_ack ListenersInv
  on_command_ack-Inv a now l v =
      forward-Inv (map_flight_action a.command) a now _
        (v.0, v.1, telemetry-on_command_ack-Inv a now l.telemetry_configurator v.2)

  -- The handlers keep the invariants.
  pub record Keeps (h : Handlers (Client D) D) : Type 0 where
    pub acknowledged :
        (a : CommandAck) (now : TimePoint) (c : Client D)
        → ClientInv c
        → ClientInv (call h.command_ack_handler a now c)
    pub observed :
        (o : MessageObservation) (now : TimePoint) (c : Client D)
        → ClientInv c
        → ClientInv (call h.message_handler o now c)
    pub parameter :
        (p : ParameterValue D) (now : TimePoint) (c : Client D)
        → ClientInv c
        → ClientInv (call h.parameter_value_handler p now c)

  pub handlers-Keeps : Keeps handlers
  unfolding handlers on_message on_parameter ListenersInv
  handlers-Keeps = record {
    acknowledged = λ a now c v.
        let w = on_command_ack-Inv a now c.listeners (v.startup, v.runtime, v.telemetry) in
        record { telemetry = w.2; startup = w.0; runtime = w.1; failsafe = v.failsafe };
    observed = λ o now c v. record {
      telemetry = v.telemetry;
      startup = v.startup;
      runtime = v.runtime;
      failsafe = v.failsafe;
    };
    parameter = λ p now c v. record {
      telemetry = v.telemetry;
      startup = v.startup;
      runtime = v.runtime;
      failsafe =
          failsafe-on_parameter-Inv p.source_system p.source_component _ p.value
            c.companion_link_failsafe v.failsafe;
    };
  }

module _ {M D : Type 0} ⦃m : Mavlink⦄ ⦃d : Doubles D⦄ (lib : Messages M D)
    (h : Handlers (Client D) D) (keeps : Keeps h) where
  handle-ClientInv :
      (l : Label) (message : M) (now : TimePoint) (s : Sinks (Client D) D)
      → ClientInv s.client
      → ClientInv (handle lib h l message now s).client
  unfolding handle
  handle-ClientInv heartbeat message now s v =
      elim (Bool-cases ((lib.heartbeat message).autopilot == m.autopilot_invalid)) [
        | inl e ↦ rw e v
        | inr e ↦ rw e v
      ]
  handle-ClientInv autopilot_version message now s v =
      elim (Bool-cases (not (lib.compid message == m.comp_id_autopilot1))) [
        | inl e ↦ rw e v
        | inr e ↦ rw e v
      ]
  handle-ClientInv param_value message now s v =
      elim (Bool-cases (bytes_eq (parameter_of lib message).id (bytes "BATT_ARM_VOLT"))) [
        | inl e ↦ rw e (keeps.parameter (parameter_of lib message) now s.client v)
        | inr e ↦ rw e (keeps.parameter (parameter_of lib message) now s.client v)
      ]
  handle-ClientInv command_ack message now s v =
      keeps.acknowledged (acknowledgement_of lib message) now s.client v
  handle-ClientInv gps_raw_int message now s v = v
  handle-ClientInv global_position_int message now s v = v
  handle-ClientInv local_position_ned message now s v = v
  handle-ClientInv attitude message now s v = v
  handle-ClientInv battery_status message now s v = v
  handle-ClientInv sys_status message now s v = v
  handle-ClientInv statustext message now s v = v
  handle-ClientInv other message now s v = v

  receive-ClientInv :
      {P : Type 0} (framing : Framing P M) (o : Option M) (now : TimePoint) (s : Sinks (Client D) D)
      → ClientInv s.client
      → ClientInv (receive framing lib h o now s).client
  unfolding receive handle_message
  receive-ClientInv framing none now s v = v
  receive-ClientInv framing (some message) now s v =
      handle-ClientInv (label_of lib (lib.msgid message)) message now _
        (keeps.observed (observation_of lib message) now s.client v)

  -- Whatever bytes are received, the invariants of the components hold after them.
  pub ingest-ClientInv :
      {P : Type 0} (framing : Framing P M) (bs : Bytes) (now : TimePoint) (p : P)
      (s : Sinks (Client D) D)
      → ClientInv s.client
      → ClientInv (ingest framing lib h bs now (p, s)).1.client
  unfolding ingest
  ingest-ClientInv framing [] now p s v = v
  ingest-ClientInv framing (b ∷ bs) now p s v =
      let (p', message) = framing.frame_char p b in
      ingest-ClientInv framing bs now p' (receive framing lib h message now s)
        (receive-ClientInv framing message now s v)
