-- ===== src/Application/Asking.antt =====
-- application/CompanionApplication: what a poll asks of the vehicle keeps the invariant.
use companion_lab.Prelude.{
  ℕ, zero, suc, ◌+◌, ◌<◌, ◌≡◌, refl, Bool, true, false, not, ◌&&◌, Option, none, some, String,
  arith, leb, Bool-cases, inl, inr,
}
use companion_lab.Prelude.Time.{TimePoint}
use companion_lab.Prelude.Text.{Bytes, bytes}
use companion_lab.Prelude.Doubles.{Doubles}
use companion_lab.Prelude.Outcomes.{Outcome, ok, threw, fault, defined, ◌>>=◌}
use companion_lab.Mavlink.{Mavlink}
use companion_lab.Mavlink.Encoder.{
  encode_companion_heartbeat, encode_parameter_request_read, encode_battery_arming_voltage_request,
  encode_autopilot_version_request,
}
use companion_lab.Vehicle.Snapshot.{VehicleSnapshot}
use companion_lab.Telemetry.{update as telemetry_update}
use companion_lab.Telemetry.Invariant.{Inv as TelemetryInv, update-Inv as telemetry_update-Inv}
use companion_lab.Application.{LinkLog}
use companion_lab.Application.Frames.{
  Transport, Breaks, Written, Ends, write_frame, write_frame-Ends,
}
use companion_lab.Application.Members.{Impl, parameter_name, announce, deliver}
use companion_lab.Application.Requests.{
  ask, beat_now, beat, set_up, set_up_telemetry, advance, read_parameter, ask_failsafe_parameter,
  ask_version, read_battery_parameter, ask_battery_parameter,
}
use companion_lab.Application.Invariant.{Inv}
use companion_lab.Application.Parts.{Contained, Contained-bind, Safe-Contained, updated-Safe}

module _ ⦃m : Mavlink⦄ where
  -- The table has a name at every index below four, and the encoder takes each of them.
  Named : ℕ → ℕ → Type 0
  Named system i =
      (name : String) × (frame : Bytes) × (parameter_name i ≡ some name)
      × (encode_parameter_request_read system (bytes name) ≡ some frame)

  named : (system i : ℕ) → i < 4 → Named system i
  unfolding Named parameter_name encode_parameter_request_read
  named system zero h = ("FS_GCS_ENABLE", _, refl, refl)
  named system (suc zero) h = ("FS_GCS_TIMEOUT", _, refl, refl)
  named system (suc (suc zero)) h = ("FS_OPTIONS", _, refl, refl)
  named system (suc (suc (suc zero))) h = ("SYSID_MYGCS", _, refl, refl)
  named system (suc (suc (suc (suc i)))) h = absurd (omega arith)

module _ {T P D : Type 0} ⦃d : Doubles D⦄ where
  advance-Inv : (now : TimePoint) (s : Impl T P D) → Inv s → Inv (advance now s)
  unfolding advance
  advance-Inv now s v = elim (Bool-cases (leb 4 (s.failsafe_parameter_index + 1))) [
    | inl e ↦ rw e (v.0, v.1, v.2, omega arith)
    | inr e ↦ rw e (v.0, v.1, v.2, ground arith)
  ]

module _ {T P D : Type 0} ⦃m : Mavlink⦄ ⦃d : Doubles D⦄ (port : Transport T) where
  delivered-Inv :
      (s : Impl T P D) (o : Outcome (Written T × LinkLog))
      → Ends port o
      → Inv s
      → Contained
          (Breaks port)
          (λ (p : Bool × Impl T P D). Inv p.1)
          (o >>= λ w. ok (w.0.0, record s { transport = w.0.1; log = w.1 }))
  delivered-Inv s fault h v = h
  delivered-Inv s (threw text) h v = inr (h.0, inr h.1)
  delivered-Inv s (ok w) h v = v

  pub deliver-Inv :
      (frame : Bytes) (now : TimePoint) (name detail : String) (s : Impl T P D)
      → Inv s
      → Contained (Breaks port) (λ p. Inv p.1) (deliver port frame now name detail s)
  unfolding deliver
  deliver-Inv frame now name detail s v =
      delivered-Inv s (write_frame port frame now name detail s.transport s.log)
        (write_frame-Ends port frame now name detail s.transport s.log) v

  pub ask-Inv :
      (frame : Bytes) (now : TimePoint) (name activity label detail : String) (s : Impl T P D)
      → Inv s
      → Contained (Breaks port) Inv (ask port frame now name activity label detail s)
  unfolding ask announce
  ask-Inv frame now name activity label detail s v =
      Contained-bind (Breaks port) (λ p. Inv p.1) Inv (deliver port frame now name activity s) _
        (deliver-Inv frame now name activity s v) (λ p w. w)

  beat_now-Inv :
      (connected : Bool) (o : Option ℕ) (now : TimePoint) (s : Impl T P D)
      → Inv s
      → Contained (Breaks port) Inv (beat_now port connected o now s)
  unfolding beat_now
  beat_now-Inv connected none now s v = v
  beat_now-Inv false (some system) now s v = v
  beat_now-Inv true (some system) now s v =
      Contained-bind (Breaks port) (λ p. Inv p.1) Inv
        (deliver port (encode_companion_heartbeat system) now "HEARTBEAT" "" s) _
        (deliver-Inv (encode_companion_heartbeat system) now "HEARTBEAT" "" s v) (λ p w. w)

  pub beat-Inv :
      (vehicle : VehicleSnapshot D) (now : TimePoint) (s : Impl T P D)
      → Inv s
      → Contained (Breaks port) Inv (beat port vehicle now s)
  unfolding beat
  beat-Inv vehicle now s v = elim (Bool-cases (leb s.next_heartbeat now)) [
    | inl e ↦ rw e (
        Contained-bind (Breaks port) Inv Inv
          (beat_now port vehicle.connected vehicle.system_id now s) _
          (beat_now-Inv vehicle.connected vehicle.system_id now s v) (λ t w. w))
    | inr e ↦ rw e v
  ]

  set_up-Inv :
      (frame : Option Bytes) (now : TimePoint) (s : Impl T P D)
      → Inv s
      → Contained (Breaks port) Inv (set_up port frame now s)
  set_up-Inv none now s v = v
  set_up-Inv (some frame) now s v = ask-Inv frame now _ _ _ _ s v

  pub set_up_telemetry-Inv :
      (vehicle : VehicleSnapshot D) (now : TimePoint) (s : Impl T P D)
      → Inv s
      → Contained (Breaks port) Inv (set_up_telemetry port vehicle now s)
  unfolding set_up_telemetry
  set_up_telemetry-Inv vehicle now s v =
      let u = telemetry_update vehicle.connected vehicle.system_id now s.telemetry_configurator in
      Contained-bind (Breaks port) (λ a. TelemetryInv a.0) Inv (defined u) _
        (Safe-Contained (Breaks port) _ (defined u) (
          updated-Safe u (
            telemetry_update-Inv vehicle.connected vehicle.system_id now s.telemetry_configurator
              v.0.telemetry)))
        λ a w. set_up-Inv a.1 now _ (
          record {
            telemetry = w;
            startup = v.0.startup;
            runtime = v.0.runtime;
            failsafe = v.0.failsafe;
          },
          v.1,
          v.2,
          v.3,
        )

  pub read_parameter-Inv :
      (system : ℕ) (now : TimePoint) (s : Impl T P D)
      → Inv s
      → Contained (Breaks port) Inv (read_parameter port system now s)
  unfolding read_parameter Named
  read_parameter-Inv system now s v =
      let (name, frame, e, f) = named system s.failsafe_parameter_index v.3 in
      rw (e, f)
        (Contained-bind (Breaks port) Inv Inv
          (ask port frame now "PARAM_REQUEST_READ" name "PARAM READ" name s) _
          (ask-Inv frame now "PARAM_REQUEST_READ" name "PARAM READ" name s v)
          (λ t w. advance-Inv now t w))

  pub ask_failsafe_parameter-Inv :
      (ready : Bool) (o : Option ℕ) (now : TimePoint) (s : Impl T P D)
      → Inv s
      → Contained (Breaks port) Inv (ask_failsafe_parameter port ready o now s)
  unfolding ask_failsafe_parameter
  ask_failsafe_parameter-Inv ready none now s v = v
  ask_failsafe_parameter-Inv ready (some system) now s v =
      elim (Bool-cases (ready && leb s.next_failsafe_parameter_request now)) [
        | inl e ↦ rw e (read_parameter-Inv system now s v)
        | inr e ↦ rw e v
      ]

  pub ask_version-Inv :
      (ready known : Bool) (o : Option ℕ) (now : TimePoint) (s : Impl T P D)
      → Inv s
      → Contained (Breaks port) Inv (ask_version port ready known o now s)
  unfolding ask_version
  ask_version-Inv ready known none now s v = v
  ask_version-Inv ready known (some system) now s v =
      elim (Bool-cases (ready && (not known && leb s.next_autopilot_version_request now))) [
        | inl e ↦ rw e (ask-Inv (encode_autopilot_version_request system) now _ _ _ _ _ v)
        | inr e ↦ rw e v
      ]

  read_battery_parameter-Inv :
      (system : ℕ) (now : TimePoint) (s : Impl T P D)
      → Inv s
      → Contained (Breaks port) Inv (read_battery_parameter port system now s)
  unfolding read_battery_parameter encode_battery_arming_voltage_request
  read_battery_parameter-Inv system now s v = ask-Inv _ now _ _ _ _ _ v

  pub ask_battery_parameter-Inv :
      (ready known : Bool) (o : Option ℕ) (now : TimePoint) (s : Impl T P D)
      → Inv s
      → Contained (Breaks port) Inv (ask_battery_parameter port ready known o now s)
  unfolding ask_battery_parameter
  ask_battery_parameter-Inv ready known none now s v = v
  ask_battery_parameter-Inv ready known (some system) now s v =
      elim (Bool-cases (ready && (not known && leb s.next_battery_parameter_request now))) [
        | inl e ↦ rw e (read_battery_parameter-Inv system now s v)
        | inr e ↦ rw e v
      ]
