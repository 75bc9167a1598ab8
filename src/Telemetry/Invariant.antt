-- ===== src/Telemetry/Invariant.antt =====
-- adapters/mavlink/TelemetryStreamConfigurator: what holds after any calls.
use companion_lab.Prelude.{
  ℕ, zero, suc, ◌≤◌, ◌<◌, ◌≡◌, refl, ◌↔◌, inl, inr, Bool, true, false, Option, none, some, List, [],
  ◌∷◌, arith, Bool-cases, Option-cases, is_some,
}
use companion_lab.Prelude.Time.{TimePoint}
use companion_lab.Prelude.Text.{bytes}
use companion_lab.Mavlink.{Mavlink, CommandAck}
use companion_lab.Telemetry.{
  waiting_for_vehicle, configuring, active, failed, TelemetryStreamConfigurator, StreamRequest,
  reset, begin, meet, is_configuring, Updated, stream_request, send, request, update, is_awaited,
  on_command_ack,
}

pub record Inv (c : TelemetryStreamConfigurator) : Type 0 where
  pub counted : c.completed_requests ≡ c.current_request
  pub attempts : c.attempt ≤ 3
  pub awaited : c.awaiting_ack ≡ true → 1 ≤ c.attempt
  pub unasked : c.phase ≡ configuring → c.awaiting_ack ≡ false → c.attempt ≡ 0
  pub bounded : c.current_request ≤ 6
  pub configured : c.phase ≡ configuring → c.current_request < 6
  pub finished : c.phase ≡ active → (c.current_request ≡ 6) × (c.awaiting_ack ≡ false)
  pub idle : (c.phase ≡ waiting_for_vehicle) ↔ (c.vehicle_system_id ≡ none)
  pub failure : is_some c.failure_result ≡ true → c.phase ≡ failed

pub reset-Inv : Inv reset
unfolding reset
reset-Inv = ground arith

pub meet-Inv : (vehicle : ℕ) (c : TelemetryStreamConfigurator) → Inv c → Inv (meet vehicle c)
unfolding meet begin reset
meet-Inv vehicle c v = ground arith

-- The call returns, and the invariant holds after it.
abbrev pub Returns : Updated → Type 0
Returns none = ⊥
Returns (some (c, bytes)) = Inv c

module _ ⦃m : Mavlink⦄ where
  pub stream_request_total : (i : ℕ) → i < 6 → (r : StreamRequest) × (stream_request i ≡ some r)
  unfolding stream_request
  stream_request_total zero h = (_, refl)
  stream_request_total (suc zero) h = (_, refl)
  stream_request_total (suc (suc zero)) h = (_, refl)
  stream_request_total (suc (suc (suc zero))) h = (_, refl)
  stream_request_total (suc (suc (suc (suc zero)))) h = (_, refl)
  stream_request_total (suc (suc (suc (suc (suc zero))))) h = (_, refl)
  stream_request_total (suc (suc (suc (suc (suc (suc i)))))) h = absurd (omega arith)

  request-Inv :
      (now : TimePoint) (c : TelemetryStreamConfigurator) → Inv c → Returns (request now c)
  unfolding request send
  request-Inv now c v = elim (Bool-cases (is_configuring c.phase)) [
    | inl e ↦
        ground (arith, Option-cases c.vehicle_system_id, stream_request_total c.current_request)
    | inr e ↦ ground arith
  ]

  pub update-Inv :
      (connected : Bool) (id : Option ℕ) (now : TimePoint) (c : TelemetryStreamConfigurator)
      → Inv c
      → Returns (update connected id now c)
  unfolding update
  update-Inv connected none now c v = reset-Inv
  update-Inv false (some vehicle) now c v = reset-Inv
  update-Inv true (some vehicle) now c v = request-Inv now (meet vehicle c) (meet-Inv vehicle c v)

  pub on_command_ack-Inv :
      (a : CommandAck) (now : TimePoint) (c : TelemetryStreamConfigurator)
      → Inv c
      → Inv (on_command_ack a now c)
  unfolding on_command_ack is_awaited
  on_command_ack-Inv a now c v = ground arith

pub data Event : Type 0 where
  updated : Bool → Option ℕ → TimePoint → Event
  acknowledged : CommandAck → TimePoint → Event

module _ ⦃m : Mavlink⦄ where
  state : Updated → Option TelemetryStreamConfigurator
  state none = none
  state (some (c, bytes)) = some c

  -- One call on the object; `none` is an exception.
  pub step : TelemetryStreamConfigurator → Event → Option TelemetryStreamConfigurator
  unfolding state
  step c (Event.updated connected id now) = state (update connected id now c)
  step c (Event.acknowledged a now) = some (on_command_ack a now c)

  pub run : Option TelemetryStreamConfigurator → List Event → Option TelemetryStreamConfigurator
  run none es = none
  run (some c) [] = some c
  run (some c) (e ∷ es) = run (step c e) es

  abbrev pub Sound : Option TelemetryStreamConfigurator → Type 0
  Sound none = ⊥
  Sound (some c) = Inv c

  state-Sound : (u : Updated) → Returns u → Sound (state u)
  unfolding state
  state-Sound none k = k
  state-Sound (some (c, bytes)) k = k

  step-Sound : (c : TelemetryStreamConfigurator) (e : Event) → Inv c → Sound (step c e)
  unfolding step
  step-Sound c (Event.updated connected id now) v =
      state-Sound (update connected id now c) (update-Inv connected id now c v)
  step-Sound c (Event.acknowledged a now) v = on_command_ack-Inv a now c v

  run-Sound :
      (o : Option TelemetryStreamConfigurator) (es : List Event) → Sound o → Sound (run o es)
  unfolding run
  run-Sound none es v = v
  run-Sound (some c) [] v = v
  run-Sound (some c) (e ∷ es) v = run-Sound (step c e) es (step-Sound c e v)

  -- Whatever calls a new object gets, none of them looks for a stream that the table does not have,
  -- and the invariant holds after each: no request is tried more than three times, and the setup is
  -- active only with all six streams acknowledged and no request open.
  pub telemetry_run-Sound : (es : List Event) → Sound (run (some reset) es)
  telemetry_run-Sound es = run-Sound (some reset) es reset-Inv
