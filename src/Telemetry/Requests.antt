-- ===== src/Telemetry/Requests.antt =====
-- adapters/mavlink/TelemetryStreamConfigurator: the requests that it sends, and what an
-- acknowledgement does.
use companion_lab.Prelude.{
  ℕ, ◌+◌, ◌-◌, ◌≤◌, ◌≡◌, refl, ◌≢◌, ◌↔◌, ◌⊎◌, inl, inr, Bool, true, false, Option, none, some,
  arith, ==_iff, Bool-cases,
}
use companion_lab.Prelude.Time.{TimePoint, seconds}
use companion_lab.Prelude.Text.{Bytes}
use companion_lab.Mavlink.{Mavlink, CommandAck}
use companion_lab.Telemetry.{
  configuring, active, failed, TelemetryStreamConfigurator, StreamRequest, reset, begin, meet,
  is_configuring, Updated, stream_request, request_bytes, send, request, update, is_awaited,
  on_command_ack,
}
use companion_lab.Telemetry.Invariant.{Inv, meet-Inv, stream_request_total}

module _ ⦃m : Mavlink⦄ where
  -- What stands behind the bytes that an update sends.
  pub record IsRequest (vehicle : ℕ) (now : TimePoint) (c c' : TelemetryStreamConfigurator)
      (frame : Bytes) : Type 0 where
    pub phase : c'.phase ≡ configuring
    pub addressee : c'.vehicle_system_id ≡ some vehicle
    pub stream :
        (r : StreamRequest) × (stream_request c'.current_request ≡ some r)
        × (frame ≡ request_bytes vehicle r (c'.attempt - 1))
    pub attempt : (1 ≤ c'.attempt) × (c'.attempt ≤ 3)
    pub awaited : (c'.awaiting_ack ≡ true) × (c'.acknowledgement_deadline ≡ now + seconds 2)
    pub due :
        (c.vehicle_system_id ≢ some vehicle)
        ⊎ (c.awaiting_ack ≡ false)
        ⊎ (c.acknowledgement_deadline ≤ now)

  -- Bytes are sent only to a connected vehicle with a known id, as a request.
  abbrev pub Asks : Bool → Option ℕ → TimePoint → TelemetryStreamConfigurator → Updated → Type 0
  Asks connected id now c none = ⊥
  Asks connected id now c (some (c', none)) = Unit
  Asks connected id now c (some (c', some frame)) =
      (connected ≡ true) × (vehicle : ℕ) × (id ≡ some vehicle) × IsRequest vehicle now c c' frame

  -- The same for the object that the vehicle's id leaves.
  abbrev Sends : ℕ → TimePoint → TelemetryStreamConfigurator → Updated → Type 0
  Sends vehicle now c none = ⊥
  Sends vehicle now c (some (c', none)) = Unit
  Sends vehicle now c (some (c', some frame)) = IsRequest vehicle now c c' frame

  request-Sends :
      (vehicle : ℕ) (now : TimePoint) (c : TelemetryStreamConfigurator)
      → Inv c
      → c.vehicle_system_id ≡ some vehicle
      → Sends vehicle now c (request now c)
  unfolding request send
  request-Sends vehicle now c v e = elim (Bool-cases (is_configuring c.phase)) [
    | inl k ↦ ground (arith, stream_request_total c.current_request)
    | inr k ↦ ground arith
  ]

  met :
      (vehicle : ℕ) (c : TelemetryStreamConfigurator)
      → (meet vehicle c).vehicle_system_id ≡ some vehicle
  unfolding meet begin
  met vehicle c = ground arith

  Sends-Asks :
      (vehicle : ℕ) (now : TimePoint) (c : TelemetryStreamConfigurator) (u : Updated)
      → Sends vehicle now (meet vehicle c) u
      → Asks true (some vehicle) now c u
  unfolding meet begin reset
  Sends-Asks vehicle now c none h = h
  Sends-Asks vehicle now c (some (c', none)) h = tt
  Sends-Asks vehicle now c (some (c', some frame)) h = (
    refl,
    vehicle,
    refl,
    record {
      phase = h.phase;
      addressee = h.addressee;
      stream = h.stream;
      attempt = h.attempt;
      awaited = h.awaited;
      due = ground (arith, h.due);
    },
  )

  -- An update sends bytes only to a connected vehicle with a known id, and they ask that vehicle for
  -- the stream whose turn it is, with the number of the attempt, of which there are at most three.
  -- The acknowledgement is then awaited for two seconds, and no request is sent to the same vehicle
  -- while an earlier one may still be acknowledged.
  pub update-Asks :
      (connected : Bool) (id : Option ℕ) (now : TimePoint) (c : TelemetryStreamConfigurator)
      → Inv c
      → Asks connected id now c (update connected id now c)
  unfolding update
  update-Asks connected none now c v = tt
  update-Asks false (some vehicle) now c v = tt
  update-Asks true (some vehicle) now c v =
      Sends-Asks vehicle now c (request now (meet vehicle c))
        (request-Sends vehicle now (meet vehicle c) (meet-Inv vehicle c v) (met vehicle c))

  -- What an acknowledgement does, by its result.
  abbrev pub Progress :
      CommandAck → TimePoint → TelemetryStreamConfigurator → TelemetryStreamConfigurator → Type 0
  Progress a now c c' =
      ((is_awaited a c ≡ false) × (c' ≡ c))
      ⊎ ((is_awaited a c ≡ true)
          × (a.result ≡ m.result_in_progress)
          × (c'.completed_requests ≡ c.completed_requests)
          × (c'.phase ≡ configuring)
          × (c'.acknowledgement_deadline ≡ now + seconds 2))
      ⊎ ((is_awaited a c ≡ true)
          × (a.result ≡ m.result_accepted)
          × (c'.completed_requests ≡ c.completed_requests + 1)
          × ((c'.phase ≡ active) ↔ (c'.completed_requests ≡ 6))
          × (c'.attempt ≡ 0))
      ⊎ ((is_awaited a c ≡ true)
          × (c'.completed_requests ≡ c.completed_requests)
          × (c'.phase ≡ failed)
          × (c'.failure_result ≡ some a.result))

  -- An acknowledgement of anything but the awaited request changes nothing. One that reports
  -- progress prolongs the wait to two seconds from now; one that accepts completes the request, and
  -- the setup becomes active exactly if that was the sixth; any other fails the setup with its
  -- result.
  pub on_command_ack-Progress :
      (a : CommandAck) (now : TimePoint) (c : TelemetryStreamConfigurator)
      → Inv c
      → Progress a now c (on_command_ack a now c)
  unfolding on_command_ack is_awaited
  on_command_ack-Progress a now c v = ground arith

  abbrev pub Fails : Updated → Type 0
  Fails none = ⊥
  Fails (some (c', frame)) = (c'.phase ≡ failed) × (frame ≡ none)

  -- The third request that stays unanswered for its time fails the setup: the vehicle is not asked a
  -- fourth time.
  pub update-Fails :
      (vehicle : ℕ) (now : TimePoint) (c : TelemetryStreamConfigurator)
      → c.phase ≡ configuring
      → c.vehicle_system_id ≡ some vehicle
      → c.awaiting_ack ≡ true
      → c.acknowledgement_deadline ≤ now
      → 3 ≤ c.attempt
      → Fails (update true (some vehicle) now c)
  unfolding update request meet
  update-Fails vehicle now c p e w late n = ground (arith, ==_iff vehicle vehicle)
