-- ===== src/Mavlink/Tests.antt =====
-- adapters/mavlink: the theorems at concrete inputs.
use companion_lab.Prelude.{ℕ, ◌+◌, ◌≢◌, none, some, [], ◌∷◌, arith, inl, All}
use companion_lab.Prelude.Text.{Bytes, bytes}
use companion_lab.Prelude.Time.{seconds}
use companion_lab.Examples.{dialect, thousandths, one_byte, messages}
use companion_lab.Vehicle.{initial}
use companion_lab.Mavlink.Encoder.{encode_parameter_request_read}
use companion_lab.Mavlink.Decoder.{Handlers, Sinks, ingest}
use companion_lab.Mavlink.Decoder.Payloads.{Requests, encode_parameter_request_read-Requests}
use companion_lab.Mavlink.Decoder.Dispatch.{SameIdentity, ingest-SameIdentity}

abbrev options_id : Bytes
options_id = bytes "FS_OPTIONS"

options_id-nonzero : All (λ c. c ≢ 0) options_id
options_id-nonzero = ground arith

encode_parameter_request_read-Requests_example :
    Requests 1 options_id (encode_parameter_request_read 1 options_id)
encode_parameter_request_read-Requests_example =
    encode_parameter_request_read-Requests 1 options_id options_id-nonzero

-- Counts the messages.
abbrev counting : Handlers ℕ ℕ
counting = record {
  command_ack_handler = none;
  message_handler = some (λ o now n. n + 1);
  parameter_value_handler = none;
}

abbrev sinks : Sinks ℕ ℕ
sinks = record { vehicle = initial ℕ; client = 0 }

-- A fix, an attitude and a battery.
ingest-SameIdentity_example :
    SameIdentity
      (ingest one_byte messages counting (24 ∷ 30 ∷ 147 ∷ []) (seconds 1) (tt, sinks)).1.vehicle
      (initial ℕ)
ingest-SameIdentity_example =
    ingest-SameIdentity one_byte messages counting (24 ∷ 30 ∷ 147 ∷ []) (seconds 1) tt sinks
      (inl (omega arith), (inl (omega arith), (inl (omega arith), tt)))
