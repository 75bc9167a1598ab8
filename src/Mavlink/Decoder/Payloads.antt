-- ===== src/Mavlink/Decoder/Payloads.antt =====
-- adapters/mavlink/MavlinkDecoder: what the values computed from payloads are.
use companion_lab.Prelude.{
  ℕ, ◌+◌, ◌*◌, zero, suc, ◌<◌, ◌≤◌, ap, ◌||◌, ◌≡◌, refl, Bool, true, false, not, ◌&&◌, Option, none,
  some, List, [], ◌∷◌, arith, ltb, ◌==◌, if◌then◌else◌, length, Bool-cases, ◌≢◌, ◌⊎◌, All, inl, inr,
}
use companion_lab.Prelude.Int.{pos, negsuc}
use companion_lab.Prelude.Text.{Bytes}
use companion_lab.Prelude.Doubles.{Doubles}
use mathlib.Core.List.{◌++◌ as append}
use companion_lab.Mavlink.Messages.{BatteryStatus, AutopilotVersion}
use companion_lab.Mavlink.Values.{
  add_voltage, add_voltages, total_of, battery_voltage, text_of, metadata_of,
}
use companion_lab.Mavlink.{Mavlink, companion_component_id}
use companion_lab.Mavlink.Encoder.{pad, encode_parameter_request_read}

-- The cells that a battery has: those with a voltage that is neither zero nor the mark of an unused one.
abbrev pub used_cells : List ℕ → List ℕ
used_cells [] = []
used_cells (v ∷ vs) =
    let rest = used_cells vs in if ltb 0 v && not (v == 0xffff) then v ∷ rest else rest

module _ {D : Type 0} ⦃d : Doubles D⦄ where
  abbrev pub volts : ℕ → D
  volts v = d.div (d.of_int (pos v)) (d.of_decimal 1000 0)

  -- The volts of the cells added from the left.
  abbrev pub sum_from : D → List ℕ → D
  sum_from total [] = total
  sum_from total (v ∷ vs) = sum_from (d.add total (volts v)) vs

  abbrev pub total_or_none : List ℕ → Option D
  total_or_none [] = none
  total_or_none (v ∷ vs) = some (sum_from (d.of_decimal 0 0) (v ∷ vs))

  add_voltages-append :
      (us vs : List ℕ) (s : D × Bool)
      → add_voltages (append us vs) s ≡ add_voltages vs (add_voltages us s)
  unfolding add_voltages
  add_voltages-append [] vs s = refl
  add_voltages-append (u ∷ us) vs s = add_voltages-append us vs (add_voltage u s)

  add_voltages-true :
      (vs : List ℕ) (total : D)
      → add_voltages vs (total, true) ≡ (sum_from total (used_cells vs), true)
  unfolding add_voltages add_voltage
  add_voltages-true [] total = refl
  add_voltages-true (v ∷ vs) total = elim (Bool-cases (ltb 0 v && not (v == 0xffff))) [
    | inl e ↦ rw e (add_voltages-true vs (d.add total (volts v)))
    | inr e ↦ rw e (add_voltages-true vs total)
  ]

  total_of-add_voltages :
      (vs : List ℕ)
      → total_of (add_voltages vs (d.of_decimal 0 0, false)) ≡ total_or_none (used_cells vs)
  unfolding add_voltages add_voltage
  total_of-add_voltages [] = refl
  total_of-add_voltages (v ∷ vs) = elim (Bool-cases (ltb 0 v && not (v == 0xffff))) [
    | inl e ↦ rw e (rw (add_voltages-true vs (d.add (d.of_decimal 0 0) (volts v))))
    | inr e ↦ rw e (total_of-add_voltages vs)
  ]

  -- The voltage of a battery is unknown exactly if it uses no cell, and otherwise the sum of the cells
  -- that it uses, those of the first array before those of the second.
  pub battery_voltage-sum :
      (battery : BatteryStatus)
      → battery_voltage battery
        ≡ total_or_none (used_cells (append battery.voltages battery.voltages_ext))
  unfolding battery_voltage
  battery_voltage-sum battery =
      rw (← add_voltages-append battery.voltages battery.voltages_ext (d.of_decimal 0 0, false))
        (total_of-add_voltages (append battery.voltages battery.voltages_ext))

-- The four numbers of a version are those that its 32 bits hold one after the other.
pub metadata_of-packs :
    (v : AutopilotVersion)
    → v.flight_sw_version < 0x1_0000_0000
    → let a = metadata_of v in
      (a.firmware_major * 0x100_0000
          + a.firmware_minor * 0x1_0000
          + a.firmware_patch * 0x100
          + a.firmware_release_type
        ≡ v.flight_sw_version)
      × (a.firmware_major < 256)
      × (a.firmware_minor < 256)
      × (a.firmware_patch < 256)
      × (a.firmware_release_type < 256)
unfolding metadata_of
metadata_of-packs v h = omega arith

text_of-zeros : (n : ℕ) → text_of (pad n []) ≡ []
unfolding text_of pad
text_of-zeros zero = refl
text_of-zeros (suc n) = refl

text_of-pad : (n : ℕ) (id : Bytes) → All (λ c. c ≢ 0) id → length id ≤ n → text_of (pad n id) ≡ id
unfolding text_of pad
text_of-pad n [] h l = text_of-zeros n
text_of-pad zero (c ∷ id) h l = absurd (omega arith)
text_of-pad (suc n) (c ∷ id) h l = ground (arith, h.0, text_of-pad n id h.1)

length-pad : (n : ℕ) (id : Bytes) → length (pad n id) ≡ n
unfolding pad
length-pad zero id = refl
length-pad (suc n) [] = ap suc (length-pad n [])
length-pad (suc n) (c ∷ id) = ap suc (length-pad n id)

module _ ⦃m : Mavlink⦄ where
  -- No frame exactly for an id that is too short or too long; else a request to the autopilot of the
  -- vehicle with sixteen characters, from which the decoder reads the id again.
  abbrev pub Requests : ℕ → Bytes → Option Bytes → Type 0
  Requests vehicle id none = (length id ≡ 0) ⊎ (16 < length id)
  Requests vehicle id (some frame) =
      (array : Bytes) × (frame
        ≡ m.param_request_read vehicle companion_component_id vehicle m.comp_id_autopilot1 array
            (negsuc 0))
      × (length array ≡ 16)
      × (text_of array ≡ id)
      × (0 < length id)

  -- A request for a parameter whose id has no zero byte is refused only for an id without characters
  -- or with more than sixteen. Otherwise it asks the autopilot of the vehicle, by an array of sixteen
  -- characters from which the decoder reads the same id.
  pub encode_parameter_request_read-Requests :
      (vehicle : ℕ) (id : Bytes)
      → All (λ c. c ≢ 0) id
      → Requests vehicle id (encode_parameter_request_read vehicle id)
  unfolding encode_parameter_request_read
  encode_parameter_request_read-Requests vehicle id h =
      elim (Bool-cases (length id == 0 || ltb 16 (length id))) [
        | inl e ↦ rw e (ground arith)
        | inr e ↦
            rw e
              (pad 16 id, refl, length-pad 16 id, text_of-pad 16 id h (ground arith), ground arith)
      ]
