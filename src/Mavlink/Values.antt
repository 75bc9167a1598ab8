-- ===== src/Mavlink/Values.antt =====
-- adapters/mavlink/MavlinkDecoder: the values that the decoder computes from payloads.
use companion_lab.Prelude.{
  ℕ, ◌/◌, ◌%◌, Bool, true, false, not, ◌&&◌, Option, none, some, List, [], ◌∷◌, ltb, ◌==◌,
  if◌then◌else◌,
}
use companion_lab.Prelude.Int.{ℤ, pos, negsuc}
use companion_lab.Prelude.Text.{Bytes}
use companion_lab.Prelude.Doubles.{Doubles}
use companion_lab.Mavlink.Messages.{BatteryStatus, SysStatus, AutopilotVersion}
use companion_lab.Vehicle.{AutopilotMetadata}

module _ {D : Type 0} ⦃d : Doubles D⦄ where
  -- The lambda `add_voltage` on the two variables that it captures.
  unfoldable pub add_voltage : ℕ → D × Bool → D × Bool
  add_voltage millivolts (total_voltage, has_voltage) =
      if ltb 0 millivolts && not (millivolts == 0xffff)
      then (d.add total_voltage (d.div (d.of_int (pos millivolts)) (d.of_decimal 1000 0)), true)
      else (total_voltage, has_voltage)

  unfoldable pub add_voltages : List ℕ → D × Bool → D × Bool
  add_voltages [] sum = sum
  add_voltages (v ∷ vs) sum = add_voltages vs (add_voltage v sum)

  abbrev pub total_of : D × Bool → Option D
  total_of (total_voltage, true) = some total_voltage
  total_of (total_voltage, false) = none

  unfoldable pub battery_voltage : BatteryStatus → Option D
  battery_voltage battery =
      total_of (
        add_voltages battery.voltages_ext (add_voltages battery.voltages (d.of_decimal 0 0, false)))

  unfoldable pub current_from_centiampere : ℤ → Option D
  current_from_centiampere (pos n) = some (d.div (d.of_int (pos n)) (d.of_decimal 100 0))
  current_from_centiampere (negsuc n) = none

  -- The voltage of a SYS_STATUS.
  unfoldable pub system_voltage : SysStatus → Option D
  system_voltage s =
      if ltb 0 s.voltage_battery
      then some (d.div (d.of_int (pos s.voltage_battery)) (d.of_decimal 1000 0))
      else none

unfoldable pub remaining_percent : ℤ → Option ℤ
remaining_percent (pos n) = some (pos n)
remaining_percent (negsuc n) = none

-- The characters of an array up to the first zero, or all of them: `status_text` and `parameter_id`.
unfoldable pub text_of : Bytes → Bytes
text_of [] = []
text_of (c ∷ cs) = if c == 0 then [] else c ∷ text_of cs

unfoldable pub metadata_of : AutopilotVersion → AutopilotMetadata
metadata_of v = record {
  firmware_major = (v.flight_sw_version / 0x100_0000) % 256;
  firmware_minor = (v.flight_sw_version / 0x1_0000) % 256;
  firmware_patch = (v.flight_sw_version / 0x100) % 256;
  firmware_release_type = v.flight_sw_version % 256;
  capabilities = v.capabilities;
  board_version = v.board_version;
  vendor_id = v.vendor_id;
  product_id = v.product_id;
}
