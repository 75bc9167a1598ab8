-- ===== src/Failsafe/Tests.antt =====
-- application/CompanionLinkFailsafe: the theorems at concrete inputs.
use companion_lab.Prelude.{
  String, ℕ, ◌≡◌, ◌≢◌, ◌↔◌, inl, refl, true, false, none, some, List, [], ◌∷◌, arith,
}
use companion_lab.Prelude.Text.{eq_iff}
use companion_lab.Examples.{thousandths}
use companion_lab.Failsafe.{
  CompanionLinkFailsafe, accepts, reset, observe_vehicle, validate, on_parameter,
}
use companion_lab.Failsafe.Verdict.{IsSafe, accepts-validate_iff}
use companion_lab.Failsafe.Invariant.{Event, run, run-reset-Inv, observe_vehicle-forgets}
use companion_lab.Failsafe.Order.{on_parameter_comm}

-- A vehicle that sends four safe parameters.
abbrev answers : List (Event ℕ)
answers =
    Event.observed true (some 1)
    ∷ Event.parameter 1 1 "FS_GCS_ENABLE" 5000
    ∷ Event.parameter 1 1 "FS_GCS_TIMEOUT" 5000
    ∷ Event.parameter 1 1 "FS_OPTIONS" 0
    ∷ Event.parameter 1 1 "SYSID_MYGCS" 1000
    ∷ []

abbrev told : CompanionLinkFailsafe ℕ
told = record (reset (some 1)) {
  raw_action = some 5000;
  raw_timeout_s = some 5000;
  raw_options = some 0;
  raw_gcs_system_id = some 1000;
}

told_required : told.snapshot.parameters_required ≡ 4
unfolding reset
told_required = refl

accepts-validate_iff_example : (accepts (validate told).snapshot ≡ true) ↔ IsSafe told
accepts-validate_iff_example = accepts-validate_iff told told_required

observe_vehicle-forgets_example :
    observe_vehicle false (some 1) (run (reset none) answers) ≡ reset none
observe_vehicle-forgets_example =
    observe_vehicle-forgets false (some 1) (run (reset none) answers) (run-reset-Inv answers)
      (inl refl)

abbrev options_name : String
options_name = "FS_OPTIONS"

abbrev enable_name : String
enable_name = "FS_GCS_ENABLE"

abbrev off : ℕ
off = 0

abbrev land_always : ℕ
land_always = 5000

other_name : options_name ≢ enable_name
other_name e = ground (arith, eq_iff options_name enable_name)

on_parameter_comm_example :
    on_parameter 1 1 options_name off (on_parameter 1 1 enable_name land_always (reset (some 1)))
    ≡ on_parameter 1 1 enable_name land_always (on_parameter 1 1 options_name off (reset (some 1)))
on_parameter_comm_example =
    on_parameter_comm 1 1 1 1 options_name enable_name off land_always (reset (some 1)) other_name
