-- ===== src/Failsafe.antt =====
-- application/CompanionLinkFailsafe: reads four ArduPilot parameters and accepts the vehicle only if
-- it will land when the companion computer falls silent.
pub mod Invariant
pub mod Verdict
pub mod Order
mod Tests
use companion_lab.Prelude.{
  ℕ, zero, suc, ◌+◌, Bool, true, false, not, ◌&&◌, ◌||◌, Option, none, some, bit_and, String, ltb,
  ◌==◌, if◌then◌else◌, is_some, has, same,
}
use companion_lab.Prelude.Text.{to_string, str_eq}
use companion_lab.Prelude.Doubles.{Doubles}
use companion_lab.Prelude.Text.{◌++◌}

pub data CompanionLinkFailsafePhase : Type 0 where
  waiting_for_vehicle reading_parameters accepted rejected : CompanionLinkFailsafePhase

pub data ArduPilotGcsFailsafeAction : Type 0 where
  disabled rtl removed_continue_mission smart_rtl_or_rtl smart_rtl_or_land land :
      ArduPilotGcsFailsafeAction
  auto_land_start_or_rtl brake_or_land : ArduPilotGcsFailsafeAction

pub record CompanionLinkFailsafeSnapshot (D : Type 0) : Type 0 where
  pub phase : CompanionLinkFailsafePhase
  pub detail : String
  pub heartbeat_system_id : Option ℕ
  pub configured_gcs_system_id : Option ℕ
  pub action : Option ArduPilotGcsFailsafeAction
  pub timeout_s : Option D
  pub options : Option ℕ
  pub parameters_received : ℕ
  pub parameters_required : ℕ

pub record CompanionLinkFailsafe (D : Type 0) : Type 0 where
  pub snapshot : CompanionLinkFailsafeSnapshot D
  pub raw_action : Option D
  pub raw_timeout_s : Option D
  pub raw_options : Option D
  pub raw_gcs_system_id : Option D

-- `CompanionLinkFailsafeSnapshot::accepted`.
abbrev is_accepted : CompanionLinkFailsafePhase → Bool
is_accepted accepted = true
is_accepted _ = false

abbrev pub accepts : {D : Type 0} → CompanionLinkFailsafeSnapshot D → Bool
accepts s = is_accepted s.phase

-- The member's initializers, before and after a vehicle is known.
pub reset : {D : Type 0} → Option ℕ → CompanionLinkFailsafe D
reset system_id = record {
  snapshot = record {
    phase = if is_some system_id then reading_parameters else waiting_for_vehicle;
    detail =
        if is_some system_id
        then "Reading ArduPilot companion-link failsafe parameters"
        else "Waiting for the flight-controller heartbeat";
    heartbeat_system_id = system_id;
    configured_gcs_system_id = none;
    action = none;
    timeout_s = none;
    options = none;
    parameters_received = 0;
    parameters_required = 4;
  };
  raw_action = none;
  raw_timeout_s = none;
  raw_options = none;
  raw_gcs_system_id = none;
}

-- `static_cast<ArduPilotGcsFailsafeAction>` of a value that is at most 7.
action_of : ℕ → Option ArduPilotGcsFailsafeAction
action_of zero = some disabled
action_of (suc zero) = some rtl
action_of (suc (suc zero)) = some removed_continue_mission
action_of (suc (suc (suc zero))) = some smart_rtl_or_rtl
action_of (suc (suc (suc (suc zero)))) = some smart_rtl_or_land
action_of (suc (suc (suc (suc (suc zero))))) = some land
action_of (suc (suc (suc (suc (suc (suc zero)))))) = some auto_land_start_or_rtl
action_of (suc (suc (suc (suc (suc (suc (suc zero))))))) = some brake_or_land
action_of _ = none

abbrev pub option_bind {ℓ κ} : {A : Type ℓ} {B : Type κ} → Option A → (A → Option B) → Option B
option_bind none f = none
option_bind (some a) f = f a

abbrev is_land : ArduPilotGcsFailsafeAction → Bool
is_land land = true
is_land _ = false

abbrev count : {D : Type 0} → Option D → ℕ
count none = 0
count (some v) = 1

id_or_unknown : Option ℕ → String
id_or_unknown none = "unknown"
id_or_unknown (some i) = to_string i

module _ {D : Type 0} where
  pub observe_vehicle : Bool → Option ℕ → CompanionLinkFailsafe D → CompanionLinkFailsafe D
  observe_vehicle connected system_id f =
      if not connected || not (is_some system_id)
      then (if is_some f.snapshot.heartbeat_system_id then reset none else f)
      else (if not (same f.snapshot.heartbeat_system_id system_id) then reset system_id else f)

  pub received : CompanionLinkFailsafe D → ℕ
  received f =
      count f.raw_action + count f.raw_timeout_s + count f.raw_options + count f.raw_gcs_system_id

module _ {D : Type 0} ⦃d : Doubles D⦄ where
  -- A finite whole number from 0 to `maximum`, as an unsigned integer.
  pub exact_integer : Option D → ℕ → Option ℕ
  exact_integer none maximum = none
  exact_integer (some v) maximum =
      if not (d.is_finite v)
        || (d.lt v (d.of_decimal 0 0)
            || (d.lt (d.of_decimal maximum 0) v || not (d.eq (d.trunc v) v)))
      then none
      else some (d.to_ℕ v)

  finite_only : Option D → Option D
  finite_only none = none
  finite_only (some v) = if d.is_finite v then some v else none

  pub timeout_in_range : D → Bool
  timeout_in_range v =
      d.is_finite v && (not (d.lt v (d.of_decimal 2 0)) && not (d.lt (d.of_decimal 10 0) v))

  -- The guards at the end of `validate`, in their order: each gives the new phase and detail.
  judge_gcs : Option ℕ → D → Option ℕ → CompanionLinkFailsafePhase × String
  judge_gcs heartbeat timeout none = (rejected, "SYSID_MYGCS is invalid")
  judge_gcs heartbeat timeout (some gcs) =
      if gcs == 0
      then (rejected, "SYSID_MYGCS is invalid")
      else (if not (has heartbeat gcs)
          then (
            rejected,
            "SYSID_MYGCS must match companion heartbeat system id " ++ id_or_unknown heartbeat,
          )
          else (
            accepted,
            "ArduPilot will LAND after "
                ++ (d.fixed 1 timeout ++ " s without the companion heartbeat"),
          ))

  judge_options : Option ℕ → D → Option ℕ → Option ℕ → CompanionLinkFailsafePhase × String
  judge_options heartbeat timeout none gcs = (rejected, "FS_OPTIONS is not a valid bitmask")
  judge_options heartbeat timeout (some options) gcs =
      if not (bit_and options 18 == 0)
      then (rejected, "FS_OPTIONS must not bypass GCS failsafe in Auto or pilot modes")
      else judge_gcs heartbeat timeout gcs

  judge_timeout : Option ℕ → Option D → Option ℕ → Option ℕ → CompanionLinkFailsafePhase × String
  judge_timeout heartbeat none options gcs =
      (rejected, "FS_GCS_TIMEOUT must be between 2 and 10 seconds")
  judge_timeout heartbeat (some timeout) options gcs =
      if not (timeout_in_range timeout)
      then (rejected, "FS_GCS_TIMEOUT must be between 2 and 10 seconds")
      else judge_options heartbeat timeout options gcs

  judge :
      Option ℕ
      → Option ArduPilotGcsFailsafeAction
      → Option D
      → Option ℕ
      → Option ℕ
      → CompanionLinkFailsafePhase × String
  judge heartbeat none timeout options gcs = (rejected, "FS_GCS_ENABLE is unsupported")
  judge heartbeat (some action) timeout options gcs =
      if not (is_land action)
      then (rejected, "FS_GCS_ENABLE must be 5 (Always LAND)")
      else judge_timeout heartbeat timeout options gcs

  pub validate : CompanionLinkFailsafe D → CompanionLinkFailsafe D
  validate f =
      let n = received f in
      let incomplete = record f.snapshot {
        parameters_received = n;
        phase = reading_parameters;
        detail =
            "Reading ArduPilot failsafe parameters ("
            ++ (to_string n ++ ("/" ++ (to_string f.snapshot.parameters_required ++ ")")));
      } in
      let action = option_bind (exact_integer f.raw_action 255) action_of in
      let options = exact_integer f.raw_options 4_294_967_295 in
      let gcs = exact_integer f.raw_gcs_system_id 255 in
      let verdict = judge f.snapshot.heartbeat_system_id action f.raw_timeout_s options gcs in
      let complete = record f.snapshot {
        parameters_received = n;
        action = action;
        timeout_s = finite_only f.raw_timeout_s;
        options = options;
        configured_gcs_system_id = gcs;
        phase = verdict.0;
        detail = verdict.1;
      } in
      record f { snapshot = if ltb n f.snapshot.parameters_required then incomplete else complete }

  -- The parameter that `id` names, overwritten; `none` for any other id.
  store : String → D → CompanionLinkFailsafe D → Option (CompanionLinkFailsafe D)
  store id value f =
      if str_eq id "FS_GCS_ENABLE"
      then some (record f { raw_action = some value })
      else (if str_eq id "FS_GCS_TIMEOUT"
          then some (record f { raw_timeout_s = some value })
          else (if str_eq id "FS_OPTIONS"
              then some (record f { raw_options = some value })
              else (if str_eq id "SYSID_MYGCS"
                  then some (record f { raw_gcs_system_id = some value })
                  else none)))

  validated : CompanionLinkFailsafe D → Option (CompanionLinkFailsafe D) → CompanionLinkFailsafe D
  validated f none = f
  validated f (some g) = validate g

  pub on_parameter : ℕ → ℕ → String → D → CompanionLinkFailsafe D → CompanionLinkFailsafe D
  on_parameter source_system source_component id value f =
      if not (has f.snapshot.heartbeat_system_id source_system) || not (source_component == 1)
      then f
      else validated f (store id value f)
