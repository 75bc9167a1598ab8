-- ===== src/Motion.antt =====
-- application/MotionSafetyPolicy: whether the configuration may command motion at all.
use companion_lab.Prelude.{
  ◌≡◌, ◌↔◌, ◌⊎◌, Bool, true, false, not, ◌&&◌, String, arith, if◌then◌else◌,
}

pub data RuntimeEnvironment : Type 0 where
  hardware_or_unknown sitl : RuntimeEnvironment

pub data MavlinkTransport : Type 0 where
  udp serial : MavlinkTransport

pub record MotionSafetyDecision : Type 0 where
  pub configuration_valid : Bool
  pub motion_commands_allowed : Bool
  pub reason : String

abbrev is_sitl : RuntimeEnvironment → Bool
is_sitl sitl = true
is_sitl hardware_or_unknown = false

abbrev is_udp : MavlinkTransport → Bool
is_udp udp = true
is_udp serial = false

unfoldable pub evaluate_motion_safety :
    RuntimeEnvironment → MavlinkTransport → Bool → MotionSafetyDecision
evaluate_motion_safety environment transport motion_requested =
    if is_sitl environment && not (is_udp transport)
    then record {
      configuration_valid = false;
      motion_commands_allowed = false;
      reason = "--sitl requires UDP transport";
    }
    else (if not motion_requested
        then record {
          configuration_valid = true;
          motion_commands_allowed = false;
          reason = "observation-only mode";
        }
        else (if not (is_sitl environment)
            then record {
              configuration_valid = false;
              motion_commands_allowed = false;
              reason = "motion commands require explicit --sitl mode";
            }
            else record {
              configuration_valid = true;
              motion_commands_allowed = true;
              reason = "explicit SITL motion mode";
            }))

-- Motion commands are allowed exactly in a simulation, over UDP, on request; and a configuration is
-- refused exactly if it simulates over a serial line, or asks for motion outside a simulation.
pub motion_allowed_iff :
    (e : RuntimeEnvironment) (t : MavlinkTransport) (requested : Bool)
    → let r = evaluate_motion_safety e t requested in
      ((r.motion_commands_allowed ≡ true) ↔ ((e ≡ sitl) × (t ≡ udp) × (requested ≡ true)))
      × ((r.configuration_valid ≡ false)
          ↔ ((e ≡ sitl) × (t ≡ serial) ⊎ (e ≡ hardware_or_unknown) × (requested ≡ true)))
unfolding evaluate_motion_safety
motion_allowed_iff sitl udp requested = ground arith
motion_allowed_iff sitl serial requested = ground arith
motion_allowed_iff hardware_or_unknown t requested = ground arith
