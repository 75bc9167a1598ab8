-- ===== src/Runtime.antt =====
-- application/AutonomyRuntime: guides the vehicle to the vision target and lands it, or lands it
-- without one. Its `update` stands in the module `Update`.
pub mod Update
pub mod Invariant
pub mod Pacing
pub mod Requests
pub mod Guidance
pub mod Fallback
mod Tests
use companion_lab.Prelude.{
  ℕ, ◌+◌, Bool, true, false, not, ◌||◌, Option, none, some, String, leb, if◌then◌else◌, has,
}
use companion_lab.Prelude.Int.{ℤ, pos, leb_ℤ}
use companion_lab.Prelude.Time.{TimePoint, seconds}
use companion_lab.Prelude.Text.{to_string}
use companion_lab.Prelude.Text.{◌++◌}
use companion_lab.Vehicle.Snapshot.{VehicleSnapshot}
use companion_lab.Decision.{BodyFramePosition, MotionSafetyStatus, no_intent}
use companion_lab.Failsafe.{CompanionLinkFailsafeSnapshot}
use companion_lab.Flight.{
  FlightAction, land, landing_target, FlightCommandAckOutcome, FlightActionRequest, same_action,
}
use companion_lab.Startup.{FlightStartupSnapshot}

pub data AutonomyRuntimePhase : Type 0 where
  disabled waiting_for_startup active landing completed failed : AutonomyRuntimePhase

-- The time without a target after which the vehicle lands is a signed number of milliseconds.
pub record AutonomyRuntimeConfig : Type 0 where
  pub enabled : Bool
  pub target_loss_land_after : ℤ

pub record AutonomyRuntime (D : Type 0) : Type 0 where
  pub config : AutonomyRuntimeConfig
  pub phase : AutonomyRuntimePhase
  pub detail : String
  pub motion_safety_status : MotionSafetyStatus
  pub vehicle_system_id : Option ℕ
  pub land_command_after : Option TimePoint
  pub target_missing_since : Option TimePoint
  pub next_landing_target : TimePoint
  pub acknowledgement_deadline : TimePoint
  pub landing_deadline : TimePoint
  pub land_attempt : ℕ
  pub awaiting_land_ack : Bool
  pub vision_landing_target_active : Bool
  pub failure_result : Option ℕ

pub record AutonomyRuntimeSnapshot : Type 0 where
  pub phase : AutonomyRuntimePhase
  pub detail : String
  pub motion_safety_status : MotionSafetyStatus
  pub vision_landing_target_active : Bool
  pub land_attempt : ℕ
  pub failure_result : Option ℕ

abbrev pub is_over : AutonomyRuntimePhase → Bool
is_over disabled = true
is_over completed = true
is_over failed = true
is_over _ = false

abbrev pub is_waiting_for_startup : AutonomyRuntimePhase → Bool
is_waiting_for_startup waiting_for_startup = true
is_waiting_for_startup _ = false

abbrev pub is_active : AutonomyRuntimePhase → Bool
is_active active = true
is_active _ = false

abbrev pub is_landing : AutonomyRuntimePhase → Bool
is_landing landing = true
is_landing _ = false

-- What an update is given.
pub record Observation (D : Type 0) : Type 0 where
  pub vehicle : VehicleSnapshot D
  pub startup : FlightStartupSnapshot D
  pub failsafe : CompanionLinkFailsafeSnapshot D
  pub now : TimePoint
  pub target : Option (BodyFramePosition D)

module _ {D : Type 0} where
  pub fail : String → AutonomyRuntime D → AutonomyRuntime D
  fail detail r = record r {
    phase = failed;
    detail = detail;
    awaiting_land_ack = false;
    vision_landing_target_active = false;
  }

  unfoldable pub restart : AutonomyRuntime D → AutonomyRuntime D
  restart r = record r {
    phase = if not r.config.enabled then disabled else waiting_for_startup;
    detail =
        if not r.config.enabled
        then "Autonomy runtime disabled"
        else "Waiting for verified flight startup";
    motion_safety_status = no_intent;
    vehicle_system_id = none;
    land_command_after = none;
    target_missing_since = none;
    next_landing_target = 0;
    acknowledgement_deadline = 0;
    landing_deadline = 0;
    land_attempt = 0;
    awaiting_land_ack = false;
    vision_landing_target_active = false;
    failure_result = none;
  }

  unfoldable pub snapshot : AutonomyRuntime D → AutonomyRuntimeSnapshot
  snapshot r = record {
    phase = r.phase;
    detail = r.detail;
    motion_safety_status = r.motion_safety_status;
    vision_landing_target_active = r.vision_landing_target_active;
    land_attempt = r.land_attempt;
    failure_result = r.failure_result;
  }

  -- The constructor; `none` is its exception.
  unfoldable pub make : AutonomyRuntimeConfig → Option (AutonomyRuntime D)
  make config =
      let r : AutonomyRuntime D = record {
        config = config;
        phase = disabled;
        detail = "Autonomy runtime disabled";
        motion_safety_status = no_intent;
        vehicle_system_id = none;
        land_command_after = none;
        target_missing_since = none;
        next_landing_target = 0;
        acknowledgement_deadline = 0;
        landing_deadline = 0;
        land_attempt = 0;
        awaiting_land_ack = false;
        vision_landing_target_active = false;
        failure_result = none;
      } in
      if leb_ℤ config.target_loss_land_after (pos 0)
      then none
      else some (if config.enabled then restart r else r)

  pub on_action_sent : FlightActionRequest D → Bool → AutonomyRuntime D → AutonomyRuntime D
  on_action_sent request sent r =
      if same_action request.action landing_target
      then record r {
        vision_landing_target_active = sent;
        detail = if not sent then "Failed to send vision LANDING_TARGET" else r.detail;
      }
      else (if not (same_action request.action land) || sent
          then r
          else (if leb 3 r.land_attempt
              then fail "Failed to send fallback LAND" (record r { awaiting_land_ack = false })
              else record r { awaiting_land_ack = false }))

  acknowledge : FlightCommandAckOutcome → ℕ → TimePoint → AutonomyRuntime D → AutonomyRuntime D
  acknowledge FlightCommandAckOutcome.accepted raw_result now r = record r {
    awaiting_land_ack = false;
    phase = landing;
    landing_deadline = now + seconds 90;
    detail = "LAND accepted; monitoring descent";
  }
  acknowledge FlightCommandAckOutcome.in_progress raw_result now r = record r {
    acknowledgement_deadline = now + seconds 2;
    detail = "LAND is in progress";
  }
  acknowledge FlightCommandAckOutcome.rejected raw_result now r =
      fail ("LAND was rejected with MAV_RESULT " ++ to_string raw_result)
        (record r { failure_result = some raw_result })

  unfoldable pub on_command_ack :
      FlightAction
      → FlightCommandAckOutcome
      → ℕ
      → ℕ
      → TimePoint
      → AutonomyRuntime D
      → AutonomyRuntime D
  unfolding acknowledge
  on_command_ack action outcome raw_result source_system now r =
      if not (same_action action land)
        || (not r.awaiting_land_ack || not (has r.vehicle_system_id source_system))
      then r
      else acknowledge outcome raw_result now r
