-- ===== src/Decision.antt =====
-- application/WorldState, DecisionEngine and SafetySupervisor: from a snapshot of the vehicle and a
-- landing target to a motion that the supervisor approves, or not.
mod Tests
use companion_lab.Prelude.{
  ℕ, ◌+◌, ◌≤◌, ◌≡◌, ◌≢◌, ◌↔◌, ◌⊎◌, Bool, true, not, ◌&&◌, Option, none, some, String, arith, ltb,
  if◌then◌else◌, is_some,
}
use companion_lab.Prelude.Time.{TimePoint, milliseconds}
use companion_lab.Prelude.Doubles.{Doubles}
use companion_lab.Vehicle.Snapshot.{VehicleSnapshot}

pub record BodyFramePosition (D : Type 0) : Type 0 where
  pub forward_m : D
  pub right_m : D
  pub down_m : D

pub record WorldState (D : Type 0) : Type 0 where
  pub flight_controller_connected : Bool
  pub vehicle_armed : Bool
  pub vehicle_system_id : Option ℕ
  pub landing_target : Option (BodyFramePosition D)
  pub observed_at : TimePoint

-- `type` has one value, `precision_land`.
pub record DesiredMotion (D : Type 0) : Type 0 where
  pub vehicle_system_id : ℕ
  pub landing_target : BodyFramePosition D
  pub created_at : TimePoint
  pub valid_until : TimePoint

pub data MotionSafetyStatus : Type 0 where
  allowed no_intent flight_controller_disconnected vehicle_disarmed stale_intent invalid_target :
      MotionSafetyStatus

pub record SupervisedMotion (D : Type 0) : Type 0 where
  pub status : MotionSafetyStatus
  pub approved : Option (DesiredMotion D)
  pub detail : String

module _ {D : Type 0} where
  unfoldable pub make_world_state :
      VehicleSnapshot D → Option (BodyFramePosition D) → TimePoint → WorldState D
  make_world_state vehicle landing_target observed_at = record {
    flight_controller_connected = vehicle.connected;
    vehicle_armed = vehicle.armed;
    vehicle_system_id = vehicle.system_id;
    landing_target = landing_target;
    observed_at = observed_at;
  }

  intend : Option ℕ → Option (BodyFramePosition D) → TimePoint → Option (DesiredMotion D)
  intend none target at = none
  intend (some i) none at = none
  intend (some i) (some target) at = some (record {
    vehicle_system_id = i;
    landing_target = target;
    created_at = at;
    valid_until = at + milliseconds 250;
  })

  unfoldable pub decide : WorldState D → Option (DesiredMotion D)
  unfolding intend
  decide world = intend world.vehicle_system_id world.landing_target world.observed_at

module _ {D : Type 0} ⦃d : Doubles D⦄ where
  unfoldable pub valid_target : BodyFramePosition D → Bool
  valid_target target =
      d.is_finite target.forward_m
      && (d.is_finite target.right_m
          && (d.is_finite target.down_m && d.lt (d.of_decimal 0 0) target.down_m))

  refuse : MotionSafetyStatus → String → SupervisedMotion D
  refuse status detail = record { status = status; approved = none; detail = detail }

  supervise_intent : WorldState D → DesiredMotion D → TimePoint → SupervisedMotion D
  unfolding refuse valid_target
  supervise_intent world desired now =
      if not world.flight_controller_connected
      then refuse flight_controller_disconnected "flight-controller heartbeat is stale"
      else (if not world.vehicle_armed
          then refuse vehicle_disarmed "vehicle is disarmed"
          else (if ltb desired.valid_until now
              then refuse stale_intent "desired motion expired"
              else (if not (valid_target desired.landing_target)
                  then refuse invalid_target "landing target is invalid"
                  else record {
                    status = allowed;
                    approved = some desired;
                    detail = "motion intent allowed";
                  })))

  unfoldable pub supervise :
      WorldState D → Option (DesiredMotion D) → TimePoint → SupervisedMotion D
  unfolding supervise_intent refuse
  supervise world none now = refuse no_intent "waiting for a desired motion"
  supervise world (some desired) now = supervise_intent world desired now

  -- The supervisor approves a motion exactly if it is the desired one, the controller is connected,
  -- the vehicle armed, the intent not yet expired, and the target finite and below the vehicle; and
  -- its status is `allowed` exactly if it approves something.
  pub supervise-approved_iff :
      (world : WorldState D) (desired : Option (DesiredMotion D)) (now : TimePoint)
      (m : DesiredMotion D)
      → let r = supervise world desired now in
        ((r.approved ≡ some m) ↔ (
          (desired ≡ some m)
          × (world.flight_controller_connected ≡ true)
          × (world.vehicle_armed ≡ true)
          × (now ≤ m.valid_until)
          × (d.is_finite m.landing_target.forward_m ≡ true)
          × (d.is_finite m.landing_target.right_m ≡ true)
          × (d.is_finite m.landing_target.down_m ≡ true)
          × (d.lt (d.of_decimal 0 0) m.landing_target.down_m ≡ true)))
        × ((r.status ≡ allowed) ↔ (is_some r.approved ≡ true))
  unfolding supervise
  supervise-approved_iff world none now m = (ground arith, ground arith)
  supervise-approved_iff world (some desired) now m = (ground arith, ground arith)

  -- An intent formed and supervised at one time is never refused as stale, and there is none exactly
  -- if no vehicle or no target is known. A motion is approved exactly if it is that for the known
  -- vehicle and target, valid from now for 250 ms, the vehicle is connected and armed, and the target
  -- is valid.
  pub supervise-decide :
      (vehicle : VehicleSnapshot D) (target : Option (BodyFramePosition D)) (now : TimePoint)
      (m : DesiredMotion D)
      → let world = make_world_state vehicle target now in
        let r = supervise world (decide world) now in
        (r.status ≢ stale_intent)
        × ((r.approved ≡ some m) ↔ (
            (vehicle.system_id ≡ some m.vehicle_system_id)
            × (target ≡ some m.landing_target)
            × (m.created_at ≡ now)
            × (m.valid_until ≡ now + milliseconds 250)
            × (vehicle.connected ≡ true)
            × (vehicle.armed ≡ true)
            × (valid_target m.landing_target ≡ true)))
        × ((r.status ≡ no_intent) ↔ ((vehicle.system_id ≡ none) ⊎ (target ≡ none)))
  unfolding supervise decide make_world_state
  supervise-decide vehicle target now m = (ground arith, ground arith, ground arith)

  -- An approved motion is for the vehicle and the target of the world that it was formed in.
  pub approved-decide :
      (vehicle : VehicleSnapshot D) (target : Option (BodyFramePosition D)) (now : TimePoint)
      (m : DesiredMotion D)
      → let world = make_world_state vehicle target now in
        (supervise world (decide world) now).approved ≡ some m
        → (vehicle.system_id ≡ some m.vehicle_system_id)
          × (target ≡ some m.landing_target)
          × (valid_target m.landing_target ≡ true)
  unfolding supervise decide make_world_state
  approved-decide vehicle target now m h = ground arith
