-- ===== src/Application/Watch.antt =====
-- application/CompanionApplication: the parts of `poll` that look at the camera and the vehicle, and
-- the target for the runtime.
use companion_lab.Prelude.{
  Bool, true, false, not, ◌&&◌, ◌||◌, Option, none, some, [], String, if◌then◌else◌,
}
use companion_lab.Prelude.Int.{pos}
use companion_lab.Prelude.Time.{TimePoint}
use companion_lab.Prelude.Doubles.{Doubles}
use companion_lab.Prelude.Outcomes.{Outcome, ok, outside, ◌>>=◌}
use companion_lab.Vehicle.Snapshot.{VehicleSnapshot}
use companion_lab.Failsafe.{observe_vehicle as failsafe_observe_vehicle}
use companion_lab.Decision.{BodyFramePosition}
use companion_lab.Tracker.{CameraFramePosition, TargetTrackPhase}
use companion_lab.Vision.{VisionMonitor, VisionSnapshot, TargetDetectionBatch}
use companion_lab.Camera.{CameraFrame, CameraMonitor, poll as camera_poll, vision_snapshot}
use companion_lab.Transform.{CameraExtrinsics, camera_to_body_frd}
use companion_lab.Application.{start_of}
use companion_lab.Application.Observe.{observe_vehicle}
use companion_lab.Application.Members.{Impl, witnessed_of, with_witnessed}

-- What a poll finds outside: the clock before and after the read, the camera's frame, and the
-- detector's answer to it, `none` if it throws, and description.
pub record Surroundings (D : Type 0) : Type 0 where
  pub camera_now : TimePoint
  pub now : TimePoint
  pub frame : Option CameraFrame
  pub batch : Option (TargetDetectionBatch D)
  pub description : String

abbrev pub is_tracking : TargetTrackPhase → Bool
is_tracking TargetTrackPhase.tracking = true
is_tracking _ = false

abbrev pub monitored :
    {D : Type 0} {A : Type 0} → Option (CameraMonitor D × A) → Outcome (Option (CameraMonitor D))
monitored none = Outcome.fault
monitored (some (c, published)) = ok (some c)

-- Where the detector is not asked, a batch that nobody reads.
abbrev pub no_batch : {D : Type 0} → TargetDetectionBatch D
no_batch = record {
  frame_sequence = 0;
  captured_at = none;
  detected_at = 0;
  processing_time = pos 0;
  targets = [];
}

-- The detector is asked if there are a frame and a vision monitor; its exception ends the poll.
unfoldable pub detected :
    {D : Type 0}
    → Option CameraFrame
    → Option (VisionMonitor D)
    → Option (TargetDetectionBatch D)
    → Outcome (TargetDetectionBatch D)
detected none vision batch = ok no_batch
detected (some frame) none batch = ok no_batch
detected (some frame) (some vision) batch = outside batch

module _ {D : Type 0} ⦃d : Doubles D⦄ where
  unfoldable pub look :
      Surroundings D → Option (CameraMonitor D) → Outcome (Option (CameraMonitor D))
  look e none = ok none
  look e (some c) = do
    batch ← detected e.frame c.vision_monitor e.batch
    monitored (camera_poll e.frame batch e.camera_now c)

  -- The end of `current_landing_target`, with the position and its age.
  unfoldable pub move_target :
      TargetTrackPhase
      → Option (CameraFramePosition D)
      → Option D
      → CameraExtrinsics D
      → Outcome (Option (BodyFramePosition D))
  move_target phase none age extrinsics = ok none
  move_target phase (some position) none extrinsics = ok none
  move_target phase (some position) (some age) extrinsics =
      if not (is_tracking phase) || d.lt (d.of_int (pos 250)) age
      then ok none
      else (camera_to_body_frd position extrinsics >>= λ target. ok (some target))

  unfoldable pub landing_target_of :
      Option (VisionSnapshot D)
      → Option (CameraExtrinsics D)
      → Outcome (Option (BodyFramePosition D))
  landing_target_of none extrinsics = ok none
  landing_target_of (some vision) none = ok none
  landing_target_of (some vision) (some extrinsics) =
      move_target vision.target_track.phase vision.target_track.position
        vision.target_track.observation_age_ms extrinsics

  -- The vision of a camera, if there is one.
  unfoldable pub vision_of :
      String → TimePoint → Option (CameraMonitor D) → Option (VisionSnapshot D)
  vision_of description now none = none
  vision_of description now (some camera) = vision_snapshot description now camera

module _ {T P D : Type 0} ⦃d : Doubles D⦄ where
  -- The camera's part, before the transport is read.
  unfoldable pub watch : Surroundings D → Impl T P D → Outcome (Impl T P D)
  watch e s = do
    let started = record s {
      log = record s.log { started_at = some (start_of s.log.started_at e.camera_now) };
    }
    camera ← look e s.camera_monitor
    ok (record started { camera_monitor = camera })

  -- The failsafe and the log learn of the vehicle, and the requests for parameters start anew with a
  -- new connection.
  unfoldable pub meet_vehicle : VehicleSnapshot D → TimePoint → Impl T P D → Impl T P D
  meet_vehicle vehicle now s =
      let newly_connected = vehicle.connected && not s.vehicle_was_connected in
      let t = record s {
        companion_link_failsafe =
            failsafe_observe_vehicle vehicle.connected vehicle.system_id s.companion_link_failsafe;
        failsafe_parameter_index = if newly_connected then 0 else s.failsafe_parameter_index;
        next_failsafe_parameter_request =
            if newly_connected then now else s.next_failsafe_parameter_request;
      } in
      let seen = with_witnessed (observe_vehicle vehicle now (witnessed_of t)) t in
      record seen {
        companion_heartbeat_active =
            if not vehicle.connected then false else seen.companion_heartbeat_active;
      }

  unfoldable pub current_landing_target :
      String → TimePoint → Impl T P D → Outcome (Option (BodyFramePosition D))
  current_landing_target description now s =
      landing_target_of (vision_of description now s.camera_monitor) s.camera_extrinsics
