-- ===== src/Camera.antt =====
-- application/CameraMonitor, with the frames and the status of its ports: takes the newest frame,
-- counts those that were lost, and passes it on to the detector and the preview.
pub mod Conservation
mod Tests
use companion_lab.Prelude.{
  ℕ, ◌+◌, ◌-◌, not, ◌&&◌, Option, none, some, List, [], max, String, ltb, leb, if◌then◌else◌,
  is_some,
}
use companion_lab.Prelude.Int.{ℤ, pos, negsuc}
use companion_lab.Prelude.Time.{TimePoint}
use companion_lab.Prelude.Text.{Bytes}
use companion_lab.Prelude.Doubles.{Doubles}
use companion_lab.Tracker.{TargetObservation, TargetTrackSnapshot, TargetTrackPhase}
use companion_lab.Vision.{
  TargetDetectionBatch, VisionSnapshot, VisionMonitor, wrap, process, age_since,
  snapshot as vision_state,
}

pub data CameraSourcePhase : Type 0 where
  starting streaming reconnecting stopped failed : CameraSourcePhase

pub record CameraFrame : Type 0 where
  pub sequence : ℕ
  pub width : ℕ
  pub height : ℕ
  pub yuv420 : Bytes
  pub captured_at : Option TimePoint
  pub received_at : TimePoint

pub record CameraSourceStatus : Type 0 where
  pub phase : CameraSourcePhase
  pub description : String
  pub error : String
  pub produced_frames : ℕ
  pub overwritten_frames : ℕ
  pub restart_count : ℕ

pub record CameraSnapshot (D : Type 0) : Type 0 where
  pub phase : CameraSourcePhase
  pub source : String
  pub error : String
  pub width : ℕ
  pub height : ℕ
  pub received_frames : ℕ
  pub dropped_before_processing : ℕ
  pub camera_restarts : ℕ
  pub frames_with_capture_timestamp : ℕ
  pub measured_fps : Option D
  pub latest_latency_ms : Option D
  pub average_latency_ms : Option D
  pub maximum_latency_ms : Option D
  pub latest_frame_age_ms : Option D

pub record CameraMonitor (D : Type 0) : Type 0 where
  pub vision_monitor : Option (VisionMonitor D)
  pub received_frames : ℕ
  pub dropped_before_processing : ℕ
  pub frames_with_capture_timestamp : ℕ
  pub valid_latency_samples : ℕ
  pub width : ℕ
  pub height : ℕ
  pub last_sequence : Option ℕ
  pub last_frame_observed_at : Option TimePoint
  pub first_capture_at : Option TimePoint
  pub last_capture_at : Option TimePoint
  pub latest_latency_ms : Option D
  pub total_latency_ms : D
  pub maximum_latency_ms : D

-- What `publish` is given besides the frame.
pub record Published (D : Type 0) : Type 0 where
  pub targets : List (TargetObservation D)
  pub target_track : TargetTrackSnapshot D

-- The signed difference of two times.
abbrev since : TimePoint → TimePoint → ℤ
since a b = if leb b a then pos (a - b) else negsuc (b - a - 1)

-- The frames between the last one and this, if `sequence > *last_sequence_ + 1U`:
-- `sequence - *last_sequence_ - 1U` on 64 bits.
unfoldable pub missed : Option ℕ → ℕ → ℕ
missed none sequence = 0
missed (some last) sequence =
    if ltb (wrap (last + 1)) sequence
    then wrap (wrap (sequence + 18_446_744_073_709_551_616 - last) + 18_446_744_073_709_551_615)
    else 0

module _ {D : Type 0} ⦃d : Doubles D⦄ where
  -- A monitor with no frames; `vision` is there if the constructor is given a detector.
  unfoldable pub make : Option (VisionMonitor D) → CameraMonitor D
  make vision = record {
    vision_monitor = vision;
    received_frames = 0;
    dropped_before_processing = 0;
    frames_with_capture_timestamp = 0;
    valid_latency_samples = 0;
    width = 0;
    height = 0;
    last_sequence = none;
    last_frame_observed_at = none;
    first_capture_at = none;
    last_capture_at = none;
    latest_latency_ms = none;
    total_latency_ms = d.of_decimal 0 0;
    maximum_latency_ms = d.of_decimal 0 0;
  }

  -- `poll`, up to the detector.
  unfoldable pub count_frame : CameraFrame → TimePoint → CameraMonitor D → CameraMonitor D
  count_frame f now s = record s {
    dropped_before_processing =
        wrap (s.dropped_before_processing + missed s.last_sequence f.sequence);
    last_sequence = some f.sequence;
    received_frames = wrap (s.received_frames + 1);
    width = f.width;
    height = f.height;
    last_frame_observed_at = some now;
  }

  -- A default-initialized `TargetTrackSnapshot`.
  no_track : TargetTrackSnapshot D
  no_track = record {
    phase = TargetTrackPhase.searching;
    target_id = none;
    consecutive_observations = 0;
    required_observations = 0;
    accepted_observations = 0;
    observation_age_ms = none;
    latest_decision_margin = none;
    position = none;
  }

  -- The detector's answer is an argument; the targets and the track are kept for the preview.
  seen_by :
      Option (VisionMonitor D)
      → TargetDetectionBatch D
      → TimePoint
      → Option (Option (VisionMonitor D) × Published D)
  unfolding no_track
  seen_by none batch now = some (none, record { targets = []; target_track = no_track })
  seen_by (some v) batch now = elim (process batch now v) [
    | none ↦ none
    | some w ↦ some (
      some w,
      record { targets = w.latest_targets; target_track = (vision_state "" now w).target_track },
    )
  ]

  -- The end of `poll`: the time of capture and the latency.
  unfoldable pub time_frame : Option TimePoint → TimePoint → CameraMonitor D → CameraMonitor D
  time_frame none received_at s = s
  time_frame (some captured_at) received_at s =
      let latency_ms =
        d.div (d.of_int (since received_at captured_at)) (d.of_int (pos 1_000_000)) in
      let valid = d.le (d.of_decimal 0 0) latency_ms in
      record s {
        frames_with_capture_timestamp = wrap (s.frames_with_capture_timestamp + 1);
        first_capture_at =
            if not (is_some s.first_capture_at) then some captured_at else s.first_capture_at;
        last_capture_at = some captured_at;
        valid_latency_samples =
            if valid then wrap (s.valid_latency_samples + 1) else s.valid_latency_samples;
        latest_latency_ms = if valid then some latency_ms else s.latest_latency_ms;
        total_latency_ms =
            if valid then d.add s.total_latency_ms latency_ms else s.total_latency_ms;
        maximum_latency_ms =
            if valid && d.lt s.maximum_latency_ms latency_ms
            then latency_ms
            else s.maximum_latency_ms;
      }

  finish :
      CameraFrame
      → Option (Option (VisionMonitor D) × Published D)
      → CameraMonitor D
      → Option (CameraMonitor D × Option (Published D))
  finish f none s = none
  finish f (some (vision, published)) s = some (
    time_frame f.captured_at f.received_at (record s { vision_monitor = vision }),
    some published,
  )

  -- The new monitor, and what the preview is given if there is a frame. The frame is the camera
  -- source's, and the batch the detector's answer to it, read only if there is a detector; `none`
  -- is undefined behaviour of the tracker.
  pub poll :
      Option CameraFrame
      → TargetDetectionBatch D
      → TimePoint
      → CameraMonitor D
      → Option (CameraMonitor D × Option (Published D))
  unfolding finish seen_by
  poll none batch now s = some (s, none)
  poll (some f) batch now s =
      let c = count_frame f now s in finish f (seen_by c.vision_monitor batch now) c

  -- Frames per second between the first and the last time of capture.
  fps : Option TimePoint → Option TimePoint → ℕ → Option D
  fps none last frames = none
  fps (some first) none frames = none
  fps (some first) (some last) frames =
      let elapsed = d.div (d.of_int (since last first)) (d.of_int (pos 1_000_000_000)) in
      if ltb 1 frames && d.lt (d.of_decimal 0 0) elapsed
      then some (d.div (d.of_int (pos (frames - 1))) elapsed)
      else none

  unfoldable pub snapshot : CameraSourceStatus → TimePoint → CameraMonitor D → CameraSnapshot D
  unfolding fps
  snapshot status now s = record {
    phase = status.phase;
    source = status.description;
    error = status.error;
    width = s.width;
    height = s.height;
    received_frames = s.received_frames;
    dropped_before_processing = max s.dropped_before_processing status.overwritten_frames;
    camera_restarts = status.restart_count;
    frames_with_capture_timestamp = s.frames_with_capture_timestamp;
    measured_fps = fps s.first_capture_at s.last_capture_at s.frames_with_capture_timestamp;
    latest_latency_ms = s.latest_latency_ms;
    average_latency_ms =
        if ltb 0 s.valid_latency_samples
        then some (d.div s.total_latency_ms (d.of_int (pos s.valid_latency_samples)))
        else none;
    maximum_latency_ms = if ltb 0 s.valid_latency_samples then some s.maximum_latency_ms else none;
    latest_frame_age_ms = age_since s.last_frame_observed_at now;
  }

  unfoldable pub vision_snapshot : String → TimePoint → CameraMonitor D → Option (VisionSnapshot D)
  vision_snapshot description now s = elim s.vision_monitor [
    | none ↦ none
    | some v ↦ some (vision_state description now v)
  ]
