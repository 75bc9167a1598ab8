-- ===== src/Vision.antt =====
-- application/VisionMonitor: counts and times the detector's work, and shows the smoothed position
-- of the tracked target among the detected ones.
pub mod Counts
pub mod Smoothing
mod Tests
use companion_lab.Prelude.{
  ℕ, ◌+◌, ◌-◌, ◌%◌, Bool, true, false, ◌&&◌, Option, none, some, List, [], ◌∷◌, String, length, ltb,
  leb, if◌then◌else◌, is_some,
}
use companion_lab.Prelude.Int.{ℤ, pos, eqb_ℤ}
use companion_lab.Prelude.Time.{TimePoint}
use companion_lab.Prelude.Doubles.{Doubles}
use companion_lab.Tracker.{
  CameraFramePosition, TargetPose, TargetObservation, TargetTrackerConfig, TargetTrackSnapshot,
  TargetTracker, make as make_tracker, snapshot as track_snapshot,
}
use companion_lab.Tracker.Update.{update}

-- What the detector makes of a frame; the time is a signed number of microseconds.
pub record TargetDetectionBatch (D : Type 0) : Type 0 where
  pub frame_sequence : ℕ
  pub captured_at : Option TimePoint
  pub detected_at : TimePoint
  pub processing_time : ℤ
  pub targets : List (TargetObservation D)

pub record VisionSnapshot (D : Type 0) : Type 0 where
  pub detector : String
  pub processed_frames : ℕ
  pub frames_with_targets : ℕ
  pub total_targets : ℕ
  pub latest_processing_ms : Option D
  pub average_processing_ms : Option D
  pub maximum_processing_ms : Option D
  pub last_detection_age_ms : Option D
  pub latest_targets : List (TargetObservation D)
  pub target_track : TargetTrackSnapshot D

pub record VisionMonitor (D : Type 0) : Type 0 where
  pub target_tracker : TargetTracker D
  pub processed_frames : ℕ
  pub frames_with_targets : ℕ
  pub total_targets : ℕ
  pub last_detection_at : Option TimePoint
  pub latest_processing_ms : Option D
  pub total_processing_ms : D
  pub maximum_processing_ms : D
  pub latest_targets : List (TargetObservation D)

-- `uint64_t` arithmetic.
abbrev pub wrap : ℕ → ℕ
wrap n = n % 18_446_744_073_709_551_616

abbrev pub is_empty {ℓ} : {A : Type ℓ} → List A → Bool
is_empty [] = true
is_empty (x ∷ xs) = false

module _ {D : Type 0} where
  move : CameraFramePosition D → Option (TargetPose D) → Option (TargetPose D)
  move position none = none
  move position (some pose) = some (record pose { position = position })

  -- `find_if` by the id, and the position of what it finds overwritten.
  unfoldable pub place :
      ℤ → CameraFramePosition D → List (TargetObservation D) → List (TargetObservation D)
  unfolding move
  place id position [] = []
  place id position (o ∷ os) =
      if eqb_ℤ o.id id && is_some o.pose
      then record o { pose = move position o.pose } ∷ os
      else o ∷ place id position os

  unfoldable pub place_track :
      Option ℤ
      → Option (CameraFramePosition D)
      → List (TargetObservation D)
      → List (TargetObservation D)
  place_track none position os = os
  place_track (some id) none os = os
  place_track (some id) (some position) os = place id position os

module _ {D : Type 0} ⦃d : Doubles D⦄ where
  -- The constructor; `none` is the exception of the tracker's.
  unfoldable pub make : TargetTrackerConfig D → Option (VisionMonitor D)
  make config = elim (make_tracker config) [
    | none ↦ none
    | some t ↦ some (record {
      target_tracker = t;
      processed_frames = 0;
      frames_with_targets = 0;
      total_targets = 0;
      last_detection_at = none;
      latest_processing_ms = none;
      total_processing_ms = d.of_decimal 0 0;
      maximum_processing_ms = d.of_decimal 0 0;
      latest_targets = [];
    })
  ]

  -- `process`, up to the call of the tracker.
  unfoldable pub count_batch :
      TargetDetectionBatch D → TimePoint → VisionMonitor D → VisionMonitor D
  count_batch batch now s =
      let processing_ms = d.div (d.of_int batch.processing_time) (d.of_int (pos 1000)) in
      record s {
        processed_frames = wrap (s.processed_frames + 1);
        latest_processing_ms = some processing_ms;
        total_processing_ms = d.add s.total_processing_ms processing_ms;
        maximum_processing_ms =
            if d.lt s.maximum_processing_ms processing_ms
            then processing_ms
            else s.maximum_processing_ms;
        latest_targets = batch.targets;
        total_targets = wrap (s.total_targets + length batch.targets);
        frames_with_targets =
            if is_empty batch.targets
            then s.frames_with_targets
            else wrap (s.frames_with_targets + 1);
        last_detection_at = if is_empty batch.targets then s.last_detection_at else some now;
      }

  -- The rest, with the updated tracker.
  unfoldable pub show_track :
      Option (TargetTracker D) → TimePoint → VisionMonitor D → Option (VisionMonitor D)
  show_track none now s = none
  show_track (some t) now s =
      let track = track_snapshot now t in
      some (record s {
        target_tracker = t;
        latest_targets = place_track track.target_id track.position s.latest_targets;
      })

  -- The batch is the detector's answer to the frame; `none` is undefined behaviour of the tracker.
  -- The caller is given the `latest_targets`.
  unfoldable pub process :
      TargetDetectionBatch D → TimePoint → VisionMonitor D → Option (VisionMonitor D)
  process batch now s =
      show_track (update batch.targets now s.target_tracker) now (count_batch batch now s)

  unfoldable pub age_since : Option TimePoint → TimePoint → Option D
  age_since none now = none
  age_since (some t) now =
      if leb t now then some (d.div (d.of_int (pos (now - t))) (d.of_int (pos 1_000_000))) else none

  -- The detector's description is an argument.
  unfoldable pub snapshot : String → TimePoint → VisionMonitor D → VisionSnapshot D
  snapshot description now s = record {
    detector = description;
    processed_frames = s.processed_frames;
    frames_with_targets = s.frames_with_targets;
    total_targets = s.total_targets;
    latest_processing_ms = s.latest_processing_ms;
    average_processing_ms =
        if ltb 0 s.processed_frames
        then some (d.div s.total_processing_ms (d.of_int (pos s.processed_frames)))
        else none;
    maximum_processing_ms = if ltb 0 s.processed_frames then some s.maximum_processing_ms else none;
    last_detection_age_ms = age_since s.last_detection_at now;
    latest_targets = s.latest_targets;
    target_track = track_snapshot now s.target_tracker;
  }
