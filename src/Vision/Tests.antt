-- ===== src/Vision/Tests.antt =====
-- application/VisionMonitor: the theorems at concrete inputs.
use companion_lab.Prelude.{ℕ, ◌≡◌, refl, none, some, [], ◌∷◌, List, length}
use companion_lab.Prelude.Int.{pos}
use companion_lab.Prelude.Time.{TimePoint, seconds}
use companion_lab.Examples.{thousandths}
use companion_lab.Tracker.{TargetObservation, TargetTrackerConfig, empty, make as make_tracker}
use companion_lab.Vision.{TargetDetectionBatch, VisionMonitor, make}
use companion_lab.Vision.Counts.{CountedAfter, hits, sizes, run, run-make-Counted}

abbrev config : TargetTrackerConfig ℕ
config = record {
  required_consecutive_observations = 3;
  loss_timeout = pos 500;
  position_smoothing_factor = 350;
  minimum_decision_margin = 20000;
}

abbrev fresh : VisionMonitor ℕ
fresh = record {
  target_tracker = empty config;
  processed_frames = 0;
  frames_with_targets = 0;
  total_targets = 0;
  last_detection_at = none;
  latest_processing_ms = none;
  total_processing_ms = 0;
  maximum_processing_ms = 0;
  latest_targets = [];
}

make-fresh : make config ≡ some fresh
unfolding make make_tracker
make-fresh = refl

abbrev tag : TargetObservation ℕ
tag = record {
  id = pos 7;
  family = "tag36h11";
  center = record { x_px = 320000; y_px = 240000 };
  corners = [];
  corrected_bits = pos 0;
  decision_margin = 50000;
  pose = some (record {
    position = record { right_m = 100; down_m = 200; forward_m = 5000 };
    rotation_tag_to_camera = [];
    object_space_error = 0;
  });
}

abbrev batch : List (TargetObservation ℕ) → TargetDetectionBatch ℕ
batch targets = record {
  frame_sequence = 1;
  captured_at = none;
  detected_at = seconds 1;
  processing_time = pos 8000;
  targets = targets;
}

abbrev frames : List (TargetDetectionBatch ℕ × TimePoint)
frames = (batch (tag ∷ []), seconds 1) ∷ (batch [], seconds 2) ∷ []

run-make-Counted_example :
    CountedAfter (length frames) (hits frames) (sizes frames) (run (some fresh) frames)
run-make-Counted_example = run-make-Counted config fresh frames make-fresh
