-- ===== src/Camera/Tests.antt =====
-- application/CameraMonitor: the theorem at a concrete input.
use companion_lab.Prelude.{ℕ, none, some, [], ◌∷◌, arith}
use companion_lab.Prelude.Int.{pos}
use companion_lab.Prelude.Time.{seconds}
use companion_lab.Examples.{thousandths}
use companion_lab.Vision.{TargetDetectionBatch}
use companion_lab.Camera.{CameraFrame, make, poll}
use companion_lab.Camera.Conservation.{After, Polls, Rises, run, newest, run-poll-Conserves}

abbrev frame : ℕ → CameraFrame
frame n = record {
  sequence = n;
  width = 640;
  height = 480;
  yuv420 = [];
  captured_at = some (seconds 1);
  received_at = seconds 1;
}

abbrev no_targets : TargetDetectionBatch ℕ
no_targets = record {
  frame_sequence = 0;
  captured_at = none;
  detected_at = 0;
  processing_time = pos 0;
  targets = [];
}

-- Frames 4 to 8 are lost, and one poll finds no frame.
abbrev polls : Polls ℕ
polls = (none, no_targets, seconds 2) ∷ (some (frame 9), no_targets, seconds 3) ∷ []

polls-Rises : Rises 3 polls
polls-Rises = ground arith

run-poll-Conserves_example :
    After 3 (newest 3 polls) (run (poll (some (frame 3)) no_targets (seconds 1) (make none)) polls)
run-poll-Conserves_example =
    run-poll-Conserves none (frame 3) no_targets (seconds 1) polls tt (omega arith) polls-Rises
