-- ===== src/Rpicam/Tests.antt =====
-- adapters/camera/RpicamCameraSource: the theorems at concrete inputs.
use companion_lab.Prelude.{◌≡◌, none, some, List, [], ◌∷◌}
use companion_lab.Prelude.Text.{Bytes, bytes}
use companion_lab.Camera.{CameraFrame}
use companion_lab.Rpicam.{read_lines}
use companion_lab.Rpicam.Lines.{text_lines, joined, read_lines-joined}
use companion_lab.Rpicam.Frames.{Action, prepared, taken, received, reconnected}

abbrev chunks : List Bytes
chunks = bytes "{\"FrameWall" ∷ (10 ∷ bytes "Clock\": 12") ∷ (10 ∷ []) ∷ []

read_lines-joined_example : read_lines [] chunks ≡ text_lines (joined chunks)
read_lines-joined_example = read_lines-joined chunks

abbrev frame : CameraFrame
frame = record {
  sequence = 0;
  width = 2;
  height = 2;
  yuv420 = [];
  captured_at = none;
  received_at = 5;
}

-- One frame is overwritten, one taken, one has no metadata, and one is dropped by the restart.
abbrev actions : List Action
actions =
    prepared
    ∷ received (some 1) frame
    ∷ received (some 2) frame
    ∷ taken
    ∷ received (some 3) frame
    ∷ received none frame
    ∷ reconnected "camera frame arrived without FrameWallClock metadata"
    ∷ []
