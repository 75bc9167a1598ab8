-- ===== src/Rpicam.antt =====
-- adapters/camera/RpicamCameraSource: the size of a frame, the lines of the process, and the state that
-- its thread shares with the application. The process, its pipes and the threads are not modelled: what
-- they deliver is an argument.
pub mod Lines
pub mod Frames
mod Tests
use companion_lab.Prelude.{
  ℕ, suc, ◌+◌, ◌*◌, ◌/◌, ◌%◌, Bool, true, false, not, ◌||◌, Option, none, some, List, [], ◌∷◌,
  String, ◌==◌, ltb, is_some, if◌then◌else◌,
}
use companion_lab.Prelude.Text.{Bytes}
use companion_lab.Prelude.Time.{TimePoint}
use companion_lab.Prelude.Outcomes.{Outcome, ok, throw_if, ◌>>=◌, ◌>>◌}
use mathlib.Core.List.{◌++◌ as append}
use companion_lab.Camera.{CameraSourcePhase, CameraFrame, CameraSourceStatus}

pub record RpicamCameraConfig : Type 0 where
  pub width : ℕ
  pub height : ℕ
  pub frames_per_second : ℕ
  pub frame_timeout_ms : ℕ
  pub restart_delay_ms : ℕ

-- Modulo 2^64.
abbrev pub u64 : ℕ → ℕ
u64 n = n % 18_446_744_073_709_551_616

unfoldable pub frame_size : ℕ → ℕ → ℕ
frame_size width height = let pixels = u64 (width * height) in u64 (pixels + pixels / 2)

-- The second test, against the largest `std::size_t`, never holds for 64 bits.
unfoldable pub checked_frame_size : RpicamCameraConfig → Outcome ℕ
checked_frame_size config = do
  throw_if
      (config.width == 0
        || (config.height == 0
            || (config.frames_per_second == 0
                || (config.frame_timeout_ms == 0
                    || (config.restart_delay_ms == 0
                        || (not (config.width % 2 == 0) || not (config.height % 2 == 0)))))))
      "camera width, height and FPS must be positive; recovery timings must be non-zero; YUV420 dimensions must be even"
  let size = frame_size config.width config.height
  throw_if (ltb 18_446_744_073_709_551_615 size) "camera frame size is too large"
  ok size

-- The complete lines of a text, and what follows the last of them.
abbrev before_line : ℕ → List Bytes × Bytes → List Bytes × Bytes
before_line c ([], rest) = ([], c ∷ rest)
before_line c (line ∷ lines, rest) = ((c ∷ line) ∷ lines, rest)

-- The inner loop: `find` a newline, consume what is before it, erase both.
unfoldable pub split_lines : Bytes → List Bytes × Bytes
split_lines [] = ([], [])
split_lines (c ∷ cs) =
    let (lines, rest) = split_lines cs in
    if c == 10 then ([] ∷ lines, rest) else before_line c (lines, rest)

abbrev last_line : Bytes → List Bytes
last_line [] = []
last_line (c ∷ cs) = (c ∷ cs) ∷ []

-- The lines that are consumed, for the pending text and the chunks read up to the end.
unfoldable pub read_lines : Bytes → List Bytes → List Bytes
unfolding split_lines
read_lines pending [] = last_line pending
read_lines pending (chunk ∷ chunks) =
    let (lines, rest) = split_lines (append pending chunk) in append lines (read_lines rest chunks)

-- The members that the mutex guards.
pub record Source : Type 0 where
  pub status : CameraSourceStatus
  pub latest_frame : Option CameraFrame
  pub next_sequence : ℕ

unfoldable pub take_latest_frame : Source → Source × Option CameraFrame
take_latest_frame s = (record s { latest_frame = none }, s.latest_frame)

unfoldable pub prepare_attempt : Source → Source
prepare_attempt s = record s { latest_frame = none }

unfoldable pub publish : CameraFrame → Source → Source
publish frame s = record s {
  status = record s.status {
    overwritten_frames =
        if is_some s.latest_frame
        then u64 (s.status.overwritten_frames + 1)
        else s.status.overwritten_frames;
    produced_frames = u64 (s.status.produced_frames + 1);
    phase = CameraSourcePhase.streaming;
    error = "";
  };
  latest_frame = some frame;
}

unfoldable pub set_failure : String → Source → Source
set_failure error s = record s {
  status = record s.status { phase = CameraSourcePhase.failed; error = error };
}

-- A frame that was read whole gets its number, and is published with the time of its metadata, in
-- nanoseconds. Without them the attempt fails.
unfoldable pub receive_frame : Option TimePoint → CameraFrame → Source → Source
receive_frame none frame s =
    set_failure "camera frame arrived without FrameWallClock metadata"
      (record s { next_sequence = u64 (s.next_sequence + 1) })
receive_frame (some timestamp) frame s =
    publish (record frame { sequence = u64 (s.next_sequence + 1); captured_at = some timestamp })
      (record s { next_sequence = u64 (s.next_sequence + 1) })

unfoldable pub set_reconnecting : String → Source → Source
set_reconnecting error s = record s {
  status = record s.status {
    phase = CameraSourcePhase.reconnecting;
    error = error;
    restart_count = u64 (s.status.restart_count + 1);
  };
  latest_frame = none;
}

unfoldable pub set_stopped : Source → Source
set_stopped s = record s { status = record s.status { phase = CameraSourcePhase.stopped } }
