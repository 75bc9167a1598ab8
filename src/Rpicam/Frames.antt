-- ===== src/Rpicam/Frames.antt =====
-- adapters/camera/RpicamCameraSource: no frame is lost without a trace.
use companion_lab.Prelude.{
  ℕ, ◌+◌, ◌*◌, ◌/◌, ◌<◌, ◌≡◌, Option, none, some, List, [], ◌∷◌, String, arith,
}
use companion_lab.Prelude.Time.{TimePoint}
use companion_lab.Camera.{CameraSourcePhase, CameraFrame}
use companion_lab.Rpicam.{
  frame_size, Source, take_latest_frame, prepare_attempt, receive_frame, set_failure,
  set_reconnecting, set_stopped,
}

-- What the thread and the application do with the source.
pub data Action : Type 0 where
  prepared stopped taken : Action
  received : Option TimePoint → CameraFrame → Action
  failed reconnected : String → Action

abbrev pub act : Action → Source → Source
act prepared s = prepare_attempt s
act stopped s = set_stopped s
act taken s = (take_latest_frame s).0
act (received timestamp frame) s = receive_frame timestamp frame s
act (failed error) s = set_failure error s
act (reconnected error) s = set_reconnecting error s

abbrev pub act_all : List Action → Source → Source
act_all [] s = s
act_all (a ∷ as') s = act_all as' (act a s)

abbrev pub waiting : Option CameraFrame → ℕ
waiting none = 0
waiting (some frame) = 1

-- The frames that the application gets by an action: the result of `take_latest_frame`.
abbrev hands_out : Action → Source → ℕ
hands_out taken s = waiting (take_latest_frame s).1
hands_out _ s = 0

-- The frames that an action drops: what waits when the source starts again.
abbrev drops : Action → Source → ℕ
drops prepared s = waiting s.latest_frame
drops (reconnected error) s = waiting s.latest_frame
drops _ s = 0

-- The frames that leave the source by such actions.
abbrev pub leaving : (Action → Source → ℕ) → List Action → Source → ℕ
leaving which [] s = 0
leaving which (a ∷ as') s = which a s + leaving which as' (act a s)

abbrev pub handed_out : List Action → Source → ℕ
handed_out as' s = leaving hands_out as' s

abbrev pub dropped : List Action → Source → ℕ
dropped as' s = leaving drops as' s

-- One action, in numbers.
record Moves (a : Action) (s s' : Source) : Type 0 where
  balance :
      s'.status.produced_frames + s.status.overwritten_frames + waiting s.latest_frame
      ≡ s.status.produced_frames
        + s'.status.overwritten_frames
        + waiting s'.latest_frame
        + hands_out a s
        + drops a s
  few_produced : s'.status.produced_frames < s.status.produced_frames + 2
  few_overwritten : s'.status.overwritten_frames < s.status.overwritten_frames + 2

-- A new source.
abbrev pub fresh : String → Source
fresh description = record {
  status = record {
    phase = CameraSourcePhase.starting;
    description = description;
    error = "";
    produced_frames = 0;
    overwritten_frames = 0;
    restart_count = 0;
  };
  latest_frame = none;
  next_sequence = 0;
}

-- A size that is not too large for 64 bits is that of a luminance byte for each pixel and half as many
-- others.
pub frame_size_lem :
    (width height : ℕ)
    → width * height + width * height / 2 < 18_446_744_073_709_551_616
    → frame_size width height ≡ width * height + width * height / 2
unfolding frame_size
frame_size_lem width height small = omega arith
