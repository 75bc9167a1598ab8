-- ===== src/Camera/Conservation.antt =====
-- application/CameraMonitor: the frames received and those counted as lost.
use companion_lab.Prelude.{
  ℕ, ◌+◌, ◌<◌, ◌≡◌, refl, Option, none, some, List, [], ◌∷◌, arith, Option-cases,
}
use companion_lab.Prelude.Time.{TimePoint}
use companion_lab.Prelude.Doubles.{Doubles}
use companion_lab.Tracker.Invariant.{Inv as TrackerInv}
use companion_lab.Vision.{TargetDetectionBatch, VisionMonitor, process}
use companion_lab.Vision.Counts.{process-KeepsTracker}
use companion_lab.Camera.{
  CameraFrame, CameraMonitor, Published, missed, make, count_frame, seen_by, time_frame, finish,
  poll,
}

-- What the source and the detector answer to one poll after another.
abbrev pub Polls : Type 0 → Type 0
Polls D = List (Option CameraFrame × TargetDetectionBatch D × TimePoint)

-- After frame l the numbers of the frames rise, and stay below the last of 64 bits.
abbrev pub Rises : {D : Type 0} → ℕ → Polls D → Type 0
Rises l [] = Unit
Rises l ((none, batch, now) ∷ us) = Rises l us
Rises l ((some f, batch, now) ∷ us) =
    (l < f.sequence) × (f.sequence < 18_446_744_073_709_551_615) × Rises f.sequence us

-- The number of the newest frame.
pub newest : {D : Type 0} → ℕ → Polls D → ℕ
newest l [] = l
newest l ((none, batch, now) ∷ us) = newest l us
newest l ((some f, batch, now) ∷ us) = newest f.sequence us

module _ {D : Type 0} ⦃d : Doubles D⦄ where
  abbrev pub VisionSound : Option (VisionMonitor D) → Type 0
  VisionSound none = Unit
  VisionSound (some v) = TrackerInv v.target_tracker

  -- The last frame is l, and all from number f to it were received or counted as lost.
  pub record Conserves (f l : ℕ) (s : CameraMonitor D) : Type 0 where
    pub last : s.last_sequence ≡ some l
    pub conserved : f + s.received_frames + s.dropped_before_processing ≡ l + 1
    pub vision : VisionSound s.vision_monitor

  count_frame-conserved :
      (f l : ℕ) (frame : CameraFrame) (now : TimePoint) (s : CameraMonitor D)
      → s.last_sequence ≡ some l
      → f + s.received_frames + s.dropped_before_processing ≡ l + 1
      → l < frame.sequence
      → frame.sequence < 18_446_744_073_709_551_615
      → let c = count_frame frame now s in
        f + c.received_frames + c.dropped_before_processing ≡ frame.sequence + 1
  unfolding count_frame missed
  count_frame-conserved f l frame now s e h k b = ground arith

  count_frame-Conserves :
      (f l : ℕ) (frame : CameraFrame) (now : TimePoint) (s : CameraMonitor D)
      → Conserves f l s
      → l < frame.sequence
      → frame.sequence < 18_446_744_073_709_551_615
      → Conserves f frame.sequence (count_frame frame now s)
  count_frame-Conserves f l frame now s c h b = record {
    last = unfold count_frame in refl;
    conserved = count_frame-conserved f l frame now s c.last c.conserved h b;
    vision = unfold count_frame in c.vision;
  }

  first_frame-Conserves :
      (frame : CameraFrame) (now : TimePoint) (vision : Option (VisionMonitor D))
      → VisionSound vision
      → frame.sequence < 18_446_744_073_709_551_615
      → Conserves frame.sequence frame.sequence (count_frame frame now (make vision))
  unfolding count_frame make missed
  first_frame-Conserves frame now vision v b = record {
    last = refl;
    conserved = omega arith;
    vision = v;
  }

  time_frame-Conserves :
      (f l : ℕ) (captured : Option TimePoint) (received : TimePoint) (s : CameraMonitor D)
      → Conserves f l s
      → Conserves f l (time_frame captured received s)
  unfolding time_frame
  time_frame-Conserves f l none received s c = c
  time_frame-Conserves f l (some t) received s c = record {
    last = c.last;
    conserved = c.conserved;
    vision = c.vision;
  }

  -- The detector's part returns, and leaves the tracker well-formed.
  abbrev Answered : Option (Option (VisionMonitor D) × Published D) → Type 0
  Answered none = ⊥
  Answered (some (vision, published)) = VisionSound vision

  seen_by-Answered :
      (vision : Option (VisionMonitor D)) (batch : TargetDetectionBatch D) (now : TimePoint)
      → VisionSound vision
      → Answered (seen_by vision batch now)
  unfolding seen_by
  seen_by-Answered none batch now v = tt
  seen_by-Answered (some m) batch now v =
      ground (arith, Option-cases (process batch now m), process-KeepsTracker batch now m v)

  -- A poll returns, and leaves the tracker well-formed.
  abbrev pub Sees : Option (CameraMonitor D × Option (Published D)) → Type 0
  Sees none = ⊥
  Sees (some (s, published)) = VisionSound s.vision_monitor

  finish-Sees :
      (frame : CameraFrame) (answer : Option (Option (VisionMonitor D) × Published D))
      (at : Option TimePoint) (s : CameraMonitor D)
      → frame.captured_at ≡ at
      → Answered answer
      → Sees (finish frame answer s)
  unfolding finish time_frame
  finish-Sees frame none at s e a = a
  finish-Sees frame (some (vision, published)) none s e a = rw e a
  finish-Sees frame (some (vision, published)) (some t) s e a = rw e a

  pub poll-Sees :
      (frame : Option CameraFrame) (batch : TargetDetectionBatch D) (now : TimePoint)
      (s : CameraMonitor D)
      → VisionSound s.vision_monitor
      → Sees (poll frame batch now s)
  unfolding poll
  poll-Sees none batch now s v = v
  poll-Sees (some frame) batch now s v =
      finish-Sees frame (seen_by (count_frame frame now s).vision_monitor batch now)
        frame.captured_at (count_frame frame now s) refl
        (seen_by-Answered (count_frame frame now s).vision_monitor batch now
          (unfold count_frame in v))

  -- The call returns.
  abbrev pub After : ℕ → ℕ → Option (CameraMonitor D × Option (Published D)) → Type 0
  After f l none = ⊥
  After f l (some (s, published)) = Conserves f l s

  finish-After :
      (f l : ℕ) (frame : CameraFrame) (answer : Option (Option (VisionMonitor D) × Published D))
      (s : CameraMonitor D)
      → Answered answer
      → Conserves f l s
      → After f l (finish frame answer s)
  unfolding finish
  finish-After f l frame none s a c = a
  finish-After f l frame (some (vision, published)) s a c =
      time_frame-Conserves f l frame.captured_at frame.received_at
        (record s { vision_monitor = vision })
        (record { last = c.last; conserved = c.conserved; vision = a })

  counted-After :
      (f l : ℕ) (frame : CameraFrame) (batch : TargetDetectionBatch D) (now : TimePoint)
      (s : CameraMonitor D)
      → Conserves f l (count_frame frame now s)
      → After f l (poll (some frame) batch now s)
  unfolding poll
  counted-After f l frame batch now s c =
      finish-After f l frame (seen_by (count_frame frame now s).vision_monitor batch now)
        (count_frame frame now s)
        (seen_by-Answered (count_frame frame now s).vision_monitor batch now c.vision) c

  pub run :
      Option (CameraMonitor D × Option (Published D))
      → Polls D
      → Option (CameraMonitor D × Option (Published D))
  run none us = none
  run (some (s, published)) [] = some (s, published)
  run (some (s, published)) ((frame, batch, now) ∷ us) = run (poll frame batch now s) us

  run-After :
      (f l : ℕ) (u : Option (CameraMonitor D × Option (Published D))) (us : Polls D)
      → After f l u
      → Rises l us
      → After f (newest l us) (run u us)
  unfolding run newest
  run-After f l none us a r = elim a [ ]
  run-After f l (some (s, published)) [] a r = a
  run-After f l (some (s, published)) ((none, batch, now) ∷ us) a r =
      run-After f l (poll none batch now s) us (unfold poll in a) r
  run-After f l (some (s, published)) ((some frame, batch, now) ∷ us) a r =
      run-After f frame.sequence (poll (some frame) batch now s) us
        (counted-After f frame.sequence frame batch now s
          (count_frame-Conserves f l frame now s a r.0 r.1))
        r.2

  -- If the numbers of the frames rise, then after any polls of a new monitor the frames received and
  -- those counted as lost are together as many as the numbers from the first to the newest.
  pub run-poll-Conserves :
      (vision : Option (VisionMonitor D)) (frame : CameraFrame) (batch : TargetDetectionBatch D)
      (now : TimePoint) (us : Polls D)
      → VisionSound vision
      → frame.sequence < 18_446_744_073_709_551_615
      → Rises frame.sequence us
      → After frame.sequence
          (newest frame.sequence us)
          (run (poll (some frame) batch now (make vision)) us)
  run-poll-Conserves vision frame batch now us v b r =
      run-After frame.sequence frame.sequence (poll (some frame) batch now (make vision)) us
        (counted-After frame.sequence frame.sequence frame batch now (make vision)
          (first_frame-Conserves frame now vision v b))
        r
