-- ===== src/Vision/Counts.antt =====
-- application/VisionMonitor: what its counters hold.
use companion_lab.Prelude.{
  ℕ, ◌+◌, ◌≡◌, inl, inr, Option, none, some, List, [], ◌∷◌, arith, length, if◌then◌else◌,
  Option-cases,
}
use companion_lab.Prelude.Time.{TimePoint}
use companion_lab.Prelude.Doubles.{Doubles}
use companion_lab.Tracker.{TargetTrackerConfig, TargetTracker, make as make_tracker}
use companion_lab.Tracker.Update.{update}
use companion_lab.Tracker.Invariant.{
  Inv as TrackerInv, Returns, update-Returns, make-Tracked, current,
}
use companion_lab.Vision.{
  TargetDetectionBatch, VisionMonitor, wrap, is_empty, make, count_batch, show_track, process,
}

module _ {D : Type 0} where
  pub sizes : List (TargetDetectionBatch D × TimePoint) → ℕ
  sizes [] = 0
  sizes ((b, now) ∷ us) = length b.targets + sizes us

  pub hits : List (TargetDetectionBatch D × TimePoint) → ℕ
  hits [] = 0
  hits ((b, now) ∷ us) = if is_empty b.targets then hits us else 1 + hits us

module _ {D : Type 0} ⦃d : Doubles D⦄ where
  -- After n frames, h of them with targets, and t targets; the counters are 64 bits wide.
  pub record Counted (n h t : ℕ) (s : VisionMonitor D) : Type 0 where
    pub frames : s.processed_frames ≡ wrap n
    pub detections : s.frames_with_targets ≡ wrap h
    pub targets : s.total_targets ≡ wrap t
    pub tracker : TrackerInv s.target_tracker

  -- The call returns, and the counters are right after it.
  abbrev pub CountedAfter : ℕ → ℕ → ℕ → Option (VisionMonitor D) → Type 0
  CountedAfter n h t none = ⊥
  CountedAfter n h t (some s) = Counted n h t s

  -- One frame after another; `none` is undefined behaviour.
  pub run :
      Option (VisionMonitor D)
      → List (TargetDetectionBatch D × TimePoint)
      → Option (VisionMonitor D)
  run none us = none
  run (some s) [] = some s
  run (some s) ((batch, now) ∷ us) = run (process batch now s) us

  -- The call returns, and leaves the tracker well-formed.
  abbrev pub KeepsTracker : Option (VisionMonitor D) → Type 0
  KeepsTracker none = ⊥
  KeepsTracker (some s) = TrackerInv s.target_tracker

  show_track-KeepsTracker :
      (k : TargetTracker D) (u : Option (TargetTracker D)) (now : TimePoint) (s : VisionMonitor D)
      → Returns k u
      → KeepsTracker (show_track u now s)
  unfolding show_track
  show_track-KeepsTracker k none now s r = r
  show_track-KeepsTracker k (some t) now s r = r.0

  pub process-KeepsTracker :
      (batch : TargetDetectionBatch D) (now : TimePoint) (s : VisionMonitor D)
      → TrackerInv s.target_tracker
      → KeepsTracker (process batch now s)
  unfolding process count_batch
  process-KeepsTracker batch now s v =
      show_track-KeepsTracker (current now s.target_tracker)
        (update batch.targets now s.target_tracker) now (count_batch batch now s)
        (update-Returns batch.targets now s.target_tracker v)

  show_track-Counted :
      (n h t : ℕ) (batch : TargetDetectionBatch D) (now : TimePoint) (s : VisionMonitor D)
      (k : TargetTracker D) (u : Option (TargetTracker D))
      → Counted n h t s
      → Returns k u
      → CountedAfter
          (n + 1)
          (if is_empty batch.targets then h else h + 1)
          (t + length batch.targets)
          (show_track u now (count_batch batch now s))
  unfolding show_track count_batch
  show_track-Counted n h t batch now s k none c r = r
  show_track-Counted n h t batch now s k (some w) c r = record {
    frames = ground (arith, c.frames);
    detections = ground (arith, c.detections);
    targets = omega (arith, c.targets);
    tracker = r.0;
  }

  process-Counted :
      (n h t : ℕ) (batch : TargetDetectionBatch D) (now : TimePoint) (s : VisionMonitor D)
      → Counted n h t s
      → CountedAfter
          (n + 1)
          (if is_empty batch.targets then h else h + 1)
          (t + length batch.targets)
          (process batch now s)
  unfolding process
  process-Counted n h t batch now s c =
      show_track-Counted n h t batch now s (current now s.target_tracker)
        (update batch.targets now s.target_tracker) c
        (update-Returns batch.targets now s.target_tracker c.tracker)

  run-Counted :
      (n h t n' h' t' : ℕ) (o : Option (VisionMonitor D))
      (us : List (TargetDetectionBatch D × TimePoint))
      → CountedAfter n h t o
      → n' ≡ n + length us
      → h' ≡ h + hits us
      → t' ≡ t + sizes us
      → CountedAfter n' h' t' (run o us)
  unfolding run hits sizes
  run-Counted n h t n' h' t' none us c a b e = c
  run-Counted n h t n' h' t' (some s) [] c a b e = record {
    frames = omega (arith, c.frames);
    detections = omega (arith, c.detections);
    targets = omega (arith, c.targets);
    tracker = c.tracker;
  }
  run-Counted n h t n' h' t' (some s) ((batch, now) ∷ us) c a b e =
      run-Counted (n + 1) (if is_empty batch.targets then h else h + 1) (t + length batch.targets)
        n' h' t' (process batch now s) us (process-Counted n h t batch now s c) (omega arith)
        (ground arith) (omega arith)

  pub make-Counted :
      (config : TargetTrackerConfig D) (s : VisionMonitor D)
      → make config ≡ some s
      → Counted 0 0 0 s
  unfolding make
  make-Counted config s e = elim (Option-cases (make_tracker config)) [
    | inl refused ↦ ground arith
    | inr (t, made) ↦ ground (arith, make-Tracked config t made)
  ]

  -- No frame makes a new monitor read an empty optional, and its counters tell how many frames there
  -- were, how many of them with targets, and how many targets, all modulo 2 ^ 64.
  pub run-make-Counted :
      (config : TargetTrackerConfig D) (s : VisionMonitor D)
      (us : List (TargetDetectionBatch D × TimePoint))
      → make config ≡ some s
      → CountedAfter (length us) (hits us) (sizes us) (run (some s) us)
  run-make-Counted config s us e =
      run-Counted 0 0 0 (length us) (hits us) (sizes us) (some s) us (make-Counted config s e)
        (omega arith) (omega arith) (omega arith)
