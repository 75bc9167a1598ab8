-- ===== src/Vision/Smoothing.antt =====
-- application/VisionMonitor: which of the detected targets it moves.
use companion_lab.Prelude.{
  ◌≡◌, refl, ◌≢◌, ◌⊎◌, inl, inr, Bool, true, ◌&&◌, Option, none, some, List, [], ◌∷◌, arith,
  if◌then◌else◌, Option-cases, is_some,
}
use companion_lab.Prelude.Int.{ℤ, eqb_ℤ, eqb_ℤ_iff}
use companion_lab.Prelude.Time.{TimePoint}
use companion_lab.Prelude.Doubles.{Doubles}
use companion_lab.Tracker.{
  CameraFramePosition, TargetPose, TargetObservation, TargetTrackSnapshot, TargetTracker,
  snapshot as track_snapshot,
}
use companion_lab.Tracker.Update.{update}
use companion_lab.Tracker.Invariant.{Inv as TrackerInv, Returns, update-Returns, current}
use companion_lab.Vision.{
  TargetDetectionBatch, VisionMonitor, place, place_track, count_batch, show_track, process,
}

module _ {D : Type 0} where
  pose_position : Option (TargetPose D) → Option (CameraFramePosition D)
  pose_position none = none
  pose_position (some pose) = some pose.position

  -- Where the first target with this id and a pose is.
  pub position_of : ℤ → List (TargetObservation D) → Option (CameraFramePosition D)
  position_of id [] = none
  position_of id (o ∷ os) =
      if eqb_ℤ o.id id && is_some o.pose then pose_position o.pose else position_of id os

  -- The ids of the targets and whether they have poses.
  pub outline : List (TargetObservation D) → List (ℤ × Bool)
  outline [] = []
  outline (o ∷ os) = (o.id, is_some o.pose) ∷ outline os

  place-outline :
      (id : ℤ) (p : CameraFramePosition D) (os : List (TargetObservation D))
      → outline (place id p os) ≡ outline os
  unfolding place outline
  place-outline id p [] = refl
  place-outline id p (o ∷ os) = ground (arith, place-outline id p os, Option-cases o.pose)

  place-there :
      (id : ℤ) (p : CameraFramePosition D) (os : List (TargetObservation D))
      → ((position_of id os ≡ none) × (place id p os ≡ os))
        ⊎ ((is_some (position_of id os) ≡ true) × (position_of id (place id p os) ≡ some p))
  unfolding place position_of pose_position
  place-there id p [] = inl (refl, refl)
  place-there id p (o ∷ os) = ground (arith, place-there id p os, Option-cases o.pose)

  place-elsewhere :
      (id j : ℤ) (p : CameraFramePosition D) (os : List (TargetObservation D))
      → (id ≡ j) ⊎ (position_of j (place id p os) ≡ position_of j os)
  unfolding place position_of pose_position
  place-elsewhere id j p [] = inr refl
  place-elsewhere id j p (o ∷ os) =
      ground
        (arith, place-elsewhere id j p os, Option-cases o.pose, eqb_ℤ_iff o.id id, eqb_ℤ_iff o.id j)

  -- The targets that are shown, given the track: only that of the track's id has moved.
  pub record IsShown (track : TargetTrackSnapshot D) (j : ℤ) (os os' : List (TargetObservation D))
      : Type 0 where
    pub outlines : outline os' ≡ outline os
    pub others : (track.target_id ≡ some j) ⊎ (position_of j os' ≡ position_of j os)
    pub tracked :
        (position_of j os ≡ none)
        ⊎ (track.target_id ≢ some j)
        ⊎ (track.position ≡ none)
        ⊎ (position_of j os' ≡ track.position)

  place_track-IsShown :
      (track : TargetTrackSnapshot D) (j : ℤ) (os : List (TargetObservation D))
      → IsShown track j os (place_track track.target_id track.position os)
  unfolding place_track
  place_track-IsShown track j os = elim (Option-cases track.target_id) [
    | inl e ↦ ground arith
    | inr (i, e) ↦ elim (Option-cases track.position) [
      | inl f ↦ ground arith
      | inr (p, f) ↦
          ground (arith, place-outline i p os, place-there i p os, place-elsewhere i j p os)
    ]
  ]

module _ {D : Type 0} ⦃d : Doubles D⦄ where
  abbrev pub Shows : ℤ → TargetDetectionBatch D → TimePoint → Option (VisionMonitor D) → Type 0
  Shows j batch now none = ⊥
  Shows j batch now (some s) =
      IsShown (track_snapshot now s.target_tracker) j batch.targets s.latest_targets

  show_track-Shows :
      (j : ℤ) (batch : TargetDetectionBatch D) (now : TimePoint) (s : VisionMonitor D)
      (k : TargetTracker D) (u : Option (TargetTracker D))
      → Returns k u
      → Shows j batch now (show_track u now (count_batch batch now s))
  unfolding show_track count_batch
  show_track-Shows j batch now s k none r = r
  show_track-Shows j batch now s k (some t) r =
      place_track-IsShown (track_snapshot now t) j batch.targets

  -- The targets that a call hands out are those that the detector found, in their order, with their
  -- poses where they had one. The first with a pose under the id that is tracked stands at the
  -- position of the track, and under every other id the position is the detector's.
  pub process-Shows :
      (j : ℤ) (batch : TargetDetectionBatch D) (now : TimePoint) (s : VisionMonitor D)
      → TrackerInv s.target_tracker
      → Shows j batch now (process batch now s)
  unfolding process
  process-Shows j batch now s v =
      show_track-Shows j batch now s (current now s.target_tracker)
        (update batch.targets now s.target_tracker)
        (update-Returns batch.targets now s.target_tracker v)
