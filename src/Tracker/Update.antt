-- ===== src/Tracker/Update.antt =====
-- application/TargetTracker: `update`.
use companion_lab.Prelude.{
  ◌+◌, ◌%◌, Bool, true, false, not, ◌&&◌, ◌||◌, Option, none, some, List, [], ◌∷◌, ltb,
  if◌then◌else◌, is_some,
}
use companion_lab.Prelude.Int.{ℤ, pos, eqb_ℤ}
use companion_lab.Prelude.Time.{TimePoint}
use companion_lab.Prelude.Doubles.{Doubles}
use companion_lab.Tracker.{
  CameraFramePosition, TargetPose, TargetObservation, TargetTracker, empty, expired,
}

-- `id == *target_id_`, where there is one.
abbrev pub may_be : Option ℤ → ℤ → Bool
may_be none id = true
may_be (some held) id = eqb_ℤ id held

module _ {D : Type 0} ⦃d : Doubles D⦄ where
  valid_position : CameraFramePosition D → Bool
  valid_position p =
      d.is_finite p.right_m
      && (d.is_finite p.down_m && (d.is_finite p.forward_m && d.lt (d.of_decimal 0 0) p.forward_m))

  valid_pose : Option (TargetPose D) → Bool
  valid_pose none = false
  valid_pose (some pose) = valid_position pose.position

  unfoldable pub valid_observation : D → TargetObservation D → Bool
  unfolding valid_pose valid_position
  valid_observation minimum o =
      if not (is_some o.pose)
        || (not (eqb_ℤ o.corrected_bits (pos 0))
            || (not (d.is_finite o.decision_margin) || d.lt o.decision_margin minimum))
      then false
      else valid_pose o.pose

  smooth_position : D → CameraFramePosition D → CameraFramePosition D → CameraFramePosition D
  smooth_position factor previous measurement =
      let retained = d.sub (d.of_decimal 1 0) factor in
      record {
        right_m = d.add (d.mul retained previous.right_m) (d.mul factor measurement.right_m);
        down_m = d.add (d.mul retained previous.down_m) (d.mul factor measurement.down_m);
        forward_m = d.add (d.mul retained previous.forward_m) (d.mul factor measurement.forward_m);
      }

  -- The pointer `selected` after one more observation that is not skipped.
  unfoldable pub better : Option (TargetObservation D) → TargetObservation D → TargetObservation D
  better none o = o
  better (some s) o = if d.lt s.decision_margin o.decision_margin then o else s

  -- A loop over the observations; `counts` tells which ones it does not skip.
  unfoldable pub select :
      (TargetObservation D → Bool)
      → Option (TargetObservation D)
      → List (TargetObservation D)
      → Option (TargetObservation D)
  select counts s [] = s
  select counts s (o ∷ os) = select counts (if counts o then some (better s o) else s) os

  -- The end of `update`, with the reads of `pose` and `position_`; `none` is a read of an empty
  -- optional.
  unfoldable pub first_sight :
      TargetObservation D
      → Option (TargetPose D)
      → TimePoint
      → TargetTracker D
      → Option (TargetTracker D)
  first_sight o none now s = none
  first_sight o (some pose) now s = some (record s {
    target_id = some o.id;
    consecutive_observations = 1;
    accepted_observations = 1;
    position = some pose.position;
    last_observed_at = some now;
    latest_decision_margin = some o.decision_margin;
  })

  unfoldable pub next_sight :
      TargetObservation D
      → Option (TargetPose D)
      → Option (CameraFramePosition D)
      → TimePoint
      → TargetTracker D
      → Option (TargetTracker D)
  unfolding smooth_position
  next_sight o none previous now s = none
  next_sight o (some pose) none now s = none
  next_sight o (some pose) (some previous) now s = some (record s {
    consecutive_observations =
        if ltb s.consecutive_observations 4_294_967_295
        then s.consecutive_observations + 1
        else s.consecutive_observations;
    accepted_observations = (s.accepted_observations + 1) % 18_446_744_073_709_551_616;
    position = some (smooth_position s.config.position_smoothing_factor previous pose.position);
    last_observed_at = some now;
    latest_decision_margin = some o.decision_margin;
  })

  unfoldable pub accept :
      Option (TargetObservation D) → TimePoint → TargetTracker D → Option (TargetTracker D)
  accept none now s = some s
  accept (some o) now s =
      if not (is_some s.target_id)
      then first_sight o o.pose now s
      else next_sight o o.pose s.position now s

  -- `update`, once the tracker has let go of a target that expired.
  unfoldable pub observe :
      List (TargetObservation D) → TimePoint → TargetTracker D → Option (TargetTracker D)
  observe observations now s =
      let valid = valid_observation s.config.minimum_decision_margin in
      let selected = select (λ o. valid o && may_be s.target_id o.id) none observations in
      if not (is_some selected) && is_some s.target_id
      then some (
          if ltb s.consecutive_observations s.config.required_consecutive_observations
          then empty s.config
          else s)
      else accept (if is_some selected then selected else select valid none observations) now s

  unfoldable pub update :
      List (TargetObservation D) → TimePoint → TargetTracker D → Option (TargetTracker D)
  update observations now s = observe observations now (if expired s now then empty s.config else s)
