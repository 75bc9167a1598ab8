-- ===== src/Tracker.antt =====
-- application/TargetTracker, with the observations of domain/TargetObservation: holds on to one
-- target, smooths its position, and lets go of it when it is no longer seen.
pub mod Update
pub mod Selection
pub mod Invariant
pub mod Lock
mod Tests
use companion_lab.Prelude.{
  ℕ, ◌-◌, Bool, false, not, ◌&&◌, ◌||◌, Option, none, some, List, String, ltb, leb, ◌==◌,
  if◌then◌else◌, is_some,
}
use companion_lab.Prelude.Int.{ℤ, pos, leb_ℤ, pos_part}
use companion_lab.Prelude.Time.{TimePoint, milliseconds}
use companion_lab.Prelude.Doubles.{Doubles}

pub record ImagePoint (D : Type 0) : Type 0 where
  pub x_px : D
  pub y_px : D

pub record CameraFramePosition (D : Type 0) : Type 0 where
  pub right_m : D
  pub down_m : D
  pub forward_m : D

pub record TargetPose (D : Type 0) : Type 0 where
  pub position : CameraFramePosition D
  pub rotation_tag_to_camera : List D
  pub object_space_error : D

pub record TargetObservation (D : Type 0) : Type 0 where
  pub id : ℤ
  pub family : String
  pub center : ImagePoint D
  pub corners : List (ImagePoint D)
  pub corrected_bits : ℤ
  pub decision_margin : D
  pub pose : Option (TargetPose D)

pub data TargetTrackPhase : Type 0 where
  searching acquiring tracking : TargetTrackPhase

-- The timeout is a signed number of milliseconds.
pub record TargetTrackerConfig (D : Type 0) : Type 0 where
  pub required_consecutive_observations : ℕ
  pub loss_timeout : ℤ
  pub position_smoothing_factor : D
  pub minimum_decision_margin : D

pub record TargetTrackSnapshot (D : Type 0) : Type 0 where
  pub phase : TargetTrackPhase
  pub target_id : Option ℤ
  pub consecutive_observations : ℕ
  pub required_observations : ℕ
  pub accepted_observations : ℕ
  pub observation_age_ms : Option D
  pub latest_decision_margin : Option D
  pub position : Option (CameraFramePosition D)

pub record TargetTracker (D : Type 0) : Type 0 where
  pub config : TargetTrackerConfig D
  pub target_id : Option ℤ
  pub consecutive_observations : ℕ
  pub accepted_observations : ℕ
  pub last_observed_at : Option TimePoint
  pub latest_decision_margin : Option D
  pub position : Option (CameraFramePosition D)

-- No target is held: the state of a new tracker, and `reset`.
unfoldable pub empty : {D : Type 0} → TargetTrackerConfig D → TargetTracker D
empty config = record {
  config = config;
  target_id = none;
  consecutive_observations = 0;
  accepted_observations = 0;
  last_observed_at = none;
  latest_decision_margin = none;
  position = none;
}

unfoldable expired_since : ℤ → Option TimePoint → TimePoint → Bool
expired_since timeout none now = false
expired_since timeout (some t) now = leb t now && ltb (milliseconds (pos_part timeout)) (now - t)

module _ {D : Type 0} where
  unfoldable pub expired : TargetTracker D → TimePoint → Bool
  unfolding expired_since
  expired s now = expired_since s.config.loss_timeout s.last_observed_at now

module _ {D : Type 0} ⦃d : Doubles D⦄ where
  -- The constructor; `none` is its exception.
  unfoldable pub make : TargetTrackerConfig D → Option (TargetTracker D)
  make config =
      let zero_d = d.of_decimal 0 0 in
      let factor = config.position_smoothing_factor in
      let margin = config.minimum_decision_margin in
      if config.required_consecutive_observations == 0
      then none
      else (if leb_ℤ config.loss_timeout (pos 0)
          then none
          else (if not (d.is_finite factor)
                || (d.le factor zero_d || d.lt (d.of_decimal 1 0) factor)
              then none
              else (if not (d.is_finite margin) || d.lt margin zero_d
                  then none
                  else some (empty config))))

  -- `duration<double, std::milli>(now - t).count()`, or zero if t is later.
  age_ms : Option TimePoint → TimePoint → Option D
  age_ms none now = none
  age_ms (some t) now =
      some (d.div (d.of_int (pos (if leb t now then now - t else 0))) (d.of_int (pos 1_000_000)))

  unfoldable pub snapshot : TimePoint → TargetTracker D → TargetTrackSnapshot D
  unfolding age_ms
  snapshot now s =
      let result : TargetTrackSnapshot D = record {
        phase = searching;
        target_id = none;
        consecutive_observations = 0;
        required_observations = s.config.required_consecutive_observations;
        accepted_observations = 0;
        observation_age_ms = none;
        latest_decision_margin = none;
        position = none;
      } in
      if not (is_some s.target_id) || expired s now then result else record result {
        phase =
            if leb s.config.required_consecutive_observations s.consecutive_observations
            then tracking
            else acquiring;
        target_id = s.target_id;
        consecutive_observations = s.consecutive_observations;
        accepted_observations = s.accepted_observations;
        latest_decision_margin = s.latest_decision_margin;
        position = s.position;
        observation_age_ms = age_ms s.last_observed_at now;
      }
