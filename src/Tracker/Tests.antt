-- ===== src/Tracker/Tests.antt =====
-- application/TargetTracker: the theorems at concrete inputs.
use companion_lab.Prelude.{ℕ, ◌≡◌, refl, some, [], ◌∷◌, List, arith}
use companion_lab.Prelude.Int.{ℤ, pos}
use companion_lab.Prelude.Time.{TimePoint, seconds}
use companion_lab.Examples.{thousandths, thousandths-IsOrdered}
use companion_lab.Tracker.{TargetObservation, TargetTrackerConfig, TargetTracker, empty, make}
use companion_lab.Tracker.Update.{update}
use companion_lab.Tracker.Invariant.{Inv, Tracked, run, current, run-make-Tracked}
use companion_lab.Tracker.Lock.{Outcome, update-Outcome}

abbrev config : TargetTrackerConfig ℕ
config = record {
  required_consecutive_observations = 3;
  loss_timeout = pos 500;
  position_smoothing_factor = 350;
  minimum_decision_margin = 20000;
}

make-empty : make config ≡ some (empty config)
unfolding make
make-empty = refl

-- A tag with this id and decision margin, five metres ahead.
abbrev tag : ℤ → ℕ → TargetObservation ℕ
tag id margin = record {
  id = id;
  family = "tag36h11";
  center = record { x_px = 320000; y_px = 240000 };
  corners = [];
  corrected_bits = pos 0;
  decision_margin = margin;
  pose = some (record {
    position = record { right_m = 100; down_m = 200; forward_m = 5000 };
    rotation_tag_to_camera = [];
    object_space_error = 0;
  });
}

abbrev sights : List (List (TargetObservation ℕ) × TimePoint)
sights =
    (tag (pos 4) 40000 ∷ tag (pos 7) 50000 ∷ [], seconds 1)
    ∷ (tag (pos 4) 60000 ∷ tag (pos 7) 30000 ∷ [], seconds 1)
    ∷ ([], seconds 9)
    ∷ []

run-make-Tracked_example : Tracked config 3 (run (some (empty config)) sights)
run-make-Tracked_example = run-make-Tracked config (empty config) sights make-empty

-- Tag 7 was seen twice.
abbrev holding : TargetTracker ℕ
holding = record {
  config = config;
  target_id = some (pos 7);
  consecutive_observations = 2;
  accepted_observations = 2;
  last_observed_at = some (seconds 1);
  latest_decision_margin = some 30000;
  position = some (record { right_m = 100; down_m = 200; forward_m = 5000 });
}

holding-Inv : Inv holding
holding-Inv = ground arith

update-Outcome_example :
    Outcome
      (tag (pos 4) 60000 ∷ tag (pos 7) 30000 ∷ [])
      (seconds 1)
      (current (seconds 1) holding)
      (update (tag (pos 4) 60000 ∷ tag (pos 7) 30000 ∷ []) (seconds 1) holding)
update-Outcome_example =
    update-Outcome thousandths-IsOrdered (tag (pos 4) 60000 ∷ tag (pos 7) 30000 ∷ []) (seconds 1)
      holding holding-Inv
