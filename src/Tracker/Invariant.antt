-- ===== src/Tracker/Invariant.antt =====
-- application/TargetTracker: what holds after any updates.
use companion_lab.Prelude.{
  ℕ, ◌+◌, ◌≤◌, ◌≡◌, refl, ◌↔◌, inl, inr, Bool, true, ◌&&◌, Option, none, some, List, [], ◌∷◌, arith,
  length, ltb, if◌then◌else◌, Option-cases, is_some,
}
use companion_lab.Prelude.Time.{TimePoint}
use companion_lab.Prelude.Doubles.{Doubles}
use companion_lab.Tracker.{
  CameraFramePosition, TargetPose, TargetObservation, TargetTrackerConfig, TargetTracker, empty,
  expired, make,
}
use companion_lab.Tracker.Selection.{select-member, select-ext}
use companion_lab.Tracker.Update.{
  may_be, valid_observation, select, first_sight, next_sight, accept, observe, update,
}

module _ {D : Type 0} where
  -- A target is held with its position, margin and time, after one observation at least, or nothing
  -- is.
  pub record Inv (s : TargetTracker D) : Type 0 where
    pub position : is_some s.position ≡ is_some s.target_id
    pub observed : is_some s.last_observed_at ≡ is_some s.target_id
    pub margin : is_some s.latest_decision_margin ≡ is_some s.target_id
    pub counted : (1 ≤ s.consecutive_observations) ↔ (is_some s.target_id ≡ true)
    pub bounded : s.consecutive_observations ≤ 4_294_967_295

  pub empty-Inv : (config : TargetTrackerConfig D) → Inv (empty config)
  unfolding empty
  empty-Inv config = ground arith

  -- The call returns, with the same configuration, and the invariant holds after it; it has seen the
  -- target once more at most.
  abbrev pub Returns : TargetTracker D → Option (TargetTracker D) → Type 0
  Returns s none = ⊥
  Returns s (some s') =
      Inv s'
      × (s'.config ≡ s.config)
      × (s'.consecutive_observations ≤ s.consecutive_observations + 1)

module _ {D : Type 0} ⦃d : Doubles D⦄ where
  pub valid-pose :
      (minimum : D) (o : TargetObservation D)
      → valid_observation minimum o ≡ true
      → is_some o.pose ≡ true
  unfolding valid_observation
  valid-pose minimum o h = ground arith

  first_sight-Returns :
      (o : TargetObservation D) (pose : Option (TargetPose D)) (now : TimePoint)
      (s : TargetTracker D)
      → is_some pose ≡ true
      → Inv s
      → Returns s (first_sight o pose now s)
  unfolding first_sight
  first_sight-Returns o none now s h v = cc
  first_sight-Returns o (some pose) now s h v = ground arith

  next_sight-Returns :
      (o : TargetObservation D) (pose : Option (TargetPose D))
      (previous : Option (CameraFramePosition D)) (now : TimePoint) (s : TargetTracker D)
      → is_some pose ≡ true
      → is_some previous ≡ true
      → is_some s.target_id ≡ true
      → Inv s
      → Returns s (next_sight o pose previous now s)
  unfolding next_sight
  next_sight-Returns o none previous now s h k t v = cc
  next_sight-Returns o (some pose) none now s h k t v = cc
  next_sight-Returns o (some pose) (some previous) now s h k t v = ground arith

  accept-Returns :
      (o : Option (TargetObservation D)) (now : TimePoint) (s : TargetTracker D)
      → ((b : TargetObservation D) → o ≡ some b → is_some b.pose ≡ true)
      → Inv s
      → Returns s (accept o now s)
  unfolding accept
  accept-Returns none now s h v = ground arith
  accept-Returns (some o) now s h v = ground (
    arith,
    first_sight-Returns o o.pose now s (h o refl),
    next_sight-Returns o o.pose s.position now s (h o refl),
  )

  -- The observations that the first loop of `update` does not skip.
  abbrev pub eligible : TargetTracker D → TargetObservation D → Bool
  eligible s o = valid_observation s.config.minimum_decision_margin o && may_be s.target_id o.id

  -- The rest of `update`, from what that loop selects.
  abbrev pub settle :
      Option (TargetObservation D) → TimePoint → TargetTracker D → Option (TargetTracker D)
  settle none now s = some (
      if is_some s.target_id
        && ltb s.consecutive_observations s.config.required_consecutive_observations
      then empty s.config
      else s)
  settle (some o) now s = accept (some o) now s

  eligible_any :
      (s : TargetTracker D)
      → s.target_id ≡ none
      → (o : TargetObservation D)
      → valid_observation s.config.minimum_decision_margin o ≡ eligible s o
  eligible_any s e o = ground arith

  -- The second loop of `update` runs only while no target is held, and then it finds what the first
  -- has found: nothing.
  pub observe-settle :
      (observations : List (TargetObservation D)) (now : TimePoint) (s : TargetTracker D)
      → observe observations now s ≡ settle (select (eligible s) none observations) now s
  unfolding observe accept
  observe-settle observations now s = elim (Option-cases s.target_id) [
    | inl free ↦ ground (
      arith,
      select-ext (valid_observation s.config.minimum_decision_margin) (eligible s)
          (eligible_any s free) none observations,
      Option-cases (select (eligible s) none observations),
    )
    | inr (i, held) ↦ ground (arith, Option-cases (select (eligible s) none observations))
  ]

  settle-Returns :
      (o : Option (TargetObservation D)) (now : TimePoint) (s : TargetTracker D)
      → ((b : TargetObservation D) → o ≡ some b → is_some b.pose ≡ true)
      → Inv s
      → Returns s (settle o now s)
  unfolding empty
  settle-Returns none now s h v = ground (arith, empty-Inv s.config)
  settle-Returns (some o) now s h v = accept-Returns (some o) now s h v

  -- The tracker once it has let go of a target that expired.
  abbrev pub current : TimePoint → TargetTracker D → TargetTracker D
  current now s = if expired s now then empty s.config else s

  pub current-Inv : (now : TimePoint) (s : TargetTracker D) → Inv s → Inv (current now s)
  current-Inv now s v = ground (arith, empty-Inv s.config)

  selected-pose :
      (s : TargetTracker D) (observations : List (TargetObservation D)) (b : TargetObservation D)
      → select (eligible s) none observations ≡ some b
      → is_some b.pose ≡ true
  selected-pose s observations b e = ground (
    arith,
    select-member (eligible s) none observations b e,
    valid-pose s.config.minimum_decision_margin b,
  )

  pub update-Returns :
      (observations : List (TargetObservation D)) (now : TimePoint) (s : TargetTracker D)
      → Inv s
      → Returns (current now s) (update observations now s)
  unfolding update
  update-Returns observations now s v = rw (observe-settle observations now (current now s)) (
      settle-Returns (select (eligible (current now s)) none observations) now (current now s)
        (selected-pose (current now s) observations) (current-Inv now s v))

  -- One update after another; `none` is undefined behaviour.
  pub run :
      Option (TargetTracker D)
      → List (List (TargetObservation D) × TimePoint)
      → Option (TargetTracker D)
  run none us = none
  run (some s) [] = some s
  run (some s) ((observations, now) ∷ us) = run (update observations now s) us

  -- After at most n sights in a row, under this configuration.
  abbrev pub Tracked : TargetTrackerConfig D → ℕ → Option (TargetTracker D) → Type 0
  Tracked config n none = ⊥
  Tracked config n (some s) = Inv s × (s.config ≡ config) × (s.consecutive_observations ≤ n)

  Returns-Tracked :
      (config : TargetTrackerConfig D) (n : ℕ) (now : TimePoint) (s : TargetTracker D)
      (u : Option (TargetTracker D))
      → Tracked config n (some s)
      → Returns (current now s) u
      → Tracked config (n + 1) u
  unfolding empty
  Returns-Tracked config n now s none t r = r
  Returns-Tracked config n now s (some s') t r = ground arith

  Tracked-run :
      (config : TargetTrackerConfig D) (n m : ℕ) (o : Option (TargetTracker D))
      (us : List (List (TargetObservation D) × TimePoint))
      → Tracked config n o
      → n + length us ≤ m
      → Tracked config m (run o us)
  unfolding run
  Tracked-run config n m none us t l = t
  Tracked-run config n m (some s) [] t l = ground arith
  Tracked-run config n m (some s) ((observations, now) ∷ us) t l =
      Tracked-run config (n + 1) m (update observations now s) us
        (Returns-Tracked config n now s (update observations now s) t
          (update-Returns observations now s t.0))
        (omega arith)

  pub make-Tracked :
      (config : TargetTrackerConfig D) (s : TargetTracker D)
      → make config ≡ some s
      → Tracked config 0 (some s)
  unfolding make empty
  make-Tracked config s e = ground arith

  -- No update of a new tracker reads an empty optional, and after each the parts of its state agree;
  -- the configuration stays, and the target was seen at most as many times in a row as there were
  -- updates.
  pub run-make-Tracked :
      (config : TargetTrackerConfig D) (s : TargetTracker D)
      (us : List (List (TargetObservation D) × TimePoint))
      → make config ≡ some s
      → Tracked config (length us) (run (some s) us)
  run-make-Tracked config s us e =
      Tracked-run config 0 (length us) (some s) us (make-Tracked config s e) (omega arith)
