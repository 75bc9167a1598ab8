-- ===== src/Tracker/Lock.antt =====
-- application/TargetTracker: how an update and a snapshot depend on what the tracker holds.
use companion_lab.Prelude.{
  ◌+◌, ◌≤◌, ◌<◌, ◌≡◌, refl, ap, ◌∙◌, ◌↔◌, ◌⊎◌, inl, inr, true, false, Option, none, some, List,
  arith, Option-cases, is_some,
}
use companion_lab.Prelude.Int.{ℤ, eqb_ℤ_iff}
use companion_lab.Prelude.Time.{TimePoint}
use companion_lab.Prelude.Doubles.{Doubles}
use companion_lab.Prelude.Doubles.{IsOrdered}
use companion_lab.Tracker.{
  CameraFramePosition, TargetPose, TargetObservation, tracking, TargetTracker, empty, expired,
  snapshot,
}
use companion_lab.Tracker.Update.{
  valid_observation, select, first_sight, next_sight, accept, update,
}
use companion_lab.Tracker.Selection.{IsBest, Absent, select-none, select-IsBest}
use companion_lab.Tracker.Invariant.{
  Inv, eligible, settle, observe-settle, current, current-Inv, valid-pose,
}

module _ {D : Type 0} ⦃d : Doubles D⦄ where
  -- Nothing that counts was seen: a target that was not yet seen often enough is let go, and
  -- everything else stays.
  abbrev pub Unseen : TargetTracker D → TargetTracker D → Type 0
  Unseen s s' =
      ((is_some s.target_id ≡ true)
        × (s.consecutive_observations < s.config.required_consecutive_observations)
        × (s' ≡ empty s.config))
      ⊎ (((s.target_id ≡ none)
            ⊎ (s.config.required_consecutive_observations ≤ s.consecutive_observations))
          × (s' ≡ s))

  -- An observation was accepted: of the target that is held, or of a new one.
  pub record Seen (now : TimePoint) (b : TargetObservation D) (s s' : TargetTracker D)
      : Type 0 where
    pub target : s'.target_id ≡ some b.id
    pub time : s'.last_observed_at ≡ some now
    pub margin : s'.latest_decision_margin ≡ some b.decision_margin
    pub count :
        ((s.target_id ≡ none) × (s'.consecutive_observations ≡ 1))
        ⊎ ((s.target_id ≡ some b.id)
            × ((s'.consecutive_observations ≡ s.consecutive_observations + 1)
                ⊎ (s'.consecutive_observations ≡ 4_294_967_295)))

  abbrev pub Outcome :
      List (TargetObservation D) → TimePoint → TargetTracker D → Option (TargetTracker D) → Type 0
  Outcome observations now s none = ⊥
  Outcome observations now s (some s') =
      (Absent (eligible s) observations × Unseen s s')
      ⊎ ((b : TargetObservation D) × IsBest (eligible s) b observations × Seen now b s s')

  first_sight-Seen :
      (b : TargetObservation D) (pose : Option (TargetPose D)) (now : TimePoint)
      (s : TargetTracker D)
      → s.target_id ≡ none
      → is_some pose ≡ true
      → (s' : TargetTracker D) × (first_sight b pose now s ≡ some s') × Seen now b s s'
  unfolding first_sight
  first_sight-Seen b none now s e h = cc
  first_sight-Seen b (some pose) now s e h =
      (_, refl, record { target = refl; time = refl; margin = refl; count = inl (e, refl) })

  next_sight-Seen :
      (b : TargetObservation D) (pose : Option (TargetPose D))
      (previous : Option (CameraFramePosition D)) (now : TimePoint) (s : TargetTracker D)
      → s.target_id ≡ some b.id
      → is_some pose ≡ true
      → is_some previous ≡ true
      → s.consecutive_observations ≤ 4_294_967_295
      → (s' : TargetTracker D) × (next_sight b pose previous now s ≡ some s') × Seen now b s s'
  unfolding next_sight
  next_sight-Seen b none previous now s e h k l = cc
  next_sight-Seen b (some pose) none now s e h k l = cc
  next_sight-Seen b (some pose) (some previous) now s e h k l =
      (_, refl, record { target = e; time = refl; margin = refl; count = inr (e, ground arith) })

  eligible-id :
      (s : TargetTracker D) (b : TargetObservation D) (i : ℤ)
      → eligible s b ≡ true
      → s.target_id ≡ some i
      → s.target_id ≡ some b.id
  eligible-id s b i h e = ground (arith, eqb_ℤ_iff b.id i)

  accept-Seen :
      (b : TargetObservation D) (now : TimePoint) (s : TargetTracker D)
      → Inv s
      → eligible s b ≡ true
      → (s' : TargetTracker D) × (accept (some b) now s ≡ some s') × Seen now b s s'
  unfolding accept
  accept-Seen b now s v h =
      let pose = valid-pose s.config.minimum_decision_margin b (ground arith) in
      elim (Option-cases s.target_id) [
        | inl free ↦ rw (ap is_some free) (first_sight-Seen b b.pose now s free pose)
        | inr (i, held) ↦ rw (ap is_some held) (
            next_sight-Seen b b.pose s.position now s (eligible-id s b i h held) pose
              (v.position ∙ ap is_some held) v.bounded)
      ]

  eligible-finite :
      (s : TargetTracker D) (o : TargetObservation D)
      → eligible s o ≡ true
      → d.is_finite o.decision_margin ≡ true
  unfolding valid_observation
  eligible-finite s o h = ground arith

  accepted-Outcome :
      (observations : List (TargetObservation D)) (now : TimePoint) (s : TargetTracker D)
      (b : TargetObservation D) (u : Option (TargetTracker D))
      → IsBest (eligible s) b observations
      → (s' : TargetTracker D) × (u ≡ some s') × Seen now b s s'
      → Outcome observations now s u
  accepted-Outcome observations now s b u k (s', e, h) = rw e (inr (b, k, h))

  settle-Outcome :
      (l : IsOrdered d) (observations : List (TargetObservation D)) (now : TimePoint)
      (s : TargetTracker D)
      → Inv s
      → Outcome observations now s (settle (select (eligible s) none observations) now s)
  settle-Outcome l observations now s v =
      elim (Option-cases (select (eligible s) none observations)) [
        | inl e ↦ rw e (inl ((select-none (eligible s) none observations e).1, ground arith))
        | inr (b, e) ↦
            let best = select-IsBest l (eligible s) (eligible-finite s) observations b e in
            rw e (
              accepted-Outcome observations now s b (accept (some b) now s) best
                (accept-Seen b now s v best.counted))
      ]

  -- If finite margins are ordered by `<`, an update first lets go of a target that was last seen
  -- longer ago than the timeout, and then either finds no valid observation, or none of the target
  -- that it still holds, or accepts a valid observation with the largest margin: of any target if
  -- it holds none, and otherwise of the held target alone. Without such an observation it lets go of
  -- a target not yet seen often enough in a row, and changes nothing else.
  pub update-Outcome :
      (l : IsOrdered d) (observations : List (TargetObservation D)) (now : TimePoint)
      (s : TargetTracker D)
      → Inv s
      → Outcome observations now (current now s) (update observations now s)
  unfolding update
  update-Outcome l observations now s v =
      rw (observe-settle observations now (current now s))
        (settle-Outcome l observations now (current now s) (current-Inv now s v))

  -- A snapshot shows a target exactly if one is held that was last seen within the timeout, and says
  -- that it is tracked exactly if moreover it was seen often enough in a row; it then shows a
  -- position, a margin and an age.
  pub snapshot-tracking_iff :
      (now : TimePoint) (s : TargetTracker D)
      → Inv s
      → let r = snapshot now s in
        ((is_some r.target_id ≡ true) ↔ ((is_some s.target_id ≡ true) × (expired s now ≡ false)))
        × ((r.phase ≡ tracking) ↔ (
            (is_some r.target_id ≡ true)
            × (s.config.required_consecutive_observations ≤ s.consecutive_observations)))
        × (is_some r.position ≡ is_some r.target_id)
        × (is_some r.latest_decision_margin ≡ is_some r.target_id)
        × (is_some r.observation_age_ms ≡ is_some r.target_id)
  unfolding snapshot
  snapshot-tracking_iff now s v =
      ground (arith, Option-cases s.last_observed_at, v.position, v.margin, v.observed)
