-- ===== src/Runtime/Guidance.antt =====
-- application/AutonomyRuntime: what stands behind every request that it sends.
use companion_lab.Prelude.{
  All, ◌+◌, ◌≡◌, refl, inl, inr, true, ◌&&◌, Option, none, some, [], ◌∷◌, String, arith, leb,
  if◌then◌else◌, Bool-cases, Option-cases,
}
use companion_lab.Prelude.Time.{TimePoint, milliseconds}
use companion_lab.Prelude.Doubles.{Doubles}
use companion_lab.Decision.{DesiredMotion, approved-decide, valid_target}
use companion_lab.Failsafe.{accepts}
use companion_lab.Runtime.{AutonomyRuntime, Observation, is_over, is_active, fail}
use companion_lab.Runtime.Update.{
  target_detail, warm_up, pace, steer, Updated, Stage, on, off, begin, update_land_command, guard,
  with_target, guide, proceed, update, reached, finish, target_request,
}
use mathlib.Core.Path.{subst}
use companion_lab.Runtime.Invariant.{
  Holds, Engaged, update-Inv, begin-Engaged, guard-Holds, paced-Inv, Inv, Returns,
}
use companion_lab.Runtime.Pacing.{IsDue, Dues, update-Dues}
use companion_lab.Runtime.Requests.{
  IsGuidance, LandReason, IsAddressed, Justified, Guarded, GuardedStage, guard-Guarded, Lands,
  update_land_command-Lands, Answers, without_target-Answers,
}

module _ {D : Type 0} ⦃d : Doubles D⦄ where
  -- The next landing target is due at this time.
  abbrev NextIs : TimePoint → Updated D → Type 0
  NextIs t none = Unit
  NextIs t (some (r, requests)) = r.next_landing_target ≡ t

  update_land_command-NextIs :
      (now : TimePoint) (r : AutonomyRuntime D)
      → NextIs r.next_landing_target (update_land_command now r)
  unfolding update_land_command fail
  update_land_command-NextIs now r = ground (arith, Option-cases r.vehicle_system_id)

  finish-Lands :
      (detail : String) (o : Observation D) (u : Updated D)
      → Lands o u
      → Answers o (finish detail [] u)
  unfolding finish
  finish-Lands detail o none l = tt
  finish-Lands detail o (some (r, [])) l = tt
  finish-Lands detail o (some (r, q ∷ [])) l = ground (arith, l)
  finish-Lands detail o (some (r, q ∷ q' ∷ qs)) l = elim l [ ]

  -- The intent is for the vehicle and the target of this update.
  abbrev Intends : Observation D → DesiredMotion D → Type 0
  Intends o m =
      (o.vehicle.system_id ≡ some m.vehicle_system_id)
      × (o.target ≡ some m.landing_target)
      × (valid_target m.landing_target ≡ true)

  target_request-IsAddressed :
      (o : Observation D) (m : DesiredMotion D)
      → o.vehicle.connected ≡ true
      → o.vehicle.armed ≡ true
      → accepts o.failsafe ≡ true
      → Intends o m
      → IsAddressed o (target_request m o.now)
  unfolding target_request
  target_request-IsAddressed o m c a f i = record {
    connected = c;
    armed = a;
    failsafe = f;
    vehicle = i.0;
  }

  target_request-IsGuidance :
      (o : Observation D) (m : DesiredMotion D) (r : AutonomyRuntime D)
      → Intends o m
      → r.next_landing_target ≡ o.now + milliseconds 200
      → IsGuidance o r (target_request m o.now)
  unfolding target_request
  target_request-IsGuidance o m r i n = record {
    action = refl;
    position = (m.landing_target, i.1, i.2, refl, refl, refl);
    next = n;
  }

  finish-Guidance :
      (detail : String) (o : Observation D) (m : DesiredMotion D) (u : Updated D)
      → o.vehicle.connected ≡ true
      → o.vehicle.armed ≡ true
      → accepts o.failsafe ≡ true
      → Intends o m
      → NextIs (o.now + milliseconds 200) u
      → Lands o u
      → Answers o (finish detail (target_request m o.now ∷ []) u)
  unfolding finish
  finish-Guidance detail o m none c a f i n l = tt
  finish-Guidance detail o m (some (r, [])) c a f i n l = (
    target_request-IsAddressed o m c a f i,
    inl (target_request-IsGuidance o m (record r { detail = detail }) i n),
  )
  finish-Guidance detail o m (some (r, q ∷ [])) c a f i n l = (
    target_request-IsAddressed o m c a f i,
    target_request-IsGuidance o m (record r { detail = detail }) i n,
    l.0,
    ground (arith, l),
  )
  finish-Guidance detail o m (some (r, q ∷ q' ∷ qs)) c a f i n l = elim l [ ]

  -- The LAND command that may follow an approved target.
  landed : TimePoint → AutonomyRuntime D → Updated D
  landed now r =
      if is_active r.phase && reached r.land_command_after now
      then update_land_command now r
      else some (r, [])

  reached-LandReason :
      (now : TimePoint) (r : AutonomyRuntime D)
      → reached r.land_command_after now ≡ true
      → LandReason now r
  reached-LandReason now r h = elim (Option-cases r.land_command_after) [
    | inl e ↦ ground arith
    | inr (t, e) ↦ inl (t, e, ground arith)
  ]

  landed-Lands :
      (o : Observation D) (r : AutonomyRuntime D) → Guarded o r → Inv r → Lands o (landed o.now r)
  unfolding landed
  landed-Lands o r g v =
      ground (arith, reached-LandReason o.now r, update_land_command-Lands o r g v)

  landed-NextIs :
      (now : TimePoint) (r : AutonomyRuntime D) → NextIs r.next_landing_target (landed now r)
  unfolding landed
  landed-NextIs now r = ground (arith, update_land_command-NextIs now r)

  paced-Guarded :
      (o : Observation D) (r : AutonomyRuntime D)
      → Guarded o r
      → Guarded o (pace o.now (warm_up o.now r))
  unfolding pace warm_up
  paced-Guarded o r g = ground arith

  pace-due :
      (now : TimePoint) (r : AutonomyRuntime D)
      → leb r.next_landing_target now ≡ true
      → (pace now r).next_landing_target ≡ now + milliseconds 200
  unfolding pace
  pace-due now r h = ground arith

  with_target-Answers :
      (o : Observation D) (m : DesiredMotion D) (r : AutonomyRuntime D)
      → Guarded o r
      → Inv r
      → Intends o m
      → Answers o (with_target o.now m r)
  unfolding with_target landed
  with_target-Answers o m r g v i =
      let w = pace o.now (warm_up o.now r) in
      let u = landed o.now w in
      let lands = landed-Lands o w (paced-Guarded o r g) (paced-Inv o.now r v) in
      let detail = target_detail m.landing_target in
      elim (Bool-cases (leb (warm_up o.now r).next_landing_target o.now)) [
        | inl due ↦ rw due (
            finish-Guidance detail o m u g.connected g.armed g.failsafe i
              (subst (λ t. NextIs t u) (pace-due o.now (warm_up o.now r) due)
                (landed-NextIs o.now w))
              lands)
        | inr early ↦ rw early (finish-Lands detail o u lands)
      ]

  steer-Answers :
      (o : Observation D) (m : Option (DesiredMotion D)) (r : AutonomyRuntime D)
      → Guarded o r
      → Inv r
      → ((a : DesiredMotion D) → m ≡ some a → Intends o a)
      → Answers o (steer m o.now r)
  unfolding steer
  steer-Answers o none r g v h = without_target-Answers o r g v
  steer-Answers o (some a) r g v h = with_target-Answers o a r g v (h a refl)

  guide-Answers :
      (o : Observation D) (r : AutonomyRuntime D) → Guarded o r → Inv r → Answers o (guide o r)
  unfolding guide
  guide-Answers o r g v =
      steer-Answers o _ _ (ground arith) (ground arith)
        (λ a e. approved-decide o.vehicle o.target o.now a e)

  proceed-Answers :
      (o : Observation D) (s : Stage D)
      → GuardedStage o s
      → Holds s
      → Answers o (proceed (guide o) s)
  proceed-Answers o (on r) g h = guide-Answers o r g h.0
  proceed-Answers o (off r) g h = tt

  begin-Answers :
      (o : Observation D) (s : Stage D)
      → Engaged s
      → Answers o (proceed (λ r. proceed (guide o) (guard o r)) s)
  begin-Answers o (on r) e =
      proceed-Answers o (guard o r) (guard-Guarded o r e.1) (guard-Holds o r e.0 e.1)
  begin-Answers o (off r) e = tt

  update-Answers : (o : Observation D) (r : AutonomyRuntime D) → Inv r → Answers o (update o r)
  unfolding update
  update-Answers o r v = elim (Bool-cases (is_over r.phase)) [
    | inl over ↦ rw (over, update) tt
    | inr live ↦ rw (live, update) (begin-Answers o (begin o r) (begin-Engaged o r live v))
  ]

  -- The call returns, with requests that are justified by the state after it and due by the state `b`
  -- before it.
  abbrev pub Sends : Observation D → AutonomyRuntime D → Updated D → Type 0
  Sends o b none = ⊥
  Sends o b (some (r, requests)) = Justified o r requests × All (IsDue o.now b) requests

  Answers-Sends :
      (o : Observation D) (b : AutonomyRuntime D) (u : Updated D)
      → Returns u
      → Answers o u
      → Dues o.now b u
      → Sends o b u
  Answers-Sends o b none k a h = k
  Answers-Sends o b (some (r, requests)) k a h = (a, h)

  pub update-Sends : (o : Observation D) (r : AutonomyRuntime D) → Inv r → Sends o r (update o r)
  update-Sends o r v =
      Answers-Sends o r (update o r) (update-Inv o r v) (update-Answers o r v) (update-Dues o r)
