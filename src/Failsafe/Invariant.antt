-- ===== src/Failsafe/Invariant.antt =====
-- application/CompanionLinkFailsafe: what holds after any sequence of calls.
use companion_lab.Prelude.{
  ℕ, ◌≡◌, sym, ap, ◌∙◌, ◌≢◌, ◌↔◌, ◌⊎◌, inl, inr, Bool, true, false, not, ◌||◌, Option, none, some,
  List, [], ◌∷◌, String, arith, ◌==◌, Bool-cases, Option-cases, has, if◌then◌else◌,
}
use companion_lab.Prelude.Doubles.{Doubles}
use companion_lab.Failsafe.{
  ArduPilotGcsFailsafeAction, option_bind, exact_integer, action_of, waiting_for_vehicle,
  CompanionLinkFailsafe, accepts, observe_vehicle, on_parameter, received, store, validated,
  validate, reset, judge, judge_timeout, judge_options, judge_gcs,
}
use companion_lab.Failsafe.Verdict.{IsSafe, accepts-validate_iff}

pub data Event (D : Type 0) : Type 0 where
  observed : Bool → Option ℕ → Event D
  parameter : ℕ → ℕ → String → D → Event D

module _ {D : Type 0} ⦃d : Doubles D⦄ where
  pub step : CompanionLinkFailsafe D → Event D → CompanionLinkFailsafe D
  step f (Event.observed connected id) = observe_vehicle connected id f
  step f (Event.parameter system component id value) = on_parameter system component id value f

  pub run : CompanionLinkFailsafe D → List (Event D) → CompanionLinkFailsafe D
  run f [] = f
  run f (e ∷ es) = run (step f e) es

  pub record Inv (f : CompanionLinkFailsafe D) : Type 0 where
    pub required : f.snapshot.parameters_required ≡ 4
    pub counted : f.snapshot.parameters_received ≡ received f
    pub safe : accepts f.snapshot ≡ true → IsSafe f
    pub waiting : (f.snapshot.phase ≡ waiting_for_vehicle) ↔ (f.snapshot.heartbeat_system_id ≡ none)
    pub forgotten : f.snapshot.heartbeat_system_id ≡ none → f ≡ reset none

  pub reset-Inv : (id : Option ℕ) → Inv (reset id)
  unfolding reset received
  reset-Inv none = ground arith
  reset-Inv (some i) = ground arith

  validate-heartbeat :
      (f : CompanionLinkFailsafe D)
      → (validate f).snapshot.heartbeat_system_id ≡ f.snapshot.heartbeat_system_id
  unfolding validate
  validate-heartbeat f = ground arith

  judge_decides :
      (h : Option ℕ) (a : Option ArduPilotGcsFailsafeAction) (t : Option D) (o g : Option ℕ)
      → (judge h a t o g).0 ≢ waiting_for_vehicle
  unfolding judge judge_timeout judge_options judge_gcs
  judge_decides h none t o g = ground arith
  judge_decides h (some a) none o g = ground arith
  judge_decides h (some a) (some t) none g = ground arith
  judge_decides h (some a) (some t) (some o) none = ground arith
  judge_decides h (some a) (some t) (some o) (some g) = ground arith

  validate_decides :
      (f : CompanionLinkFailsafe D) → (validate f).snapshot.phase ≢ waiting_for_vehicle
  unfolding validate
  validate_decides f = ground (
    arith,
    judge_decides f.snapshot.heartbeat_system_id
        (option_bind (exact_integer f.raw_action 255) action_of) f.raw_timeout_s
        (exact_integer f.raw_options 4_294_967_295) (exact_integer f.raw_gcs_system_id 255),
  )

  IsSafe-validate : (f : CompanionLinkFailsafe D) → IsSafe f → IsSafe (validate f)
  unfolding validate
  IsSafe-validate f h =
      let (g, eg, whole, nonzero, same_id) = h.gcs in
      record {
        lands = h.lands;
        timeout = h.timeout;
        options = h.options;
        gcs = (g, eg, whole, nonzero, validate-heartbeat f ∙ same_id);
      }

  validate-Inv :
      (f : CompanionLinkFailsafe D)
      → f.snapshot.parameters_required ≡ 4
      → f.snapshot.heartbeat_system_id ≢ none
      → Inv (validate f)
  validate-Inv f four known = record {
    required = (unfold validate in ground arith);
    counted = (unfold validate received in ground arith);
    safe = λ h. IsSafe-validate f ((accepts-validate_iff f four).0 h);
    waiting =
        (λ h. absurd (validate_decides f h), λ h. absurd (known (sym (validate-heartbeat f) ∙ h)));
    forgotten = λ h. absurd (known (sym (validate-heartbeat f) ∙ h));
  }

  pub observe_vehicle-Inv :
      (connected : Bool) (id : Option ℕ) (f : CompanionLinkFailsafe D)
      → Inv f
      → Inv (observe_vehicle connected id f)
  unfolding observe_vehicle
  observe_vehicle-Inv connected id f v = ground (arith, reset-Inv none, reset-Inv id)

  store-required :
      (id : String) (value : D) (f g : CompanionLinkFailsafe D)
      → store id value f ≡ some g
      → g.snapshot ≡ f.snapshot
  unfolding store
  store-required id value f g h = ground arith

  pub on_parameter-Inv :
      (system component : ℕ) (id : String) (value : D) (f : CompanionLinkFailsafe D)
      → Inv f
      → Inv (on_parameter system component id value f)
  unfolding on_parameter validated
  on_parameter-Inv system component id value f v =
      elim (Bool-cases (not (has f.snapshot.heartbeat_system_id system) || not (component == 1))) [
        | inl ignored ↦ rw ignored v
        | inr heard ↦ rw heard (elim (Option-cases (store id value f)) [
          | inl unknown ↦ rw (unknown, validated) v
          | inr (g, stored) ↦
              rw (stored, validated)
                (let same_snapshot = store-required id value f g stored in
                  validate-Inv g (ap (λ s. s.parameters_required) same_snapshot ∙ v.required)
                    (λ lost. ground (arith, same_snapshot)))
        ])
      ]

  step-Inv : (f : CompanionLinkFailsafe D) (e : Event D) → Inv f → Inv (step f e)
  unfolding step
  step-Inv f (Event.observed connected id) v = observe_vehicle-Inv connected id f v
  step-Inv f (Event.parameter system component id value) v =
      on_parameter-Inv system component id value f v

  run-Inv : (f : CompanionLinkFailsafe D) (es : List (Event D)) → Inv f → Inv (run f es)
  unfolding run
  run-Inv f [] v = v
  run-Inv f (e ∷ es) v = run-Inv (step f e) es (step-Inv f e v)

  pub run-reset-Inv : (es : List (Event D)) → Inv (run (reset none) es)
  run-reset-Inv es = run-Inv (reset none) es (reset-Inv none)

  -- Given the invariant, once the vehicle is lost (not connected, or without an id) the object is
  -- as a new one, and once another vehicle replaces it the object is as one that was just set up for
  -- that vehicle: no parameter and no verdict is carried over.
  pub observe_vehicle-forgets :
      (connected : Bool) (id : Option ℕ) (f : CompanionLinkFailsafe D)
      → Inv f
      → (connected ≡ false) ⊎ (id ≢ f.snapshot.heartbeat_system_id)
      → observe_vehicle connected id f ≡ reset (if connected then id else none)
  unfolding observe_vehicle
  observe_vehicle-forgets connected id f v h = ground (arith, v.forgotten)
