-- ===== src/Application/Consistent.antt =====
-- application/CompanionApplication: which options the constructor accepts, and that calls on the new
-- application are defined.
use companion_lab.Prelude.{
  differ, ◌≡◌, refl, sym, ap, ◌∙◌, Bool, true, false, not, ◌&&◌, ◌||◌, Option, none, some, String,
  arith, is_some, Option-cases, inl, inr,
}
use companion_lab.Prelude.Doubles.{Doubles}
use companion_lab.Prelude.Outcomes.{Outcome, ok, threw, fault, throw_if, or_throw, ◌>>=◌, ◌>>◌}
use companion_lab.Startup.{
  FlightStartupConfig, FlightStartupController, make as make_startup, restart as restart_startup,
}
use companion_lab.Startup.Invariant.{make-Inv as startup_make-Inv}
use companion_lab.Runtime.{
  AutonomyRuntimeConfig, AutonomyRuntime, make as make_runtime, restart as restart_runtime,
}
use companion_lab.Runtime.Invariant.{make-Inv as runtime_make-Inv}
use companion_lab.Failsafe.Invariant.{reset-Inv as failsafe_reset-Inv}
use companion_lab.Telemetry.Invariant.{reset-Inv as telemetry_reset-Inv}
use companion_lab.Vision.Counts.{make-Counted}
use companion_lab.Vision.{make as make_vision}
use companion_lab.Camera.{CameraMonitor, make as make_camera}
use companion_lab.Application.Construct.{
  CompanionApplicationOptions, startup_enabled, runtime_enabled, default_tracker, make_monitor,
  make,
}
use companion_lab.Application.Members.{Impl}
use companion_lab.Application.Invariant.{CameraSound, RigidIfAny, Inv}

-- Accepted with P, or refused without Q, and never undefined.
abbrev pub Answers : {A : Type 0} → (A → Type 0) → Type 0 → Outcome A → Type 0
Answers P Q (ok a) = P a
Answers P Q (threw text) = ¬ Q
Answers P Q fault = ⊥

not_apart : (a b : Bool) → a ≡ b → differ a b ≡ false
not_apart true b h = ground arith
not_apart false b h = ground arith

apart : (a b : Bool) → differ a b ≡ false → a ≡ b
apart true b h = ground arith
apart false b h = ground arith

or_throw-Answers :
    {A B : Type 0} (P : B → Type 0) (Q : Type 0) (o : Option A) (text : String) (f : A → Outcome B)
    → (Q → is_some o ≡ true)
    → ((a : A) → o ≡ some a → Answers P Q (f a))
    → Answers P Q (or_throw o text >>= f)
or_throw-Answers P Q none text f h k = λ q. cc (h q)
or_throw-Answers P Q (some a) text f h k = k a refl

throw_if-Answers :
    {B : Type 0} (P : B → Type 0) (Q : Type 0) (b : Bool) (text : String) (k : Outcome B)
    → (Q → b ≡ false)
    → (b ≡ false → Answers P Q k)
    → Answers P Q (throw_if b text >> k)
throw_if-Answers P Q true text k h f = λ q. cc (h q)
throw_if-Answers P Q false text k h f = f refl

module _ {D : Type 0} ⦃d : Doubles D⦄ where
  -- Options that fit together: each component accepts its own; startup and runtime are both on or both
  -- off, and on only with permission and with extrinsics; extrinsics come with a detector, and a
  -- detector or a preview with a camera.
  pub record IsConsistent (o : CompanionApplicationOptions D) : Type 0 where
    pub startup : is_some (make_startup o.flight_startup) ≡ true
    pub runtime : is_some (make_runtime {D = D} o.autonomy_runtime) ≡ true
    pub tracker : is_some (make_monitor {D = D} o.camera_source o.target_detector) ≡ true
    pub together : o.flight_startup.enabled ≡ o.autonomy_runtime.enabled
    pub permitted : o.flight_startup.enabled ≡ true → o.motion_commands_allowed ≡ true
    pub guided : o.autonomy_runtime.enabled ≡ true → is_some o.camera_extrinsics ≡ true
    pub detected : is_some o.camera_extrinsics ≡ true → o.target_detector ≡ true
    pub filmed : o.target_detector || o.camera_preview_sink ≡ true → o.camera_source ≡ true

  startup_enabled-make :
      (config : FlightStartupConfig D) (c : FlightStartupController D)
      → make_startup config ≡ some c
      → startup_enabled c.phase ≡ config.enabled
  unfolding make_startup restart_startup
  startup_enabled-make config c h = ground arith

  runtime_enabled-make :
      (config : AutonomyRuntimeConfig) (r : AutonomyRuntime D)
      → make_runtime config ≡ some r
      → runtime_enabled r.phase ≡ config.enabled
  unfolding make_runtime restart_runtime
  runtime_enabled-make config r h = ground arith

  make_monitor-CameraSound :
      (source detector : Bool) (c : Option (CameraMonitor D))
      → make_monitor source detector ≡ some c
      → CameraSound c
  unfolding make_monitor make_camera
  make_monitor-CameraSound false detector c h = ground arith
  make_monitor-CameraSound true false c h = ground arith
  make_monitor-CameraSound true true c h =
      elim (Option-cases (make_vision {D = D} default_tracker)) [
        | inl refused ↦ ground arith
        | inr (v, made) ↦ ground (arith, (make-Counted default_tracker v made).tracker)
      ]

module _ {T P D : Type 0} ⦃d : Doubles D⦄ where
  abbrev pub Accepts : CompanionApplicationOptions D → Impl T P D → Type 0
  Accepts o s = Inv s × IsConsistent o

  -- Given rigid extrinsics, or none, the constructor accepts exactly the options that fit together, and
  -- the new application satisfies the invariant.
  pub make-Answers :
      (o : CompanionApplicationOptions D) (t : T) (p : P)
      → RigidIfAny o.camera_extrinsics
      → Answers (Accepts o) (IsConsistent o) (make o t p)
  unfolding make
  make-Answers o t p rigid =
      or_throw-Answers (Accepts o) (IsConsistent o) (make_startup o.flight_startup) _ _
        (λ (q : IsConsistent o). q.startup)
        λ u u_made.
          or_throw-Answers (Accepts o) (IsConsistent o) (make_runtime o.autonomy_runtime) _ _
            (λ (q : IsConsistent o). q.runtime)
            λ r r_made.
              let u_on = startup_enabled-make o.flight_startup u u_made in
              let r_on = runtime_enabled-make o.autonomy_runtime r r_made in
              throw_if-Answers (Accepts o) (IsConsistent o)
                (differ (startup_enabled u.phase) (runtime_enabled r.phase)) _ _
                (λ (q : IsConsistent o). not_apart _ _ (u_on ∙ q.together ∙ sym r_on))
                λ together.
                  throw_if-Answers (Accepts o) (IsConsistent o)
                    (not o.motion_commands_allowed && startup_enabled u.phase) _ _
                    (λ (q : IsConsistent o). ground (arith, u_on))
                    λ permitted.
                      or_throw-Answers (Accepts o) (IsConsistent o)
                        (make_monitor o.camera_source o.target_detector) _ _
                        (λ (q : IsConsistent o). q.tracker)
                        λ camera camera_made.
                          throw_if-Answers (Accepts o) (IsConsistent o)
                            (not o.camera_source && (o.target_detector || o.camera_preview_sink)) _
                            _ (λ (q : IsConsistent o). ground arith)
                            λ filmed.
                              throw_if-Answers (Accepts o) (IsConsistent o)
                                (is_some o.camera_extrinsics && not o.target_detector) _ _
                                (λ (q : IsConsistent o). ground arith)
                                λ detected.
                                  throw_if-Answers (Accepts o) (IsConsistent o)
                                    (runtime_enabled r.phase && not (is_some o.camera_extrinsics)) _
                                    _ (λ (q : IsConsistent o). ground (arith, r_on))
                                    λ guided. (
                                      (
                                        record {
                                          telemetry = telemetry_reset-Inv;
                                          startup = startup_make-Inv o.flight_startup u u_made;
                                          runtime = runtime_make-Inv o.autonomy_runtime r r_made;
                                          failsafe = failsafe_reset-Inv none;
                                        },
                                        make_monitor-CameraSound o.camera_source o.target_detector
                                            camera camera_made,
                                        rigid,
                                        omega arith,
                                      ),
                                      record {
                                        startup = ap is_some u_made;
                                        runtime = ap is_some r_made;
                                        tracker = ap is_some camera_made;
                                        together = sym u_on ∙ apart _ _ together ∙ r_on;
                                        permitted = ground (arith, u_on);
                                        guided = ground (arith, r_on);
                                        detected = ground arith;
                                        filmed = ground arith;
                                      },
                                    )
