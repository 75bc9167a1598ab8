-- ===== src/Application/Parts.antt =====
-- application/CompanionApplication: the parts of a poll are defined, and keep the invariant.
use companion_lab.Prelude.{refl, ◌⊎◌, inl, inr, ◌≡◌, Option, none, some, arith}
use companion_lab.Prelude.Time.{TimePoint}
use companion_lab.Prelude.Text.{Bytes}
use companion_lab.Prelude.Doubles.{Doubles}
use companion_lab.Prelude.Outcomes.{
  Outcome, ok, threw, fault, outside, outside_text, defined, ◌>>=◌,
}
use companion_lab.Vehicle.Snapshot.{VehicleSnapshot}
use companion_lab.Failsafe.Invariant.{observe_vehicle-Inv}
use companion_lab.Telemetry.{TelemetryStreamConfigurator, Updated as TelemetryUpdated}
use companion_lab.Telemetry.Invariant.{Inv as TelemetryInv, Returns as TelemetryReturns}
use companion_lab.Vision.{VisionMonitor, TargetDetectionBatch}
use companion_lab.Camera.{CameraFrame, CameraMonitor, Published, poll as camera_poll}
use companion_lab.Camera.Conservation.{Sees, poll-Sees}
use companion_lab.Application.Members.{Impl, witnessed_of, with_witnessed}
use companion_lab.Application.Watch.{
  Surroundings, no_batch, detected, monitored, look, watch, meet_vehicle,
}
use companion_lab.Application.Invariant.{CameraSound, Inv}

-- No undefined behaviour, and no exception but that of a target whose position is not finite.
abbrev pub Safe : {A : Type 0} → (A → Type 0) → Outcome A → Type 0
Safe P (ok a) = P a
Safe P (threw text) = text ≡ "camera target position must be finite"
Safe P fault = ⊥

-- No undefined behaviour, and no exception but that and one of other code, for which E holds.
abbrev pub Contained : {A : Type 0} → Type 0 → (A → Type 0) → Outcome A → Type 0
Contained E P (ok a) = P a
Contained E P (threw text) =
    (text ≡ "camera target position must be finite") ⊎ ((text ≡ outside_text) × E)
Contained E P fault = ⊥

pub Contained-bind :
    {A B : Type 0} (E : Type 0) (P : A → Type 0) (Q : B → Type 0) (o : Outcome A)
    (f : A → Outcome B)
    → Contained E P o
    → ((a : A) → P a → Contained E Q (f a))
    → Contained E Q (o >>= f)
Contained-bind E P Q (ok a) f h k = k a h
Contained-bind E P Q (threw t) f h k = h
Contained-bind E P Q fault f h k = h

pub Safe-Contained :
    {A : Type 0} (E : Type 0) (P : A → Type 0) (o : Outcome A) → Safe P o → Contained E P o
Safe-Contained E P (ok a) h = h
Safe-Contained E P (threw t) h = inl h
Safe-Contained E P fault h = h

pub Contained-weaken :
    {A : Type 0} (E F : Type 0) (P : A → Type 0) (o : Outcome A)
    → (E → F)
    → Contained E P o
    → Contained F P o
Contained-weaken E F P (ok a) w h = h
Contained-weaken E F P (threw t) w (inl h) = inl h
Contained-weaken E F P (threw t) w (inr (h, e)) = inr (h, w e)
Contained-weaken E F P fault w h = h

-- An answer of other code.
pub outside-Contained :
    {A B : Type 0} (E : Type 0) (Q : B → Type 0) (o : Option A) (f : A → Outcome B)
    → (o ≡ none → E)
    → ((a : A) → Contained E Q (f a))
    → Contained E Q (outside o >>= f)
outside-Contained E Q none f e h = inr (refl, e refl)
outside-Contained E Q (some a) f e h = h a

pub Safe-bind :
    {A B : Type 0} (P : A → Type 0) (Q : B → Type 0) (o : Outcome A) (f : A → Outcome B)
    → Safe P o
    → ((a : A) → P a → Safe Q (f a))
    → Safe Q (o >>= f)
Safe-bind P Q (ok a) f h k = k a h
Safe-bind P Q (threw t) f h k = h
Safe-bind P Q fault f h k = h

module _ {D : Type 0} ⦃d : Doubles D⦄ where
  monitored-Safe :
      (o : Option (CameraMonitor D × Option (Published D)))
      → Sees o
      → Safe (λ (c : Option (CameraMonitor D)). CameraSound c) (monitored o)
  monitored-Safe none h = h
  monitored-Safe (some (c, published)) h = h

  detected-Contained :
      {B : Type 0} (Q : B → Type 0) (frame : Option CameraFrame) (vision : Option (VisionMonitor D))
      (batch : Option (TargetDetectionBatch D)) (f : TargetDetectionBatch D → Outcome B)
      → ((b : TargetDetectionBatch D) → Contained (batch ≡ none) Q (f b))
      → Contained (batch ≡ none) Q (detected frame vision batch >>= f)
  unfolding detected
  detected-Contained Q none vision batch f h = h no_batch
  detected-Contained Q (some frame) none batch f h = h no_batch
  detected-Contained Q (some frame) (some vision) batch f h =
      outside-Contained (batch ≡ none) Q batch f (λ e. e) h

  look-Contained :
      (e : Surroundings D) (o : Option (CameraMonitor D))
      → CameraSound o
      → Contained (e.batch ≡ none) (λ (c : Option (CameraMonitor D)). CameraSound c) (look e o)
  unfolding look
  look-Contained e none h = tt
  look-Contained e (some c) h =
      detected-Contained (λ (c : Option (CameraMonitor D)). CameraSound c) e.frame c.vision_monitor
        e.batch _
        (λ batch.
          Safe-Contained (e.batch ≡ none) _ (monitored (camera_poll e.frame batch e.camera_now c)) (
            monitored-Safe (camera_poll e.frame batch e.camera_now c)
              (poll-Sees e.frame batch e.camera_now c h)))

module _ {T P D : Type 0} ⦃d : Doubles D⦄ where
  pub watch-Inv :
      (e : Surroundings D) (s : Impl T P D) → Inv s → Contained (e.batch ≡ none) Inv (watch e s)
  unfolding watch
  watch-Inv e s v =
      Contained-bind (e.batch ≡ none) CameraSound Inv (look e s.camera_monitor) _
        (look-Contained e s.camera_monitor v.1) λ c k. (v.0, k, v.2, v.3)

  pub meet_vehicle-Inv :
      (vehicle : VehicleSnapshot D) (now : TimePoint) (s : Impl T P D)
      → Inv s
      → Inv (meet_vehicle vehicle now s)
  unfolding meet_vehicle with_witnessed witnessed_of
  meet_vehicle-Inv vehicle now s v = (
    record {
      telemetry = v.0.telemetry;
      startup = v.0.startup;
      runtime = v.0.runtime;
      failsafe =
          observe_vehicle-Inv vehicle.connected vehicle.system_id s.companion_link_failsafe
            v.0.failsafe;
    },
    v.1,
    v.2,
    ground (arith, v.3),
  )

pub updated-Safe :
    (u : TelemetryUpdated)
    → TelemetryReturns u
    → Safe (λ (a : TelemetryStreamConfigurator × Option Bytes). TelemetryInv a.0) (defined u)
updated-Safe none h = h
updated-Safe (some (c, frame)) h = h
