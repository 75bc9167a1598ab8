-- ===== src/Failsafe/Order.antt =====
-- application/CompanionLinkFailsafe: parameters that arrive in another order.
use companion_lab.Prelude.{
  ℕ, ◌≡◌, refl, sym, ap, ◌∙◌, ◌≢◌, Bool, not, ◌||◌, Option, none, some, String, arith, ◌==◌,
  if◌then◌else◌, has,
}
use companion_lab.Prelude.Text.{str_eq, eq_iff}
use companion_lab.Prelude.Doubles.{Doubles}
use companion_lab.Failsafe.{
  CompanionLinkFailsafe, on_parameter, received, store, validated, validate,
}

module _ {D : Type 0} ⦃d : Doubles D⦄ where
  revalidate_action :
      (v : D) (f : CompanionLinkFailsafe D)
      → validate (record (validate f) { raw_action = some v })
        ≡ validate (record f { raw_action = some v })
  unfolding validate received
  revalidate_action v f = ground arith

  revalidate_timeout :
      (v : D) (f : CompanionLinkFailsafe D)
      → validate (record (validate f) { raw_timeout_s = some v })
        ≡ validate (record f { raw_timeout_s = some v })
  unfolding validate received
  revalidate_timeout v f = ground arith

  revalidate_options :
      (v : D) (f : CompanionLinkFailsafe D)
      → validate (record (validate f) { raw_options = some v })
        ≡ validate (record f { raw_options = some v })
  unfolding validate received
  revalidate_options v f = ground arith

  revalidate_gcs :
      (v : D) (f : CompanionLinkFailsafe D)
      → validate (record (validate f) { raw_gcs_system_id = some v })
        ≡ validate (record f { raw_gcs_system_id = some v })
  unfolding validate received
  revalidate_gcs v f = ground arith

-- The raw parameter that an id names.
data Slot : Type 0 where
  action timeout options gcs : Slot

slot_of : String → Option Slot
slot_of id =
    if str_eq id "FS_GCS_ENABLE"
    then some action
    else (if str_eq id "FS_GCS_TIMEOUT"
        then some timeout
        else (if str_eq id "FS_OPTIONS"
            then some options
            else (if str_eq id "SYSID_MYGCS" then some gcs else none)))

slot_of-injective : (i j : String) (s : Slot) → slot_of i ≡ some s → slot_of j ≡ some s → i ≡ j
unfolding slot_of
slot_of-injective i j s p q = ground (
  arith,
  eq_iff i "FS_GCS_ENABLE",
  eq_iff i "FS_GCS_TIMEOUT",
  eq_iff i "FS_OPTIONS",
  eq_iff i "SYSID_MYGCS",
  eq_iff j "FS_GCS_ENABLE",
  eq_iff j "FS_GCS_TIMEOUT",
  eq_iff j "FS_OPTIONS",
  eq_iff j "SYSID_MYGCS",
)

module _ {D : Type 0} where
  put : Slot → D → CompanionLinkFailsafe D → CompanionLinkFailsafe D
  put action v f = record f { raw_action = some v }
  put timeout v f = record f { raw_timeout_s = some v }
  put options v f = record f { raw_options = some v }
  put gcs v f = record f { raw_gcs_system_id = some v }

  put_comm :
      (s t : Slot) (v w : D) (f : CompanionLinkFailsafe D)
      → s ≢ t
      → put s v (put t w f) ≡ put t w (put s v f)
  unfolding put
  put_comm s t v w f h = ground arith

module _ {D : Type 0} ⦃d : Doubles D⦄ where
  revalidate :
      (s : Slot) (v : D) (f : CompanionLinkFailsafe D)
      → validate (put s v (validate f)) ≡ validate (put s v f)
  unfolding put
  revalidate action v f = revalidate_action v f
  revalidate timeout v f = revalidate_timeout v f
  revalidate options v f = revalidate_options v f
  revalidate gcs v f = revalidate_gcs v f

  -- What a parameter from the vehicle does.
  arrive : Option Slot → D → CompanionLinkFailsafe D → CompanionLinkFailsafe D
  arrive none v f = f
  arrive (some s) v f = validate (put s v f)

  validated-store :
      (id : String) (v : D) (f : CompanionLinkFailsafe D)
      → validated f (store id v f) ≡ arrive (slot_of id) v f
  unfolding validated store slot_of arrive put
  validated-store id v f = ground arith

  arrive_comm :
      (s t : Option Slot) (v w : D) (f : CompanionLinkFailsafe D)
      → ((a : Slot) → s ≡ some a → t ≢ some a)
      → arrive s v (arrive t w f) ≡ arrive t w (arrive s v f)
  unfolding arrive
  arrive_comm none t v w f h = refl
  arrive_comm (some a) none v w f h = refl
  arrive_comm (some a) (some b) v w f h =
      revalidate a v (put b w f)
      ∙ ap validate (put_comm a b v w f (λ e. h a refl (ap some (sym e))))
      ∙ sym (revalidate b w (put a v f))

  -- A message counts only if the known vehicle's autopilot sent it.
  heard : ℕ → ℕ → CompanionLinkFailsafe D → Bool
  heard system component f =
      not (not (has f.snapshot.heartbeat_system_id system) || not (component == 1))

  arrive-heartbeat :
      (s : Option Slot) (v : D) (f : CompanionLinkFailsafe D)
      → (arrive s v f).snapshot.heartbeat_system_id ≡ f.snapshot.heartbeat_system_id
  unfolding arrive put validate
  arrive-heartbeat none v f = refl
  arrive-heartbeat (some s) v f = ground arith

  on_parameter-arrive :
      (system component : ℕ) (id : String) (v : D) (f : CompanionLinkFailsafe D)
      → on_parameter system component id v f
        ≡ (if heard system component f then arrive (slot_of id) v f else f)
  unfolding on_parameter heard
  on_parameter-arrive system component id v f = ground (arith, validated-store id v f)

  -- Two parameters with different names may arrive in either order, from whatever systems, with the
  -- same result: the whole state, and so the verdict, is the same.
  pub on_parameter_comm :
      (s c s' c' : ℕ) (i j : String) (v w : D) (f : CompanionLinkFailsafe D)
      → i ≢ j
      → on_parameter s c i v (on_parameter s' c' j w f)
        ≡ on_parameter s' c' j w (on_parameter s c i v f)
  unfolding heard
  on_parameter_comm s c s' c' i j v w f h = ground (
    arith,
    on_parameter-arrive s c i v f,
    on_parameter-arrive s' c' j w f,
    on_parameter-arrive s c i v (on_parameter s' c' j w f),
    on_parameter-arrive s' c' j w (on_parameter s c i v f),
    arrive-heartbeat (slot_of i) v f,
    arrive-heartbeat (slot_of j) w f,
    arrive_comm (slot_of i) (slot_of j) v w f (λ a p q. h (slot_of-injective i j a p q)),
  )
