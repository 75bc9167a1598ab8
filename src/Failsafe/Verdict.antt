-- ===== src/Failsafe/Verdict.antt =====
-- application/CompanionLinkFailsafe: which parameter values are accepted.
use companion_lab.Prelude.{
  ℕ, zero, suc, ◌≤◌, ◌≡◌, refl, ap, ◌≢◌, ◌↔◌, true, false, Option, none, some, bit_and, arith,
}
use companion_lab.Prelude.Doubles.{Doubles}
use companion_lab.Failsafe.{
  CompanionLinkFailsafePhase, accepted, ArduPilotGcsFailsafeAction, CompanionLinkFailsafe, accepts,
  land, exact_integer, action_of, timeout_in_range, judge_gcs, judge_options, judge_timeout, judge,
  received, validate, option_bind,
}

action_of-land : (n : ℕ) → action_of n ≡ some land → n ≡ 5
unfolding action_of
action_of-land zero h = cc
action_of-land (suc zero) h = cc
action_of-land (suc (suc zero)) h = cc
action_of-land (suc (suc (suc zero))) h = cc
action_of-land (suc (suc (suc (suc zero)))) h = cc
action_of-land (suc (suc (suc (suc (suc zero))))) h = refl
action_of-land (suc (suc (suc (suc (suc (suc zero)))))) h = cc
action_of-land (suc (suc (suc (suc (suc (suc (suc zero))))))) h = cc
action_of-land (suc (suc (suc (suc (suc (suc (suc (suc n)))))))) h = cc

land_iff : (o : Option ℕ) → (option_bind o action_of ≡ some land) ↔ (o ≡ some 5)
unfolding action_of
land_iff none = ground arith
land_iff (some n) = (λ h. ap some (action_of-land n h), λ h. ground arith)

module _ {D : Type 0} ⦃d : Doubles D⦄ where
  -- A finite whole number in [0, maximum].
  pub record IsWhole (maximum : ℕ) (v : D) : Type 0 where
    pub finite : d.is_finite v ≡ true
    pub not_negative : d.lt v (d.of_decimal 0 0) ≡ false
    pub not_above : d.lt (d.of_decimal maximum 0) v ≡ false
    pub whole : d.eq (d.trunc v) v ≡ true

  -- ArduPilot lands, 2 to 10 seconds after the companion heartbeat stops, in every flight mode, and
  -- listens to the heartbeat that this system sends.
  pub record IsSafe (f : CompanionLinkFailsafe D) : Type 0 where
    pub lands : (v : D) × (f.raw_action ≡ some v) × IsWhole 255 v × (d.to_ℕ v ≡ 5)
    pub timeout :
        (v : D) × (f.raw_timeout_s ≡ some v)
        × (d.is_finite v ≡ true)
        × (d.lt v (d.of_decimal 2 0) ≡ false)
        × (d.lt (d.of_decimal 10 0) v ≡ false)
    pub options :
        (v : D) × (f.raw_options ≡ some v) × IsWhole 4_294_967_295 v × (bit_and (d.to_ℕ v) 18 ≡ 0)
    pub gcs :
        (v : D) × (f.raw_gcs_system_id ≡ some v)
        × IsWhole 255 v
        × (d.to_ℕ v ≢ 0)
        × (f.snapshot.heartbeat_system_id ≡ some (d.to_ℕ v))

  exact_integer_iff :
      (raw : Option D) (maximum n : ℕ)
      → (exact_integer raw maximum ≡ some n)
        ↔ ((v : D) × (raw ≡ some v) × IsWhole maximum v × (d.to_ℕ v ≡ n))
  unfolding exact_integer
  exact_integer_iff none maximum n = ground arith
  exact_integer_iff (some v) maximum n =
      (λ h. (v, refl, ground arith, ground arith), λ h. ground arith)

  judge_gcs_iff :
      (heartbeat : Option ℕ) (timeout : D) (gcs : Option ℕ)
      → ((judge_gcs heartbeat timeout gcs).0 ≡ accepted)
        ↔ ((g : ℕ) × (gcs ≡ some g) × (g ≢ 0) × (heartbeat ≡ some g))
  unfolding judge_gcs
  judge_gcs_iff heartbeat timeout none = ground arith
  judge_gcs_iff none timeout (some g) = ground arith
  judge_gcs_iff (some h) timeout (some g) =
      (λ e. (g, refl, ground arith, ground arith), λ e. ground arith)

  judge_options_iff :
      (heartbeat : Option ℕ) (timeout : D) (options gcs : Option ℕ)
      → ((judge_options heartbeat timeout options gcs).0 ≡ accepted) ↔ (
          ((o : ℕ) × (options ≡ some o) × (bit_and o 18 ≡ 0))
          × ((judge_gcs heartbeat timeout gcs).0 ≡ accepted))
  unfolding judge_options
  judge_options_iff heartbeat timeout none gcs = ground arith
  judge_options_iff heartbeat timeout (some o) gcs =
      (λ e. ((o, refl, ground arith), ground arith), λ e. ground arith)

  judge_timeout_iff :
      (heartbeat : Option ℕ) (timeout : Option D) (options gcs : Option ℕ)
      → ((judge_timeout heartbeat timeout options gcs).0 ≡ accepted) ↔ (
          (v : D) × (timeout ≡ some v)
          × (timeout_in_range v ≡ true)
          × ((judge_options heartbeat v options gcs).0 ≡ accepted))
  unfolding judge_timeout
  judge_timeout_iff heartbeat none options gcs = ground arith
  judge_timeout_iff heartbeat (some v) options gcs =
      (λ e. (v, refl, ground arith, ground arith), λ e. ground arith)

  judge_iff :
      (heartbeat : Option ℕ) (action : Option ArduPilotGcsFailsafeAction) (timeout : Option D)
      (options gcs : Option ℕ)
      → ((judge heartbeat action timeout options gcs).0 ≡ accepted)
        ↔ ((action ≡ some land) × ((judge_timeout heartbeat timeout options gcs).0 ≡ accepted))
  unfolding judge
  judge_iff heartbeat none timeout options gcs = ground arith
  judge_iff heartbeat (some action) timeout options gcs = ground arith

  -- The verdict of a validation over all four parameters.
  verdict : CompanionLinkFailsafe D → CompanionLinkFailsafePhase
  verdict f =
      (judge f.snapshot.heartbeat_system_id (option_bind (exact_integer f.raw_action 255) action_of)
        f.raw_timeout_s (exact_integer f.raw_options 4_294_967_295)
        (exact_integer f.raw_gcs_system_id 255)).0

  accepts-verdict :
      (f : CompanionLinkFailsafe D)
      → f.snapshot.parameters_required ≡ 4
      → (accepts (validate f).snapshot ≡ true) ↔ ((4 ≤ received f) × (verdict f ≡ accepted))
  unfolding validate verdict
  accepts-verdict f four = ground arith

  verdict→IsSafe : (f : CompanionLinkFailsafe D) → verdict f ≡ accepted → IsSafe f
  unfolding verdict timeout_in_range
  verdict→IsSafe f h =
      let (act, later) = (judge_iff _ _ _ _ _).0 h in
      let (t, timed, ranged, last) = (judge_timeout_iff _ _ _ _).0 later in
      let ((o, masked, clear), end) = (judge_options_iff _ _ _ _).0 last in
      let (g, id, nonzero, same_id) = (judge_gcs_iff _ _ _).0 end in
      let (av, a, a_whole, a_is) = (exact_integer_iff f.raw_action 255 5).0 ((land_iff _).0 act) in
      let (ov, b, o_whole, o_is) = (exact_integer_iff f.raw_options _ o).0 masked in
      let (gv, c, g_whole, g_is) = (exact_integer_iff f.raw_gcs_system_id 255 g).0 id in
      record {
        lands = (av, a, a_whole, a_is);
        timeout = (t, timed, ground arith, ground arith, ground arith);
        options = (ov, b, o_whole, rw o_is clear);
        gcs = (gv, c, g_whole, rw g_is nonzero, rw g_is same_id);
      }

  IsSafe→verdict : (f : CompanionLinkFailsafe D) → IsSafe f → verdict f ≡ accepted
  unfolding verdict timeout_in_range
  IsSafe→verdict f h =
      let (av, a, a_whole, a_is) = h.lands in
      let (t, timed, finite, low, high) = h.timeout in
      let (ov, b, o_whole, clear) = h.options in
      let (gv, c, g_whole, nonzero, same_id) = h.gcs in
      let act = (land_iff _).1 ((exact_integer_iff f.raw_action 255 5).1 (av, a, a_whole, a_is)) in
      let masked =
        (exact_integer_iff f.raw_options 4_294_967_295 (d.to_ℕ ov)).1 (ov, b, o_whole, refl) in
      let id = (exact_integer_iff f.raw_gcs_system_id 255 (d.to_ℕ gv)).1 (gv, c, g_whole, refl) in
      (judge_iff _ _ _ _ _).1 (
        act,
        (judge_timeout_iff _ _ _ _).1 (
          t,
          timed,
          ground arith,
          (judge_options_iff _ _ _ _).1 (
            (d.to_ℕ ov, masked, clear),
            (judge_gcs_iff _ _ _).1 (d.to_ℕ gv, id, nonzero, same_id),
          ),
        ),
      )

  verdict_iff : (f : CompanionLinkFailsafe D) → (verdict f ≡ accepted) ↔ IsSafe f
  verdict_iff f = (verdict→IsSafe f, IsSafe→verdict f)

  received_safe : (f : CompanionLinkFailsafe D) → IsSafe f → 4 ≤ received f
  unfolding received
  received_safe f h =
      let (a, ea, _, _) = h.lands in
      let (t, et, _, _, _) = h.timeout in
      let (o, eo, _, _) = h.options in
      let (g, eg, _, _, _) = h.gcs in rw (ea, et, eo, eg) (omega arith)

  -- Whatever was stored before, a validation accepts the vehicle exactly if the four raw parameters
  -- are there and safe: always LAND, a timeout of 2 to 10 s, no bypass in Auto or pilot modes, and
  -- the ground-station id that this system's heartbeat carries.
  pub accepts-validate_iff :
      (f : CompanionLinkFailsafe D)
      → f.snapshot.parameters_required ≡ 4
      → (accepts (validate f).snapshot ≡ true) ↔ IsSafe f
  accepts-validate_iff f four = (
    λ h. (verdict_iff f).0 ((accepts-verdict f four).0 h).1,
    λ h. (accepts-verdict f four).1 (received_safe f h, (verdict_iff f).1 h),
  )
