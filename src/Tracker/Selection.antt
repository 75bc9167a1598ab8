-- ===== src/Tracker/Selection.antt =====
-- application/TargetTracker: which observation the loops of `update` select.
use companion_lab.Prelude.{
  ◌≡◌, refl, ◌⊎◌, inl, inr, Bool, true, false, Option, none, some, List, [], ◌∷◌, arith, Bool-cases,
}
use companion_lab.Prelude.Doubles.{Doubles}
use companion_lab.Prelude.Doubles.{IsOrdered}
use companion_lab.Tracker.{TargetObservation}
use companion_lab.Tracker.Update.{better, select}

-- No observation of the list counts.
abbrev pub Absent :
    {D : Type 0} → (TargetObservation D → Bool) → List (TargetObservation D) → Type 0
Absent counts [] = Unit
Absent counts (o ∷ os) = (counts o ≡ false) × Absent counts os

abbrev pub Mem : {D : Type 0} → TargetObservation D → List (TargetObservation D) → Type 0
Mem b [] = ⊥
Mem b (o ∷ os) = (o ≡ b) ⊎ Mem b os

module _ {D : Type 0} ⦃d : Doubles D⦄ where
  -- No observation that counts has a larger margin.
  abbrev pub Unbeaten :
      (TargetObservation D → Bool) → TargetObservation D → List (TargetObservation D) → Type 0
  Unbeaten counts b [] = Unit
  Unbeaten counts b (o ∷ os) =
      ((counts o ≡ false) ⊎ (d.lt b.decision_margin o.decision_margin ≡ false))
      × Unbeaten counts b os

  -- It is one of the observations that count, with the largest margin.
  pub record IsBest (counts : TargetObservation D → Bool) (b : TargetObservation D)
      (os : List (TargetObservation D)) : Type 0 where
    pub member : Mem b os
    pub counted : counts b ≡ true
    pub unbeaten : Unbeaten counts b os

  pub select-none :
      (counts : TargetObservation D → Bool) (s : Option (TargetObservation D))
      (os : List (TargetObservation D))
      → select counts s os ≡ none
      → (s ≡ none) × Absent counts os
  unfolding select
  select-none counts s [] h = (h, tt)
  select-none counts s (o ∷ os) h = elim (Bool-cases (counts o)) [
    | inl e ↦ ground (arith, select-none counts (some (better s o)) os)
    | inr e ↦ ground (arith, select-none counts s os)
  ]

  pub select-member :
      (counts : TargetObservation D → Bool) (s : Option (TargetObservation D))
      (os : List (TargetObservation D)) (b : TargetObservation D)
      → select counts s os ≡ some b
      → (s ≡ some b) ⊎ (Mem b os × (counts b ≡ true))
  unfolding select better
  select-member counts s [] b h = inl h
  select-member counts none (o ∷ os) b h =
      ground (arith, select-member counts (some o) os b, select-member counts none os b)
  select-member counts (some s) (o ∷ os) b h =
      ground (arith, select-member counts (some o) os b, select-member counts (some s) os b)

  -- The selection so far.
  abbrev Below : TargetObservation D → Option (TargetObservation D) → Type 0
  Below b none = Unit
  Below b (some s) = d.lt b.decision_margin s.decision_margin ≡ false

  abbrev Finite : Option (TargetObservation D) → Type 0
  Finite none = Unit
  Finite (some s) = d.is_finite s.decision_margin ≡ true

  better-Finite :
      (s : Option (TargetObservation D)) (o : TargetObservation D)
      → Finite s
      → d.is_finite o.decision_margin ≡ true
      → Finite (some (better s o))
  unfolding better
  better-Finite none o f g = g
  better-Finite (some s) o f g = ground arith

  Below-better :
      (l : IsOrdered d) (b : TargetObservation D) (s : Option (TargetObservation D))
      (o : TargetObservation D)
      → Finite s
      → d.is_finite o.decision_margin ≡ true
      → Below b (some (better s o))
      → Below b s × (d.lt b.decision_margin o.decision_margin ≡ false)
  unfolding better
  Below-better l b none o f g h = (tt, h)
  Below-better l b (some s) o f g h = ground (
    arith,
    l.lt_asym s.decision_margin o.decision_margin,
    l.lt_cotrans s.decision_margin o.decision_margin b.decision_margin,
    l.lt_cotrans o.decision_margin s.decision_margin b.decision_margin,
  )

  select-Unbeaten :
      (l : IsOrdered d) (counts : TargetObservation D → Bool)
      (h : (o : TargetObservation D) → counts o ≡ true → d.is_finite o.decision_margin ≡ true)
      (s : Option (TargetObservation D)) (os : List (TargetObservation D)) (b : TargetObservation D)
      → Finite s
      → select counts s os ≡ some b
      → Below b s × Unbeaten counts b os
  unfolding select
  select-Unbeaten l counts h s [] b f e =
      ground (arith, l.lt_asym b.decision_margin b.decision_margin)
  select-Unbeaten l counts h s (o ∷ os) b f e = elim (Bool-cases (counts o)) [
    | inl k ↦
        let finite = h o k in
        let rest =
          select-Unbeaten l counts h (some (better s o)) os b (better-Finite s o f finite)
            (ground arith) in
        let below = Below-better l b s o f finite rest.0 in (below.0, (inr below.1, rest.1))
    | inr k ↦
        let rest = select-Unbeaten l counts h s os b f (ground arith) in (rest.0, (inl k, rest.1))
  ]

  pub select-IsBest :
      (l : IsOrdered d) (counts : TargetObservation D → Bool)
      (h : (o : TargetObservation D) → counts o ≡ true → d.is_finite o.decision_margin ≡ true)
      (os : List (TargetObservation D)) (b : TargetObservation D)
      → select counts none os ≡ some b
      → IsBest counts b os
  select-IsBest l counts h os b e =
      let found = select-member counts none os b e in
      record {
        member = ground (arith, found);
        counted = ground (arith, found);
        unbeaten = (select-Unbeaten l counts h none os b tt e).1;
      }

  pub select-ext :
      (f g : TargetObservation D → Bool) (h : (o : TargetObservation D) → f o ≡ g o)
      (s : Option (TargetObservation D)) (os : List (TargetObservation D))
      → select f s os ≡ select g s os
  unfolding select
  select-ext f g h s [] = refl
  select-ext f g h s (o ∷ os) =
      ground (arith, h o, select-ext f g h s os, select-ext f g h (some (better s o)) os)
