-- ===== src/Application/Frames.antt =====
-- application/CompanionApplication: `write_frame`, over a transport that may take a part of what it
-- is given, or throw.
use companion_lab.Prelude.{
  ◌⊎◌, ℕ, zero, suc, ◌≤◌, ◌≡◌, refl, ap, sym, ◌∙◌, ◌↔◌, inl, inr, Bool, true, false, Option, none,
  some, [], ◌∷◌, String, arith, length, ◌==◌, if◌then◌else◌, Bool-cases, Option-cases,
}
use companion_lab.Prelude.Outcomes.{Outcome, ok, threw, fault, outside, outside_text, ◌>>=◌}
use companion_lab.Prelude.Time.{TimePoint}
use companion_lab.Prelude.Text.{Bytes}
use mathlib.Core.List.{◌++◌ as append, append_assoc, append-nil}
use mathlib.Core.Path.{subst}
use companion_lab.Application.{outbound, LinkLog, record_activity}

-- The port: its state, the bytes that `read` finds, at most as many as the buffer holds, and how many
-- of the bytes `write` takes; `none` is an exception.
pub record Transport (T : Type 0) : Type 0 where
  pub read : T → Option (Bytes × T)
  pub write : T → Bytes → Option (ℕ × T)

abbrev pub take : ℕ → Bytes → Bytes
take zero bs = []
take (suc n) [] = []
take (suc n) (b ∷ bs) = b ∷ take n bs

abbrev drop : ℕ → Bytes → Bytes
drop zero bs = bs
drop (suc n) [] = []
drop (suc n) (b ∷ bs) = drop n bs

-- What became of a frame: whether all was written, and the port.
abbrev pub Written : Type 0 → Type 0
Written T = Bool × T

module _ {T : Type 0} (port : Transport T) where
  -- The loop, at most `fuel` times round; `fault` if that is not enough.
  unfoldable pub write_loop : ℕ → T → Bytes → Outcome (Written T)
  write_loop fuel t [] = ok (true, t)
  write_loop zero t (b ∷ bs) = fault
  write_loop (suc fuel) t (b ∷ bs) = do
    (written, t') ← outside (port.write t (b ∷ bs))
    let rest = write_loop fuel t' (drop written (b ∷ bs))
    if written == 0 then ok (false, t') else rest

  -- A round takes a byte at least, so there are as many rounds as bytes at most.
  unfoldable pub write_frame :
      Bytes → TimePoint → String → String → T → LinkLog → Outcome (Written T × LinkLog)
  write_frame frame now name detail t l = do
    (sent, t') ← write_loop (length frame) t frame
    ok ((sent, t'), if sent then record_activity outbound name detail now l else l)

-- A port that also records what it takes from the bytes that it is given.
abbrev noted : {T : Type 0} → Bytes → Bytes → Option (ℕ × T) → Option (ℕ × (T × Bytes))
noted given bs none = none
noted given bs (some (n, t)) = some (n, (t, append given (take n bs)))

abbrev read_too : {T : Type 0} → Bytes → Option (Bytes × T) → Option (Bytes × (T × Bytes))
read_too given none = none
read_too given (some (bs, t)) = some (bs, (t, given))

abbrev pub recording : {T : Type 0} → Transport T → Transport (T × Bytes)
recording port = record {
  read = λ s. read_too s.1 (port.read s.0);
  write = λ s bs. noted s.1 bs (port.write s.0 bs);
}

take-drop : (n : ℕ) (bs : Bytes) → append (take n bs) (drop n bs) ≡ bs
take-drop zero bs = refl
take-drop (suc n) [] = refl
take-drop (suc n) (b ∷ bs) = ap (λ t. b ∷ t) (take-drop n bs)

length-drop_le : (n : ℕ) (bs : Bytes) → length (drop n bs) ≤ length bs
length-drop_le zero bs = omega arith
length-drop_le (suc n) [] = omega arith
length-drop_le (suc n) (b ∷ bs) = omega (arith, length-drop_le n bs)

length-drop_lt : (n b : ℕ) (bs : Bytes) → (n == 0) ≡ false → length (drop n (b ∷ bs)) ≤ length bs
length-drop_lt zero b bs h = cc
length-drop_lt (suc n) b bs h = length-drop_le n bs

-- A call of `write` that throws, and a call of the transport that throws.
abbrev pub WriteBreaks : {T : Type 0} → Transport T → Type 0
WriteBreaks {T} port = (t : T) × (bs : Bytes) × (port.write t bs ≡ none)

abbrev pub Breaks : {T : Type 0} → Transport T → Type 0
Breaks {T} port = ((t : T) × (port.read t ≡ none)) ⊎ WriteBreaks port

-- The record grows by the frame, if all was written, or by a part of it from the front that is not the
-- whole. An exception is the port's.
abbrev Delivers :
    {T : Type 0} → Transport T → Bytes → Bytes → Outcome (Written (T × Bytes)) → Type 0
Delivers port given frame fault = ⊥
Delivers port given frame (threw text) = (text ≡ outside_text) × WriteBreaks port
Delivers port given frame (ok (sent, (t, given'))) =
    (taken : Bytes) × (rest : Bytes) × (given' ≡ append given taken)
    × (append taken rest ≡ frame)
    × ((sent ≡ true) ↔ (rest ≡ []))

further :
    {T : Type 0} (port : Transport T) (given front back : Bytes) (o : Outcome (Written (T × Bytes)))
    → Delivers port (append given front) back o
    → Delivers port given (append front back) o
further port given front back fault h = h
further port given front back (threw text) h = h
further port given front back (ok (sent, (t, given'))) (taken, rest, e, whole, all) = (
  append front taken,
  rest,
  e ∙ append_assoc given front taken,
  append_assoc front taken rest ∙ ap (append front) whole,
  all,
)

nothing : (given : Bytes) (n : ℕ) (bs : Bytes) → (n == 0) ≡ true → append given (take n bs) ≡ given
nothing given zero bs h = append-nil given
nothing given (suc n) bs h = ground arith

stopped :
    {T : Type 0} (port : Transport T) (t : T) (given : Bytes) (b : ℕ) (bs : Bytes)
    → Delivers port given (b ∷ bs) (ok (false, (t, given)))
stopped port t given b bs = ([], b ∷ bs, sym (append-nil given), refl, ground arith)

module _ {T : Type 0} (port : Transport T) where
  write_loop-Delivers :
      (fuel : ℕ) (t : T) (given frame : Bytes)
      → length frame ≤ fuel
      → Delivers port given frame (write_loop (recording port) fuel (t, given) frame)
  unfolding write_loop
  write_loop-Delivers fuel t given [] l = ([], [], sym (append-nil given), refl, ground arith)
  write_loop-Delivers zero t given (b ∷ bs) l = absurd (omega arith)
  write_loop-Delivers (suc fuel) t given (b ∷ bs) l = elim (Option-cases (port.write t (b ∷ bs))) [
    | inl broken ↦ rw broken (refl, (t, b ∷ bs, broken))
    | inr ((written, t'), e) ↦ rw e (elim (Bool-cases (written == 0)) [
      | inl stuck ↦ rw (stuck, nothing given written (b ∷ bs) stuck) (stopped port t' given b bs)
      | inr some_taken ↦ rw some_taken (
          subst
            (λ whole. Delivers port given whole (
              write_loop (recording port) fuel (t', append given (take written (b ∷ bs)))
                (drop written (b ∷ bs))))
            (take-drop written (b ∷ bs))
            (further port given (take written (b ∷ bs)) (drop written (b ∷ bs)) _ (
              write_loop-Delivers fuel t' (append given (take written (b ∷ bs)))
                (drop written (b ∷ bs)) (omega (arith, length-drop_lt written b bs some_taken)))))
    ])
  ]

-- An outcome of the recording port without the record.
abbrev forget : {T : Type 0} → Outcome (Written (T × Bytes)) → Outcome (Written T)
forget o = o >>= λ w. ok (w.0, w.1.0)

abbrev pub forget_frame :
    {T : Type 0} → Outcome (Written (T × Bytes) × LinkLog) → Outcome (Written T × LinkLog)
forget_frame o = o >>= λ p. ok ((p.0.0, p.0.1.0), p.1)

-- Writing a frame ends. The port has taken the whole frame, and the log tells of it, if success is
-- returned, and a shorter part from its front otherwise, when the log is as it was.
abbrev pub Sends :
    {T : Type 0}
    → Transport T
    → Bytes
    → TimePoint
    → String
    → String
    → LinkLog
    → Outcome (Written (T × Bytes) × LinkLog)
    → Type 0
Sends port frame now name detail l fault = ⊥
Sends port frame now name detail l (threw text) = (text ≡ outside_text) × WriteBreaks port
Sends port frame now name detail l (ok ((sent, (t, given)), l')) =
    (rest : Bytes) × (append given rest ≡ frame)
    × ((sent ≡ true) ↔ (rest ≡ []))
    × (l' ≡ (if sent then record_activity outbound name detail now l else l))

module _ {T : Type 0} (port : Transport T) where
  write_loop-recording :
      (fuel : ℕ) (t : T) (given frame : Bytes)
      → forget (write_loop (recording port) fuel (t, given) frame) ≡ write_loop port fuel t frame
  unfolding write_loop
  write_loop-recording fuel t given [] = refl
  write_loop-recording zero t given (b ∷ bs) = refl
  write_loop-recording (suc fuel) t given (b ∷ bs) = elim (Option-cases (port.write t (b ∷ bs))) [
    | inl broken ↦ rw broken refl
    | inr ((written, t'), e) ↦ rw e (elim (Bool-cases (written == 0)) [
      | inl stuck ↦ rw stuck refl
      | inr some_taken ↦ rw some_taken (
          write_loop-recording fuel t' (append given (take written (b ∷ bs)))
            (drop written (b ∷ bs)))
    ])
  ]

  logged-Sends :
      (frame : Bytes) (now : TimePoint) (name detail : String) (l : LinkLog)
      (o : Outcome (Written (T × Bytes)))
      → Delivers port [] frame o
      → Sends port frame now name detail l
          (o >>= λ w. ok (w, if w.0 then record_activity outbound name detail now l else l))
  logged-Sends frame now name detail l fault h = h
  logged-Sends frame now name detail l (threw text) h = h
  logged-Sends frame now name detail l (ok (sent, (t, given))) (taken, rest, e, whole, all) =
      (rest, ap (λ x. append x rest) e ∙ whole, all, refl)

  forget-logged :
      (now : TimePoint) (name detail : String) (l : LinkLog) (o : Outcome (Written (T × Bytes)))
      → forget_frame
          (o >>= λ w. ok (w, if w.0 then record_activity outbound name detail now l else l))
        ≡ (forget o >>= λ w. ok (w, if w.0 then record_activity outbound name detail now l else l))
  forget-logged now name detail l fault = refl
  forget-logged now name detail l (threw text) = refl
  forget-logged now name detail l (ok w) = refl

  -- Whatever part of the bytes the transport takes at each call, and whenever it throws, writing a
  -- frame ends after at most as many calls as it has bytes, and the only exception is one that a call
  -- of the transport throws. What the transport takes of the spans that it is given, recorded call by
  -- call, is in total the whole frame exactly if success is returned, and a shorter part from its front
  -- otherwise; only a success is logged. The record changes nothing: without it the outcome is the same.
  pub write_frame-Sends :
      (frame : Bytes) (now : TimePoint) (name detail : String) (t : T) (l : LinkLog)
      → let recorded = write_frame (recording port) frame now name detail (t, []) l in
        Sends port frame now name detail l recorded
        × (forget_frame recorded ≡ write_frame port frame now name detail t l)
  unfolding write_frame
  write_frame-Sends frame now name detail t l = (
    logged-Sends frame now name detail l _
        (write_loop-Delivers port (length frame) t [] frame (omega arith)),
    forget-logged now name detail l (write_loop (recording port) (length frame) (t, []) frame)
        ∙ ap (λ o. o >>= λ w. ok (w, if w.0 then record_activity outbound name detail now l else l))
            (write_loop-recording (length frame) t [] frame),
  )

  -- What a client may count on: a result, or the transport's exception.
  abbrev pub Ends : {A : Type 0} → Outcome A → Type 0
  Ends fault = ⊥
  Ends (threw text) = (text ≡ outside_text) × WriteBreaks port
  Ends (ok a) = Unit

  forget-Ends :
      (frame : Bytes) (now : TimePoint) (name detail : String) (l : LinkLog)
      (o : Outcome (Written (T × Bytes) × LinkLog))
      → Sends port frame now name detail l o
      → Ends (forget_frame o)
  forget-Ends frame now name detail l fault h = h
  forget-Ends frame now name detail l (threw text) h = h
  forget-Ends frame now name detail l (ok p) h = tt

  pub write_frame-Ends :
      (frame : Bytes) (now : TimePoint) (name detail : String) (t : T) (l : LinkLog)
      → Ends (write_frame port frame now name detail t l)
  write_frame-Ends frame now name detail t l =
      let (sends, same) = write_frame-Sends frame now name detail t l in
      subst Ends same (forget-Ends frame now name detail l _ sends)
