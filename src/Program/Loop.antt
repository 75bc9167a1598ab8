-- ===== src/Program/Loop.antt =====
-- main.cpp: what the program returns.
use companion_lab.Prelude.{
  ℕ, ◌≡◌, ◌⊎◌, refl, Bool, true, false, ◌||◌, Option, none, some, List, [], ◌∷◌, arith, leb, ◌==◌,
  if◌then◌else◌, Bool-cases, inl, inr,
}
use companion_lab.Prelude.Time.{TimePoint}
use companion_lab.Prelude.Text.{Bytes}
use companion_lab.Prelude.Doubles.{Doubles}
use companion_lab.Prelude.Outcomes.{Outcome, ok, threw, fault, Yields, Yields-bind}
use companion_lab.Mavlink.{Mavlink}
use companion_lab.Mavlink.Messages.{Messages, Framing}
use companion_lab.Mavlink.Encoder.{Casts}
use companion_lab.Application.Frames.{Transport}
use companion_lab.Application.Members.{Impl}
use companion_lab.Application.Construct.{CompanionApplicationOptions, make}
use companion_lab.Application.Invariant.{Inv}
use companion_lab.Application.Parts.{Contained}
use companion_lab.Application.Consistent.{IsConsistent, Accepts, Answers, make-Answers}
use companion_lab.Application.Runs.{Event, polled, start_requested, step, step-Contained}
use companion_lab.CommandLine.{CommandLineOptions, Parsed, parsed, refused}
use companion_lab.CommandLine.Configuration.{Passes, IsConfiguration}
use companion_lab.CommandLine.Parse.{parse_command_line}
use companion_lab.CommandLine.Sound.{parse_command_line-IsConfiguration}
use companion_lab.Program.{
  Setting, Session, Turn, prepare, look_at, handle_signal, show, press, press_all, go_on, turn,
  loop, fly, returned, begin, main,
}
use companion_lab.Program.Wiring.{Wired, prepare-Wired}

Contained-Yields :
    {A : Type 0} (E : Type 0) (P : A → Type 0) (o : Outcome A) → Contained E P o → Yields P o
Contained-Yields E P (ok a) h = h
Contained-Yields E P (threw text) h = tt
Contained-Yields E P fault h = h

module _ {D : Type 0} ⦃d : Doubles D⦄ where
  -- 0, or 2 if the options ask for the end of the program after an autonomous flight.
  abbrev pub Ends : CommandLineOptions D → ℕ → Type 0
  Ends o code = (code ≡ 0) ⊎ (code ≡ 2) × (o.exit_after_autonomy ≡ true) × (o.autonomous ≡ true)

  code-Ends :
      (o : CommandLineOptions D) (failed : Bool)
      → IsConfiguration o
      → (failed ≡ true → o.exit_after_autonomy ≡ true)
      → Ends o (if failed then 2 else 0)
  code-Ends o true q h = inr (refl, h refl, q.exits (h refl))
  code-Ends o false q h = inl refl

  -- What `main` returns for arguments that come to `p`.
  abbrev pub Returns : Parsed (CommandLineOptions D) → Option ℕ → Type 0
  Returns p none = ⊥
  Returns (refused text) (some code) = code ≡ 1
  Returns (parsed o) (some code) = (code ≡ 1) ⊎ Ends o code

  returned-Returns :
      (o : CommandLineOptions D) (u : Outcome ℕ)
      → Yields (Ends o) u
      → Returns (parsed o) (returned u)
  returned-Returns o (ok code) h = inr h
  returned-Returns o (threw text) h = inl refl
  returned-Returns o fault h = h

module _ {T P D : Type 0} ⦃d : Doubles D⦄ where
  Answers-Yields :
      (a : CompanionApplicationOptions D) (u : Outcome (Impl T P D))
      → Answers (Accepts a) (IsConsistent a) u
      → Yields Inv u
  Answers-Yields a (ok s) h = h.0
  Answers-Yields a (threw text) h = tt
  Answers-Yields a fault h = h

  -- The application is sound, and a failure is only reported if the options ask for the end.
  abbrev Sound : CommandLineOptions D → Session T P D → Type 0
  Sound o s = Inv s.application × (s.autonomy_failed ≡ true → o.exit_after_autonomy ≡ true)

  look_at-Inv : (now : TimePoint) (s : Impl T P D) → Inv s → Inv (look_at now s)
  unfolding look_at
  look_at-Inv now s v = v

  show-Sound :
      (o : CommandLineOptions D) (now : TimePoint) (s : Session T P D)
      → Sound o s
      → Sound o (show o now s)
  unfolding show
  show-Sound o now s v = elim (Bool-cases (leb s.next_snapshot now)) [
    | inl e ↦ rw e (look_at-Inv now s.application v.0, λ f. ground (arith, v.1))
    | inr e ↦ rw e v
  ]

module _ {T P M D : Type 0} ⦃m : Mavlink⦄ ⦃d : Doubles D⦄ ⦃c : Casts D⦄ (port : Transport T)
    (framing : Framing P M) (lib : Messages M D) where
  step-Yields : (e : Event D) (s : Impl T P D) → Inv s → Yields Inv (step port framing lib e s)
  step-Yields e s v =
      Contained-Yields _ Inv (step port framing lib e s) (step-Contained port framing lib e s v)

  press-Sound :
      (o : CommandLineOptions D) (key : ℕ) (now : TimePoint) (s : Session T P D)
      → Sound o s
      → Yields (Sound o) (press port framing lib key now s)
  unfolding press
  press-Sound o key now s v = elim (Bool-cases (key == b's' || key == b'S')) [
    | inl e ↦ rw e (
        Yields-bind Inv (Sound o) (step port framing lib (start_requested now) s.application) _
          (step-Yields (start_requested now) s.application v.0) (λ application w. (w, v.1)))
    | inr e ↦
        rw e (elim (Bool-cases (key == b'q' || key == b'Q')) [ inl f ↦ rw f v | inr f ↦ rw f v ])
  ]

  press_all-Sound :
      (o : CommandLineOptions D) (keys : List (ℕ × TimePoint)) (s : Session T P D)
      → Sound o s
      → Yields (Sound o) (press_all port framing lib keys s)
  unfolding press_all
  press_all-Sound o [] s v = v
  press_all-Sound o ((key, now) ∷ keys) s v =
      Yields-bind (Sound o) (Sound o) (press port framing lib key now s) _
        (press-Sound o key now s v) (press_all-Sound o keys)

  go_on-Sound :
      (b : Bool) (o : CommandLineOptions D) (e : Turn D) (s : Session T P D)
      → Sound o s
      → Yields (Sound o) (go_on port framing lib b o e s)
  unfolding go_on
  go_on-Sound false o e s v = v
  go_on-Sound true o e s v =
      Yields-bind Inv (Sound o) (step port framing lib (polled e.surroundings) s.application) _
        (step-Yields (polled e.surroundings) s.application v.0)
        (λ application w. show-Sound o e.now _ (w, v.1))

  turn-Sound :
      (o : CommandLineOptions D) (e : Turn D) (s : Session T P D)
      → Sound o s
      → Yields (Sound o) (turn port framing lib o e s)
  unfolding turn
  turn-Sound o e s v =
      Yields-bind (Sound o) (Sound o) (press_all port framing lib e.keys s) _
        (press_all-Sound o e.keys s v) (λ t w. go_on-Sound _ o e (handle_signal e.interrupted t) w)

  loop-Sound :
      (o : CommandLineOptions D) (es : List (Turn D)) (s : Session T P D)
      → Sound o s
      → Yields (Sound o) (loop port framing lib o es s)
  unfolding loop
  loop-Sound o [] s v = v
  loop-Sound o (e ∷ es) s v = elim (Bool-cases s.keep_running) [
    | inl r ↦ simp (r) (
        Yields-bind (Sound o) (Sound o) (turn port framing lib o e s) _ (turn-Sound o e s v)
          (loop-Sound o es))
    | inr r ↦ simp (r) v
  ]

  fly-Ends :
      (o : CommandLineOptions D) (e : Setting T D) (parser : P) (now : TimePoint)
      (es : List (Turn D))
      → IsConfiguration o
      → Yields (Ends o) (fly port framing lib o e parser now es)
  unfolding fly
  fly-Ends o e parser now es q =
      Yields-bind (Wired o) (Ends o) (prepare o e) _ (prepare-Wired o e q) λ a w.
        Yields-bind Inv (Ends o) (make a.0 a.1 parser) _
          (Answers-Yields a.0 (make a.0 a.1 parser) (make-Answers a.0 a.1 parser w.0))
          λ s v.
            Yields-bind (Sound o) (Ends o)
              (loop port framing lib o es (record {
                application = s;
                next_snapshot = now;
                keep_running = true;
                autonomy_failed = false;
              }))
              _ (loop-Sound o es _ (v, λ f. ground arith))
              (λ t u. code-Ends o t.autonomy_failed q u.1)

  begin-Returns :
      (p : Parsed (CommandLineOptions D)) (e : Setting T D) (parser : P) (now : TimePoint)
      (es : List (Turn D))
      → Passes (λ o. (o.show_help ≡ true) ⊎ IsConfiguration o) p
      → Returns p (begin port framing lib p e parser now es)
  begin-Returns (refused text) e parser now es h = refl
  begin-Returns (parsed o) e parser now es (inl h) = rw h (inr (inl refl))
  begin-Returns (parsed o) e parser now es (inr q) = elim (Bool-cases o.show_help) [
    | inl h ↦ simp (h) (inr (inl refl))
    | inr h ↦
        simp (h) (
          returned-Returns o (fly port framing lib o e parser now es)
            (fly-Ends o e parser now es q))
  ]

  -- Whatever the arguments, the files, the link, the camera and the keys are, the program does nothing
  -- undefined, however many turns its loop makes. It returns 1 for arguments that are refused, 2 only
  -- if they ask for the end after an autonomous flight, and otherwise 0 or 1.
  pub main-Returns :
      (from_chars : Bytes → Option D) (arguments : List Bytes) (e : Setting T D) (parser : P)
      (now : TimePoint) (es : List (Turn D))
      → Returns
          (parse_command_line from_chars arguments)
          (main port framing lib from_chars arguments e parser now es)
  unfolding main
  main-Returns from_chars arguments e parser now es =
      begin-Returns (parse_command_line from_chars arguments) e parser now es
        (parse_command_line-IsConfiguration from_chars arguments)
