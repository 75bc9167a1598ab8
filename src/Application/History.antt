-- ===== src/Application/History.antt =====
-- application/CompanionApplication: what the log of link events shows.
use companion_lab.Prelude.{
  map, ℕ, ◌+◌, ◌-◌, ◌≤◌, ◌<◌, ◌≡◌, refl, sym, ap, ◌∙◌, inl, inr, List, [], ◌∷◌, String, arith,
  length, ltb, leb, if◌then◌else◌, Bool-cases,
}
use companion_lab.Prelude.Time.{TimePoint}
use mathlib.Core.List.{◌++◌ as append, append_assoc, append-nil}
use mathlib.Core.Path.{subst}
use companion_lab.Application.{
  LinkEventDirection, LinkEventStatus, LinkEvent, LinkLog, empty_log, shorten, record_event,
  record_activity,
}

-- The events are numbered from k on without a gap.
abbrev pub Runs : ℕ → List LinkEvent → Type 0
Runs k [] = Unit
Runs k (e ∷ es) = (e.sequence ≡ k) × Runs (k + 1) es

-- What an event says: its direction, its status, its label and its detail.
abbrev pub Content : Type 0
Content = LinkEventDirection × LinkEventStatus × String × String

abbrev pub content : LinkEvent → Content
content e = (e.direction, e.status, e.label, e.detail)

-- The log shows the last of n events with the contents `said`, eight at most.
pub record Shows (n : ℕ) (said : List Content) (l : LinkLog) : Type 0 where
  pub counted : l.next_event_sequence ≡ n
  pub size : length l.link_events ≡ (if leb n 8 then n else 8)
  pub numbered : Runs (n + 1 - length l.link_events) l.link_events
  pub contents : (older : List Content) × (append older (map content l.link_events) ≡ said)

Runs-append :
    (k : ℕ) (es : List LinkEvent) (e : LinkEvent)
    → Runs k es
    → e.sequence ≡ k + length es
    → Runs k (append es (e ∷ []))
Runs-append k [] e r h = ground arith
Runs-append k (x ∷ es) e r h = (r.0, Runs-append (k + 1) es e r.1 (omega arith))

length-snoc : (es : List LinkEvent) (e : LinkEvent) → length (append es (e ∷ [])) ≡ length es + 1
length-snoc [] e = omega arith
length-snoc (x ∷ es) e = ground (arith, length-snoc es e)

Runs-cast : (j k : ℕ) (es : List LinkEvent) → j ≡ k → Runs k es → Runs j es
Runs-cast j k es e r = subst (λ t. Runs t es) (sym e) r

-- The newest events of a list that may have one too many.
shorten-Runs :
    (n k : ℕ) (es : List LinkEvent)
    → Runs k es
    → k + length es ≡ n + 1
    → Runs (n + 1 - length (shorten es)) (shorten es)
unfolding shorten
shorten-Runs n k [] r e = tt
shorten-Runs n k (x ∷ es) r e = elim (Bool-cases (ltb 8 (length (x ∷ es)))) [
  | inl full ↦ rw full (Runs-cast (n + 1 - length es) (k + 1) es (omega arith) r.1)
  | inr fits ↦ rw fits (Runs-cast (n + 1 - length (x ∷ es)) k (x ∷ es) (omega arith) r)
]

length-shorten :
    (n : ℕ) (es : List LinkEvent)
    → length es ≡ (if leb n 8 then n else 8) + 1
    → length (shorten es) ≡ (if leb (n + 1) 8 then n + 1 else 8)
unfolding shorten
length-shorten n [] e = ground arith
length-shorten n (x ∷ es) e = ground arith

-- Shortening takes events off the front only.
shorten-contents :
    (es : List LinkEvent)
    → (older : List Content) × (append older (map content (shorten es)) ≡ map content es)
unfolding shorten
shorten-contents [] = ([], refl)
shorten-contents (x ∷ es) = elim (Bool-cases (ltb 8 (length (x ∷ es)))) [
  | inl full ↦ (content x ∷ [], rw full refl)
  | inr fits ↦ ([], rw fits refl)
]

map-snoc :
    (es : List LinkEvent) (e : LinkEvent)
    → map content (append es (e ∷ [])) ≡ append (map content es) (content e ∷ [])
map-snoc [] e = refl
map-snoc (x ∷ es) e = ap (λ t. content x ∷ t) (map-snoc es e)

appended-contents :
    (said : List Content) (es : List LinkEvent) (e : LinkEvent)
    → ((older : List Content) × (append older (map content es) ≡ said))
    → (older : List Content) × (append older (map content (shorten (append es (e ∷ []))))
        ≡ append said (content e ∷ []))
appended-contents said es e (older, same) =
    let (gone, kept) = shorten-contents (append es (e ∷ [])) in
    (
      append older gone,
      append_assoc older gone (map content (shorten (append es (e ∷ []))))
          ∙ ap (λ t. append older t) (kept ∙ map-snoc es e)
          ∙ sym (append_assoc older (map content es) (content e ∷ []))
          ∙ ap (λ t. append t (content e ∷ [])) same,
    )

-- An event with the next number, behind the others.
appended-Runs :
    (n : ℕ) (es : List LinkEvent) (e : LinkEvent)
    → Runs (n + 1 - length es) es
    → length es ≤ n
    → e.sequence ≡ n + 1
    → let all = append es (e ∷ []) in Runs (n + 1 + 1 - length (shorten all)) (shorten all)
appended-Runs n es e r l h =
    shorten-Runs (n + 1) (n + 1 - length es) (append es (e ∷ []))
      (Runs-append (n + 1 - length es) es e r (omega arith)) (omega (arith, length-snoc es e))

record_event-Shows :
    (d : LinkEventDirection) (s : LinkEventStatus) (label detail : String) (now : TimePoint) (n : ℕ)
    (said : List Content) (l : LinkLog)
    → n + 1 < 18_446_744_073_709_551_616
    → Shows n said l
    → Shows (n + 1) (append said ((d, s, label, detail) ∷ [])) (record_event d s label detail now l)
unfolding record_event
record_event-Shows d s label detail now n said l b h = record {
  counted = omega (arith, h.counted);
  size =
      length-shorten n (append l.link_events (_ ∷ []))
        (length-snoc l.link_events _ ∙ ap (λ t. t + 1) h.size);
  numbered =
      appended-Runs n l.link_events _ h.numbered (ground (arith, h.size))
        (omega (arith, h.counted));
  contents = appended-contents said l.link_events _ h.contents;
}

record_activity-Shows :
    (d : LinkEventDirection) (name detail : String) (now : TimePoint) (n : ℕ) (said : List Content)
    (l : LinkLog)
    → Shows n said l
    → Shows n said (record_activity d name detail now l)
unfolding record_activity
record_activity-Shows d name detail now n said l h = record {
  counted = h.counted;
  size = h.size;
  numbered = h.numbered;
  contents = h.contents;
}

pub data Entry : Type 0 where
  event : LinkEventDirection → LinkEventStatus → String → String → TimePoint → Entry
  activity : LinkEventDirection → String → String → TimePoint → Entry

pub enter : Entry → LinkLog → LinkLog
enter (Entry.event d s label detail now) l = record_event d s label detail now l
enter (Entry.activity d name detail now) l = record_activity d name detail now l

pub run : List Entry → LinkLog → LinkLog
run [] l = l
run (e ∷ es) l = run es (enter e l)

abbrev weight : Entry → ℕ
weight (Entry.event d s label detail now) = 1
weight (Entry.activity d name detail now) = 0

unfoldable pub events : List Entry → ℕ
events [] = 0
events (e ∷ es) = weight e + events es

-- The contents of the events among the entries, in their order.
unfoldable pub history : List Entry → List Content
history [] = []
history (Entry.event d s label detail now ∷ es) = (d, s, label, detail) ∷ history es
history (Entry.activity d name detail now ∷ es) = history es

run-Shows :
    (n m : ℕ) (said : List Content) (es : List Entry) (l : LinkLog)
    → Shows n said l
    → n + events es ≡ m
    → m < 18_446_744_073_709_551_616
    → Shows m (append said (history es)) (run es l)
unfolding run enter events history
run-Shows n m said [] l h e b =
    subst (λ t. Shows m t l) (sym (append-nil said)) (subst (λ t. Shows t said l) (omega arith) h)
run-Shows n m said (Entry.event d s label detail now ∷ es) l h e b =
    let more = append said ((d, s, label, detail) ∷ []) in
    subst (λ t. Shows m t (run es (record_event d s label detail now l)))
      (append_assoc said ((d, s, label, detail) ∷ []) (history es))
      (run-Shows (n + 1) m more es (record_event d s label detail now l)
        (record_event-Shows d s label detail now n said l (omega arith) h) (omega arith) b)
run-Shows n m said (Entry.activity d name detail now ∷ es) l h e b =
    run-Shows n m said es (record_activity d name detail now l)
      (record_activity-Shows d name detail now n said l h) (omega arith) b

empty_log-Shows : Shows 0 [] empty_log
unfolding empty_log
empty_log-Shows = record { counted = refl; size = refl; numbered = tt; contents = ([], refl) }

-- After any entries in a new log, of which fewer than 2 ^ 64 are events, the log shows the last eight
-- of these events, or all if there are fewer, in their order, each with its direction, status, label
-- and detail, and numbered without a gap up to their count.
pub run-empty_log-Shows :
    (es : List Entry)
    → events es < 18_446_744_073_709_551_616
    → Shows (events es) (history es) (run es empty_log)
run-empty_log-Shows es b = run-Shows 0 (events es) [] es empty_log empty_log-Shows (omega arith) b
