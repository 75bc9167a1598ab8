-- ===== src/Boards/Entries.antt =====
-- adapters/ardupilot/BoardTypeCatalog: what an entry is after the lines of its board type.
use companion_lab.Prelude.{
  ℕ, ◌≡◌, refl, ap, ◌∙◌, Bool, true, false, ◌||◌, Option, none, some, List, [], ◌∷◌, arith, any,
  ◌==◌, ==_iff, if◌then◌else◌, Bool-cases, inl, inr,
}
use companion_lab.Prelude.Text.{Bytes, bytes_eq, bytes_eq_iff}
use mathlib.Core.List.{◌++◌ as append}
use companion_lab.Boards.{
  is_empty, ParsedLine, BoardEntry, BoardTypeCatalog, find, entry_of, put, with_alias, meet, add,
}

-- The lines of a board type.
abbrev pub lines_of : ℕ → List ParsedLine → List ParsedLine
lines_of board_type [] = []
lines_of board_type (p ∷ ps) =
    let rest = lines_of board_type ps in if p.board_type == board_type then p ∷ rest else rest

-- The name of the first reserved line, or another one.
abbrev pub reserved_or : Bytes → List ParsedLine → Bytes
reserved_or other [] = other
reserved_or other (p ∷ ps) =
    let rest = reserved_or other ps in if p.is_reserved then p.name else rest

-- The name of the first reserved line, or else of the first.
abbrev pub chosen : List ParsedLine → Bytes
chosen [] = []
chosen (p ∷ ps) = reserved_or p.name (p ∷ ps)

abbrev pub Distinct : List Bytes → Type 0
Distinct [] = Unit
Distinct (n ∷ ns) = (any (bytes_eq n) ns ≡ false) × Distinct ns

-- The entry for lines: it has their names, each once, and prefers the chosen one.
pub record Describes (ps : List ParsedLine) (e : BoardEntry) : Type 0 where
  pub names : (name : Bytes) → any (bytes_eq name) e.aliases ≡ any (λ p. bytes_eq name p.name) ps
  pub distinct : Distinct e.aliases
  pub preferred : e.preferred_name ≡ chosen ps
  pub reserved : e.preferred_is_reserved ≡ any (λ p. p.is_reserved) ps
  pub named : is_empty e.preferred_name ≡ false

-- No entry exactly for no lines.
abbrev pub Resolves : List ParsedLine → Option BoardEntry → Type 0
Resolves [] none = Unit
Resolves [] (some e) = ⊥
Resolves (p ∷ ps) none = ⊥
Resolves (p ∷ ps) (some e) = Describes (p ∷ ps) e

bytes_eq_comm : (s t : Bytes) → bytes_eq s t ≡ bytes_eq t s
bytes_eq_comm s t = ground (arith, bytes_eq_iff s t, bytes_eq_iff t s)

any-snoc :
    {A : Type 0} (f : A → Bool) (as' : List A) (a : A)
    → any f (append as' (a ∷ [])) ≡ any f as' || f a
any-snoc f [] a = ground arith
any-snoc f (b ∷ bs) a = ground (arith, any-snoc f bs a)

snoc-Distinct :
    (ns : List Bytes) (n : Bytes)
    → Distinct ns
    → any (bytes_eq n) ns ≡ false
    → Distinct (append ns (n ∷ []))
snoc-Distinct [] n h k = (refl, tt)
snoc-Distinct (m ∷ ms) n h k =
    ground (arith, any-snoc (bytes_eq m) ms n, bytes_eq_comm m n, snoc-Distinct ms n h.1)

reserved_or-snoc :
    (other : Bytes) (ps : List ParsedLine) (p : ParsedLine)
    → reserved_or other (append ps (p ∷ [])) ≡ (
        if any (λ p. p.is_reserved) ps
        then reserved_or other ps
        else (if p.is_reserved then p.name else other))
reserved_or-snoc other [] p = ground arith
reserved_or-snoc other (q ∷ ps) p = ground (arith, reserved_or-snoc other ps p)

reserved_or-other :
    (other : Bytes) (ps : List ParsedLine)
    → any (λ p. p.is_reserved) ps ≡ false
    → reserved_or other ps ≡ other
reserved_or-other other [] h = refl
reserved_or-other other (q ∷ ps) h = ground (arith, reserved_or-other other ps)

-- A name that is known already adds nothing.
any-known :
    (n name : Bytes) (ns : List Bytes)
    → any (bytes_eq name) ns ≡ true
    → any (bytes_eq n) ns ≡ any (bytes_eq n) ns || bytes_eq n name
any-known n name ns k = elim (Bool-cases (bytes_eq n name)) [
  | inl e ↦ rw (e, (bytes_eq_iff n name).0 e) (k ∙ ground arith)
  | inr e ↦ rw e (ground arith)
]

with_alias-names :
    (n name : Bytes) (ns : List Bytes)
    → any (bytes_eq n) (with_alias name ns) ≡ any (bytes_eq n) ns || bytes_eq n name
unfolding with_alias
with_alias-names n name ns = elim (Bool-cases (any (bytes_eq name) ns)) [
  | inl e ↦ rw e (any-known n name ns e)
  | inr e ↦ rw e (any-snoc (bytes_eq n) ns name)
]

with_alias-Distinct : (name : Bytes) (ns : List Bytes) → Distinct ns → Distinct (with_alias name ns)
unfolding with_alias
with_alias-Distinct name ns h = elim (Bool-cases (any (bytes_eq name) ns)) [
  | inl e ↦ rw e h
  | inr e ↦ rw e (snoc-Distinct ns name h e)
]

-- One more line.
meet-Describes :
    (ps : List ParsedLine) (p : ParsedLine) (e : BoardEntry)
    → is_empty p.name ≡ false
    → Describes ps e
    → Describes (append ps (p ∷ [])) (meet p e)
unfolding meet
meet-Describes [] p e named h = cc (h.named, h.preferred)
meet-Describes (q ∷ qs) p e named h = record {
  names = λ n.
      rw (with_alias-names n p.name e.aliases, any-snoc (λ r. bytes_eq n r.name) (q ∷ qs) p)
        (ap (λ b. b || bytes_eq n p.name) (h.names n));
  distinct = with_alias-Distinct p.name e.aliases h.distinct;
  preferred = ground (
    arith,
    reserved_or-snoc q.name qs p,
    reserved_or-other q.name qs,
    h.preferred,
    h.reserved,
    h.named,
  );
  reserved = ground (arith, any-snoc (λ r. r.is_reserved) qs p, h.reserved, h.named);
  named = ground (arith, h.named);
}

-- The first line.
first-Describes :
    (p : ParsedLine) → is_empty p.name ≡ false → Describes (p ∷ []) (meet p (entry_of none))
unfolding meet with_alias
first-Describes p named = record {
  names = λ n. refl;
  distinct = (refl, tt);
  preferred = ground arith;
  reserved = ground arith;
  named = named;
}

Resolves-meet :
    (ps : List ParsedLine) (p : ParsedLine) (o : Option BoardEntry)
    → is_empty p.name ≡ false
    → Resolves ps o
    → Resolves (append ps (p ∷ [])) (some (meet p (entry_of o)))
Resolves-meet [] p none named h = first-Describes p named
Resolves-meet [] p (some e) named h = absurd h
Resolves-meet (q ∷ qs) p none named h = absurd h
Resolves-meet (q ∷ qs) p (some e) named h = meet-Describes (q ∷ qs) p e named h

find-put :
    (id key : ℕ) (new : BoardEntry) (entries : List (ℕ × BoardEntry))
    → find id (put key new entries) ≡ (if key == id then some new else find id entries)
unfolding find put
find-put id key new [] = refl
find-put id key new ((other, entry) ∷ entries) = ground (arith, find-put id key new entries)

lines_of-append :
    (id : ℕ) (ps qs : List ParsedLine)
    → lines_of id (append ps qs) ≡ append (lines_of id ps) (lines_of id qs)
lines_of-append id [] qs = refl
lines_of-append id (p ∷ ps) qs = elim (Bool-cases (p.board_type == id)) [
  | inl e ↦ rw e (ap (λ r. p ∷ r) (lines_of-append id ps qs))
  | inr e ↦ rw e (lines_of-append id ps qs)
]

pub append-nil : {A : Type 0} (xs : List A) → append xs [] ≡ xs
append-nil [] = refl
append-nil (x ∷ xs) = ap (λ r. x ∷ r) (append-nil xs)

-- The catalog tells of each board type what the lines say.
abbrev pub Knows : List ParsedLine → BoardTypeCatalog → Type 0
Knows ps c = (id : ℕ) → Resolves (lines_of id ps) (find id c.entries)

pub add-Knows :
    (ps : List ParsedLine) (p : ParsedLine) (c : BoardTypeCatalog)
    → is_empty p.name ≡ false
    → Knows ps c
    → Knows (append ps (p ∷ [])) (add p c)
unfolding add
add-Knows ps p c named h id =
    rw
      (
        find-put id p.board_type (meet p (entry_of (find p.board_type c.entries))) c.entries,
        lines_of-append id ps (p ∷ []),
      )
      (elim (Bool-cases (p.board_type == id)) [
        | inl e ↦
            rw (← (==_iff p.board_type id).0 e, (==_iff p.board_type p.board_type).1 refl)
              (Resolves-meet (lines_of p.board_type ps) p (find p.board_type c.entries) named
                (h p.board_type))
        | inr e ↦ rw (e, append-nil (lines_of id ps)) (h id)
      ])
