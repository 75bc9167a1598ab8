-- ===== src/Rpicam/Lines.antt =====
-- adapters/camera/RpicamCameraSource: it makes no difference where the output of the process is cut.
use companion_lab.Prelude.{
  ◌≡◌, refl, sym, ap, ◌∙◌, true, false, List, [], ◌∷◌, ◌==◌, Bool-cases, inl, inr, ℕ,
}
use companion_lab.Prelude.Text.{Bytes}
use mathlib.Core.List.{◌++◌ as append, append_assoc, append-nil}
use companion_lab.Rpicam.{before_line, split_lines, last_line, read_lines}

-- The lines of a whole text: those that end with a newline, and what follows the last of them.
abbrev pub text_lines : Bytes → List Bytes
text_lines bs = let (lines, rest) = split_lines bs in append lines (last_line rest)

-- The chunks one after the other.
abbrev pub joined : List Bytes → Bytes
joined [] = []
joined (chunk ∷ chunks) = append chunk (joined chunks)

-- A character before the first line.
prepend : ℕ → List Bytes → List Bytes
prepend c [] = (c ∷ []) ∷ []
prepend c (line ∷ lines) = (c ∷ line) ∷ lines

before-prepend :
    (c : ℕ) (s : List Bytes × Bytes)
    → append (before_line c s).0 (last_line (before_line c s).1)
      ≡ prepend c (append s.0 (last_line s.1))
unfolding prepend
before-prepend c ([], []) = refl
before-prepend c ([], r ∷ rs) = refl
before-prepend c (line ∷ lines, rest) = refl

text_lines-cons :
    (c : ℕ) (bs : Bytes) → (c == 10) ≡ false → text_lines (c ∷ bs) ≡ prepend c (text_lines bs)
unfolding split_lines
text_lines-cons c bs e = rw e (before-prepend c (split_lines bs))

text_lines-newline :
    (c : ℕ) (bs : Bytes) → (c == 10) ≡ true → text_lines (c ∷ bs) ≡ ([] ∷ text_lines bs)
unfolding split_lines
text_lines-newline c bs e = rw e refl

-- What is split off a first part stands before the lines of the rest.
carry :
    (c : ℕ) (s : List Bytes × Bytes) (cs : Bytes)
    → (c == 10) ≡ false
    → prepend c (append s.0 (text_lines (append s.1 cs)))
      ≡ append (before_line c s).0 (text_lines (append (before_line c s).1 cs))
unfolding prepend
carry c ([], rest) cs e = sym (text_lines-cons c (append rest cs) e)
carry c (line ∷ lines, rest) cs e = refl

text_lines-append :
    (bs cs : Bytes)
    → text_lines (append bs cs)
      ≡ append (split_lines bs).0 (text_lines (append (split_lines bs).1 cs))
unfolding split_lines
text_lines-append [] cs = refl
text_lines-append (c ∷ bs) cs = elim (Bool-cases (c == 10)) [
  | inl e ↦
      text_lines-newline c (append bs cs) e ∙ rw e (ap (λ r. [] ∷ r) (text_lines-append bs cs))
  | inr e ↦
      text_lines-cons c (append bs cs) e
      ∙ ap (prepend c) (text_lines-append bs cs)
      ∙ carry c (split_lines bs) cs e
      ∙ rw e refl
]

-- What is left has no newline.
keeps-rest :
    (c : ℕ) (s : List Bytes × Bytes)
    → (c == 10) ≡ false
    → split_lines s.1 ≡ ([], s.1)
    → split_lines (before_line c s).1 ≡ ([], (before_line c s).1)
unfolding split_lines
keeps-rest c ([], rest) e h = rw (e, h) refl
keeps-rest c (line ∷ lines, rest) e h = h

rest-whole : (bs : Bytes) → split_lines (split_lines bs).1 ≡ ([], (split_lines bs).1)
unfolding split_lines
rest-whole [] = refl
rest-whole (c ∷ bs) = elim (Bool-cases (c == 10)) [
  | inl e ↦ rw e (rest-whole bs)
  | inr e ↦ rw e (keeps-rest c (split_lines bs) e (rest-whole bs))
]

read_lines-pending :
    (chunks : List Bytes) (pending : Bytes)
    → split_lines pending ≡ ([], pending)
    → read_lines pending chunks ≡ text_lines (append pending (joined chunks))
unfolding read_lines
read_lines-pending [] pending h = rw (append-nil pending, h) refl
read_lines-pending (chunk ∷ chunks) pending h =
    ap (append (split_lines (append pending chunk)).0) (
      read_lines-pending chunks (split_lines (append pending chunk)).1
        (rest-whole (append pending chunk)))
    ∙ sym (text_lines-append (append pending chunk) (joined chunks))
    ∙ ap text_lines (append_assoc pending chunk (joined chunks))

-- Wherever the output of the process is cut into reads, the lines consumed are those of the whole.
pub read_lines-joined : (chunks : List Bytes) → read_lines [] chunks ≡ text_lines (joined chunks)
unfolding split_lines
read_lines-joined chunks = read_lines-pending chunks [] refl
