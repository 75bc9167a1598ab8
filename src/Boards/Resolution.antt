-- ===== src/Boards/Resolution.antt =====
-- adapters/ardupilot/BoardTypeCatalog: what a catalog tells of a board type.
use companion_lab.Prelude.{
  ℕ, suc, ◌≡◌, refl, sym, false, not, Option, none, some, List, [], ◌∷◌, String, arith, ◌<◌, leb,
}
use companion_lab.Prelude.Text.{Bytes}
use companion_lab.Prelude.Outcomes.{
  Outcome, ok, threw, fault, or_throw, ◌>>=◌, Yields, throw_if-Yields,
}
use mathlib.Core.List.{◌++◌ as append, append_assoc}
use mathlib.Core.Path.{subst}
use companion_lab.CommandLine.Numbers.{parse_unsigned}
use companion_lab.Boards.{
  is_empty, ParsedLine, parse_content, parse_line, BoardTypeCatalog, find, add, add_if, load,
  from_stream, normalized_name, split_last, trim, unless_empty, without_comment,
}
use companion_lab.Boards.Entries.{Knows, add-Knows, append-nil}

-- A line that is read has a name, and a number of 16 bits.
abbrev pub IsRead : Option ParsedLine → Type 0
IsRead none = Unit
IsRead (some p) = (is_empty p.name ≡ false) × (p.board_type < 0x1_0000)

or_throw-Yields :
    {A B : Type 0} (Q : B → Type 0) (o : Option A) (text : String) (f : A → Outcome B)
    → ((a : A) → Yields Q (f a))
    → Yields Q (or_throw o text >>= f)
or_throw-Yields Q none text f h = tt
or_throw-Yields Q (some a) text f h = h a

parse_content-IsRead :
    (content : Bytes) (line_number : ℕ)
    → Yields (λ p. IsRead (some p)) (parse_content content line_number)
unfolding parse_content
parse_content-IsRead content line_number =
    or_throw-Yields (λ p. IsRead (some p)) (split_last content) _ _
      λ texts.
        or_throw-Yields (λ p. IsRead (some p)) (parse_unsigned 0xffff_ffff (trim texts.1)) _ _
          λ number.
            throw_if-Yields (λ p. IsRead (some p)) (not (leb number 0xffff)) _ _
              λ small.
                throw_if-Yields (λ p. IsRead (some p)) (is_empty (normalized_name (trim texts.0)).0)
                  _ _ λ named. (named, ground arith)

some-IsRead :
    (u : Outcome ParsedLine)
    → Yields (λ p. IsRead (some p)) u
    → Yields IsRead (u >>= λ p. ok (some p))
some-IsRead (ok p) h = h
some-IsRead (threw text) h = tt
some-IsRead fault h = h

unless_empty-IsRead :
    (content : Bytes) (line_number : ℕ) → Yields IsRead (unless_empty content line_number)
unless_empty-IsRead [] line_number = tt
unless_empty-IsRead (c ∷ cs) line_number =
    some-IsRead (parse_content (c ∷ cs) line_number) (parse_content-IsRead (c ∷ cs) line_number)

pub parse_line-IsRead :
    (line : Bytes) (line_number : ℕ) → Yields IsRead (parse_line line line_number)
unfolding parse_line
parse_line-IsRead line line_number = unless_empty-IsRead (trim (without_comment line)) line_number

abbrev pub with_line : Option ParsedLine → Outcome (List ParsedLine) → Outcome (List ParsedLine)
with_line none later = later
with_line (some p) later = later >>= λ ps. ok (p ∷ ps)

-- The lines that are read, one after the other.
abbrev pub parsed_lines : ℕ → List Bytes → Outcome (List ParsedLine)
parsed_lines line_number [] = ok []
parsed_lines line_number (line ∷ lines) =
    parse_line line (suc line_number) >>= λ p. with_line p (parsed_lines (suc line_number) lines)

-- The same exception, or a catalog that knows the lines, after earlier ones.
abbrev pub Tells : List ParsedLine → Outcome (List ParsedLine) → Outcome BoardTypeCatalog → Type 0
Tells earlier (ok ps) (ok c) = Knows (append earlier ps) c
Tells earlier (threw text) (threw other) = text ≡ other
Tells earlier _ _ = ⊥

earlier-Tells :
    (earlier : List ParsedLine) (p : ParsedLine) (later : Outcome (List ParsedLine))
    (c : Outcome BoardTypeCatalog)
    → Tells (append earlier (p ∷ [])) later c
    → Tells earlier (with_line (some p) later) c
earlier-Tells earlier p (ok ps) (ok c) h =
    subst (λ qs. Knows qs c) (append_assoc earlier (p ∷ []) ps) h
earlier-Tells earlier p (ok ps) (threw text) h = h
earlier-Tells earlier p (ok ps) fault h = h
earlier-Tells earlier p (threw text) (ok c) h = h
earlier-Tells earlier p (threw text) (threw other) h = h
earlier-Tells earlier p (threw text) fault h = h
earlier-Tells earlier p fault c h = h

line-Tells :
    (o : Outcome (Option ParsedLine)) (later : Outcome (List ParsedLine))
    (go_on : BoardTypeCatalog → Outcome BoardTypeCatalog) (earlier : List ParsedLine)
    (c : BoardTypeCatalog)
    → Yields IsRead o
    → Knows earlier c
    → ((ps : List ParsedLine) (c : BoardTypeCatalog) → Knows ps c → Tells ps later (go_on c))
    → Tells earlier (o >>= λ p. with_line p later) (o >>= λ p. go_on (add_if p c))
line-Tells (ok none) later go_on earlier c y h k = k earlier c h
line-Tells (ok (some p)) later go_on earlier c y h k =
    earlier-Tells earlier p later (go_on (add p c))
      (k (append earlier (p ∷ [])) (add p c) (add-Knows earlier p c y.0 h))
line-Tells (threw text) later go_on earlier c y h k = refl
line-Tells fault later go_on earlier c y h k = y

load-Tells :
    (lines : List Bytes) (line_number : ℕ) (earlier : List ParsedLine) (c : BoardTypeCatalog)
    → Knows earlier c
    → Tells earlier (parsed_lines line_number lines) (load line_number lines c)
unfolding load
load-Tells [] line_number earlier c h = subst (λ ps. Knows ps c) (sym (append-nil earlier)) h
load-Tells (line ∷ lines) line_number earlier c h =
    line-Tells (parse_line line (suc line_number)) (parsed_lines (suc line_number) lines)
      (load (suc line_number) lines) earlier c (parse_line-IsRead line (suc line_number)) h
      (load-Tells lines (suc line_number))

-- Reading a table fails exactly as reading its lines one by one does. Otherwise the catalog has an entry
-- for exactly the board types that a line names: with the names of these lines, each once, and with the
-- name of the first reserved one as the preferred one, or that of the first if none is reserved.
pub from_stream-Tells : (lines : List Bytes) → Tells [] (parsed_lines 0 lines) (from_stream lines)
unfolding from_stream find
from_stream-Tells lines = load-Tells lines 0 [] _ (λ id. tt)
