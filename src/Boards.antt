-- ===== src/Boards.antt =====
-- adapters/ardupilot/BoardTypeCatalog: the table of ArduPilot's board types. Its lines are those that
-- `std::getline` reads.
pub mod Entries
pub mod Resolution
mod Tests
use companion_lab.Prelude.{
  ℕ, suc, ◌+◌, Bool, true, false, not, ◌&&◌, ◌||◌, Option, none, some, List, [], ◌∷◌, String, ◌==◌,
  any, length, leb, if◌then◌else◌,
}
use companion_lab.Prelude.Text.{Bytes, bytes, bytes_eq, to_string}
use companion_lab.Prelude.Text.{◌++◌}
use companion_lab.Prelude.Outcomes.{Outcome, ok, threw, or_throw, throw_if, ◌>>=◌, ◌>>◌}
use mathlib.Core.List.{◌++◌ as append}
use companion_lab.CommandLine.Numbers.{parse_unsigned}

abbrev pub is_empty : Bytes → Bool
is_empty [] = true
is_empty (c ∷ cs) = false

-- A space, a tab, a carriage return or a newline.
abbrev is_blank : ℕ → Bool
is_blank c = c == 32 || (c == 9 || (c == 13 || c == 10))

unfoldable pub trim_left : Bytes → Bytes
trim_left [] = []
trim_left (c ∷ cs) = let rest = trim_left cs in if is_blank c then rest else c ∷ cs

-- A character before what is left of the rest.
abbrev before_trimmed : ℕ → Bytes → Bytes
before_trimmed c [] = if is_blank c then [] else c ∷ []
before_trimmed c (d ∷ ds) = c ∷ d ∷ ds

unfoldable pub trim_right : Bytes → Bytes
trim_right [] = []
trim_right (c ∷ cs) = before_trimmed c (trim_right cs)

unfoldable pub trim : Bytes → Bytes
trim value = trim_right (trim_left value)

-- What follows a prefix.
unfoldable pub without_prefix : Bytes → Bytes → Option Bytes
without_prefix [] s = some s
without_prefix (p ∷ ps) [] = none
without_prefix (p ∷ ps) (c ∷ cs) = let rest = without_prefix ps cs in if p == c then rest else none

-- A text without its last character, if that is a quote.
unfoldable pub without_quote : Bytes → Option Bytes
without_quote [] = none
without_quote (c ∷ []) = if c == 34 then some [] else none
without_quote (c ∷ d ∷ cs) =
    let rest = without_quote (d ∷ cs) in elim rest [ none ↦ none | some kept ↦ some (c ∷ kept) ]

abbrev or_whole : Option Bytes → Bytes → Bytes
or_whole none whole = whole
or_whole (some inner) whole = inner

-- The text between two quotes.
unfoldable pub unquoted : Bytes → Bytes
unfolding without_quote
unquoted [] = []
unquoted (c ∷ cs) = if c == 34 then or_whole (without_quote cs) (c ∷ cs) else c ∷ cs

abbrev marked : Option Bytes → Bytes → Bytes × Bool
marked none source_name = (trim (unquoted source_name), false)
marked (some rest) source_name = (trim (unquoted (trim rest)), true)

unfoldable pub normalized_name : Bytes → Bytes × Bool
unfolding trim without_prefix unquoted
normalized_name source_name =
    marked (without_prefix (bytes "Reserved") (trim source_name)) (trim source_name)

pub record ParsedLine : Type 0 where
  pub board_type : ℕ
  pub name : Bytes
  pub is_reserved : Bool

-- The text before a `#`.
unfoldable pub without_comment : Bytes → Bytes
without_comment [] = []
without_comment (c ∷ cs) = let rest = without_comment cs in if c == 35 then [] else c ∷ rest

-- The texts before and after the last space or tab.
abbrev split_at : ℕ → Bytes → Option (Bytes × Bytes) → Option (Bytes × Bytes)
split_at c cs (some (left, right)) = some (c ∷ left, right)
split_at c cs none = if c == 32 || c == 9 then some ([], cs) else none

unfoldable pub split_last : Bytes → Option (Bytes × Bytes)
split_last [] = none
split_last (c ∷ cs) = split_at c cs (split_last cs)

abbrev complaint : ℕ → String → String
complaint line_number problem = "ArduPilot board table line " ++ to_string line_number ++ problem

-- The name and the number of a line that has both.
unfoldable pub parse_content : Bytes → ℕ → Outcome ParsedLine
unfolding split_last normalized_name
parse_content content line_number = do
  (name_text, id_text) ←
      or_throw (split_last content) (complaint line_number " has no numeric board type")
  parsed_id ←
      or_throw (parse_unsigned 0xffff_ffff (trim id_text))
        (complaint line_number " has an invalid board type")
  throw_if (not (leb parsed_id 0xffff)) (complaint line_number " has an invalid board type")
  let named = normalized_name (trim name_text)
  throw_if (is_empty named.0) (complaint line_number " has an empty board name")
  ok (record { board_type = parsed_id; name = named.0; is_reserved = named.1 })

abbrev pub unless_empty : Bytes → ℕ → Outcome (Option ParsedLine)
unless_empty [] line_number = ok none
unless_empty (c ∷ cs) line_number = parse_content (c ∷ cs) line_number >>= λ p. ok (some p)

unfoldable pub parse_line : Bytes → ℕ → Outcome (Option ParsedLine)
unfolding without_comment
parse_line line line_number = unless_empty (trim (without_comment line)) line_number

pub record BoardEntry : Type 0 where
  pub preferred_name : Bytes
  pub aliases : List Bytes
  pub preferred_is_reserved : Bool

pub record BoardTypeCatalog : Type 0 where
  pub entries : List (ℕ × BoardEntry)
  pub alias_count : ℕ

pub record BoardTypeMatch : Type 0 where
  pub preferred_name : Bytes
  pub aliases : List Bytes

unfoldable pub find : ℕ → List (ℕ × BoardEntry) → Option BoardEntry
find board_type [] = none
find board_type ((key, entry) ∷ entries) =
    let rest = find board_type entries in if key == board_type then some entry else rest

-- The entry of a board type, a new one if it has none.
abbrev pub entry_of : Option BoardEntry → BoardEntry
entry_of none = record { preferred_name = []; aliases = []; preferred_is_reserved = false }
entry_of (some entry) = entry

unfoldable pub put : ℕ → BoardEntry → List (ℕ × BoardEntry) → List (ℕ × BoardEntry)
put board_type new [] = (board_type, new) ∷ []
put board_type new ((key, entry) ∷ entries) =
    let rest = put board_type new entries in
    if key == board_type then (key, new) ∷ entries else (key, entry) ∷ rest

unfoldable pub with_alias : Bytes → List Bytes → List Bytes
with_alias name aliases =
    if any (bytes_eq name) aliases then aliases else append aliases (name ∷ [])

-- An entry with one more name.
unfoldable pub meet : ParsedLine → BoardEntry → BoardEntry
unfolding with_alias
meet p entry =
    let prefers =
      is_empty entry.preferred_name || (p.is_reserved && not entry.preferred_is_reserved) in
    record {
      preferred_name = if prefers then p.name else entry.preferred_name;
      aliases = with_alias p.name entry.aliases;
      preferred_is_reserved = if prefers then p.is_reserved else entry.preferred_is_reserved;
    }

unfoldable pub add : ParsedLine → BoardTypeCatalog → BoardTypeCatalog
unfolding find put meet
add p c =
    let entry = entry_of (find p.board_type c.entries) in
    record {
      entries = put p.board_type (meet p entry) c.entries;
      alias_count =
          if any (bytes_eq p.name) entry.aliases then c.alias_count else c.alias_count + 1;
    }

abbrev pub add_if : Option ParsedLine → BoardTypeCatalog → BoardTypeCatalog
add_if none c = c
add_if (some p) c = add p c

-- The loop over the lines, after as many as the number.
unfoldable pub load : ℕ → List Bytes → BoardTypeCatalog → Outcome BoardTypeCatalog
unfolding parse_line
load line_number [] c = ok c
load line_number (line ∷ lines) c =
    parse_line line (suc line_number) >>= λ p. load (suc line_number) lines (add_if p c)

unfoldable pub from_stream : List Bytes → Outcome BoardTypeCatalog
unfolding load
from_stream lines = load 0 lines (record { entries = []; alias_count = 0 })

abbrev pub shown : Option BoardEntry → Option BoardTypeMatch
shown none = none
shown (some entry) =
    some (record { preferred_name = entry.preferred_name; aliases = entry.aliases })

unfoldable pub resolve : ℕ → BoardTypeCatalog → Option BoardTypeMatch
resolve board_type c = shown (find board_type c.entries)

unfoldable pub board_type_count : BoardTypeCatalog → ℕ
board_type_count c = length c.entries
