-- ===== src/Boards/Tests.antt =====
-- adapters/ardupilot/BoardTypeCatalog: the theorem at a concrete table.
use companion_lab.Prelude.{List, [], ◌∷◌, ◌≡◌, refl, some}
use companion_lab.Prelude.Text.{Bytes, bytes}
use companion_lab.Prelude.Outcomes.{ok, ◌>>=◌}
use companion_lab.CommandLine.Numbers.{digits_from, parse_unsigned}
use companion_lab.Boards.{
  trim_left, trim_right, trim, without_prefix, without_quote, unquoted, normalized_name,
  without_comment, split_last, parse_content, parse_line, find, put, with_alias, meet, add, load,
  from_stream, resolve,
}
use companion_lab.Boards.Resolution.{Tells, parsed_lines, from_stream-Tells}

abbrev table : List Bytes
table =
    bytes "# a table"
    ∷ bytes "TARGET_HW_FIRST 9"
    ∷ bytes "Reserved \"Friendly Board\" 9  # reserved"
    ∷ bytes "TARGET_HW_FIRST 9"
    ∷ bytes "OTHER 56"
    ∷ []

from_stream-Tells_example : Tells [] (parsed_lines 0 table) (from_stream table)
from_stream-Tells_example = from_stream-Tells table

-- The reserved name is preferred, and each name is kept once.
table_9 :
    (from_stream table >>= λ c. ok (resolve 9 c))
    ≡ ok (
        some (record {
          preferred_name = bytes "Friendly Board";
          aliases = bytes "TARGET_HW_FIRST" ∷ bytes "Friendly Board" ∷ [];
        }))
unfolding digits_from parse_unsigned trim_left trim_right trim without_prefix without_quote unquoted
    normalized_name without_comment split_last parse_content parse_line find put with_alias meet add
    load from_stream resolve
table_9 = refl
