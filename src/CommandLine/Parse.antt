-- ===== src/CommandLine/Parse.antt =====
-- presentation/cli/CommandLine: `parse_command_line`.
use companion_lab.Prelude.{Option, List, [], ◌∷◌, if◌then◌else◌}
use companion_lab.Prelude.Text.{Bytes, bytes, bytes_eq}
use companion_lab.Prelude.Doubles.{Doubles}
use mathlib.Core.List.{◌++◌ as append}
use companion_lab.CommandLine.{
  CommandLineOptions, Scan, defaults, Parsed, parsed, refused, Form, flag, valued, unknown, ◌>>=◌,
  ◌>>◌,
}
use companion_lab.CommandLine.Validate.{validate_options}
use companion_lab.CommandLine.Forms.{transport_forms, camera_forms, vision_forms, other_forms}

module _ {D : Type 0} where
  -- The first entry with the argument's text.
  unfoldable pub find_form : List (Bytes × Form D) → Bytes → Form D
  find_form [] argument = unknown (append (bytes "Unknown argument: ") argument)
  find_form ((text, form) ∷ forms) argument =
      if bytes_eq argument text then form else find_form forms argument

  -- The last argument: a value that it needs is missing.
  unfoldable pub end_with : Form D → Bytes → Scan D → Parsed (Scan D)
  end_with (flag f) argument s = parsed (f s)
  end_with (valued f) argument s = refused (append (bytes "Missing value after ") argument)
  end_with (unknown text) argument s = refused text

  -- An argument that another follows: the loop goes on with that one, or behind it.
  unfoldable pub go_on :
      Form D
      → Bytes
      → Scan D
      → (Scan D → Parsed (Scan D))
      → (Scan D → Parsed (Scan D))
      → Parsed (Scan D)
  go_on (flag f) v s next behind = next (f s)
  go_on (valued f) v s next behind = f v s >>= behind
  go_on (unknown text) v s next behind = refused text

  -- The loop over the arguments.
  unfoldable pub scan : (Bytes → Form D) → List Bytes → Scan D → Parsed (Scan D)
  scan form_of [] s = parsed s
  scan form_of (argument ∷ []) s = end_with (form_of argument) argument s
  scan form_of (argument ∷ v ∷ rest) s =
      go_on (form_of argument) v s (scan form_of (v ∷ rest)) (scan form_of rest)

module _ {D : Type 0} ⦃d : Doubles D⦄ (from_chars : Bytes → Option D) where
  abbrev pub all_forms : List (Bytes × Form D)
  all_forms =
      append transport_forms (append camera_forms (append (vision_forms from_chars) other_forms))

  unfoldable pub form_of : Bytes → Form D
  form_of argument = find_form all_forms argument

  unfoldable pub parse_command_line : List Bytes → Parsed (CommandLineOptions D)
  parse_command_line arguments = do
    s ← scan form_of arguments defaults
    validate_options s
    parsed s.options
