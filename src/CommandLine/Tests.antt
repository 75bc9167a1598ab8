-- ===== src/CommandLine/Tests.antt =====
-- presentation/cli/CommandLine: the theorem at concrete arguments.
use companion_lab.Prelude.{ℕ, List, [], ◌∷◌, ◌≡◌, ◌⊎◌, true, none}
use companion_lab.Prelude.Text.{Bytes, bytes}
use companion_lab.Examples.{thousandths}
use companion_lab.CommandLine.{CommandLineOptions}
use companion_lab.CommandLine.Parse.{parse_command_line}
use companion_lab.CommandLine.Configuration.{Passes, IsConfiguration}
use companion_lab.CommandLine.Sound.{parse_command_line-IsConfiguration}

abbrev arguments : List Bytes
arguments = bytes "--camera" ∷ bytes "--camera-width" ∷ bytes "320" ∷ []

parse_command_line-IsConfiguration_example :
    Passes
      (λ (o : CommandLineOptions ℕ). (o.show_help ≡ true) ⊎ IsConfiguration o)
      (parse_command_line (λ text. none) arguments)
parse_command_line-IsConfiguration_example =
    parse_command_line-IsConfiguration (λ text. none) arguments
