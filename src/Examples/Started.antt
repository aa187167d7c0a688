-- ===== src/Examples/Started.antt =====
-- A program that is started with every option.
use dann.Prelude.{◌≡◌, refl, true, some, [], ◌∷◌, pos, arith}
use dann.Types.{returned}
use dann.Config.{text}
use dann.Startup.{Config, FileSystem, parse_arguments, defaults}
use dann.Startup.Arguments.{arguments_of, parse_arguments-arguments_of}
use dann.MessageHandler.Digits.{stoi, skip_spaces, signed, magnitude, leading}
use dann.Examples.Settings.{decimal}

abbrev rooted : FileSystem
rooted = record { is_absolute = λ path. true; absolute = λ path. 47 ∷ path }

abbrev two_seeds : Config
two_seeds = record defaults { port = pos 3; seed_nodes = text "b" ∷ text "c" ∷ [] }

parse_arguments-arguments_of_example :
    parse_arguments stoi rooted (arguments_of decimal two_seeds) ≡ returned (some two_seeds)
unfolding stoi skip_spaces signed magnitude leading
parse_arguments-arguments_of_example =
    parse_arguments-arguments_of stoi rooted decimal two_seeds refl refl refl refl refl
      (omega arith)
