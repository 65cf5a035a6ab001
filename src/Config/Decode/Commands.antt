-- ===== src/Config/Decode/Commands.antt =====
-- config/normalize.go, the commands. A raw message is an optional JSON value.
use devcontainer.Base.{List, [], ◌∷◌, Option, none, some, Text, Map}
use devcontainer.Config.Types.{Json, Command, LifecycleCommand}
use devcontainer.Config.Decode.Values.{
  Decoded, decoded, refused, expected_strings, expected_command, bad_command, as_string, as_strings,
  as_map,
}

abbrev pub no_command : LifecycleCommand
no_command = record { single = none; parallel = [] }

abbrev pub single_command : Command → LifecycleCommand
single_command c = record { single = some c; parallel = [] }

abbrev pub shell_command : Text → Command
shell_command s = record { shell = s; exec = [] }

abbrev pub exec_command : List Text → Command
exec_command args = record { shell = []; exec = args }

unfoldable pub decode_string_or_string_array : Option Json → Decoded (List Text)
decode_string_or_string_array none = decoded []
decode_string_or_string_array (some j) = elim (as_string j) [
  | some s ↦ decoded (s ∷ [])
  | none ↦ elim (as_strings j) [ some ss ↦ decoded ss | none ↦ refused expected_strings ]
]

-- `none` where the value is neither a string nor an array of strings.
unfoldable pub decode_command_value : Json → Option Command
decode_command_value j = elim (as_string j) [
  | some s ↦ some (shell_command s)
  | none ↦ elim (as_strings j) [ some ss ↦ some (exec_command ss) | none ↦ none ]
]

abbrev pub add_named : Text → Option Command → Decoded (Map Command) → Decoded (Map Command)
add_named name none rest = refused (bad_command name)
add_named name (some c) (refused e) = refused e
add_named name (some c) (decoded m) = decoded ((name, c) ∷ m)

-- The loop over the named commands, whose names differ.
unfoldable pub decode_named : Map Json → Decoded (Map Command)
decode_named [] = decoded []
decode_named ((name, j) ∷ m) = add_named name (decode_command_value j) (decode_named m)

abbrev pub in_parallel : Decoded (Map Command) → Decoded LifecycleCommand
in_parallel (refused e) = refused e
in_parallel (decoded m) = decoded (record { single = none; parallel = m })

unfoldable pub decode_lifecycle_command : Option Json → Decoded LifecycleCommand
decode_lifecycle_command none = decoded no_command
decode_lifecycle_command (some j) = elim (as_string j) [
  | some s ↦ decoded (single_command (shell_command s))
  | none ↦ elim (as_strings j) [
    | some ss ↦ decoded (single_command (exec_command ss))
    | none ↦ elim (as_map j) [
      | some m ↦ in_parallel (decode_named m)
      | none ↦ refused expected_command
    ]
  ]
]
