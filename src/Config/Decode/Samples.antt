-- ===== src/Config/Decode/Samples.antt =====
-- Fields of a devcontainer.json, and the theorems about decoding applied to them.
use devcontainer.Base.{pos, true, [], ◌∷◌, none, some, text, any, insert, cut, ◌==◌, ◌≡◌, refl}
use devcontainer.Config.Types.{
  null, num, str, arr, obj, Items, nil, cons, end, field, unknown_field,
}
use devcontainer.Config.Decode.Values.{
  decoded, list_of, strings_of, add_fields, parse_int, keep_items, show_nat, digits, digits_value,
}
use devcontainer.Config.Decode.Commands.{
  decode_lifecycle_command, decode_named, decode_command_value, shell_command, exec_command,
}
use devcontainer.Config.Decode.MountForms.{parse_mount_string}
use devcontainer.Config.Decode.Ports.{
  parse_port_string, port_item, container_port, decode_forward_ports,
}
use devcontainer.Config.Decode.Printed.{print_mount, plain_mount, parse_mount_string-print_mount}

-- A string without a port, and two ports.
abbrev ports : Items
ports = cons (str (text "web")) (cons (num (text "3000")) (cons (str (text "8080:80")) nil))

decode_ports :
    decode_forward_ports (some (arr ports))
    ≡ decoded (
      container_port (pos 3000) ∷ (record { container = pos 80; host = pos 8080; label = [] } ∷ []),
      record {
        warning_code = unknown_field;
        message = text "web";
        path = text "/forwardPorts/0";
        source = [];
      }
          ∷ [],
    )
unfolding decode_forward_ports port_item parse_port_string parse_int digits_value keep_items list_of
    cut show_nat digits
decode_ports = refl

-- `null` is a command with an empty text.
decode_null :
    decode_lifecycle_command (some null)
    ≡ decoded (record { single = some (shell_command []); parallel = [] })
unfolding decode_lifecycle_command
decode_null = refl

decode_parallel :
    decode_lifecycle_command (
      some (
        obj (
          field
            (text "a")
            (str (text "make"))
            (field (text "b") (arr (cons (str (text "ls")) nil)) end))))
    ≡ decoded (record {
      single = none;
      parallel =
          (text "a", shell_command (text "make"))
          ∷ ((text "b", exec_command (text "ls" ∷ [])) ∷ []);
    })
unfolding decode_lifecycle_command decode_named decode_command_value strings_of add_fields insert
    ◌==◌
decode_parallel = refl

parse_mount_string-print_mount_example :
    parse_mount_string (print_mount (text "bind") (text "/a=b") (text "/b") true)
    ≡ plain_mount (text "bind") (text "/a=b") (text "/b") true
unfolding any
parse_mount_string-print_mount_example =
    parse_mount_string-print_mount (text "bind") (text "/a=b") (text "/b") true refl refl refl
