-- ===== src/Config/Decode/Ports.antt =====
-- config/normalize.go, the ports.
use devcontainer.Base.{
  ℤ, pos, List, [], ◌∷◌, ◌++◌, map, Option, none, some, Text, text, cut, length, drop,
}
use devcontainer.Config.Types.{Json, PortSpec, Warning, unknown_field}
use devcontainer.Config.Decode.Values.{
  Decoded, decoded, refused, expected_ports, expected_app_port, as_string, as_int, as_items,
  parse_int, Item, kept, skipped, keep_items,
}

abbrev pub port_of : Option ℤ → Option ℤ → Option PortSpec
port_of none container = none
port_of (some h) none = none
port_of (some h) (some c) = some (record { container = c; host = h; label = [] })

abbrev pub port_pair : Text → Option (Text × Text) → Option PortSpec
port_pair s none = port_of (some (pos 0)) (parse_int s)
port_pair s (some (host, container)) = port_of (parse_int host) (parse_int container)

-- `none` is an error, whose text quotes `s`.
unfoldable pub parse_port_string : Text → Option PortSpec
parse_port_string s = port_pair s (cut b':' s)

abbrev pub port_or_skip : Text → Option PortSpec → Item PortSpec
port_or_skip s none = skipped s
port_or_skip s (some p) = kept p

abbrev pub container_port : ℤ → PortSpec
container_port n = record { container = n; host = pos 0; label = [] }

abbrev pub text_port : Option Text → Item PortSpec
text_port none = skipped []
text_port (some s) = port_or_skip s (parse_port_string s)

unfoldable pub port_item : Json → Item PortSpec
port_item j = elim (as_int j) [ some n ↦ kept (container_port n) | none ↦ text_port (as_string j) ]

abbrev pub forward_ports_path : Text
forward_ports_path = text "/forwardPorts"

unfoldable pub decode_forward_ports : Option Json → Decoded (List PortSpec × List Warning)
decode_forward_ports none = decoded ([], [])
decode_forward_ports (some j) = elim (as_items j) [
  | none ↦ refused expected_ports
  | some items ↦ decoded (keep_items port_item forward_ports_path 0 items)
]

-- strings.Replace in the path, which begins with what is replaced.
abbrev pub retag : Warning → Warning
retag w = record w { path = text "/appPort" ++ drop (length forward_ports_path) w.path }

abbrev pub retag_all :
    Decoded (List PortSpec × List Warning) → Decoded (List PortSpec × List Warning)
retag_all (refused e) = refused expected_app_port
retag_all (decoded (ports, ws)) = decoded (ports, map retag ws)

abbrev pub app_port_text : Text → Option PortSpec → List PortSpec × List Warning
app_port_text s (some p) = (p ∷ [], [])
app_port_text s none = (
  [],
  record { warning_code = unknown_field; message = s; path = text "/appPort"; source = [] } ∷ [],
)

unfoldable pub decode_app_port : Option Json → Decoded (List PortSpec × List Warning)
decode_app_port none = decoded ([], [])
decode_app_port (some j) = elim (as_int j) [
  | some n ↦ decoded (container_port n ∷ [], [])
  | none ↦ elim (as_string j) [
    | some s ↦ decoded (app_port_text s (parse_port_string s))
    | none ↦ retag_all (decode_forward_ports (some j))
  ]
]
