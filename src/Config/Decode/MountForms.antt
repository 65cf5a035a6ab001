-- ===== src/Config/Decode/MountForms.antt =====
-- config/normalize.go, the mounts. The keys of an object are matched up to the case of ASCII letters.
use devcontainer.Base.{
  ℕ, ◌+◌, Bool, false, ◌&&◌, ◌||◌, List, [], ◌∷◌, map, Option, none, some, Text, text, ◌==◌, cut,
  split_at_byte, leb, if◌then◌else◌,
}
use devcontainer.Config.Types.{Json, null, bool, str, obj, Fields, end, field, Mount, Warning}
use devcontainer.Config.Decode.Values.{
  Decoded, decoded, refused, expected_mounts, expected_workspace_mount, as_string, as_items, Item,
  kept, skipped, keep_items,
}

abbrev pub empty_mount : Mount
empty_mount = record {
  type = [];
  source = [];
  target = [];
  read_only = false;
  bind_options = none;
  volume_options = none;
  tmpfs_options = none;
}

abbrev pub set_part : Mount → Option (Text × Text) → Mount
set_part m none = m
set_part m (some (key, val)) =
    if key == text "type"
    then record m { type = val }
    else if (key == text "source") || (key == text "src")
    then record m { source = val }
    else if (key == text "target") || ((key == text "dst") || (key == text "destination"))
    then record m { target = val }
    else if (key == text "readonly") || (key == text "ro")
    then record m { read_only = (val == text "true") || (val == text "1") }
    else m

unfoldable pub set_parts : Mount → List Text → Mount
set_parts m [] = m
set_parts m (p ∷ parts) = set_parts (set_part m (cut b'=' p)) parts

unfoldable pub parse_mount_string : Text → Mount
parse_mount_string s = set_parts empty_mount (split_at_byte b',' s)

abbrev pub lower : ℕ → ℕ
lower c = if leb b'A' c && leb c b'Z' then c + 32 else c

abbrev pub is_key : Text → Text → Bool
is_key name key = map lower key == name

abbrev pub put_text : (Text → Mount) → Mount → Json → Option Mount
put_text set m (str s) = some (set s)
put_text set m null = some m
put_text set m _ = none

abbrev pub put_bool : (Bool → Mount) → Mount → Json → Option Mount
put_bool set m (bool b) = some (set b)
put_bool set m null = some m
put_bool set m _ = none

-- One field of an object that fills a `rawMountObject`; `none` where its type does not fit.
unfoldable pub set_field : Mount → Text → Json → Option Mount
set_field m key j =
    if is_key (text "type") key
    then put_text (λ s. record m { type = s }) m j
    else if is_key (text "source") key
    then put_text (λ s. record m { source = s }) m j
    else if is_key (text "target") key
    then put_text (λ s. record m { target = s }) m j
    else if is_key (text "readonly") key
    then put_bool (λ b. record m { read_only = b }) m j
    else some m

abbrev pub and_then_mount : Option Mount → (Mount → Option Mount) → Option Mount
and_then_mount none k = none
and_then_mount (some m) k = k m

unfoldable pub set_fields : Mount → Fields → Option Mount
set_fields m end = some m
set_fields m (field key j fields) = and_then_mount (set_field m key j) (λ m'. set_fields m' fields)

-- json.Unmarshal into a `rawMountObject`, here the mount that is made of it.
abbrev pub as_mount : Json → Option Mount
as_mount (obj fields) = set_fields empty_mount fields
as_mount null = some empty_mount
as_mount _ = none

abbrev pub is_blank_mount : Mount → Bool
is_blank_mount m = (m.type == []) && ((m.source == []) && (m.target == []))

abbrev pub object_mount : Option Mount → Item Mount
object_mount none = skipped []
object_mount (some m) = if is_blank_mount m then skipped [] else kept m

unfoldable pub mount_item : Json → Item Mount
mount_item j = elim (as_string j) [
  | some s ↦ kept (parse_mount_string s)
  | none ↦ object_mount (as_mount j)
]

unfoldable pub decode_mounts : Option Json → Decoded (List Mount × List Warning)
decode_mounts none = decoded ([], [])
decode_mounts (some j) = elim (as_items j) [
  | none ↦ refused expected_mounts
  | some items ↦ decoded (keep_items mount_item (text "/mounts") 0 items)
]

unfoldable pub decode_workspace_mount : Option Json → Decoded (Option Mount)
decode_workspace_mount none = decoded none
decode_workspace_mount (some j) = elim (as_string j) [
  | some s ↦ decoded (some (parse_mount_string s))
  | none ↦ elim (as_mount j) [ some m ↦ decoded (some m) | none ↦ refused expected_workspace_mount ]
]
