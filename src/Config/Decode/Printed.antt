-- ===== src/Config/Decode/Printed.antt =====
-- Mounts and commands written out and read back.
use devcontainer.Base.{
  Bool, true, false, [], ◌∷◌, ◌++◌, Text, text, is_free_of, cut, split_at_byte_found,
  split_at_byte_last, ◌==◌, ◌≡◌, refl, any, append-nil,
}
use devcontainer.Config.Types.{Mount}
use devcontainer.Config.Decode.MountForms.{empty_mount, set_parts, parse_mount_string}

-- The form that docker documents, `readonly` only where it is set.
abbrev pub read_only_part : Bool → Text
read_only_part true = text ",readonly=true"
read_only_part false = []

pub print_mount : (type source target : Text) (read_only : Bool) → Text
print_mount type source target read_only =
    text "type="
    ++ (type
        ++ (text ",source="
            ++ (source ++ (text ",target=" ++ (target ++ read_only_part read_only)))))

abbrev pub plain_mount : (type source target : Text) (read_only : Bool) → Mount
plain_mount type source target read_only = record empty_mount {
  type = type;
  source = source;
  target = target;
  read_only = read_only;
}

-- A mount that is written as a string is read back as it was, where none of its parts holds a comma.
pub parse_mount_string-print_mount :
    (type source target : Text) (read_only : Bool)
    → is_free_of b',' type ≡ true
    → is_free_of b',' source ≡ true
    → is_free_of b',' target ≡ true
    → parse_mount_string (print_mount type source target read_only)
      ≡ plain_mount type source target read_only
unfolding print_mount parse_mount_string set_parts cut any ◌==◌
parse_mount_string-print_mount type source target true h k l =
    let last = split_at_byte_last b',' (text "readonly=true") refl in
    let third = split_at_byte_found b',' (text "target=" ++ target) (text "readonly=true") l in
    let rest = text "target=" ++ (target ++ text ",readonly=true") in
    let second = split_at_byte_found b',' (text "source=" ++ source) rest k in
    let first =
      split_at_byte_found b',' (text "type=" ++ type) (text "source=" ++ (source ++ b',' ∷ rest))
        h in
    rw (first, second, third, last) refl
parse_mount_string-print_mount type source target false h k l =
    let third = split_at_byte_last b',' (text "target=" ++ target) l in
    let second = split_at_byte_found b',' (text "source=" ++ source) (text "target=" ++ target) k in
    let first =
      split_at_byte_found b',' (text "type=" ++ type)
        (text "source=" ++ (source ++ (text ",target=" ++ target))) h in
    rw (append-nil, first, second, third) refl
