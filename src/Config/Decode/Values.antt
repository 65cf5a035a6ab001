-- ===== src/Config/Decode/Values.antt =====
-- config/normalize.go, what encoding/json and strconv make of a value. That encoding/json reads `null`
-- as the zero value of any type is kept; an object is read as a map here, and as a struct in Mounts.
use Prim.Native.Nat.{◌/◌, ◌%◌}
use devcontainer.Base.{
  ℕ, zero, suc, ◌+◌, ◌-◌, ◌*◌, ℤ, pos, negsuc, ◌&&◌, List, [], ◌∷◌, ◌++◌, Option, none, some, Text,
  Map, insert, nat_beq, leb, ltb, if◌then◌else◌,
}
use devcontainer.Config.Types.{
  Json, null, num, str, arr, obj, Items, nil, cons, Fields, end, field, Warning, unknown_field,
}

pub data DecodeError : Type 0 where
  expected_strings expected_command expected_mounts expected_workspace_mount expected_ports
        expected_app_port malformed_label :
      DecodeError
  bad_command : (name : Text) → DecodeError

pub data Decoded {ℓ} (A : Type ℓ) : Type ℓ where
  decoded : A → Decoded A
  refused : DecodeError → Decoded A

-- json.Unmarshal into a string.
abbrev pub as_string : Json → Option Text
as_string (str s) = some s
as_string null = some []
as_string _ = none

abbrev pub cons_found {ℓ} : {A : Type ℓ} → Option A → Option (List A) → Option (List A)
cons_found none xs = none
cons_found (some x) none = none
cons_found (some x) (some xs) = some (x ∷ xs)

unfoldable pub strings_of : Items → Option (List Text)
strings_of nil = some []
strings_of (cons j items) = cons_found (as_string j) (strings_of items)

-- json.Unmarshal into a slice of strings.
abbrev pub as_strings : Json → Option (List Text)
as_strings (arr items) = strings_of items
as_strings null = some []
as_strings _ = none

unfoldable pub list_of : Items → List Json
list_of nil = []
list_of (cons j items) = j ∷ list_of items

-- json.Unmarshal into a slice of raw messages.
abbrev pub as_items : Json → Option (List Json)
as_items (arr items) = some (list_of items)
as_items null = some []
as_items _ = none

unfoldable pub add_fields : Map Json → Fields → Map Json
add_fields m end = m
add_fields m (field key j fields) = add_fields (insert key j m) fields

-- json.Unmarshal into a map of raw messages: of a key that stands twice the last value counts.
abbrev pub as_map : Json → Option (Map Json)
as_map (obj fields) = some (add_fields [] fields)
as_map null = some []
as_map _ = none

unfoldable pub digits_value : ℕ → Text → Option ℕ
digits_value n [] = some n
digits_value n (c ∷ s) =
    let rest = digits_value (n * 10 + (c - b'0')) s in
    if leb b'0' c && leb c b'9' then rest else none

abbrev pub int_max : ℕ
int_max = 9223372036854775807

abbrev pub positive : Option ℕ → Option ℤ
positive none = none
positive (some n) = if leb n int_max then some (pos n) else none

abbrev pub negated : ℕ → ℤ
negated zero = pos 0
negated (suc n) = negsuc n

abbrev pub negative : Option ℕ → Option ℤ
negative none = none
negative (some n) = if leb n (int_max + 1) then some (negated n) else none

abbrev pub magnitude : Text → Option ℕ
magnitude [] = none
magnitude (c ∷ s) = digits_value 0 (c ∷ s)

-- strconv.Atoi, which takes what json.Unmarshal into an int takes, and a sign `+`.
unfoldable pub parse_int : Text → Option ℤ
parse_int [] = none
parse_int (c ∷ s) =
    if nat_beq c b'-'
    then negative (magnitude s)
    else if nat_beq c b'+'
    then positive (magnitude s)
    else positive (magnitude (c ∷ s))

abbrev pub as_int : Json → Option ℤ
as_int (num t) = parse_int t
as_int null = some (pos 0)
as_int _ = none

unfoldable pub digits : ℕ → ℕ → Text → Text
digits zero n acc = acc
digits (suc fuel) n acc =
    let acc' = (n % 10 + b'0') ∷ acc in
    let rest = digits fuel (n / 10) acc' in if ltb n 10 then acc' else rest

unfoldable pub show_nat : ℕ → Text
show_nat n = digits (suc n) n []

abbrev pub skipped_item : Text → ℕ → Text → Warning
skipped_item at i message = record {
  warning_code = unknown_field;
  message = message;
  path = at ++ b'/' ∷ show_nat i;
  source = [];
}

-- What an item of an array gives: a value, or the text that the warning about it quotes.
pub data Item {ℓ} (A : Type ℓ) : Type ℓ where
  kept : A → Item A
  skipped : Text → Item A

abbrev pub add_item {ℓ} :
    {A : Type ℓ} → (at : Text) → ℕ → Item A → List A × List Warning → List A × List Warning
add_item at i (kept a) (values, ws) = (a ∷ values, ws)
add_item at i (skipped message) (values, ws) = (values, skipped_item at i message ∷ ws)

-- The loop over an array: what is kept, and a warning for each item that is not.
unfoldable pub keep_items {ℓ} :
    {A : Type ℓ} → (Json → Item A) → (at : Text) → ℕ → List Json → List A × List Warning
keep_items one at i [] = ([], [])
keep_items one at i (j ∷ js) = add_item at i (one j) (keep_items one at (suc i) js)
