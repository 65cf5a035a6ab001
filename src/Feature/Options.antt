-- ===== src/Feature/Options.antt =====
-- feature/options.go: merging and checking the options of a feature, and quoting them for the shell.
mod Values
mod Quotes
mod Samples
use devcontainer.Base.{
  ℕ, Bool, true, false, not, ◌&&◌, ◌||◌, List, [], ◌∷◌, ◌++◌, Option, none, some, Text, text, ◌==◌,
  Map, keys, lookup, insert, any, sort, is_empty, nat_beq, leb, ◌+◌, ◌-◌, map, if◌then◌else◌,
}
use devcontainer.Config.Types.{Json, bool, str, arr, obj, FeatureOption, FeatureMetadata}

-- What is wrong with the value of an option. `panics` is the panic of Go's `==`, which is none of the
-- code's errors but ends the merge as they do.
pub data OptionError : Type 0 where
  not_in_enum expects_boolean expects_string panics : (name : Text) → OptionError

abbrev pub is_bool : Json → Bool
is_bool (bool b) = true
is_bool _ = false

abbrev pub is_string : Json → Bool
is_string (str s) = true
is_string _ = false

abbrev pub unless : Bool → OptionError → Option OptionError
unless true e = none
unless false e = some e

-- The merged options with the names of those that are not declared, or an error and the names so far.
pub data Merged : Type 0 where
  merged : Map Json → (unknown : List Text) → Merged
  rejected : (unknown : List Text) → OptionError → Merged

abbrev pub unknown_name : Text → Option FeatureOption → List Text
unknown_name name none = name ∷ []
unknown_name name (some decl) = []

abbrev pub unless_rejected : Option OptionError → (unknown : List Text) → Merged → Merged
unless_rejected none unknown rest = rest
unless_rejected (some e) unknown rest = rejected unknown e

abbrev pub put_default : Text → Option Json → Map Json → Map Json
put_default name none out = out
put_default name (some d) out = insert name d out

unfoldable pub put_defaults : Map Json → Map FeatureOption → Map Json
put_defaults out [] = out
put_defaults out ((name, opt) ∷ options) = put_defaults (put_default name opt.default out) options

-- Slices of the same type are not comparable, nor are maps.
abbrev pub both_uncomparable : Json → Json → Bool
both_uncomparable (arr xs) (arr ys) = true
both_uncomparable (obj xs) (obj ys) = true
both_uncomparable a b = false

-- `fmt.Sprint`, and `==` on values where it does not panic.
module _ (sprint : Json → Text) (same : Json → Json → Bool) where
  -- `none` is a panic.
  pub any_equal : Json → Json → Option Bool
  any_equal a b =
      if both_uncomparable a b then none else some (if same a b then true else sprint a == sprint b)

  abbrev pub or_next : Option Bool → (name : Text) → Option OptionError → Option OptionError
  or_next none name rest = some (panics name)
  or_next (some true) name rest = none
  or_next (some false) name rest = rest

  -- The loop over the enum.
  pub find_in_enum : (name : Text) → List Json → Json → Option OptionError
  find_in_enum name [] val = some (not_in_enum name)
  find_in_enum name (allowed ∷ enum) val =
      or_next (any_equal allowed val) name (find_in_enum name enum val)

  pub validate_option_value : (name : Text) → FeatureOption → Json → Option OptionError
  validate_option_value name opt val =
      if not (is_empty opt.enum)
      then find_in_enum name opt.enum val
      else if opt.type == text "boolean"
      then unless (is_bool val) (expects_boolean name)
      else if (opt.type == text "string") || (opt.type == [])
      then unless (is_string val) (expects_string name)
      else none

  abbrev pub check : (name : Text) → Option FeatureOption → Json → Option OptionError
  check name none val = none
  check name (some decl) val = validate_option_value name decl val

  -- The user's values over what is there.
  unfoldable pub overlay : Map FeatureOption → Map Json → (unknown : List Text) → Map Json → Merged
  overlay options out unknown [] = merged out unknown
  overlay options out unknown ((name, val) ∷ user) =
      let declared = lookup name options in
      unless_rejected (check name declared val) unknown
        (overlay options (insert name val out) (unknown ++ unknown_name name declared) user)

  unfoldable pub merge_options : FeatureMetadata → (user : Map Json) → Merged
  merge_options meta user = overlay meta.options (put_defaults [] meta.options) [] user

-- A quote ends the quoted part, stands escaped, and begins the next part.
pub escape_quotes : Text → Text
escape_quotes [] = []
escape_quotes (c ∷ s) =
    let rest = escape_quotes s in if nat_beq c 39 then 39 ∷ (92 ∷ (39 ∷ (39 ∷ rest))) else c ∷ rest

pub shell_single_quote : Text → Text
shell_single_quote s = 39 ∷ (escape_quotes s ++ 39 ∷ [])

abbrev pub is_digit : ℕ → Bool
is_digit c = leb b'0' c && leb c b'9'

abbrev pub is_word : ℕ → Bool
is_word c = is_digit c || (leb b'A' c && leb c b'Z') || (leb b'a' c && leb c b'z') || nat_beq c b'_'

-- A byte that continues a character of UTF-8 is part of what the underscore stands for.
abbrev pub is_continuation : ℕ → Bool
is_continuation c = leb 128 c && leb c 191

pub to_word : Text → Text
to_word [] = []
to_word (c ∷ s) =
    let rest = to_word s in
    if is_word c then c ∷ rest else if is_continuation c then rest else b'_' ∷ rest

abbrev pub guard_digit : Text → Text
guard_digit [] = []
guard_digit (c ∷ s) = if is_digit c then b'_' ∷ (c ∷ s) else c ∷ s

abbrev pub upper_byte : ℕ → ℕ
upper_byte c = if leb b'a' c && leb c b'z' then c - 32 else c

pub safe_env_key : Text → Text
safe_env_key s = map upper_byte (guard_digit (to_word s))

abbrev pub text_of : (sprint : Json → Text) → Option Json → Text
text_of sprint none = text "<nil>"
text_of sprint (some v) = sprint v

pub env_lines : (sprint : Json → Text) → Map Json → List Text → Text
env_lines sprint opts [] = []
env_lines sprint opts (k ∷ ks) =
    safe_env_key k
    ++ (b'='
        ∷ (shell_single_quote (text_of sprint (lookup k opts))
            ++ (b'\n' ∷ env_lines sprint opts ks)))

pub serialize_env_file : (sprint : Json → Text) → Map Json → Text
serialize_env_file sprint opts = env_lines sprint opts (sort (keys opts))
