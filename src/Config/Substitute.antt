-- ===== src/Config/Substitute.antt =====
-- config/substitute.go: the placeholders ${...} of devcontainer.json strings.
pub mod Pieces
pub mod Samples
use devcontainer.Base.{
  ℕ, Bool, true, false, not, ◌&&◌, ◌||◌, List, [], ◌∷◌, ◌++◌, Option, none, some, Text, text, ◌==◌,
  Map, lookup, nat_beq, is_empty, if◌then◌else◌, reverse,
}
use devcontainer.Config.Types.{
  Warning, WarningCode, unresolved_local_env, unresolved_container_env, unknown_variable,
}

-- `container_env` is none on the host pass.
pub record SubstitutionContext : Type 0 where
  pub local_workspace_folder : Text
  pub container_workspace_folder : Text
  pub devcontainer_id : Text
  pub local_env : Map Text
  pub container_env : Option (Map Text)

-- What the regular expression \$\{([^}]+)\} finds in a string, from left to right.
pub data Piece : Type 0 where
  lit : Text → Piece
  var : (inner : Text) → Piece

-- Where the scan stands: in plain text, behind `$`, or behind `${` and some bytes.
pub data Mode : Type 0 where
  plain dollar : Mode
  inside : (seen : Text) → Mode

abbrev pub plain_mode : ℕ → Mode
plain_mode c = if nat_beq c b'$' then dollar else plain

abbrev pub plain_out : ℕ → List Piece
plain_out c = if nat_beq c b'$' then [] else lit (c ∷ []) ∷ []

pub next_mode : Mode → ℕ → Mode
next_mode plain c = plain_mode c
next_mode dollar c = if nat_beq c b'{' then inside [] else plain_mode c
next_mode (inside seen) c = if nat_beq c b'}' then plain else inside (seen ++ c ∷ [])

-- `${}` is no match: the group takes at least one byte.
pub out_of : Mode → ℕ → List Piece
out_of plain c = plain_out c
out_of dollar c = if nat_beq c b'{' then [] else lit (text "$") ∷ plain_out c
out_of (inside seen) c =
    if nat_beq c b'}' then (if is_empty seen then lit (text "${}") ∷ [] else var seen ∷ []) else []

-- A placeholder that is never closed is text, and so is all that follows it.
pub rest_of : Mode → List Piece
rest_of plain = []
rest_of dollar = lit (text "$") ∷ []
rest_of (inside seen) = lit (text "${" ++ seen) ∷ []

pub pieces_from : Mode → Text → List Piece
pieces_from m [] = rest_of m
pieces_from m (c ∷ s) = out_of m c ++ pieces_from (next_mode m c) s

-- strings.Split(s, ":"), which is never empty: the first part and the others.
pub split_colon : Text → Text × List Text
split_colon [] = ([], [])
split_colon (c ∷ s) =
    let (part, parts) = split_colon s in
    if nat_beq c b':' then ([], part ∷ parts) else (c ∷ part, parts)

-- filepath.Base on a slash-separated path.
pub drop_slashes : Text → Text
drop_slashes [] = []
drop_slashes (c ∷ s) = let rest = drop_slashes s in if nat_beq c b'/' then rest else c ∷ s

pub until_slash : Text → Text
until_slash [] = []
until_slash (c ∷ s) = let rest = until_slash s in if nat_beq c b'/' then [] else c ∷ rest

pub base_name : Text → Text
base_name path =
    let stripped = drop_slashes (reverse path) in
    if path == []
    then text "."
    else if stripped == []
    then text "/"
    else reverse (until_slash stripped)

pub warn : WarningCode → Text → Option Warning
warn code about = some (record { warning_code = code; message = about; path = []; source = [] })

-- `${kind}` with no name, a set variable, a default, or a missing variable.
pub lookup_env_with_default : Map Text → List Text → Text → WarningCode → Text × Option Warning
lookup_env_with_default env [] kind missing = ([], warn missing kind)
lookup_env_with_default env (name ∷ defaults) kind missing =
    if name == [] then ([], warn missing kind) else elim (lookup name env) [
      | some v ↦ (v, none)
      | none ↦ elim defaults [
        | [] ↦ ([], warn missing (kind ++ text ":" ++ name))
        | default ∷ _ ↦ (default, none)
      ]
    ]

-- A value of the context, or the placeholder itself where the context has none.
abbrev pub or_match : Text → Text → Text → Text × Option Warning
or_match value found whole = if value == [] then (whole, none) else (found, none)

pub lookup_variable : SubstitutionContext → (whole name : Text) → List Text → Text × Option Warning
lookup_variable ctx whole name args =
    if name == text "localWorkspaceFolder"
    then or_match ctx.local_workspace_folder ctx.local_workspace_folder whole
    else if name == text "localWorkspaceFolderBasename"
    then or_match ctx.local_workspace_folder (base_name ctx.local_workspace_folder) whole
    else if name == text "containerWorkspaceFolder"
    then or_match ctx.container_workspace_folder ctx.container_workspace_folder whole
    else if name == text "containerWorkspaceFolderBasename"
    then or_match ctx.container_workspace_folder (base_name ctx.container_workspace_folder) whole
    else if name == text "devcontainerId"
    then or_match ctx.devcontainer_id ctx.devcontainer_id whole
    else if (name == text "localEnv") || (name == text "env")
    then lookup_env_with_default ctx.local_env args (text "localEnv") unresolved_local_env
    else if name == text "containerEnv"
    then elim ctx.container_env [
      | none ↦ (whole, none)
      | some env ↦ lookup_env_with_default env args (text "containerEnv") unresolved_container_env
    ]
    else (whole, warn unknown_variable name)

-- The text of a placeholder.
abbrev pub placeholder : Text → Text
placeholder inner = text "${" ++ (inner ++ text "}")

pub replace_piece : SubstitutionContext → Piece → Text × Option Warning
replace_piece ctx (lit t) = (t, none)
replace_piece ctx (var inner) =
    let (name, args) = split_colon inner in lookup_variable ctx (placeholder inner) name args

abbrev pub add_warning : Option Warning → List Warning → List Warning
add_warning none ws = ws
add_warning (some w) ws = w ∷ ws

pub replace_pieces : SubstitutionContext → List Piece → Text × List Warning
replace_pieces ctx [] = ([], [])
replace_pieces ctx (p ∷ ps) =
    let (t, w) = replace_piece ctx p in
    let (rest, ws) = replace_pieces ctx ps in (t ++ rest, add_warning w ws)

unfoldable pub resolve_string : Text → SubstitutionContext → Text × List Warning
resolve_string s ctx = replace_pieces ctx (pieces_from plain s)
