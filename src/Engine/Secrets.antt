-- ===== src/Engine/Secrets.antt =====
-- secrets.go: the environment that the secretsCommand contributes.
mod Precedence
mod Samples
use devcontainer.Base.{
  ℕ, ℤ, Bool, true, false, not, ◌&&◌, ◌||◌, List, [], ◌∷◌, ◌++◌, Option, none, some, Text, ◌==◌,
  Map, insert, is_empty, nat_beq, reverse, if◌then◌else◌,
}
use devcontainer.Config.Types.{Command, LifecycleCommand, command_is_empty}
use devcontainer.Config.Merge.{put_all}
use devcontainer.Engine.Lifecycle.{Outcome, failed, exited, is_exit_zero, sorted_commands}

-- Why there is no environment.
pub data SecretsError : Type 0 where
  no_executor : SecretsError
  not_run : (cause : Text) → SecretsError
  exited_with : (code : ℤ) (stdout stderr : Text) → SecretsError

-- A nil map is an empty one here.
pub data Secrets : Type 0 where
  contributed : Map Text → Secrets
  no_secrets : SecretsError → Secrets

-- strings.Split(s, "\n")
pub split_lines : Text → List Text
split_lines [] = [] ∷ []
split_lines (c ∷ s) = elim (split_lines s) [
  | [] ↦ (c ∷ []) ∷ []
  | line ∷ lines ↦ if nat_beq c b'\n' then [] ∷ line ∷ lines else (c ∷ line) ∷ lines
]

pub trim_return : Text → Text
trim_return [] = []
trim_return (c ∷ s) =
    let rest = trim_return s in if is_empty s && nat_beq c 13 then [] else c ∷ rest

abbrev pub is_blank : ℕ → Bool
is_blank c = nat_beq c b' ' || nat_beq c 9

pub trim_left : Text → Text
trim_left [] = []
trim_left (c ∷ s) = let rest = trim_left s in if is_blank c then rest else c ∷ s

pub trim_right : Text → Text
trim_right s = reverse (trim_left (reverse s))

abbrev pub add_front : ℕ → Option (Text × Text) → Option (Text × Text)
add_front c none = none
add_front c (some (key, value)) = some (c ∷ key, value)

-- What stands before and behind the first `=`.
pub cut_equals : Text → Option (Text × Text)
cut_equals [] = none
cut_equals (c ∷ s) =
    let rest = cut_equals s in if nat_beq c b'=' then some ([], s) else add_front c rest

abbrev pub is_comment : Text → Bool
is_comment [] = false
is_comment (c ∷ s) = nat_beq c b'#'

abbrev pub put_pair : Map Text → Option (Text × Text) → Map Text
put_pair out none = out
put_pair out (some (key, value)) =
    if trim_right key == [] then out else insert (trim_right key) value out

-- An `=` that comes first leaves an empty key, which is skipped as well.
pub put_line : Map Text → Text → Map Text
put_line out line =
    let trimmed = trim_left (trim_return line) in
    if (trimmed == []) || is_comment trimmed then out else put_pair out (cut_equals trimmed)

pub put_lines : Map Text → List Text → Map Text
put_lines out [] = out
put_lines out (line ∷ lines) = put_lines (put_line out line) lines

pub parse_secrets_kv : Text → Map Text
parse_secrets_kv s = put_lines [] (split_lines s)

abbrev pub secrets_of : Outcome → Secrets
secrets_of (failed cause) = no_secrets (not_run cause)
secrets_of (exited code out err) =
    if is_exit_zero code
    then contributed (parse_secrets_kv out)
    else no_secrets (exited_with code out err)

abbrev pub and_then_env : {S : Type 0} → Secrets × S → (Map Text → S → Secrets × S) → Secrets × S
and_then_env (no_secrets e, w) k = (no_secrets e, w)
and_then_env (contributed env, w) k = k env w

abbrev pub under_caller : {S : Type 0} (extra : Map Text) → Secrets × S → Secrets × S
under_caller extra (no_secrets e, w) = (no_secrets e, w)
under_caller extra (contributed secrets, w) = (
  contributed (
      if is_empty secrets
      then extra
      else if is_empty extra
      then secrets
      else put_all (put_all [] secrets) extra),
  w,
)

-- The host executor, if there is one, and the folder that it works in.
module _ {S : Type 0} (exec_host : Option (Command → (dir : Text) → S → Outcome × S))
    (dir : Text) where
  pub exec_secrets_host : (Command → (dir : Text) → S → Outcome × S) → Command → S → Secrets × S
  exec_secrets_host exec c w = let (outcome, w') = exec c dir w in (secrets_of outcome, w')

  pub run_named :
      (Command → (dir : Text) → S → Outcome × S)
      → Map Text
      → List (Text × Command)
      → S
      → Secrets × S
  run_named exec out [] w = (contributed out, w)
  run_named exec out ((_, c) ∷ cs) w =
      and_then_env (exec_secrets_host exec c w) λ env w'. run_named exec (put_all out env) cs w'

  abbrev pub run_with :
      Option (Command → (dir : Text) → S → Outcome × S) → LifecycleCommand → S → Secrets × S
  run_with none command w = (no_secrets no_executor, w)
  run_with (some exec) command w = elim command.single [
    | some c ↦ exec_secrets_host exec c w
    | none ↦ run_named exec [] (sorted_commands command.parallel) w
  ]

  pub run_secrets_command : LifecycleCommand → S → Secrets × S
  run_secrets_command command w =
      if command_is_empty command then (contributed [], w) else run_with exec_host command w

  pub collect_secrets_env : (run_it : Bool) (extra : Map Text) → LifecycleCommand → S → Secrets × S
  collect_secrets_env run_it extra command w =
      if not run_it
      then (contributed extra, w)
      else under_caller extra (run_secrets_command command w)
