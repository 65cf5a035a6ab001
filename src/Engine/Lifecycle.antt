-- ===== src/Engine/Lifecycle.antt =====
-- lifecycle.go and marker.go: the lifecycle phases of a workspace and their markers.
use devcontainer.Base.{
  ℕ, ℤ, pos, negsuc, Bool, true, false, not, List, [], ◌∷◌, ◌++◌, Option, none, some, Text, text,
  ◌==◌, Map, keys, is_empty, nat_beq, if◌then◌else◌, sort_by, text_ltb, sort,
}
use devcontainer.Config.Types.{ResolvedConfig, Command, LifecycleCommand}

pub data Phase : Type 0 where
  initialize on_create update_content post_create post_start post_attach : Phase

abbrev pub ordered_phases : List Phase
ordered_phases =
    initialize ∷ on_create ∷ update_content ∷ post_create ∷ post_start ∷ post_attach ∷ []

abbrev pub is_initialize : Phase → Bool
is_initialize initialize = true
is_initialize _ = false

abbrev pub is_post_attach : Phase → Bool
is_post_attach post_attach = true
is_post_attach _ = false

abbrev pub same_phase : Phase → Phase → Bool
same_phase initialize initialize = true
same_phase on_create on_create = true
same_phase update_content update_content = true
same_phase post_create post_create = true
same_phase post_start post_start = true
same_phase post_attach post_attach = true
same_phase _ _ = false

-- runtime.ContainerDetails, as far as the markers read it; a time is a number.
pub record ContainerDetails : Type 0 where
  pub created : ℕ
  pub started_at : ℕ

pub record Marker : Type 0 where
  pub version : ℕ
  pub phase : Phase
  pub key_timestamp : ℕ
  pub ran_at : ℕ
  pub duration_ms : ℕ
  pub exit_code : ℕ

-- What `cat` prints of a marker file: nothing, something that does not decode, or a marker.
pub data MarkerFile : Type 0 where
  absent corrupt : MarkerFile
  stored : Marker → MarkerFile

-- What a command comes back with: an error of the execution itself, or an exit.
pub data Outcome : Type 0 where
  failed : (cause : Text) → Outcome
  exited : (code : ℤ) (stdout stderr : Text) → Outcome

pub data Error : Type 0 where
  lifecycle_error : (phase : Phase) (code : ℤ) (stdout stderr cause : Text) → Error
  read_marker_error write_marker_error : Phase → Error

-- The lifecycle events, without their durations.
pub data Event : Type 0 where
  start_event : Phase → (command : Text) → Event
  completed_event : Phase → (code : ℤ) → Event
  skipped_event : Phase → Event

-- What the engine reaches through `Engine.Exec`, the host executor and the backend. `exec_all` is the
-- concurrent run of several commands, with one outcome for each in the order given. A write that
-- fails may leave anything in the marker file.
pub record Backend (S : Type 0) : Type 0 where
  pub exec : (argv : List Text) (dir user : Text) → S → Outcome × S
  pub exec_all : (argvs : List (List Text)) (dir user : Text) → S → List Outcome × S
  pub exec_host : Option (Command → (dir : Text) → S → Outcome × S)
  pub exec_host_all : List Command → (dir : Text) → S → List Outcome × S
  pub read_fails : S → Bool
  pub write_fails : S → Bool
  pub left_by_failed_write : S → MarkerFile → MarkerFile
  pub now : S → ℕ

-- The world outside, the marker files in the container, and the events emitted so far.
pub record State (S : Type 0) : Type 0 where
  pub world : S
  pub marker_of : Phase → MarkerFile
  pub events : List Event

abbrev pub marker_version : ℕ
marker_version = 1

abbrev pub is_exit_zero : ℤ → Bool
is_exit_zero (pos n) = nat_beq n 0
is_exit_zero (negsuc n) = false

abbrev pub minus_one : ℤ
minus_one = negsuc 0

unfoldable pub key_timestamp_for : Phase → ContainerDetails → ℕ
key_timestamp_for post_start container = container.started_at
key_timestamp_for _ container = container.created

-- The part of `readMarker` behind the command; another version counts as no marker.
unfoldable pub decode_marker : MarkerFile → Option Marker
decode_marker absent = none
decode_marker corrupt = none
decode_marker (stored m) = if nat_beq m.version marker_version then some m else none

unfoldable pub key_differs : Phase → Option Marker → ContainerDetails → Bool
key_differs phase none container = true
key_differs phase (some m) container =
    not (nat_beq m.key_timestamp (key_timestamp_for phase container))

unfoldable pub should_run : Phase → Option Marker → ContainerDetails → Bool
should_run phase m container = if is_post_attach phase then true else key_differs phase m container

unfoldable pub lifecycle_commands_for : ResolvedConfig → Phase → List LifecycleCommand
lifecycle_commands_for cfg initialize = cfg.lifecycle.initialize
lifecycle_commands_for cfg on_create = cfg.lifecycle.on_create
lifecycle_commands_for cfg update_content = cfg.lifecycle.update_content
lifecycle_commands_for cfg post_create = cfg.lifecycle.post_create
lifecycle_commands_for cfg post_start = cfg.lifecycle.post_start
lifecycle_commands_for cfg post_attach = cfg.lifecycle.post_attach

unfoldable pub effective_user : ResolvedConfig → Text
effective_user cfg = if cfg.remote_user == [] then cfg.container_user else cfg.remote_user

-- The argument vector that `execCommand` runs.
unfoldable pub argv_of : Command → List Text
argv_of c = if c.shell == [] then c.exec else text "sh" ∷ text "-c" ∷ c.shell ∷ []

-- The named commands, sorted by name.
pub sorted_commands : Map Command → List (Text × Command)
sorted_commands parallel = sort_by (λ a b. text_ltb a.0 b.0) parallel

-- What the loop of `execParallel` gathers: the first error, the first non-zero exit, the outputs.
pub record Aggregate : Type 0 where
  pub first_error : Option Text
  pub first_exit : ℤ
  pub agg_out : Text
  pub agg_err : Text

abbrev pub labelled : Text → Text → Text
labelled name out =
    if out == [] then [] else text "[" ++ (name ++ (text "]\n" ++ (out ++ text "\n")))

-- The outcomes behind one: an earlier error or non-zero exit hides a later one.
pub aggregate : List (Text × Outcome) → Aggregate
aggregate [] = record { first_error = none; first_exit = pos 0; agg_out = []; agg_err = [] }
aggregate ((name, failed cause) ∷ rest) = record (aggregate rest) { first_error = some cause }
aggregate ((name, exited code out err) ∷ rest) =
    let later = aggregate rest in
    record later {
      first_exit = if is_exit_zero code then later.first_exit else code;
      agg_out = labelled name out ++ later.agg_out;
      agg_err = labelled name err ++ later.agg_err;
    }

pub aggregate_outcome : Aggregate → Outcome
aggregate_outcome a = elim a.first_error [
  | none ↦ exited a.first_exit a.agg_out a.agg_err
  | some cause ↦ failed cause
]

pub zip_names : List (Text × Command) → List Outcome → List (Text × Outcome)
zip_names [] os = []
zip_names (c ∷ cs) [] = []
zip_names (c ∷ cs) (o ∷ os) = (c.0, o) ∷ zip_names cs os

-- The first error of a parallel `initializeCommand`, and else the first non-zero exit.
pub first_failed : List Outcome → Option Error
first_failed [] = none
first_failed (failed cause ∷ os) = some (lifecycle_error initialize (pos 0) [] [] cause)
first_failed (exited code out err ∷ os) = first_failed os

pub first_nonzero : List Outcome → Option Error
first_nonzero [] = none
first_nonzero (failed cause ∷ os) = first_nonzero os
first_nonzero (exited code out err ∷ os) =
    let later = first_nonzero os in
    if is_exit_zero code then later else some (lifecycle_error initialize code out err [])

abbrev pub first_of_both : Option Error → Option Error → Option Error
first_of_both none e = e
first_of_both (some d) e = some d

pub host_error : Outcome → Option Error
host_error o = first_of_both (first_failed (o ∷ [])) (first_nonzero (o ∷ []))

-- `exitCodeFromErr` of what `runInitialize` returns.
pub exit_code_of : Error → ℤ
exit_code_of (lifecycle_error phase code out err cause) =
    if is_exit_zero code then minus_one else code
exit_code_of _ = minus_one

-- strings.Join
pub join : (sep : Text) → List Text → Text
join sep [] = []
join sep (t ∷ []) = t
join sep (t ∷ u ∷ ts) = t ++ (sep ++ join sep (u ∷ ts))

abbrev pub display_names : Map Command → Text
display_names parallel = if is_empty parallel then [] else join (text ",") (sort (keys parallel))

-- `lifecycleCommandDisplay`
pub lifecycle_command_display : LifecycleCommand → Text
lifecycle_command_display c = elim c.single [
  | none ↦ display_names c.parallel
  | some single ↦
      if not (single.shell == [])
      then single.shell
      else if not (is_empty single.exec)
      then join (text " ") single.exec
      else display_names c.parallel
]
