-- ===== src/Engine/Phases.antt =====
-- lifecycle.go: running the hooks of a phase, with its marker, and running all phases in order.
-- A run returns its error, if it has one, beside the new state.
mod Markers
mod Rerun
mod Samples
use devcontainer.Base.{
  ℕ, pos, ◌-◌, Bool, true, false, not, ◌&&◌, List, [], ◌∷◌, ◌++◌, Option, none, some, Text, text,
  map, is_empty, if◌then◌else◌,
}
use devcontainer.Config.Types.{ResolvedConfig, Command, LifecycleCommand}
use devcontainer.Engine.Lifecycle.{
  Phase, initialize, post_attach, ordered_phases, is_initialize, is_post_attach, same_phase,
  ContainerDetails, Marker, MarkerFile, stored, Outcome, failed, exited, Error, lifecycle_error,
  read_marker_error, write_marker_error, Event, start_event, completed_event, skipped_event,
  Backend, State, marker_version, is_exit_zero, minus_one, key_timestamp_for, decode_marker,
  should_run, lifecycle_commands_for, effective_user, argv_of, sorted_commands, aggregate,
  aggregate_outcome, zip_names, first_failed, first_nonzero, first_of_both, host_error,
  exit_code_of, lifecycle_command_display,
}

-- A loop that stops at the first error.
abbrev pub and_then {ℓ} :
    {S : Type ℓ} → Option Error × S → (S → Option Error × S) → Option Error × S
and_then (some e, s) k = (some e, s)
and_then (none, s) k = k s

pub until_error {ℓ κ} :
    {S : Type ℓ} {A : Type κ} → (A → S → Option Error × S) → List A → S → Option Error × S
until_error step [] s = (none, s)
until_error step (x ∷ xs) s = and_then (step x s) (until_error step xs)

abbrev pub emit : {S : Type 0} → Event → State S → State S
emit e s = record s { events = s.events ++ e ∷ [] }

abbrev pub with_world : {S : Type 0} → S → State S → State S
with_world w s = record s { world = w }

abbrev pub set_marker : {S : Type 0} → Phase → MarkerFile → State S → State S
set_marker phase file s = record s {
  marker_of = λ p. if same_phase p phase then file else s.marker_of p;
}

module _ {S : Type 0} (b : Backend S) (cfg : ResolvedConfig) (container : ContainerDetails) where
  abbrev exec_parallel : List (Text × Command) → S → Outcome × S
  exec_parallel cs w =
      let (outcomes, w') =
        b.exec_all (map (λ c. argv_of c.1) cs) cfg.container_workspace_folder (effective_user cfg)
          w in
      (aggregate_outcome (aggregate (zip_names cs outcomes)), w')

  pub exec_lifecycle_command : LifecycleCommand → S → Outcome × S
  exec_lifecycle_command cmd w = elim cmd.single [
    | some c ↦ b.exec (argv_of c) cfg.container_workspace_folder (effective_user cfg) w
    | none ↦
        if is_empty cmd.parallel
        then (exited (pos 0) [] [], w)
        else exec_parallel (sorted_commands cmd.parallel) w
  ]

  abbrev not_configured : Error
  not_configured = lifecycle_error initialize (pos 0) [] [] (text "host executor not configured")

  abbrev init_parallel : List (Text × Command) → S → Option Error × S
  init_parallel cs w =
      let (outcomes, w') = b.exec_host_all (map (λ c. c.1) cs) cfg.local_workspace_folder w in
      (first_of_both (first_failed outcomes) (first_nonzero outcomes), w')

  pub run_initialize : LifecycleCommand → S → Option Error × S
  run_initialize cmd w = elim b.exec_host [
    | none ↦ (some not_configured, w)
    | some exec ↦ elim cmd.single [
      | some c ↦ let (outcome, w') = exec c cfg.local_workspace_folder w in (host_error outcome, w')
      | none ↦
          if is_empty cmd.parallel
          then (none, w)
          else init_parallel (sorted_commands cmd.parallel) w
    ]
  ]

  -- One host-side hook, with its events.
  pub run_initialize_hook : LifecycleCommand → State S → Option Error × State S
  run_initialize_hook c s =
      let (err, w) = run_initialize c s.world in
      let s' = with_world w (emit (start_event initialize (lifecycle_command_display c)) s) in
      elim err [
        | some e ↦ (some e, emit (completed_event initialize (exit_code_of e)) s')
        | none ↦ (none, emit (completed_event initialize (pos 0)) s')
      ]

  -- One in-container hook, with its events: it fails, exits non-zero or succeeds.
  pub run_hook : Phase → LifecycleCommand → State S → Option Error × State S
  run_hook phase c s =
      let (outcome, w) = exec_lifecycle_command c s.world in
      let s' = with_world w (emit (start_event phase (lifecycle_command_display c)) s) in
      elim outcome [
        | failed cause ↦ (
          some (lifecycle_error phase (pos 0) [] [] cause),
          emit (completed_event phase minus_one) s',
        )
        | exited code out err ↦ (
          if is_exit_zero code then none else some (lifecycle_error phase code out err []),
          emit (completed_event phase code) s',
        )
      ]

  abbrev pub fresh_marker : Phase → (start : ℕ) → S → Marker
  fresh_marker phase start w = record {
    version = marker_version;
    phase = phase;
    key_timestamp = key_timestamp_for phase container;
    ran_at = start;
    duration_ms = b.now w - start;
    exit_code = 0;
  }

  -- `writeMarker`, for a phase that began at `start`.
  pub write_marker : Phase → (start : ℕ) → State S → Option Error × State S
  write_marker phase start s =
      if b.write_fails s.world
      then (
        some (write_marker_error phase),
        set_marker phase (b.left_by_failed_write s.world (s.marker_of phase)) s,
      )
      else (none, set_marker phase (stored (fresh_marker phase start s.world)) s)

  -- The hooks in order, and on success the marker; `postAttach` has none.
  pub run_and_mark : Phase → List LifecycleCommand → State S → Option Error × State S
  run_and_mark phase cmds s =
      and_then (until_error (run_hook phase) cmds s)
        (λ s'. if is_post_attach phase then (none, s') else write_marker phase (b.now s.world) s')

  -- A phase that has a marker: it is skipped where the marker is that of this container.
  pub run_marked : Phase → List LifecycleCommand → State S → Option Error × State S
  run_marked phase cmds s =
      if b.read_fails s.world
      then (some (read_marker_error phase), s)
      else if should_run phase (decode_marker (s.marker_of phase)) container
      then run_and_mark phase cmds s
      else (none, emit (skipped_event phase) s)

  pub run_phase : Phase → List LifecycleCommand → State S → Option Error × State S
  run_phase phase cmds s =
      if is_empty cmds
      then (none, s)
      else if is_initialize phase
      then until_error run_initialize_hook cmds s
      else if is_post_attach phase
      then run_and_mark phase cmds s
      else run_marked phase cmds s

  -- The body of the loop of `runAllLifecycle`.
  pub run_configured : Bool → Phase → State S → Option Error × State S
  run_configured with_initialize phase s =
      if is_initialize phase && not with_initialize
      then (none, s)
      else run_phase phase (lifecycle_commands_for cfg phase) s

  pub run_all_lifecycle : Bool → State S → Option Error × State S
  run_all_lifecycle with_initialize s =
      until_error (run_configured with_initialize) ordered_phases s
