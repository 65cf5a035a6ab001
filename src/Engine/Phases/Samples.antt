-- ===== src/Engine/Phases/Samples.antt =====
-- A workspace with two hooks, and the theorems about its phases applied to it.
use devcontainer.Base.{
  ℕ, pos, false, List, [], ◌∷◌, suc, none, Text, text, ◌==◌, map, if◌then◌else◌, ◌≡◌, refl,
}
use devcontainer.Config.Types.{ResolvedConfig}
use devcontainer.Config.Merge.Samples.{empty_config, shell}
use devcontainer.Engine.Lifecycle.{
  on_create, post_create, post_start, ContainerDetails, MarkerFile, Outcome, exited,
  lifecycle_error, Backend, State, key_timestamp_for, decode_marker, key_differs, should_run,
  lifecycle_commands_for, argv_of,
}
use devcontainer.Engine.Phases.{
  exec_lifecycle_command, run_hook, write_marker, run_and_mark, run_marked, run_phase,
  run_configured, run_all_lifecycle, until_error,
}
use devcontainer.Engine.Phases.Markers.{run_phase_failed}
use devcontainer.Engine.Phases.Rerun.{run_all_lifecycle_twice}

-- `sh -c false` exits with 1, every other command with 0; the world counts the commands run.
abbrev run_command : List Text → ℕ → Outcome × ℕ
run_command (_ ∷ _ ∷ c ∷ []) w = (exited (if c == text "false" then pos 1 else pos 0) [] [], suc w)
run_command _ w = (exited (pos 0) [] [], suc w)

abbrev backend : Backend ℕ
backend = record {
  exec = λ argv dir user w. run_command argv w;
  exec_all = λ argvs dir user w. (map (λ argv. (run_command argv w).0) argvs, w);
  exec_host = none;
  exec_host_all = λ cs dir w. ([], w);
  read_fails = λ w. false;
  write_fails = λ w. false;
  left_by_failed_write = λ w file. MarkerFile.corrupt;
  now = λ w. w;
}

abbrev config : ResolvedConfig
config = record empty_config {
  lifecycle = record {
    initialize = [];
    on_create = shell "make" ∷ [];
    update_content = [];
    post_create = shell "false" ∷ shell "never" ∷ [];
    post_start = shell "serve" ∷ [];
    post_attach = [];
  };
}

abbrev good_config : ResolvedConfig
good_config = record empty_config {
  lifecycle = record {
    initialize = [];
    on_create = shell "make" ∷ [];
    update_content = [];
    post_create = [];
    post_start = shell "serve" ∷ [];
    post_attach = shell "hello" ∷ [];
  };
}

abbrev first_start : ContainerDetails
first_start = record { created = 5; started_at = 5 }

abbrev restarted : ContainerDetails
restarted = record { created = 5; started_at = 9 }

abbrev start : State ℕ
start = record { world = 0; marker_of = λ _. MarkerFile.absent; events = [] }

-- `postCreateCommand` stops at its first failing hook.
run_phase_post_create :
    (run_phase backend config first_start post_create
      (lifecycle_commands_for config post_create)
      start).1.world
    ≡ 1
unfolding run_phase run_marked run_and_mark run_hook until_error exec_lifecycle_command should_run
    key_differs decode_marker lifecycle_commands_for argv_of ◌==◌
run_phase_post_create = refl

run_phase_failed_example :
    (run_phase backend config first_start post_create
      (lifecycle_commands_for config post_create)
      start).1.marker_of
    ≡ start.marker_of
unfolding run_phase run_marked run_and_mark run_hook until_error exec_lifecycle_command should_run
    key_differs decode_marker lifecycle_commands_for argv_of ◌==◌
run_phase_failed_example =
    run_phase_failed backend config first_start post_create
      (lifecycle_commands_for config post_create) start
      {e = lifecycle_error post_create (pos 1) [] [] []} refl (λ h. absurd (cc h))

-- The state that a first run of `onCreateCommand` leaves.
abbrev created : State ℕ
created = (run_phase backend config first_start on_create (shell "make" ∷ []) start).1

abbrev started : State ℕ
started = (run_all_lifecycle backend good_config first_start false start).1

-- After a restart `postStartCommand` runs again.
run_all_lifecycle_twice_example :
    run_phase backend good_config restarted post_start
      (lifecycle_commands_for good_config post_start)
      started
    ≡ run_and_mark backend good_config restarted post_start
        (lifecycle_commands_for good_config post_start)
        started
unfolding run_all_lifecycle run_configured run_phase run_marked run_and_mark run_hook until_error
    exec_lifecycle_command should_run key_differs decode_marker write_marker lifecycle_commands_for
    argv_of key_timestamp_for ◌==◌
run_all_lifecycle_twice_example =
    run_all_lifecycle_twice backend good_config first_start restarted false post_start start started
      refl refl refl refl refl
