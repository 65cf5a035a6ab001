-- ===== src/Compose/Orchestrator/Gates/Samples.antt =====
-- A level of one service that another waits for, and the theorems about gates applied to it.
use devcontainer.Base.{
  ℕ, zero, suc, ◌+◌, ◌<◌, ◌≤◌, Bool, true, false, List, [], ◌∷◌, Option, none, some, Text, text,
  Map, lookup, contains, ◌≡◌, ◌≢◌, refl, inl, inr, arith,
}
use devcontainer.Compose.Orchestrator.Samples.{runtime, project, start_state}
use devcontainer.Compose.Orchestrator.Gates.{
  out_of_rounds, is_gated, declared_by, gate_level, service_healthy, gates, requirements,
  require_all, require, wait_for, look, look_health,
}
use devcontainer.Compose.Orchestrator.Gates.Waits.{IsClock, WasMet}
use devcontainer.Compose.Orchestrator.Gates.Requirements.{IsNeeded}
use devcontainer.Compose.Orchestrator.Gates.Met.{reason_of, gate_level_ends, gate_level_lem}

abbrev level : List Text
level = text "db" ∷ []

abbrev ids : Map Text
ids = (text "db", text "c1") ∷ []

abbrev keep : List Text
keep = text "app" ∷ text "db" ∷ []

runtime-IsClock : IsClock runtime
runtime-IsClock = record {
  looking_takes_time = λ id w. omega arith;
  sleep_goes_on = λ w. omega arith;
}

gate_level_ends_example : ¬ (
    reason_of (gate_level runtime 12 10 project level ids keep start_state).0 ≡ some out_of_rounds)
gate_level_ends_example =
    gate_level_ends runtime 11 10 project level ids keep start_state runtime-IsClock (omega arith)

gate_level_lem_example :
    (met : Text) × (is_gated met ≡ true)
    × IsNeeded keep (text "db") met project.services
    × WasMet runtime 0 (text "c1") met (declared_by (lookup (text "db") project.services))
unfolding gate_level gates requirements contains devcontainer.Base.◌==◌ require_all require lookup
    devcontainer.Base.insert wait_for look look_health
gate_level_lem_example =
    gate_level_lem runtime 12 10 project level ids keep start_state refl (text "db") service_healthy
      refl refl (λ h. absurd (cc h)) (inl (refl, inl (refl, refl, refl)))
