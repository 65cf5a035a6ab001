-- ===== src/Compose/Orchestrator/Up/Samples.antt =====
-- A project that is brought up, and the theorem about `Up` applied to it.
use devcontainer.Base.{
  text, true, contains, inr, true, [], none, some, Text, keys, contains, ◌≡◌, ◌≢◌, refl,
}
use mathlib.Core.List.Perm
use devcontainer.Compose.Orchestrator.Samples.{runtime, project, plan, digest, start_state}
use devcontainer.Compose.Graph.Closure.{root, step}
use devcontainer.Compose.Orchestrator.Up.{up, stuck}
use devcontainer.Compose.Orchestrator.Up.Order.{IsStartOrder}
use devcontainer.Compose.Orchestrator.Up.Run.{up_lem, up_complete}

up_lem_example :
    let (res, err) = (up runtime digest plan 5 100 (λ level. level) start_state).0 in
    IsStartOrder project.services [] (keys res.container_ids) × (err ≢ some stuck)
up_lem_example =
    up_lem runtime digest plan project 5 100 (λ level. level) start_state (λ level. Perm.refl level)
      refl

up_complete_example :
    contains
      (keys (up runtime digest plan 5 100 (λ level. level) start_state).0.0.container_ids)
      (text "db")
    ≡ true
unfolding up devcontainer.Compose.Orchestrator.Up.up_validated devcontainer.Compose.Plan.validate
    devcontainer.Compose.Plan.refuse_unsupported_fields devcontainer.Compose.Plan.unsupported_of
    devcontainer.Compose.Plan.networks_unsupported devcontainer.Compose.Plan.services_unsupported
    devcontainer.Compose.Plan.service_unsupported devcontainer.Compose.Plan.unsupported_hooks
    devcontainer.Compose.Plan.refuse_unsupported_conditions
    devcontainer.Compose.Plan.depends_refusal devcontainer.Compose.Plan.condition_refusal
    devcontainer.Base.◌==◌ devcontainer.Compose.Orchestrator.Up.up_project
    devcontainer.Compose.Orchestrator.Up.up_graph devcontainer.Compose.Graph.topo_sort
    devcontainer.Compose.Graph.sort_levels devcontainer.Compose.Graph.ready devcontainer.Base.filter
    devcontainer.Compose.Graph.satisfied devcontainer.Base.any devcontainer.Compose.Graph.deps_of
    devcontainer.Base.lookup devcontainer.Compose.Graph.build_deps
    devcontainer.Compose.Graph.collect_deps devcontainer.Compose.Graph.service_edges
    devcontainer.Compose.Graph.service_ref_target devcontainer.Compose.Graph.add_dep contains
    devcontainer.Compose.Graph.pending_after devcontainer.Compose.Orchestrator.Up.make_keep_set
    devcontainer.Compose.Graph.service_closure devcontainer.Compose.Graph.closure_loop
    devcontainer.Compose.Graph.closure_fuel devcontainer.Compose.Graph.successors
    devcontainer.Compose.Orchestrator.Up.up_sorted
    devcontainer.Compose.Orchestrator.Up.up_with_network
    devcontainer.Compose.Orchestrator.Up.up_with_volumes
    devcontainer.Compose.Orchestrator.Up.ensure_named_volumes
    devcontainer.Compose.Orchestrator.Up.create_volumes
    devcontainer.Compose.Orchestrator.Up.used_volumes devcontainer.Compose.Orchestrator.Up.add_used
    devcontainer.Compose.Orchestrator.Up.result_of devcontainer.Compose.Orchestrator.Up.run_levels
    devcontainer.Compose.Orchestrator.Up.finish_level
    devcontainer.Compose.Orchestrator.Up.start_level devcontainer.Base.sort
    devcontainer.Compose.Orchestrator.Up.start_service devcontainer.Base.text_ltb
    devcontainer.Compose.Orchestrator.Up.start_found
    devcontainer.Compose.Orchestrator.Up.record_service
    devcontainer.Compose.Orchestrator.ensure_service devcontainer.Compose.Orchestrator.ensure_listed
    devcontainer.Compose.Orchestrator.run_service devcontainer.Compose.RunSpec.service_to_run_spec
    devcontainer.Compose.RunSpec.resolve_namespace_mode devcontainer.Compose.Orchestrator.start
    devcontainer.Compose.Orchestrator.Gates.gate_level devcontainer.Compose.Orchestrator.Gates.gates
    devcontainer.Compose.Orchestrator.Gates.requirements
    devcontainer.Compose.Orchestrator.Gates.require_all
    devcontainer.Compose.Orchestrator.Gates.require devcontainer.Base.insert
    devcontainer.Compose.RunSpec.run_spec_of devcontainer.Compose.Orchestrator.Gates.wait_for
    devcontainer.Compose.Orchestrator.Gates.look devcontainer.Compose.Orchestrator.Gates.look_health
up_complete_example =
    up_complete runtime digest plan project 5 100 (λ level. level) start_state (text "db")
      (λ level. Perm.refl level) refl refl refl (inr (step {a = text "app"} (root refl) refl))
