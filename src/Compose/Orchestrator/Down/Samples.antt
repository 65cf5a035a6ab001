-- ===== src/Compose/Orchestrator/Down/Samples.antt =====
-- A project of two containers that is torn down, and the theorem about `Down` applied to it.
use devcontainer.Base.{
  ◌==◌, ℕ, true, false, List, [], ◌∷◌, Option, none, some, Text, text, ◌≡◌, ◌≢◌, refl,
}
use devcontainer.Compose.Runtime.{
  Container, ContainerState, Runtime, State, done, remove_call, stop_call,
}
use devcontainer.Compose.RunSpec.{label_project, label_service}
use devcontainer.Compose.Orchestrator.{ask}
use devcontainer.Compose.Orchestrator.Samples.{runtime, project, start_state}
use devcontainer.Compose.Orchestrator.Down.{
  DownPlan, DownError, down, remove_all, order_containers_for_teardown, clean_up_after,
}
use devcontainer.Compose.Orchestrator.Down.Teardown.{
  IsTeardownOrder, order_containers_for_teardown-IsTeardownOrder,
}
use devcontainer.Compose.Orchestrator.Down.Removal.{IsTornDown, down_lem}

abbrev container : Text → Container
container name = record {
  id = name;
  name = name;
  image = [];
  state = ContainerState.running;
  labels = (label_service, name) ∷ [];
}

abbrev containers : List Container
containers = container (text "db") ∷ container (text "app") ∷ []

abbrev two_containers : Runtime ℕ
two_containers = record runtime { list_containers = λ filter w. (done containers, w) }

abbrev plan : DownPlan
plan = record {
  project_name = text "demo";
  remove_volumes = true;
  remove_images = true;
  project = some project;
}

-- Nothing fails here, whatever the order.
removals_succeed : (cs : List Container) (s : State ℕ) → (remove_all two_containers cs s).0 ≡ none
unfolding remove_all
removals_succeed [] s = refl
removals_succeed (c ∷ cs) s =
    removals_succeed cs (record s { calls = remove_call c.id ∷ stop_call c.id ∷ s.calls })

clean_up_succeeds :
    (removed : Option DownError × State ℕ)
    → removed.0 ≡ none
    → (clean_up_after two_containers plan removed).0 ≡ none
clean_up_succeeds (none, s) h = refl
clean_up_succeeds (some e, s) h = h

down_lem_example :
    (plan.project_name ≢ [])
    × IsTornDown two_containers plan
        (ask (two_containers.list_containers ((label_project, text "demo") ∷ [])) start_state).0
        start_state
        (down two_containers plan start_state).1
unfolding down devcontainer.Base.◌==◌
down_lem_example = down_lem two_containers plan start_state (
    clean_up_succeeds
      (remove_all two_containers (order_containers_for_teardown containers plan.project)
        start_state)
      (removals_succeed (order_containers_for_teardown containers plan.project) start_state))

order_containers_for_teardown-IsTeardownOrder_example :
    IsTeardownOrder project.services (order_containers_for_teardown containers (some project))
unfolding ◌==◌ devcontainer.Compose.Graph.topo_sort devcontainer.Compose.Graph.sort_levels
    devcontainer.Compose.Graph.ready devcontainer.Base.filter devcontainer.Compose.Graph.satisfied
    devcontainer.Base.any devcontainer.Compose.Graph.deps_of devcontainer.Base.lookup
    devcontainer.Compose.Graph.build_deps devcontainer.Compose.Graph.collect_deps
    devcontainer.Compose.Graph.service_edges devcontainer.Compose.Graph.service_ref_target
    devcontainer.Compose.Graph.add_dep devcontainer.Base.contains
    devcontainer.Compose.Graph.pending_after devcontainer.Base.sort
order_containers_for_teardown-IsTeardownOrder_example =
    order_containers_for_teardown-IsTeardownOrder project
      ((text "db" ∷ []) ∷ (text "app" ∷ []) ∷ []) containers refl
