-- ===== src/Compose/Orchestrator/Reuse/Samples.antt =====
-- Containers that an earlier run left, and the theorems about reuse applied to them.
use devcontainer.Base.{ℕ, pos, true, List, [], ◌∷◌, Option, none, some, Text, text, ◌≡◌, ◌≢◌, refl}
use devcontainer.Compose.Project.{ServiceConfig}
use devcontainer.Compose.Runtime.{
  Container, ContainerDetails, ContainerState, HealthStatus, Runtime, done,
}
use devcontainer.Compose.RunSpec.{
  service_labels, project_labels_of, config_hash, strip_for_hash, label_service,
}
use devcontainer.Compose.Orchestrator.{resolve_image_digest, reuse, ensure_service}
use devcontainer.Compose.Orchestrator.Samples.{runtime, app, plan, digest, start_state}
use devcontainer.Compose.Orchestrator.Reuse.Again.{ensure_service_again}

abbrev container : Container
container = record {
  id = text "c1";
  name = text "app";
  image = [];
  state = ContainerState.exited;
  labels = (label_service, text "app") ∷ [];
}

-- The service as it was: it did not wait for another one then.
abbrev old : ServiceConfig
old = record app { depends_on = []; pull_policy = text "always" }

abbrev details : ContainerDetails
details = record {
  labels =
      service_labels [] (project_labels_of (text "demo")) old (config_hash digest (text "sha") old)
        (text "sha");
  state = ContainerState.exited;
  exit_code = pos 0;
  health = HealthStatus.unreported;
}

abbrev reattached : Runtime ℕ
reattached = record runtime {
  list_containers = λ filter w. (done (container ∷ []), w);
  inspect_container = λ id w. (some details, w);
  inspect_image = λ ref w. (some (text "sha"), w);
}

ensure_service_again_example :
    ensure_service reattached digest plan app (λ name. []) start_state
    ≡ reuse reattached container start_state
unfolding resolve_image_digest strip_for_hash devcontainer.Base.◌==◌
ensure_service_again_example =
    ensure_service_again reattached digest plan old app [] (λ name. []) start_state container []
      details refl refl (λ h. absurd (cc h)) refl refl refl
