-- ===== src/Compose/Orchestrator/Samples.antt =====
-- A runtime that starts what it is asked for, and a project of two services and a volume.
use devcontainer.Base.{ℕ, suc, pos, true, false, [], ◌∷◌, ◌++◌, none, some, Text, text}
use devcontainer.Compose.Samples.{bare_service}
use devcontainer.Compose.Project.{Project, ServiceConfig}
use devcontainer.Compose.Runtime.{ContainerState, HealthStatus, done, started_as, Runtime, State}
use devcontainer.Compose.Orchestrator.{Plan}

-- The world counts the rounds that were slept; a container has the name of its service as its id.
abbrev pub runtime : Runtime ℕ
runtime = record {
  capabilities = record { healthchecks = true; exit_codes = true; service_name_dns = true };
  create_network = λ name labels w. (done name, w);
  create_volume = λ name labels w. (none, w);
  list_containers = λ filter w. (done [], w);
  inspect_container = λ id w. (
    some (record {
      labels = [];
      state = ContainerState.running;
      exit_code = pos 0;
      health = HealthStatus.healthy;
    }),
    w,
  );
  inspect_image = λ ref w. (none, w);
  pull_image = λ ref w. (none, w);
  run_container = λ r w. (started_as r.name, w);
  start_container = λ id w. (none, w);
  stop_container = λ id w. w;
  remove_container = λ id w. (none, w);
  remove_network = λ name w. w;
  remove_volume = λ name w. w;
  list_images = λ filter w. (done [], w);
  remove_image = λ id w. w;
  append_hosts = λ id block w. w;
  now = λ w. w;
  sleep = λ w. suc w;
  cancelled = λ w. false;
}

abbrev pub db : ServiceConfig
db = record bare_service { name = text "db"; image = text "postgres" }

abbrev pub app : ServiceConfig
app = record bare_service {
  name = text "app";
  image = text "app";
  depends_on = (text "db", record { condition = text "service_healthy"; required = true }) ∷ [];
}

abbrev pub project : Project
project = record {
  services = (text "app", app) ∷ (text "db", db) ∷ [];
  volumes = [];
  secrets = [];
  configs = [];
  networks = [];
}

abbrev pub plan : Plan
plan = record {
  project = some project;
  project_name = text "demo";
  services = text "app" ∷ [];
  labels = [];
  adopt_existing = false;
}

abbrev pub digest : Text → ServiceConfig → Text
digest image svc = image ++ svc.image

abbrev pub start_state : State ℕ
start_state = record { world = 0; calls = [] }
