-- ===== src/Compose/RunSpec.antt =====
-- compose/orchestrator.go and compose/hash.go: a service as the runtime's RunSpec, and its hash.
pub mod Labels
mod Samples
use devcontainer.Base.{
  ◌≡◌, ap, ℕ, ℤ, pos, Bool, true, false, not, ◌&&◌, List, [], ◌∷◌, ◌++◌, Option, none, some, Text,
  text, ◌==◌, Map, lookup, insert, map, is_some, or_else, contains, if◌then◌else◌,
}
use devcontainer.Compose.Project.{
  ServiceConfig, ServiceVolumeConfig, ServicePortConfig, HealthCheckConfig, DeployConfig, Limits,
  is_zero, is_positive,
}
use devcontainer.Compose.Graph.{service_ref_target}
use devcontainer.Compose.Runtime.{
  Answer, done, fault, RunSpec, MountSpec, MountType, bind, volume, tmpfs, PortBinding,
  RestartPolicy, restart_no, restart_always, restart_on_failure, restart_unless_stopped,
  HealthCheckSpec,
}

abbrev pub label_project : Text
label_project = text "com.docker.compose.project"

abbrev pub label_service : Text
label_service = text "com.docker.compose.service"

abbrev pub label_oneoff : Text
label_oneoff = text "com.docker.compose.oneoff"

abbrev pub label_engine : Text
label_engine = text "dev.containers.engine"

abbrev pub label_config_hash : Text
label_config_hash = text "dev.containers.config-hash"

abbrev pub label_image_digest : Text
label_image_digest = text "dev.containers.image-digest"

abbrev pub engine_display_name : Text
engine_display_name = text "devcontainer-go/compose"

pub reserved_labels : List Text
reserved_labels =
    label_project ∷ label_service ∷ label_oneoff ∷ label_engine ∷ label_config_hash
    ∷ label_image_digest ∷ []

-- `for k, v := range from { out[k] = v }`
pub put_labels : Map Text → Map Text → Map Text
put_labels out [] = out
put_labels out ((k, v) ∷ from) = put_labels (insert k v out) from

-- The user's labels, less those that the orchestrator reserves.
pub put_user_labels : Map Text → Map Text → Map Text
put_user_labels out [] = out
put_user_labels out ((k, v) ∷ from) =
    put_user_labels (if contains reserved_labels k then out else insert k v out) from

abbrev pub put_digest : Text → Map Text → Map Text
put_digest digest out = if digest == [] then out else insert label_image_digest digest out

-- The labels of everything that belongs to the project.
abbrev pub project_labels_of : (project_name : Text) → Map Text
project_labels_of project_name =
    (label_project, project_name) ∷ (label_engine, engine_display_name) ∷ []

pub service_labels :
    (plan_labels project_labels : Map Text) → ServiceConfig → (hash image_digest : Text) → Map Text
service_labels plan_labels project_labels svc hash image_digest =
    put_user_labels
      (put_digest image_digest (
        insert label_config_hash hash (
          insert label_oneoff (text "False")
            (insert label_service svc.name (put_labels plan_labels project_labels)))))
      svc.labels

pub environment_of : Map (Option Text) → Map Text
environment_of [] = []
environment_of ((k, none) ∷ env) = environment_of env
environment_of ((k, some v) ∷ env) = (k, v) ∷ environment_of env

pub mount_type_of : Text → MountType
mount_type_of s =
    if s == text "bind"
    then bind
    else if s == text "volume"
    then volume
    else if s == text "tmpfs"
    then tmpfs
    else bind

pub mount_source_of : ServiceVolumeConfig → (project_name : Text) → Text
mount_source_of v project_name =
    if (v.type == text "volume") && not (v.source == [])
    then project_name ++ (text "_" ++ v.source)
    else v.source

abbrev pub mount_of : (project_name : Text) → ServiceVolumeConfig → MountSpec
mount_of project_name v = record {
  type = mount_type_of v.type;
  source = mount_source_of v project_name;
  target = v.target;
  read_only = v.read_only;
}

pub restart_policy_of : Text → RestartPolicy
restart_policy_of s =
    if s == text "always"
    then restart_always
    else if s == text "on-failure"
    then restart_on_failure
    else if s == text "unless-stopped"
    then restart_unless_stopped
    else restart_no

pub ports_of : List ServicePortConfig → List PortBinding
ports_of ports =
    map
      (λ p. record {
        host_ip = p.host_ip;
        host_port = p.published;
        container_port = p.target;
        protocol = p.protocol;
      })
      ports

abbrev pub or_zero : Option ℕ → ℕ
or_zero none = 0
or_zero (some n) = n

pub health_check_of : Option HealthCheckConfig → Option HealthCheckSpec
health_check_of none = none
health_check_of (some h) = some (record {
  test = h.test;
  disable = h.disable;
  interval = or_zero h.interval;
  timeout = or_zero h.timeout;
  retries = or_zero h.retries;
  start_period = or_zero h.start_period;
  start_interval = or_zero h.start_interval;
})

-- What deploy.resources.limits sets: memory, and processors where the share is positive.
abbrev pub limits_resources : Option Limits → ℤ × ℤ
limits_resources none = (pos 0, pos 0)
limits_resources (some l) = (l.memory_bytes, if is_positive l.nano_cpus then l.nano_cpus else pos 0)

abbrev pub deploy_resources : Option DeployConfig → ℤ × ℤ
deploy_resources none = (pos 0, pos 0)
deploy_resources (some d) = limits_resources d.limits

pub resources_of : ServiceConfig → ℤ × ℤ
resources_of svc =
    let (memory, cpus) = deploy_resources svc.deploy in
    (
      if is_zero memory then svc.mem_limit else memory,
      if is_zero cpus && is_positive svc.nano_cpus then svc.nano_cpus else cpus,
    )

-- `resolve` gives the id of a service's started container, or nothing.
unfoldable pub resolve_namespace_mode : Text → (resolve : Text → Text) → Option Text
resolve_namespace_mode v resolve =
    let target = service_ref_target v in
    if target == []
    then some v
    else if resolve target == []
    then none
    else some (text "container:" ++ resolve target)

abbrev pub is_set : Option Bool → Bool
is_set none = false
is_set (some b) = b

-- A service with its three namespace modes already resolved.
unfoldable pub run_spec_of :
    (project_name : Text)
    → ServiceConfig
    → (labels : Map Text) → (network_mode pid_mode ipc_mode : Text) → RunSpec
run_spec_of project_name svc labels network_mode pid_mode ipc_mode = record {
  image = svc.image;
  name = project_name ++ (text "-" ++ (svc.name ++ text "-1"));
  cmd = svc.command;
  entrypoint = svc.entrypoint;
  user = svc.user;
  working_dir = svc.working_dir;
  env = environment_of svc.environment;
  labels = labels;
  mounts = map (mount_of project_name) svc.volumes;
  networks = if network_mode == [] then (project_name ++ text "_default") ∷ [] else [];
  network_mode = network_mode;
  pid_mode = pid_mode;
  ipc_mode = ipc_mode;
  ports = ports_of svc.ports;
  restart_policy = restart_policy_of svc.restart;
  health_check = health_check_of svc.health_check;
  init = is_set svc.init;
  cap_add = svc.cap_add;
  privileged = svc.privileged;
  security_opt = svc.security_opt;
  memory_bytes = (resources_of svc).0;
  nano_cpus = (resources_of svc).1;
}

-- The namespace modes in the order in which the code resolves them.
pub data SpecResult : Type 0 where
  spec : RunSpec → SpecResult
  unjoinable : (mode : Text) → SpecResult

abbrev pub or_unjoinable : Option Text → Text → (Text → SpecResult) → SpecResult
or_unjoinable none mode k = unjoinable mode
or_unjoinable (some m) mode k = k m

unfoldable pub service_to_run_spec :
    (project_name : Text) (plan_labels project_labels : Map Text)
    → ServiceConfig
    → (hash image_digest : Text) → (resolve : Text → Text) → SpecResult
service_to_run_spec project_name plan_labels project_labels svc hash image_digest resolve =
    or_unjoinable (resolve_namespace_mode svc.network_mode resolve) svc.network_mode λ network_mode.
      or_unjoinable (resolve_namespace_mode svc.pid resolve) svc.pid λ pid_mode.
        or_unjoinable (resolve_namespace_mode svc.ipc resolve) svc.ipc λ ipc_mode. spec (
          run_spec_of project_name svc
            (service_labels plan_labels project_labels svc hash image_digest) network_mode pid_mode
            ipc_mode)

-- The fields of a service that do not count for its hash, zeroed.
unfoldable pub strip_for_hash : ServiceConfig → ServiceConfig
strip_for_hash svc = record svc {
  build = none;
  pull_policy = [];
  scale = none;
  deploy = none;
  depends_on = [];
  profiles = [];
  pre_start = [];
  post_start = [];
  pre_stop = [];
}

-- `digest` is SHA-256 of the JSON text of the two.
pub config_hash : (digest : Text → ServiceConfig → Text) → (image_id : Text) → ServiceConfig → Text
config_hash digest image_id svc = digest image_id (strip_for_hash svc)

pub config_hash_stripped :
    (digest : Text → ServiceConfig → Text) (image : Text) (a b : ServiceConfig)
    → strip_for_hash a ≡ strip_for_hash b
    → config_hash digest image a ≡ config_hash digest image b
unfolding config_hash
config_hash_stripped digest image a b e = ap (digest image) e
