-- ===== src/Compose/Samples.antt =====
-- Services and projects that the tests of the compose package share.
use Prim.Native.String.{String}
use devcontainer.Base.{pos, true, false, List, [], none, text, Map, map}
use devcontainer.Compose.Project.{Project, ServiceConfig, ServiceDependency}

abbrev pub bare_service : ServiceConfig
bare_service = record {
  name = [];
  image = [];
  build = none;
  pull_policy = [];
  profiles = [];
  command = [];
  entrypoint = [];
  user = [];
  working_dir = [];
  environment = [];
  labels = [];
  volumes = [];
  ports = [];
  restart = [];
  health_check = none;
  init = none;
  cap_add = [];
  privileged = false;
  security_opt = [];
  mem_limit = pos 0;
  nano_cpus = pos 0;
  depends_on = [];
  network_mode = [];
  pid = [];
  ipc = [];
  secrets = [];
  configs = [];
  deploy = none;
  develop = none;
  links = [];
  scale = none;
  pre_start = [];
  post_start = [];
  pre_stop = [];
}

abbrev pub on : List String → Map ServiceDependency
on names = map (λ n. (text n, record { condition = text "service_started"; required = true })) names

-- Other services in `depends_on`, and a network mode.
abbrev pub service : List String → String → ServiceConfig
service deps mode = record bare_service { depends_on = on deps; network_mode = text mode }

abbrev pub project : Map ServiceConfig → Project
project services = record {
  services = services;
  volumes = [];
  secrets = [];
  configs = [];
  networks = [];
}
