-- ===== src/Compose/Project.antt =====
-- The fields of a loaded compose project that the compose package reads (the types themselves
-- are those of compose-go). A project's maps are association lists in any order, a pointer is an
-- option, and an entry that is only counted is reduced to its name.
use devcontainer.Base.{ℕ, Text, Map, Option, List, Bool, false, not, ltb, nat_beq, ℤ, pos, negsuc}

abbrev pub exceeds_one : ℤ → Bool
exceeds_one (pos n) = ltb 1 n
exceeds_one (negsuc n) = false

abbrev pub is_one : ℤ → Bool
is_one (pos n) = nat_beq n 1
is_one (negsuc n) = false

abbrev pub is_zero : ℤ → Bool
is_zero (pos n) = nat_beq n 0
is_zero (negsuc n) = false

abbrev pub is_positive : ℤ → Bool
is_positive (pos n) = not (nat_beq n 0)
is_positive (negsuc n) = false

-- An entry of `depends_on`.
pub record ServiceDependency : Type 0 where
  pub condition : Text
  pub required : Bool

-- deploy.resources.limits; a count of zero is no limit, a negative one is a limit to the plan. The
-- share of processors is counted in billionths.
pub record Limits : Type 0 where
  pub pids : ℤ
  pub devices : List Text
  pub generic_resources : List Text
  pub memory_bytes : ℤ
  pub nano_cpus : ℤ

pub record DeployConfig : Type 0 where
  pub mode : Text
  pub replicas : Option ℤ
  pub labels : Map Text
  pub update_config : Option Text
  pub rollback_config : Option Text
  pub restart_policy : Option Text
  pub endpoint_mode : Text
  pub constraints : List Text
  pub preferences : List Text
  pub max_replicas : ℕ
  pub reservations : Option Text
  pub limits : Option Limits

pub record ServiceVolumeConfig : Type 0 where
  pub type : Text
  pub source : Text
  pub target : Text
  pub read_only : Bool

pub record ServicePortConfig : Type 0 where
  pub host_ip : Text
  pub published : Text
  pub target : ℕ
  pub protocol : Text

-- A duration is a number of nanoseconds.
pub record HealthCheckConfig : Type 0 where
  pub test : List Text
  pub disable : Bool
  pub interval : Option ℕ
  pub timeout : Option ℕ
  pub retries : Option ℕ
  pub start_period : Option ℕ
  pub start_interval : Option ℕ

pub record ServiceConfig : Type 0 where
  pub name : Text
  pub image : Text
  pub build : Option Text
  pub pull_policy : Text
  pub profiles : List Text
  pub command : List Text
  pub entrypoint : List Text
  pub user : Text
  pub working_dir : Text
  pub environment : Map (Option Text)
  pub labels : Map Text
  pub volumes : List ServiceVolumeConfig
  pub ports : List ServicePortConfig
  pub restart : Text
  pub health_check : Option HealthCheckConfig
  pub init : Option Bool
  pub cap_add : List Text
  pub privileged : Bool
  pub security_opt : List Text
  pub mem_limit : ℤ
  pub nano_cpus : ℤ
  pub depends_on : Map ServiceDependency
  pub network_mode : Text
  pub pid : Text
  pub ipc : Text
  pub secrets : List Text
  pub configs : List Text
  pub deploy : Option DeployConfig
  pub develop : Option Text
  pub links : List Text
  pub scale : Option ℤ
  pub pre_start : List Text
  pub post_start : List Text
  pub pre_stop : List Text

pub record Project : Type 0 where
  pub services : Map ServiceConfig
  pub volumes : Map Text
  pub secrets : Map Text
  pub configs : Map Text
  pub networks : Map Text
