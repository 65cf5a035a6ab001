-- ===== src/Compose/Runtime.antt =====
-- What compose/orchestrator.go uses of the runtime package: the data of runtime/runtime.go, and the
-- Runtime interface as a record of functions on the world outside.
use devcontainer.Base.{ℕ, ℤ, Bool, List, Option, Text, Map}
use devcontainer.Compose.Plan.{Capabilities}

pub data ContainerState : Type 0 where
  created running paused restarting removing exited dead : ContainerState

abbrev pub is_running : ContainerState → Bool
is_running running = Bool.true
is_running _ = Bool.false

abbrev pub is_exited : ContainerState → Bool
is_exited exited = Bool.true
is_exited _ = Bool.false

pub data HealthStatus : Type 0 where
  unreported starting healthy unhealthy : HealthStatus

pub record Container : Type 0 where
  pub id : Text
  pub name : Text
  pub image : Text
  pub state : ContainerState
  pub labels : Map Text

-- An inspected container, as far as the orchestrator reads it.
pub record ContainerDetails : Type 0 where
  pub labels : Map Text
  pub state : ContainerState
  pub exit_code : ℤ
  pub health : HealthStatus

pub data MountType : Type 0 where
  bind volume tmpfs : MountType

pub record MountSpec : Type 0 where
  pub type : MountType
  pub source : Text
  pub target : Text
  pub read_only : Bool

pub record PortBinding : Type 0 where
  pub host_ip : Text
  pub host_port : Text
  pub container_port : ℕ
  pub protocol : Text

pub data RestartPolicy : Type 0 where
  restart_no restart_always restart_on_failure restart_unless_stopped : RestartPolicy

-- A duration that is not given is zero.
pub record HealthCheckSpec : Type 0 where
  pub test : List Text
  pub disable : Bool
  pub interval : ℕ
  pub timeout : ℕ
  pub retries : ℕ
  pub start_period : ℕ
  pub start_interval : ℕ

pub record RunSpec : Type 0 where
  pub image : Text
  pub name : Text
  pub cmd : List Text
  pub entrypoint : List Text
  pub user : Text
  pub working_dir : Text
  pub env : Map Text
  pub labels : Map Text
  pub mounts : List MountSpec
  pub networks : List Text
  pub network_mode : Text
  pub pid_mode : Text
  pub ipc_mode : Text
  pub ports : List PortBinding
  pub restart_policy : RestartPolicy
  pub health_check : Option HealthCheckSpec
  pub init : Bool
  pub cap_add : List Text
  pub privileged : Bool
  pub security_opt : List Text
  pub memory_bytes : ℤ
  pub nano_cpus : ℤ

-- An operation of the runtime gives a value, or an error with its cause.
pub data Answer {ℓ} (A : Type ℓ) : Type ℓ where
  done : A → Answer A
  fault : (cause : Text) → Answer A

-- RunContainer tells an image that is missing from other errors.
pub data RunAnswer : Type 0 where
  started_as : (id : Text) → RunAnswer
  image_not_found run_fault : (cause : Text) → RunAnswer

-- An error that the caller never reads is left out: an inspection gives nothing where it fails, and
-- the removal of a network says nothing at all.
pub record Runtime (S : Type 0) : Type 0 where
  pub capabilities : Capabilities
  pub create_network : (name : Text) (labels : Map Text) → S → Answer Text × S
  pub create_volume : (name : Text) (labels : Map Text) → S → Option Text × S
  pub list_containers : (filter : Map Text) → S → Answer (List Container) × S
  pub inspect_container : (id : Text) → S → Option ContainerDetails × S
  pub inspect_image : (ref : Text) → S → Option Text × S
  pub pull_image : (ref : Text) → S → Option Text × S
  pub run_container : RunSpec → S → RunAnswer × S
  pub start_container : (id : Text) → S → Option Text × S
  pub stop_container : (id : Text) → S → S
  pub remove_container : (id : Text) → S → Option Text × S
  pub remove_network : (name : Text) → S → S
  pub remove_volume : (name : Text) → S → S
  pub list_images : (filter : Map Text) → S → Answer (List Text) × S
  pub remove_image : (id : Text) → S → S
  pub append_hosts : (id block : Text) → S → S
  pub now : S → ℕ
  pub sleep : S → S
  pub cancelled : S → Bool

-- The calls that change something, as the orchestrator makes them.
pub data Call : Type 0 where
  run_call : RunSpec → Call
  start_call stop_call remove_call : (id : Text) → Call
  network_call remove_network_call volume_call remove_volume_call : (name : Text) → Call
  remove_image_call pull_call hosts_call : (ref : Text) → Call

-- The world outside, and the calls made so far, the last one first.
pub record State (S : Type 0) : Type 0 where
  pub world : S
  pub calls : List Call
