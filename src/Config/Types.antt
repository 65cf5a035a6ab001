-- ===== src/Config/Types.antt =====
-- config/resolved.go: the resolved configuration and the metadata of one layer. A string type is
-- a text, a pointer an option, a map an association list.
use devcontainer.Base.{
  ℕ, ℤ, Bool, true, ◌&&◌, List, [], Option, none, some, Text, text, Map, is_empty, is_some, not,
  ◌==◌, if◌then◌else◌,
}

-- A decoded JSON value (`any`, or an undecoded json.RawMessage). A number is kept as it is written.
mutual
  pub data Json : Type 0 where
    null : Json
    bool : Bool → Json
    num : Text → Json
    str : Text → Json
    arr : Items → Json
    obj : Fields → Json

  pub data Items : Type 0 where
    nil : Items
    cons : Json → Items → Items

  pub data Fields : Type 0 where
    end : Fields
    field : Text → Json → Fields → Fields

-- Exactly one of the two forms is used.
pub record Command : Type 0 where
  pub shell : Text
  pub exec : List Text

pub record LifecycleCommand : Type 0 where
  pub single : Option Command
  pub parallel : Map Command

-- LifecycleCommand.IsEmpty
abbrev pub command_is_empty : LifecycleCommand → Bool
command_is_empty l = not (is_some l.single) && is_empty l.parallel

pub record LifecycleCommands : Type 0 where
  pub initialize : List LifecycleCommand
  pub on_create : List LifecycleCommand
  pub update_content : List LifecycleCommand
  pub post_create : List LifecycleCommand
  pub post_start : List LifecycleCommand
  pub post_attach : List LifecycleCommand

pub record BindOptions : Type 0 where
  pub propagation : Text
  pub create_host_path : Bool

pub record VolumeDriverConfig : Type 0 where
  pub name : Text
  pub options : Map Text

pub record VolumeOptions : Type 0 where
  pub no_copy : Bool
  pub labels : Map Text
  pub driver_config : Option VolumeDriverConfig

pub record TmpfsOptions : Type 0 where
  pub size_bytes : ℕ
  pub tmpfs_mode : ℕ

pub record Mount : Type 0 where
  pub type : Text
  pub source : Text
  pub target : Text
  pub read_only : Bool
  pub bind_options : Option BindOptions
  pub volume_options : Option VolumeOptions
  pub tmpfs_options : Option TmpfsOptions

pub record GpuRequirement : Type 0 where
  pub optional : Bool

pub record HostRequirements : Type 0 where
  pub cpus : ℤ
  pub memory : Text
  pub storage : Text
  pub gpu : Option GpuRequirement

pub record FeatureOption : Type 0 where
  pub type : Text
  pub default : Option Json
  pub enum : List Json
  pub proposals : List Json
  pub description : Text

-- One layer of the metadata chain; an empty or absent field does not contribute.
pub record FeatureMetadata : Type 0 where
  pub id : Text
  pub version : Text
  pub name : Text
  pub description : Text
  pub documentation_url : Text
  pub license_url : Text
  pub resolved_ref : Text
  pub options : Map FeatureOption
  pub remote_user : Text
  pub container_user : Text
  pub user_env_probe : Text
  pub wait_for : Text
  pub shutdown_action : Text
  pub update_remote_user_uid : Option Bool
  pub container_env : Map Text
  pub remote_env : Map Text
  pub mounts : List Mount
  pub init : Option Bool
  pub privileged : Option Bool
  pub override_command : Option Bool
  pub cap_add : List Text
  pub security_opt : List Text
  pub entrypoint : Text
  pub host_requirements : Option HostRequirements
  pub installs_after : List Text
  pub depends_on : Option (Map (Map Json))
  pub on_create_command : LifecycleCommand
  pub update_content_command : LifecycleCommand
  pub post_create_command : LifecycleCommand
  pub post_start_command : LifecycleCommand
  pub post_attach_command : LifecycleCommand
  pub customizations : Map Json

-- What ranging over `DependsOn` gives: a nil map has no entries. Whether it is nil counts where the
-- metadata is written to a label.
abbrev pub dependencies : FeatureMetadata → Map (Map Json)
dependencies m = elim m.depends_on [ none ↦ [] | some deps ↦ deps ]

pub data FeatureSourceKind : Type 0 where
  oci https local_dir : FeatureSourceKind

pub record ResolvedFeature : Type 0 where
  pub ref : Text
  pub resolved_ref : Text
  pub dir : Text
  pub metadata : FeatureMetadata
  pub options : Map Json
  pub source_kind : FeatureSourceKind
  pub already_installed : Bool

pub data Source : Type 0 where
  image_source : (image : Text) → Source
  build_source :
      (dockerfile context : Text) (args : Map Text) (target : Text) (cache_from : List Text)
      (options : Map Text)
      → Source
  compose_source : (files : List Text) (service : Text) (run_services : List Text) → Source

pub record PortSpec : Type 0 where
  pub container : ℤ
  pub host : ℤ
  pub label : Text

pub record PortAttributes : Type 0 where
  pub label : Text
  pub protocol : Text
  pub on_auto_forward : Text
  pub elevate_if_needed : Bool
  pub require_local_port : Bool

pub data WarningCode : Type 0 where
  unknown_field deprecated_key unsupported_feature_field unresolved_local_env
        unresolved_container_env unknown_variable deep_feature_chain unknown_feature_option
        compose_ports_ignored uid_reconcile_skipped :
      WarningCode

-- A diagnostic; its message is reduced to the value that it quotes.
pub record Warning : Type 0 where
  pub warning_code : WarningCode
  pub message : Text
  pub path : Text
  pub source : Text

pub record ResolvedConfig : Type 0 where
  pub devcontainer_id : Text
  pub source : Source
  pub name : Text
  pub local_workspace_folder : Text
  pub container_workspace_folder : Text
  pub workspace_mount : Option Mount
  pub container_user : Text
  pub remote_user : Text
  pub update_remote_user_uid : Option Bool
  pub user_env_probe : Text
  pub container_env : Map Text
  pub remote_env : Map Text
  pub mounts : List Mount
  pub run_args : List Text
  pub init : Option Bool
  pub privileged : Option Bool
  pub cap_add : List Text
  pub security_opt : List Text
  pub override_command : Option Bool
  pub shutdown_action : Text
  pub entrypoints : List Text
  pub features : List ResolvedFeature
  pub lifecycle : LifecycleCommands
  pub wait_for : Text
  pub secrets_command : LifecycleCommand
  pub forward_ports : List PortSpec
  pub ports_attributes : Map PortAttributes
  pub other_ports_attributes : Option PortAttributes
  pub host_requirements : Option HostRequirements
  pub customizations : Map Json
  pub warnings : List Warning

-- The default of `waitFor`.
abbrev pub default_wait_for : ResolvedConfig → Text
default_wait_for c =
    if is_empty c.lifecycle.update_content then text "postCreate" else text "updateContent"

-- ResolvedConfig.Finalize
unfoldable pub finalize : ResolvedConfig → ResolvedConfig
finalize c = record c {
  override_command = elim c.override_command [ none ↦ some true | some b ↦ some b ];
  user_env_probe =
      if c.user_env_probe == [] then text "loginInteractiveShell" else c.user_env_probe;
  wait_for = if c.wait_for == [] then default_wait_for c else c.wait_for;
}

-- BoolOr
abbrev pub bool_or : Option Bool → Bool → Bool
bool_or none default = default
bool_or (some b) default = b
