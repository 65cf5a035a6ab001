-- ===== src/Config/Merge/Samples.antt =====
-- A small configuration and a layer, and the theorems about merging applied to them.
use Prim.Native.String.{String}
use devcontainer.Base.{
  false, ◌||◌, [], ◌∷◌, ◌++◌, none, some, Text, text, lookup, contains, map, ◌≡◌, ◌≢◌, refl,
  or_else, map_found,
}
use devcontainer.Config.Types.{
  ResolvedConfig, FeatureMetadata, Mount, LifecycleCommand, image_source,
}
use devcontainer.Config.Substitute.Samples.{context}
use devcontainer.Config.Layers.{substitute_text, substitute_layers}
use devcontainer.Config.Merge.{Layers, layer_strings, layer_mounts, merge_metadata}
use devcontainer.Config.Merge.Envs.{last_value, merge_metadata-container_env}
use devcontainer.Config.Merge.Mounts.{last_mount, mounts_at, to_list, merge_metadata-mounts}
use devcontainer.Config.Merge.Hooks.{IsDistinct, merge_metadata-lists}

abbrev pub no_command : LifecycleCommand
no_command = record { single = none; parallel = [] }

abbrev pub shell : String → LifecycleCommand
shell s = record { single = some (record { shell = text s; exec = [] }); parallel = [] }

abbrev pub empty_layer : FeatureMetadata
empty_layer = record {
  id = [];
  version = [];
  name = [];
  description = [];
  documentation_url = [];
  license_url = [];
  resolved_ref = [];
  options = [];
  remote_user = [];
  container_user = [];
  user_env_probe = [];
  wait_for = [];
  shutdown_action = [];
  update_remote_user_uid = none;
  container_env = [];
  remote_env = [];
  mounts = [];
  init = none;
  privileged = none;
  override_command = none;
  cap_add = [];
  security_opt = [];
  entrypoint = [];
  host_requirements = none;
  installs_after = [];
  depends_on = none;
  on_create_command = no_command;
  update_content_command = no_command;
  post_create_command = no_command;
  post_start_command = no_command;
  post_attach_command = no_command;
  customizations = [];
}

abbrev pub empty_config : ResolvedConfig
empty_config = record {
  devcontainer_id = [];
  source = image_source (text "debian");
  name = [];
  local_workspace_folder = [];
  container_workspace_folder = [];
  workspace_mount = none;
  container_user = [];
  remote_user = [];
  update_remote_user_uid = none;
  user_env_probe = [];
  container_env = [];
  remote_env = [];
  mounts = [];
  run_args = [];
  init = none;
  privileged = none;
  cap_add = [];
  security_opt = [];
  override_command = none;
  shutdown_action = [];
  entrypoints = [];
  features = [];
  lifecycle = record {
    initialize = [];
    on_create = [];
    update_content = [];
    post_create = [];
    post_start = [];
    post_attach = [];
  };
  wait_for = [];
  secrets_command = no_command;
  forward_ports = [];
  ports_attributes = [];
  other_ports_attributes = none;
  host_requirements = none;
  customizations = [];
  warnings = [];
}

abbrev data_mount : String → Mount
data_mount source = record {
  type = text "volume";
  source = text source;
  target = text "/data";
  read_only = false;
  bind_options = none;
  volume_options = none;
  tmpfs_options = none;
}

abbrev layer : FeatureMetadata
layer = record empty_layer {
  remote_user = text "vscode";
  container_env = (text "ID", text "x-${devcontainerId}") ∷ [];
  mounts = data_mount "data-${devcontainerId}" ∷ [];
  cap_add = text "SYS_ADMIN" ∷ [];
  on_create_command = shell "make deps";
}

abbrev layers : Layers
layers = layer ∷ []

abbrev config : ResolvedConfig
config = record empty_config {
  container_env = (text "TERM", text "xterm") ∷ [];
  mounts = data_mount "mine" ∷ [];
  cap_add = text "SYS_ADMIN" ∷ text "NET_ADMIN" ∷ [];
}

merge_metadata-container_env_example :
    lookup (text "ID") (merge_metadata config context layers).container_env
    ≡ or_else (lookup (text "ID") config.container_env) (
        map_found
          (substitute_text context)
          (last_value (text "ID") (map (λ l. l.container_env) layers)))
unfolding contains
merge_metadata-container_env_example =
    merge_metadata-container_env config context (text "ID") layers (refl, tt) ((refl, tt), tt)

merge_metadata-mounts_example :
    let out = (merge_metadata config context layers).mounts in
    let all = layer_mounts (substitute_layers layers context) ++ config.mounts in
    ((t : Text) → t ≢ [] → mounts_at t out ≡ to_list (last_mount t all))
    × (mounts_at [] out ≡ mounts_at [] all)
merge_metadata-mounts_example = merge_metadata-mounts config context layers (λ e. cc e)

merge_metadata-lists_example :
    let out = merge_metadata config context layers in
    let ls = substitute_layers layers context in
    IsDistinct out.cap_add
    × ((k : Text)
        → contains out.cap_add k
          ≡ contains (layer_strings ls (λ l. l.cap_add)) k || contains config.cap_add k)
    × IsDistinct out.security_opt
    × ((k : Text)
        → contains out.security_opt k
          ≡ contains (layer_strings ls (λ l. l.security_opt)) k || contains config.security_opt k)
merge_metadata-lists_example = merge_metadata-lists config context layers (λ e. cc e)
