-- ===== src/Config/Layers.antt =====
-- config/merge_metadata.go: the substitution of placeholders in metadata layers.
use devcontainer.Base.{List, [], Option, none, some, Text, Map, ◌==◌, map, if◌then◌else◌}
use devcontainer.Config.Types.{Command, LifecycleCommand, Mount, FeatureMetadata}
use devcontainer.Config.Substitute.{SubstitutionContext, resolve_string}

-- The closure `sub` of `substituteLayer`.
unfoldable pub substitute_text : SubstitutionContext → Text → Text
substitute_text ctx s = if s == [] then s else (resolve_string s ctx).0

abbrev pub substitute_command : (Text → Text) → Command → Command
substitute_command sub c = record { shell = sub c.shell; exec = map sub c.exec }

abbrev pub substitute_single : (Text → Text) → Option Command → Option Command
substitute_single sub none = none
substitute_single sub (some c) = some (substitute_command sub c)

unfoldable pub substitute_lifecycle_command : LifecycleCommand → (Text → Text) → LifecycleCommand
substitute_lifecycle_command cmd sub = record {
  single = substitute_single sub cmd.single;
  parallel = map (λ e. (e.0, substitute_command sub e.1)) cmd.parallel;
}

unfoldable pub substitute_env : (Text → Text) → Map Text → Map Text
substitute_env sub env = map (λ e. (e.0, sub e.1)) env

unfoldable pub substitute_mount : (Text → Text) → Mount → Mount
substitute_mount sub m = record m { source = sub m.source; target = sub m.target }

unfoldable pub substitute_layer : FeatureMetadata → SubstitutionContext → FeatureMetadata
substitute_layer l ctx =
    let sub = substitute_text ctx in
    record l {
      remote_user = sub l.remote_user;
      container_user = sub l.container_user;
      entrypoint = sub l.entrypoint;
      container_env = substitute_env sub l.container_env;
      remote_env = substitute_env sub l.remote_env;
      mounts = map (substitute_mount sub) l.mounts;
      cap_add = map sub l.cap_add;
      security_opt = map sub l.security_opt;
      on_create_command = substitute_lifecycle_command l.on_create_command sub;
      update_content_command = substitute_lifecycle_command l.update_content_command sub;
      post_create_command = substitute_lifecycle_command l.post_create_command sub;
      post_start_command = substitute_lifecycle_command l.post_start_command sub;
      post_attach_command = substitute_lifecycle_command l.post_attach_command sub;
    }

unfoldable pub substitute_layers : List FeatureMetadata → SubstitutionContext → List FeatureMetadata
substitute_layers layers ctx = map (λ l. substitute_layer l ctx) layers
