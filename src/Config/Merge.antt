-- ===== src/Config/Merge.antt =====
-- config/merge_metadata.go: folding the metadata layers into the resolved configuration.
pub mod Scalars
pub mod Envs
pub mod Mounts
pub mod Hooks
pub mod Samples
use devcontainer.Base.{
  Bool, true, false, not, List, [], ◌∷◌, ◌++◌, Option, none, some, Text, ◌==◌, Map, insert,
  contains, filter, map, is_empty, if◌then◌else◌, is_some,
}
use devcontainer.Config.Types.{
  ResolvedConfig, FeatureMetadata, Mount, LifecycleCommand, LifecycleCommands, HostRequirements,
  command_is_empty,
}
use devcontainer.Config.Substitute.{SubstitutionContext}
use devcontainer.Config.Layers.{substitute_layers}

abbrev pub Layers : Type 0
Layers = List FeatureMetadata

-- The loop of `pickString`: the last non-empty value so far.
pub last_string : Text → Layers → (FeatureMetadata → Text) → Text
last_string out [] get = out
last_string out (l ∷ layers) get = last_string (if get l == [] then out else get l) layers get

pub pick_string : Text → Layers → (FeatureMetadata → Text) → Text
pick_string user layers get = if user == [] then last_string [] layers get else user

abbrev pub later {ℓ} : {A : Type ℓ} → Option A → Option A → Option A
later out none = out
later out (some v) = some v

-- The loop of `pickBool`, and of the host requirements from the last layer on.
pub last_set {ℓ} : {A : Type ℓ} → Option A → Layers → (FeatureMetadata → Option A) → Option A
last_set out [] get = out
last_set out (l ∷ layers) get = last_set (later out (get l)) layers get

pub pick_set {ℓ} : {A : Type ℓ} → Option A → Layers → (FeatureMetadata → Option A) → Option A
pick_set none layers get = last_set none layers get
pick_set (some v) layers get = some v

pub layer_strings : Layers → (FeatureMetadata → List Text) → List Text
layer_strings [] get = []
layer_strings (l ∷ layers) get = get l ++ layer_strings layers get

-- `if !seen[s] { seen[s] = true; out = append(out, s) }`; what is seen is what is in `out`.
pub push_new : List Text → List Text → List Text
push_new out [] = out
push_new out (s ∷ rest) = push_new (if contains out s then out else out ++ s ∷ []) rest

pub union_dedup : List Text → List Text → List Text
union_dedup a b = push_new (push_new [] a) b

pub layer_maps : Layers → (FeatureMetadata → Map Text) → List (Map Text)
layer_maps layers get = filter (λ m. not (is_empty m)) (map get layers)

-- `for k, v := range m { out[k] = v }`
pub put_all : Map Text → Map Text → Map Text
put_all out [] = out
put_all out ((k, v) ∷ m) = put_all (insert k v out) m

pub put_maps : Map Text → List (Map Text) → Map Text
put_maps out [] = out
put_maps out (m ∷ maps) = put_maps (put_all out m) maps

pub merge_string_maps : List (Map Text) → Map Text → Map Text
merge_string_maps maps user = put_all (put_maps [] maps) user

pub layer_mounts : Layers → List Mount
layer_mounts [] = []
layer_mounts (l ∷ layers) = l.mounts ++ layer_mounts layers

-- The backward walk: the mounts kept of a suffix, in order, and the targets seen in it.
pub dedup_walk : List Mount → List Mount × List Text
dedup_walk [] = ([], [])
dedup_walk (m ∷ ms) =
    let (kept, seen) = dedup_walk ms in
    if m.target == []
    then (m ∷ kept, seen)
    else if contains seen m.target
    then (kept, seen)
    else (m ∷ kept, m.target ∷ seen)

pub dedup_mounts_by_target : List Mount → List Mount
dedup_mounts_by_target ms = (dedup_walk ms).0

pub prepend_hooks :
    Layers → (FeatureMetadata → LifecycleCommand) → List LifecycleCommand → List LifecycleCommand
prepend_hooks layers get user = filter (λ c. not (command_is_empty c)) (map get layers) ++ user

pub layer_entrypoints : Layers → List Text
layer_entrypoints layers = filter (λ e. not (e == [])) (map (λ l. l.entrypoint) layers)

pub merge_lifecycle : Layers → LifecycleCommands → LifecycleCommands
merge_lifecycle layers c = record c {
  on_create = prepend_hooks layers (λ l. l.on_create_command) c.on_create;
  update_content = prepend_hooks layers (λ l. l.update_content_command) c.update_content;
  post_create = prepend_hooks layers (λ l. l.post_create_command) c.post_create;
  post_start = prepend_hooks layers (λ l. l.post_start_command) c.post_start;
  post_attach = prepend_hooks layers (λ l. l.post_attach_command) c.post_attach;
}

-- `MergeMetadata` behind its early return, with the layers already substituted.
pub merge_layers : ResolvedConfig → Layers → ResolvedConfig
merge_layers cfg layers = record cfg {
  remote_user = pick_string cfg.remote_user layers (λ l. l.remote_user);
  container_user = pick_string cfg.container_user layers (λ l. l.container_user);
  user_env_probe = pick_string cfg.user_env_probe layers (λ l. l.user_env_probe);
  wait_for = pick_string cfg.wait_for layers (λ l. l.wait_for);
  shutdown_action = pick_string cfg.shutdown_action layers (λ l. l.shutdown_action);
  init = pick_set cfg.init layers (λ l. l.init);
  privileged = pick_set cfg.privileged layers (λ l. l.privileged);
  override_command = pick_set cfg.override_command layers (λ l. l.override_command);
  update_remote_user_uid =
      pick_set cfg.update_remote_user_uid layers (λ l. l.update_remote_user_uid);
  host_requirements = pick_set cfg.host_requirements layers (λ l. l.host_requirements);
  cap_add = union_dedup (layer_strings layers (λ l. l.cap_add)) cfg.cap_add;
  security_opt = union_dedup (layer_strings layers (λ l. l.security_opt)) cfg.security_opt;
  entrypoints = layer_entrypoints layers;
  container_env = merge_string_maps (layer_maps layers (λ l. l.container_env)) cfg.container_env;
  remote_env = merge_string_maps (layer_maps layers (λ l. l.remote_env)) cfg.remote_env;
  mounts = dedup_mounts_by_target (layer_mounts layers ++ cfg.mounts);
  lifecycle = merge_lifecycle layers cfg.lifecycle;
}

unfoldable pub merge_metadata : ResolvedConfig → SubstitutionContext → Layers → ResolvedConfig
merge_metadata cfg ctx layers =
    if is_empty layers then cfg else merge_layers cfg (substitute_layers layers ctx)
