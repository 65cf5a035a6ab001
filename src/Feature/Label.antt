-- ===== src/Feature/Label.antt =====
-- feature/metadata.go: the entries of the devcontainer.metadata label, and what is read back from
-- them. The JSON text of the label is that of encoding/json: a label is what reading its text gives,
-- and an entry is a record, in which a field that `omitempty` drops is empty.
mod Commands
pub mod RoundTrip
mod Samples
use devcontainer.Base.{
  ℕ, ℤ, pos, Bool, true, false, not, List, [], ◌∷◌, ◌++◌, map, Option, none, some, Text, text, ◌==◌,
  text_ltb, Map, is_empty, sort_by, if◌then◌else◌,
}
use devcontainer.Config.Types.{
  Json, bool, str, arr, obj, Items, nil, cons, Fields, end, field, Command, LifecycleCommand, Mount,
  HostRequirements, FeatureMetadata, ResolvedFeature, dependencies,
}
use devcontainer.Config.Decode.Values.{Decoded, decoded, refused, malformed_label}
use devcontainer.Config.Decode.Commands.{no_command, decode_lifecycle_command}
use devcontainer.Config.Decode.MountForms.{decode_mounts}

-- `rawHostReq`
pub record HostRequest : Type 0 where
  pub cpus : ℤ
  pub memory : Text
  pub storage : Text

-- `metadataEntry`
pub record Entry : Type 0 where
  pub id : Text
  pub version : Text
  pub resolved_ref : Text
  pub depends_on : Option (Map (Map Json))
  pub remote_user : Text
  pub container_user : Text
  pub user_env_probe : Text
  pub wait_for : Text
  pub shutdown_action : Text
  pub update_remote_user_uid : Option Bool
  pub container_env : Map Text
  pub remote_env : Map Text
  pub init : Option Bool
  pub privileged : Option Bool
  pub override_command : Option Bool
  pub cap_add : List Text
  pub security_opt : List Text
  pub entrypoint : Text
  pub mounts : Option Json
  pub host_requirements : Option HostRequest
  pub on_create_command : Option Json
  pub update_content_command : Option Json
  pub post_create_command : Option Json
  pub post_start_command : Option Json
  pub post_attach_command : Option Json
  pub customizations : Map Json

-- The fields of `BuildPlan` that the label is made of.
pub record BuildPlan : Type 0 where
  pub base_image_metadata : List FeatureMetadata
  pub features : List ResolvedFeature
  pub remote_user : Text
  pub container_user : Text

abbrev pub text_field : Text → Text → Fields → Fields
text_field name s rest = if s == [] then rest else field name (str s) rest

abbrev pub true_field : Text → Bool → Fields → Fields
true_field name b rest = if b then field name (bool true) rest else rest

abbrev pub mount_object : Mount → Json
mount_object m = obj (
    text_field (text "type") m.type (
      text_field (text "source") m.source
        (text_field (text "target") m.target (true_field (text "readonly") m.read_only end))))

pub mount_objects : List Mount → Items
mount_objects [] = nil
mount_objects (m ∷ mounts) = cons (mount_object m) (mount_objects mounts)

pub encode_mounts : List Mount → Json
encode_mounts mounts = arr (mount_objects mounts)

pub strings : List Text → Items
strings [] = nil
strings (s ∷ ss) = cons (str s) (strings ss)

-- A command without words is written as `[]`; encoding/json writes `null` where its slice is nil.
abbrev pub command_json : Command → Json
command_json c = if not (c.shell == []) then str c.shell else arr (strings c.exec)

pub command_fields : Map Command → Fields
command_fields [] = end
command_fields ((name, c) ∷ m) = field name (command_json c) (command_fields m)

-- encoding/json writes the keys of a map in order.
pub by_name : Map Command → Map Command
by_name m = sort_by (λ a b. text_ltb a.0 b.0) m

abbrev pub encode_parallel : Map Command → Option Json
encode_parallel m = if is_empty m then none else some (obj (command_fields (by_name m)))

pub encode_lifecycle_command : LifecycleCommand → Option Json
encode_lifecycle_command c = elim c.single [
  | none ↦ encode_parallel c.parallel
  | some single ↦
      if not (single.shell == [])
      then some (str single.shell)
      else if not (is_empty single.exec)
      then some (arr (strings single.exec))
      else encode_parallel c.parallel
]

abbrev pub host_request : Option HostRequirements → Option HostRequest
host_request none = none
host_request (some h) = some (record { cpus = h.cpus; memory = h.memory; storage = h.storage })

pub metadata_from_feature_metadata : FeatureMetadata → Entry
metadata_from_feature_metadata m = record {
  id = m.id;
  version = m.version;
  resolved_ref = m.resolved_ref;
  depends_on = m.depends_on;
  remote_user = m.remote_user;
  container_user = m.container_user;
  user_env_probe = m.user_env_probe;
  wait_for = m.wait_for;
  shutdown_action = m.shutdown_action;
  update_remote_user_uid = m.update_remote_user_uid;
  container_env = m.container_env;
  remote_env = m.remote_env;
  init = m.init;
  privileged = m.privileged;
  override_command = m.override_command;
  cap_add = m.cap_add;
  security_opt = m.security_opt;
  entrypoint = m.entrypoint;
  mounts = if is_empty m.mounts then none else some (encode_mounts m.mounts);
  host_requirements = host_request m.host_requirements;
  on_create_command = encode_lifecycle_command m.on_create_command;
  update_content_command = encode_lifecycle_command m.update_content_command;
  post_create_command = encode_lifecycle_command m.post_create_command;
  post_start_command = encode_lifecycle_command m.post_start_command;
  post_attach_command = encode_lifecycle_command m.post_attach_command;
  customizations = m.customizations;
}

-- The entries of the features that the build installs.
pub feature_entries : List ResolvedFeature → List Entry
feature_entries [] = []
feature_entries (f ∷ features) =
    let rest = feature_entries features in
    if f.already_installed
    then rest
    else record (metadata_from_feature_metadata f.metadata) {
      resolved_ref = f.resolved_ref;
      depends_on = some (dependencies f.metadata);
    }
      ∷ rest

abbrev pub empty_entry : Entry
empty_entry = record {
  id = [];
  version = [];
  resolved_ref = [];
  depends_on = none;
  remote_user = [];
  container_user = [];
  user_env_probe = [];
  wait_for = [];
  shutdown_action = [];
  update_remote_user_uid = none;
  container_env = [];
  remote_env = [];
  init = none;
  privileged = none;
  override_command = none;
  cap_add = [];
  security_opt = [];
  entrypoint = [];
  mounts = none;
  host_requirements = none;
  on_create_command = none;
  update_content_command = none;
  post_create_command = none;
  post_start_command = none;
  post_attach_command = none;
  customizations = [];
}

-- `buildMetadataLabel`, before encoding/json writes the entries.
pub build_metadata_label : BuildPlan → List Entry
build_metadata_label plan =
    map metadata_from_feature_metadata plan.base_image_metadata
    ++ (feature_entries plan.features
        ++ record empty_entry {
          remote_user = plan.remote_user;
          container_user = plan.container_user;
        }
          ∷ [])

abbrev pub empty_metadata : FeatureMetadata
empty_metadata = record {
  id = [];
  version = [];
  name = [];
  description = [];
  documentation_url = [];
  license_url = [];
  resolved_ref = [];
  options = [];
  remote_user = [];
  container_user = [];
  user_env_probe = [];
  wait_for = [];
  shutdown_action = [];
  update_remote_user_uid = none;
  container_env = [];
  remote_env = [];
  mounts = [];
  init = none;
  privileged = none;
  override_command = none;
  cap_add = [];
  security_opt = [];
  entrypoint = [];
  host_requirements = none;
  installs_after = [];
  depends_on = none;
  on_create_command = no_command;
  update_content_command = no_command;
  post_create_command = no_command;
  post_start_command = no_command;
  post_attach_command = no_command;
  customizations = [];
}

abbrev pub requested : Option HostRequest → Option HostRequirements
requested none = none
requested (some h) =
    some (record { cpus = h.cpus; memory = h.memory; storage = h.storage; gpu = none })

abbrev pub and_read {ℓ κ} : {A : Type ℓ} {B : Type κ} → Decoded A → (A → Decoded B) → Decoded B
and_read (refused e) k = refused e
and_read (decoded a) k = k a

-- The warnings about mounts are dropped.
abbrev pub mounts_of : Option Json → Decoded (List Mount)
mounts_of mounts = and_read (decode_mounts mounts) (λ r. decoded r.0)

pub to_feature_metadata : Entry → Decoded FeatureMetadata
to_feature_metadata e = and_read (mounts_of e.mounts) λ mounts.
    and_read (decode_lifecycle_command e.on_create_command) λ on_create.
      and_read (decode_lifecycle_command e.update_content_command) λ update_content.
        and_read (decode_lifecycle_command e.post_create_command) λ post_create.
          and_read (decode_lifecycle_command e.post_start_command) λ post_start.
            and_read (decode_lifecycle_command e.post_attach_command) λ post_attach.
              decoded (record empty_metadata {
                id = e.id;
                version = e.version;
                resolved_ref = e.resolved_ref;
                remote_user = e.remote_user;
                container_user = e.container_user;
                user_env_probe = e.user_env_probe;
                wait_for = e.wait_for;
                shutdown_action = e.shutdown_action;
                update_remote_user_uid = e.update_remote_user_uid;
                container_env = e.container_env;
                remote_env = e.remote_env;
                mounts = mounts;
                init = e.init;
                privileged = e.privileged;
                override_command = e.override_command;
                cap_add = e.cap_add;
                security_opt = e.security_opt;
                entrypoint = e.entrypoint;
                host_requirements = requested e.host_requirements;
                depends_on = e.depends_on;
                on_create_command = on_create;
                update_content_command = update_content;
                post_create_command = post_create;
                post_start_command = post_start;
                post_attach_command = post_attach;
                customizations = e.customizations;
              })

pub to_all : List Entry → Decoded (List FeatureMetadata)
to_all [] = decoded []
to_all (e ∷ entries) =
    and_read (to_feature_metadata e) λ m. and_read (to_all entries) λ ms. decoded (m ∷ ms)

-- What a label holds: nothing, one object, an array of entries, or what is neither.
pub data Label : Type 0 where
  no_label malformed : Label
  single_object : (id version resolved_ref : Text) → Label
  entries_of : List Entry → Label

pub parse_metadata_label : Label → Decoded (List FeatureMetadata)
parse_metadata_label no_label = decoded []
parse_metadata_label malformed = refused malformed_label
parse_metadata_label (single_object id version resolved_ref) =
    decoded (record empty_metadata { id = id; version = version; resolved_ref = resolved_ref } ∷ [])
parse_metadata_label (entries_of entries) = to_all entries
