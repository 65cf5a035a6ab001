-- ===== src/Feature/Label/Samples.antt =====
-- A build on an image with metadata, and the theorem about its label applied to it.
use devcontainer.Base.{
  true, false, [], ◌∷◌, ◌++◌, map, none, text, inl, inr, ◌≡◌, refl, ◌==◌, contains,
}
use devcontainer.Config.Types.{FeatureMetadata, ResolvedFeature, FeatureSourceKind}
use devcontainer.Config.Decode.Values.{decoded}
use devcontainer.Config.Decode.Commands.{single_command, shell_command, exec_command}
use devcontainer.Config.Decode.MountForms.{empty_mount}
use devcontainer.Feature.Label.{
  BuildPlan, empty_metadata, build_metadata_label, entries_of, parse_metadata_label,
}
use devcontainer.Feature.Label.RoundTrip.{
  IsWritable, label_part, installed_metadata, new_features, parse_metadata_label-build,
}

abbrev base : FeatureMetadata
base = record empty_metadata {
  id = text "git";
  remote_user = text "vscode";
  mounts = record empty_mount { type = text "volume"; target = text "/v" } ∷ [];
  on_create_command = single_command (shell_command (text "make"));
  post_create_command = record {
    single = none;
    parallel =
        (text "b", exec_command (text "ls" ∷ [])) ∷ ((text "a", shell_command (text "pwd")) ∷ []);
  };
}

abbrev node : ResolvedFeature
node = record {
  ref = text "node:2";
  resolved_ref = text "node@sha";
  dir = [];
  metadata = record empty_metadata { id = text "node" };
  options = [];
  source_kind = FeatureSourceKind.oci;
  already_installed = false;
}

abbrev plan : BuildPlan
plan = record {
  base_image_metadata = base ∷ [];
  features = node ∷ (record node { already_installed = true } ∷ []);
  remote_user = text "vscode";
  container_user = [];
}

base-IsWritable : IsWritable base
unfolding ◌==◌ contains
base-IsWritable = record {
  mounts = (refl, tt);
  on_create = (inr (refl, refl), refl);
  update_content = (tt, tt);
  post_create = ((refl, (refl, tt)), (inl (refl, refl), (inr (refl, refl), tt)));
  post_start = (tt, tt);
  post_attach = (tt, tt);
}

node-IsWritable : IsWritable node.metadata
node-IsWritable = record {
  mounts = tt;
  on_create = (tt, tt);
  update_content = (tt, tt);
  post_create = (tt, tt);
  post_start = (tt, tt);
  post_attach = (tt, tt);
}

parse_metadata_label-build_example :
    parse_metadata_label (entries_of (build_metadata_label plan))
    ≡ decoded (
        map label_part (base ∷ [])
        ++ (map (λ f. label_part (installed_metadata f)) (new_features plan.features)
            ++ record empty_metadata { remote_user = text "vscode" } ∷ []))
parse_metadata_label-build_example =
    parse_metadata_label-build plan (base-IsWritable, tt) (node-IsWritable, (node-IsWritable, tt))
