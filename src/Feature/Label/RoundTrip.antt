-- ===== src/Feature/Label/RoundTrip.antt =====
-- What a label keeps of the metadata that is written to it.
use devcontainer.Base.{
  ℕ, suc, Bool, true, false, not, List, [], ◌∷◌, ◌++◌, map, filter, none, some, Text, text, ◌==◌,
  is_empty, if◌then◌else◌, ◌≡◌, refl, Bool-cases, inl, inr,
}
use devcontainer.Config.Types.{end, Mount, FeatureMetadata, ResolvedFeature, dependencies}
use devcontainer.Config.Decode.Values.{Decoded, decoded, refused, list_of, keep_items, kept}
use devcontainer.Config.Decode.MountForms.{
  empty_mount, is_blank_mount, set_field, set_fields, mount_item, decode_mounts,
}
use devcontainer.Config.Decode.Commands.{decode_lifecycle_command}
use devcontainer.Feature.Label.{
  text_field, true_field, mount_object, mount_objects, encode_mounts, mounts_of, host_request,
  requested, and_read, Entry, BuildPlan, metadata_from_feature_metadata, feature_entries,
  empty_metadata, build_metadata_label, to_feature_metadata, to_all, entries_of,
  parse_metadata_label,
}
use devcontainer.Feature.Label.Commands.{IsPlain, in_order, decode_lifecycle_command-encode}

-- What of a mount is written.
abbrev pub written_mount : Mount → Mount
written_mount m = record empty_mount {
  type = m.type;
  source = m.source;
  target = m.target;
  read_only = m.read_only;
}

set_fields-mount_object :
    (type source target : Text) (read_only : Bool)
    → set_fields empty_mount (
        text_field (text "type") type (
          text_field
            (text "source")
            source
            (text_field (text "target") target (true_field (text "readonly") read_only end))))
      ≡ some (record empty_mount {
        type = type;
        source = source;
        target = target;
        read_only = read_only;
      })
unfolding set_fields set_field ◌==◌
set_fields-mount_object [] [] [] false = refl
set_fields-mount_object [] [] [] true = refl
set_fields-mount_object [] [] (c ∷ target) false = refl
set_fields-mount_object [] [] (c ∷ target) true = refl
set_fields-mount_object [] (b ∷ source) [] false = refl
set_fields-mount_object [] (b ∷ source) [] true = refl
set_fields-mount_object [] (b ∷ source) (c ∷ target) false = refl
set_fields-mount_object [] (b ∷ source) (c ∷ target) true = refl
set_fields-mount_object (a ∷ type) [] [] false = refl
set_fields-mount_object (a ∷ type) [] [] true = refl
set_fields-mount_object (a ∷ type) [] (c ∷ target) false = refl
set_fields-mount_object (a ∷ type) [] (c ∷ target) true = refl
set_fields-mount_object (a ∷ type) (b ∷ source) [] false = refl
set_fields-mount_object (a ∷ type) (b ∷ source) [] true = refl
set_fields-mount_object (a ∷ type) (b ∷ source) (c ∷ target) false = refl
set_fields-mount_object (a ∷ type) (b ∷ source) (c ∷ target) true = refl

abbrev pub AreNoBlanks : List Mount → Type 0
AreNoBlanks [] = Unit {0}
AreNoBlanks (m ∷ mounts) = (is_blank_mount m ≡ false) × AreNoBlanks mounts

mount_item-mount_object :
    (m : Mount) → is_blank_mount m ≡ false → mount_item (mount_object m) ≡ kept (written_mount m)
unfolding mount_item
mount_item-mount_object m h =
    rw (set_fields-mount_object m.type m.source m.target m.read_only, h) refl

keep_items-mount_objects :
    (at : Text) (i : ℕ) (mounts : List Mount)
    → AreNoBlanks mounts
    → keep_items mount_item at i (list_of (mount_objects mounts)) ≡ (map written_mount mounts, [])
unfolding keep_items list_of mount_objects
keep_items-mount_objects at i [] h = refl
keep_items-mount_objects at i (m ∷ mounts) h =
    rw (mount_item-mount_object m h.0, keep_items-mount_objects at (suc i) mounts h.1) refl

mounts_of-encode :
    (mounts : List Mount)
    → AreNoBlanks mounts
    → mounts_of (if is_empty mounts then none else some (encode_mounts mounts))
      ≡ decoded (map written_mount mounts)
unfolding decode_mounts encode_mounts
mounts_of-encode [] h = refl
mounts_of-encode (m ∷ mounts) h =
    rw (keep_items-mount_objects (text "/mounts") 0 (m ∷ mounts) h) refl

-- Metadata whose commands have one form each and whose mounts are not blank.
pub record IsWritable (m : FeatureMetadata) : Type 0 where
  pub mounts : AreNoBlanks m.mounts
  pub on_create : IsPlain m.on_create_command.single m.on_create_command.parallel
  pub update_content : IsPlain m.update_content_command.single m.update_content_command.parallel
  pub post_create : IsPlain m.post_create_command.single m.post_create_command.parallel
  pub post_start : IsPlain m.post_start_command.single m.post_start_command.parallel
  pub post_attach : IsPlain m.post_attach_command.single m.post_attach_command.parallel

-- What a label keeps: not the texts and options that describe a feature, nor what it installs after,
-- nor what a mount or a requirement has beside its plain fields.
pub label_part : FeatureMetadata → FeatureMetadata
label_part m = record m {
  name = [];
  description = [];
  documentation_url = [];
  license_url = [];
  options = [];
  installs_after = [];
  mounts = map written_mount m.mounts;
  host_requirements = requested (host_request m.host_requirements);
  on_create_command = in_order m.on_create_command;
  update_content_command = in_order m.update_content_command;
  post_create_command = in_order m.post_create_command;
  post_start_command = in_order m.post_start_command;
  post_attach_command = in_order m.post_attach_command;
}

pub to_feature_metadata-from :
    (m : FeatureMetadata)
    → IsWritable m
    → to_feature_metadata (metadata_from_feature_metadata m) ≡ decoded (label_part m)
unfolding to_feature_metadata metadata_from_feature_metadata label_part
to_feature_metadata-from m w =
    rw
      (
        mounts_of-encode m.mounts w.mounts,
        decode_lifecycle_command-encode m.on_create_command w.on_create,
        decode_lifecycle_command-encode m.update_content_command w.update_content,
        decode_lifecycle_command-encode m.post_create_command w.post_create,
        decode_lifecycle_command-encode m.post_start_command w.post_start,
        decode_lifecycle_command-encode m.post_attach_command w.post_attach,
      )
      refl

and_read-eq_decoded {ℓ κ} :
    {A : Type ℓ} {B : Type κ} (r : Decoded A) (k : A → Decoded B) (b : B)
    → and_read r k ≡ decoded b
    → (a : A) × (r ≡ decoded a) × (k a ≡ decoded b)
and_read-eq_decoded (decoded a) k b e = (a, refl, e)
and_read-eq_decoded (refused x) k b e = cc

to_all-append :
    (xs ys : List Entry) (ms ns : List FeatureMetadata)
    → to_all xs ≡ decoded ms
    → to_all ys ≡ decoded ns
    → to_all (xs ++ ys) ≡ decoded (ms ++ ns)
unfolding to_all
to_all-append [] ys ms ns e f = let none_of : [] ≡ ms = cc in rw (← none_of) f
to_all-append (x ∷ xs) ys ms ns e f =
    let (m, first, e') = and_read-eq_decoded (to_feature_metadata x) _ ms e in
    let (rest, later, e'') = and_read-eq_decoded (to_all xs) (λ ms'. decoded (m ∷ ms')) ms e' in
    let same : m ∷ rest ≡ ms = cc in rw (first, to_all-append xs ys rest ns later f, ← same) refl

abbrev pub AreWritable : List FeatureMetadata → Type 0
AreWritable [] = Unit {0}
AreWritable (m ∷ ms) = IsWritable m × AreWritable ms

to_all-base :
    (ms : List FeatureMetadata)
    → AreWritable ms
    → to_all (map metadata_from_feature_metadata ms) ≡ decoded (map label_part ms)
unfolding to_all
to_all-base [] w = refl
to_all-base (m ∷ ms) w = rw (to_feature_metadata-from m w.0, to_all-base ms w.1) refl

-- The metadata of a feature that is installed now, with what it was resolved to.
abbrev pub installed_metadata : ResolvedFeature → FeatureMetadata
installed_metadata f = record f.metadata {
  resolved_ref = f.resolved_ref;
  depends_on = some (dependencies f.metadata);
}

installed-IsWritable :
    (f : ResolvedFeature) → IsWritable f.metadata → IsWritable (installed_metadata f)
installed-IsWritable f w = record {
  mounts = w.mounts;
  on_create = w.on_create;
  update_content = w.update_content;
  post_create = w.post_create;
  post_start = w.post_start;
  post_attach = w.post_attach;
}

abbrev pub new_features : List ResolvedFeature → List ResolvedFeature
new_features features = filter (λ f. not f.already_installed) features

to_all-features :
    (features : List ResolvedFeature)
    → AreWritable (map (λ f. f.metadata) features)
    → to_all (feature_entries features)
      ≡ decoded (map (λ f. label_part (installed_metadata f)) (new_features features))
unfolding to_all feature_entries filter metadata_from_feature_metadata
to_all-features [] w = refl
to_all-features (f ∷ features) w =
    let rest = to_all-features features w.1 in
    let own = to_feature_metadata-from (installed_metadata f) (installed-IsWritable f w.0) in
    elim (Bool-cases f.already_installed) [
      | inl old ↦ rw old rest
      | inr new ↦ rw (new, to_all) (rw (own, rest) refl)
    ]

-- A label is read back as it was written: the entries of the base image, those of the features that
-- the build installs, in order, and the users, each without what a label does not keep, where the
-- metadata has commands of one form each and no blank mounts.
pub parse_metadata_label-build :
    (plan : BuildPlan)
    → AreWritable plan.base_image_metadata
    → AreWritable (map (λ f. f.metadata) plan.features)
    → parse_metadata_label (entries_of (build_metadata_label plan))
      ≡ decoded (
          map label_part plan.base_image_metadata
          ++ (map (λ f. label_part (installed_metadata f)) (new_features plan.features)
              ++ record empty_metadata {
                remote_user = plan.remote_user;
                container_user = plan.container_user;
              }
                ∷ []))
unfolding parse_metadata_label build_metadata_label to_all to_feature_metadata decode_mounts
    decode_lifecycle_command
parse_metadata_label-build plan base features =
    to_all-append (map metadata_from_feature_metadata plan.base_image_metadata) _ _ _
      (to_all-base plan.base_image_metadata base)
      (to_all-append (feature_entries plan.features) _ _ _ (to_all-features plan.features features)
        refl)
