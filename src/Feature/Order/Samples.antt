-- ===== src/Feature/Order/Samples.antt =====
-- References and orders, and the theorems about them applied.
use Prim.Native.String.{String}
use devcontainer.Base.{false, List, [], ◌∷◌, text, ◌==◌, any, filter, ◌≡◌, refl}
use devcontainer.Config.Types.{ResolvedFeature, FeatureSourceKind}
use devcontainer.Config.Merge.Samples.{empty_layer}
use devcontainer.Feature.Order.{
  cut_last, has_scheme, has_prefix, strip_digest, strip_tag, normalize_id, same_id,
  split_by_override,
}

abbrev feature : String → ResolvedFeature
feature ref = record {
  ref = text ref;
  resolved_ref = [];
  dir = [];
  metadata = empty_layer;
  options = [];
  source_kind = FeatureSourceKind.oci;
  already_installed = false;
}

abbrev features : List ResolvedFeature
features = feature "a/git:1" ∷ feature "a/node:2" ∷ feature "a/go" ∷ []

-- The entry without a tag names the feature with one.
split_by_override_node :
    (split_by_override features (text "a/node" ∷ [])).0 ≡ feature "a/node:2" ∷ []
unfolding split_by_override same_id normalize_id strip_digest strip_tag cut_last has_scheme
    has_prefix filter any ◌==◌
split_by_override_node = refl

-- Every HTTPS reference without a port normalizes to its scheme.
normalize_id_https : normalize_id (text "https://example.com/f.tgz") ≡ text "https"
unfolding normalize_id strip_digest strip_tag cut_last has_scheme has_prefix
normalize_id_https = refl

-- A registry's port counts as a tag where there is no tag.
normalize_id_port : normalize_id (text "localhost:5000/git") ≡ text "localhost"
unfolding normalize_id strip_digest strip_tag cut_last has_scheme has_prefix
normalize_id_port = refl
