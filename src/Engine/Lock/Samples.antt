-- ===== src/Engine/Lock/Samples.antt =====
-- A lockfile and a feature of the base image, and the theorems about the lock applied to them.
use devcontainer.Base.{false, [], ◌∷◌, some, Text, text, lookup, ◌==◌, ◌≡◌, ◌↔◌, refl}
use devcontainer.Config.Types.{FeatureMetadata, oci}
use devcontainer.Config.Merge.Samples.{empty_layer}
use devcontainer.Feature.Lockfile.{integrity_of, check_integrity}
use devcontainer.Feature.Order.{cut_last}
use devcontainer.Feature.Lockfile.Samples.{locked_at, feature, old}
use devcontainer.Engine.Lock.{
  FeatureLock, lockfile_frozen, is_upgrade, nothing_to_do, commit, collect_entries, accepts_baked,
  entry_for, pin,
}
use devcontainer.Engine.Lock.Baked.{accepts_baked-integrity}
use devcontainer.Engine.Lock.Commits.{commit_iff}

abbrev frozen : FeatureLock
frozen = record { mode = lockfile_frozen; existing = some old }

abbrev baked : FeatureMetadata
baked = record empty_layer { resolved_ref = text "r/git@sha256:1" }

commit_iff_example : (commit frozen (feature (text "git:1") ∷ []) ≡ nothing_to_do) ↔ (
    (k : Text)
    → lookup k (collect_entries frozen [] (feature (text "git:1") ∷ [])) ≡ lookup k old.features)
commit_iff_example = commit_iff frozen old (feature (text "git:1") ∷ []) refl refl

accepts_baked-integrity_example :
    (is_upgrade frozen.mode ≡ false)
    × ((baked.resolved_ref == []) ≡ false)
    × (text "sha256:1" ≡ integrity_of oci (text "r/git@sha256:1"))
unfolding accepts_baked ◌==◌ pin lookup check_integrity integrity_of cut_last entry_for
accepts_baked-integrity_example =
    accepts_baked-integrity frozen (feature (text "git:1")) baked (locked_at (text "sha256:1")) refl
      refl refl refl refl
