-- ===== src/Feature/Lockfile/Samples.antt =====
-- Lockfiles and a pinned feature, and the theorems about them applied.
use devcontainer.Base.{
  Bool, true, false, List, [], ◌∷◌, ◌++◌, Option, none, some, Text, text, contains, lookup,
  IsSorted, HasDistinctKeys, ◌≡◌, ◌↔◌, refl,
}
use devcontainer.Config.Types.{ResolvedFeature, FeatureSourceKind}
use devcontainer.Config.Merge.Samples.{empty_layer}
use devcontainer.Feature.Lockfile.{
  LockedFeature, Lockfile, entry, changed, equal, pinned_ref, pinned_as, check_integrity, differing,
  added, entry_equal,
}
use devcontainer.Feature.Lockfile.Changes.{changed_lem, equal_iff}
use devcontainer.Feature.Lockfile.Pins.{check_integrity-pinned_ref}

abbrev pub locked_at : Text → LockedFeature
locked_at digest = record {
  version = text "1.0.0";
  resolved = text "r/git@" ++ digest;
  integrity = digest;
  depends_on = none;
}

abbrev pub feature : Text → ResolvedFeature
feature ref = record {
  ref = ref;
  resolved_ref = text "r/git@sha256:1";
  dir = [];
  metadata = empty_layer;
  options = [];
  source_kind = FeatureSourceKind.oci;
  already_installed = true;
}

abbrev pub old : Lockfile
old = record { features = (text "git:1", locked_at (text "sha256:1")) ∷ [] }

abbrev new : Lockfile
new = record {
  features =
      (text "git:1", locked_at (text "sha256:2")) ∷ (text "go:1", locked_at (text "sha256:3")) ∷ [];
}

-- A feature that is pinned anew, and one that is added.
changed_both : changed (some new) (some old) ≡ text "git:1" ∷ text "go:1" ∷ []
unfolding changed devcontainer.Base.sort differing lookup devcontainer.Base.◌==◌ entry_equal added
    devcontainer.Base.text_ltb
changed_both = refl

changed_lem_example :
    IsSorted (changed (some new) (some old))
    × ((k : Text)
        → (contains (changed (some new) (some old)) k ≡ false)
          ↔ (entry (some new) k ≡ entry (some old) k))
unfolding contains devcontainer.Base.◌==◌
changed_lem_example = changed_lem (some new) (some old) (refl, (refl, tt))

equal_iff_example :
    (equal (some new) (some old) ≡ true)
    ↔ ((k : Text) → lookup k new.features ≡ lookup k old.features)
unfolding contains devcontainer.Base.◌==◌
equal_iff_example = equal_iff new old (refl, (refl, tt))

check_integrity-pinned_ref_example :
    check_integrity (feature (text "R/git:1")) (text "r/git@sha256:1") (locked_at (text "sha256:1"))
    ≡ none
unfolding pinned_ref devcontainer.Base.any pinned_as
check_integrity-pinned_ref_example =
    check_integrity-pinned_ref (λ ref. some (text "r/git")) (feature (text "R/git:1"))
      (locked_at (text "sha256:1")) (text "r/git@sha256:1") refl refl refl
