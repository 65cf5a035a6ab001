-- ===== src/Engine/Layering/Features.antt =====
-- up.go, layerFeatures: the lockfile, the marks of the base image, the loop, and what is left to build.
use devcontainer.Base.{ℕ, Bool, List, [], ◌++◌, Text, is_empty, if◌then◌else◌}
use devcontainer.Config.Types.{ResolvedFeature, FeatureMetadata}
use devcontainer.Feature.Graph.{JsonOps, Installation}
use devcontainer.Feature.Install.{order_features}
use devcontainer.Engine.Lock.{
  FeatureLock, LockfileMode, ReadOutcome, Loaded, loaded, missing_lockfile, read_error, Commit,
  nothing_to_do, mismatch, write, CommitOutcome, commit, commit_no_features, load_feature_lock,
}
use devcontainer.Engine.Layering.Request.{LayerError, mark_already_installed}
use devcontainer.Engine.Layering.{
  Layers, Laid, laid, not_laid, out_of_fuel, Store, layer_loop, initial_layers,
}

-- What is known when the build plan is made: the order of the features (or that they have none),
-- what the lockfile gets and the variables of the loop; or how it failed before.
pub data Layered (S : Type 0) : Type 0 where
  no_features : CommitOutcome → Layered S
  lock_missing : Layered S
  lock_unread : (cause : Text) → Layered S
  layer_failed : LayerError → Layered S
  lock_differs : List Text → Layered S
  layered : Installation → Commit → Layers S → Layered S
  never_done : Layered S

module _ {S : Type 0} (ops : JsonOps) (store : Store S) where
  abbrev pub with_commit : Layers S → Commit → Layered S
  with_commit s nothing_to_do = layered (order_features ops s.done []) nothing_to_do s
  with_commit s (write next) = layered (order_features ops s.done []) (write next) s
  with_commit s (mismatch refs) = lock_differs refs

  abbrev pub with_laid : FeatureLock → Laid S → Layered S
  with_laid lock (laid s) = with_commit s (commit lock (s.done ++ s.aliases))
  with_laid lock (not_laid e) = layer_failed e
  with_laid lock out_of_fuel = never_done

  module _ (fuel : ℕ) (strict : Bool) (baked : List FeatureMetadata)
      (features : List ResolvedFeature) where
    pub layer_all : FeatureLock → S → Layered S
    layer_all lock w =
        let marked = mark_already_installed lock strict baked features in
        with_laid lock (layer_loop ops store lock fuel marked (initial_layers marked w))

    abbrev pub with_lock : S → Loaded → Layered S
    with_lock w (loaded lock) = layer_all lock w
    with_lock w missing_lockfile = lock_missing
    with_lock w (read_error cause) = lock_unread cause

    pub layer_features : LockfileMode → ReadOutcome → S → Layered S
    layer_features mode outcome w =
        if is_empty features
        then no_features (commit_no_features mode outcome)
        else with_lock w (load_feature_lock mode outcome)
