-- ===== src/Engine/Layering.antt =====
-- up.go, the features of a build: which ones the base image has, fetching the others with what they
-- depend on, and the order in which they are installed (layerFeatures up to its build plan). The
-- feature store and the links of the file system are parameters.
pub mod Request
mod Gathered
pub mod Wanted
mod Costs
mod Rooms
pub mod Features
pub mod Closed
pub mod Ends
mod Samples
use devcontainer.Base.{
  ℕ, zero, suc, Bool, true, false, not, ◌&&◌, ◌||◌, List, [], ◌∷◌, ◌++◌, map, Option, none, some,
  Text, text, ◌==◌, Map, is_empty, any, if◌then◌else◌,
}
use devcontainer.Config.Types.{
  Json, ResolvedFeature, FeatureMetadata, FeatureSourceKind, dependencies, Warning,
  unknown_feature_option,
}
use devcontainer.Feature.Options.{Merged, OptionError, merged, rejected, merge_options}
use devcontainer.Feature.Lockfile.{
  LockedFeature, FeatureIntegrityError, pinned_ref, check_integrity,
}
use devcontainer.Feature.Graph.{JsonOps, Installation}
use devcontainer.Feature.Install.{order_features}
use devcontainer.Engine.Lock.{
  FeatureLock, LockfileMode, ReadOutcome, Loaded, loaded, missing_lockfile, read_error, Commit,
  nothing_to_do, mismatch, write, CommitOutcome, pin, is_local, commit, commit_no_features,
  load_feature_lock,
}
use devcontainer.Engine.Layering.Request.{
  LayerError, fetch_failed, no_pinned_ref, not_intact, bad_options, depends_on_unread, Dependencies,
  wanted, forbidden, dependencies_of, duplicate_feature, is_oci, mark_already_installed,
}

pub record Fetched : Type 0 where
  pub dir : Text
  pub resolved_ref : Text
  pub metadata : FeatureMetadata

-- A fetch gives a feature, or fails.
pub data FetchResult : Type 0 where
  fetched : Fetched → FetchResult
  not_fetched : FetchResult

pub data FeatureEvent : Type 0 where
  skipped : (ref : Text) → FeatureEvent
  resolve_start : (ref : Text) → FeatureEvent
  resolved : (ref digest : Text) → FeatureEvent

-- The variables of the loop: what is done, and the rest beside it. `features` of the code is both.
pub record Layers (S : Type 0) : Type 0 where
  pub done : List ResolvedFeature
  pub aliases : List ResolvedFeature
  pub warnings : List Warning
  pub events : List FeatureEvent
  pub world : S

-- One round fails, or leaves the rest and the other variables.
pub data Round (S : Type 0) : Type 0 where
  stopped : LayerError → Round S
  went_on : List ResolvedFeature → Layers S → Round S

pub data Laid (S : Type 0) : Type 0 where
  laid : Layers S → Laid S
  not_laid : LayerError → Laid S
  out_of_fuel : Laid S

abbrev pub emit_feature : {S : Type 0} → FeatureEvent → Layers S → Layers S
emit_feature e s = record s { events = s.events ++ e ∷ [] }

-- The feature store, the repository that an OCI reference names, the folder of local features, and
-- whether a local dependency lies inside it; and the verb %q of the standard library.
pub record Store (S : Type 0) : Type 0 where
  pub fetch : (ref : Text) → FeatureSourceKind → S → FetchResult × S
  pub repository : Text → Option Text
  pub resolve_local : Text → Text
  pub lies_inside : Text → Bool
  pub quoted : Text → Text

module _ {S : Type 0} (ops : JsonOps) (store : Store S) (lock : FeatureLock) where
  abbrev pub local_ref : ResolvedFeature → Text
  local_ref f = if is_local f.source_kind then store.resolve_local f.ref else f.ref

  -- The reference that is fetched; `none` where the pin gives none.
  pub ref_to_fetch : ResolvedFeature → Option LockedFeature → Option Text
  ref_to_fetch f none = some (local_ref f)
  ref_to_fetch f (some e) = pinned_ref store.repository f e

  -- A feature that is done, with its dependencies behind the rest.
  abbrev pub with_dependencies :
      ResolvedFeature → List ResolvedFeature → Layers S → Dependencies → Round S
  with_dependencies f rest s (forbidden e) = stopped e
  with_dependencies f rest s (wanted deps) =
      went_on (rest ++ deps) (record s { done = s.done ++ f ∷ [] })

  pub add_dependencies : ResolvedFeature → List ResolvedFeature → Layers S → Round S
  add_dependencies f rest s =
      with_dependencies f rest s (dependencies_of ops store.lies_inside (s.done ++ (f ∷ rest)) f)

  -- `bakedDependsOn`: the artifact that the image carries is read again.
  abbrev pub baked_ref : ResolvedFeature → Text
  baked_ref f = if not (f.resolved_ref == []) && is_oci f.source_kind then f.resolved_ref else f.ref

  abbrev pub with_known :
      ResolvedFeature → List ResolvedFeature → Layers S → FetchResult × S → Round S
  with_known f rest s (not_fetched, w) = stopped (depends_on_unread f.ref)
  with_known f rest s (fetched got, w) =
      add_dependencies
        (record f {
          metadata = record f.metadata { depends_on = some (dependencies got.metadata) };
        })
        rest (record s { world = w })

  abbrev pub baked_round_of :
      Option (Map (Map Json)) → ResolvedFeature → List ResolvedFeature → Layers S → Round S
  baked_round_of (some deps) f rest s = add_dependencies f rest s
  baked_round_of none f rest s =
      with_known f rest s (store.fetch (baked_ref f) f.source_kind s.world)

  -- A feature of the base image: its dependencies must be known.
  pub baked_round : ResolvedFeature → List ResolvedFeature → Layers S → Round S
  baked_round f rest s = baked_round_of f.metadata.depends_on f rest s

  -- The same content with the same options is one feature.
  pub keep_or_drop : ResolvedFeature → List ResolvedFeature → Layers S → Round S
  keep_or_drop f rest s =
      if duplicate_feature ops s.done f
      then went_on rest (record s { aliases = s.aliases ++ f ∷ [] })
      else add_dependencies f rest s

  -- The warning of MergeOptions about an option that the feature does not declare.
  abbrev pub option_warning : FeatureMetadata → Text → Warning
  option_warning meta name = record {
    warning_code = unknown_feature_option;
    message =
        text "feature "
        ++ store.quoted meta.id
        ++ text ": option "
        ++ store.quoted name
        ++ text " is not declared in devcontainer-feature.json";
    path = [];
    source = [];
  }

  abbrev pub with_options : ResolvedFeature → List ResolvedFeature → Layers S → Merged → Round S
  with_options f rest s (rejected unknown e) = stopped (bad_options f.ref e)
  with_options f rest s (merged options unknown) =
      keep_or_drop (record f { options = options }) rest
        (record s { warnings = s.warnings ++ map (option_warning f.metadata) unknown })

  abbrev pub if_intact :
      Option FeatureIntegrityError
      → ResolvedFeature
      → Fetched
      → List ResolvedFeature
      → Layers S
      → Round S
  if_intact (some e) f got rest s = stopped (not_intact e)
  if_intact none f got rest s =
      let f' = record f {
        dir = got.dir;
        resolved_ref = got.resolved_ref;
        metadata = got.metadata;
      } in
      with_options f' rest (emit_feature (resolved f.ref got.resolved_ref) s)
        (merge_options ops.sprint ops.same got.metadata f.options)

  abbrev pub fits : Option LockedFeature → ResolvedFeature → Fetched → Option FeatureIntegrityError
  fits none f got = none
  fits (some e) f got = check_integrity f got.resolved_ref e

  abbrev pub with_fetched :
      Option LockedFeature
      → ResolvedFeature
      → List ResolvedFeature
      → Layers S
      → FetchResult × S
      → Round S
  with_fetched pinned f rest s (not_fetched, w) = stopped (fetch_failed f.ref)
  with_fetched pinned f rest s (fetched got, w) =
      if_intact (fits pinned f got) f got rest (record s { world = w })

  abbrev pub fetch_at :
      Option Text
      → Option LockedFeature
      → ResolvedFeature
      → List ResolvedFeature
      → Layers S
      → Round S
  fetch_at none pinned f rest s = stopped (no_pinned_ref f.ref)
  fetch_at (some ref) pinned f rest s =
      with_fetched pinned f rest (emit_feature (resolve_start f.ref) s)
        (store.fetch ref f.source_kind s.world)

  pub fetch_round : ResolvedFeature → List ResolvedFeature → Layers S → Round S
  fetch_round f rest s = fetch_at (ref_to_fetch f (pin lock f)) (pin lock f) f rest s

  -- The body of the loop.
  pub layer_round : ResolvedFeature → List ResolvedFeature → Layers S → Round S
  layer_round f rest s =
      if f.already_installed
      then baked_round f rest s
      else if not (f.dir == [])
      then went_on rest (record s { done = s.done ++ f ∷ [] })
      else fetch_round f rest s

  pub layer_loop : ℕ → List ResolvedFeature → Layers S → Laid S
  layer_loop fuel [] s = laid s
  layer_loop zero (f ∷ rest) s = out_of_fuel
  layer_loop (suc fuel) (f ∷ rest) s = elim (layer_round f rest s) [
    | stopped e ↦ not_laid e
    | went_on rest' s' ↦ layer_loop fuel rest' s'
  ]

pub skipped_events : List ResolvedFeature → List FeatureEvent
skipped_events [] = []
skipped_events (f ∷ fs) =
    let later = skipped_events fs in if f.already_installed then skipped f.ref ∷ later else later

abbrev pub initial_layers : {S : Type 0} → List ResolvedFeature → S → Layers S
initial_layers fs w = record {
  done = [];
  aliases = [];
  warnings = [];
  events = skipped_events fs;
  world = w;
}
