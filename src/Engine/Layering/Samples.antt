-- ===== src/Engine/Layering/Samples.antt =====
-- Two features that depend on one another, and the theorems about the loop applied to them.
use devcontainer.Base.{
  ℕ, suc, Bool, true, false, ◌||◌, List, [], ◌∷◌, map, none, some, Text, text, ◌==◌, ◌≡◌, refl,
  arith, lookup, sort_by, sort_from, insert_by, any, inl, inr, all, ◌⊎◌, subst,
}
use devcontainer.Config.Types.{
  ResolvedFeature, FeatureMetadata, FeatureSourceKind, oci, https, local_dir, dependencies,
}
use devcontainer.Feature.Graph.{JsonOps, same_options}
use devcontainer.Feature.Options.{merge_options, overlay, put_defaults}
use devcontainer.Feature.Order.{
  has_prefix, normalize_id, strip_tag, strip_digest, cut_last, has_scheme,
}
use devcontainer.Feature.Label.{empty_metadata}
use devcontainer.Engine.Lock.{FeatureLock, lockfile_default, pin}
use devcontainer.Engine.Layering.Request.{
  LayerError, oci_ref_bare_id, unfetched, dependencies_of, gather, requested, classify_feature_ref,
  duplicate_feature, check_local_dependency,
}
use devcontainer.Engine.Layering.Gathered.{has_copy, has_ref, covered}
use devcontainer.Engine.Layering.{
  Store, FetchResult, Fetched, fetched, not_fetched, Layers, laid, Laid, not_laid, out_of_fuel,
  layer_loop, initial_layers, layer_round, fetch_round, keep_or_drop, add_dependencies,
  ref_to_fetch,
}
use devcontainer.Engine.Layering.Costs.{
  Entry, IsIn, AreIn, IsKnown, is_asked, ArePending, weights, all_rooms,
}
use devcontainer.Engine.Layering.Rooms.{IsSteady}
use devcontainer.Engine.Layering.Ends.{layer_loop-finishes}
use devcontainer.Engine.Layering.Closed.{layer_loop-covered}

abbrev ops : JsonOps
ops = record { sprint = λ v. []; same = λ v w. true; deep_equal = λ v w. true; marshal = λ m. [] }

abbrev no_lock : FeatureLock
no_lock = record { mode = lockfile_default; existing = none }

abbrev a : Text
a = text "./a"

abbrev b : Text
b = text "./b"

abbrev metadata_if : Bool → FeatureMetadata
metadata_if true = record empty_metadata { depends_on = some ((b, []) ∷ []) }
metadata_if false = record empty_metadata { depends_on = some ((a, []) ∷ []) }

abbrev metadata_of : Text → FeatureMetadata
metadata_of ref = metadata_if (ref == a)

abbrev size_if : Bool → ℕ
size_if true = 1
size_if false = 0

abbrev read_local : Text → FeatureSourceKind → ℕ → FetchResult × ℕ
read_local ref local_dir w =
    (fetched (record { dir = ref; resolved_ref = 47 ∷ ref; metadata = metadata_of ref }), suc w)
read_local ref oci w = (not_fetched, w)
read_local ref https w = (not_fetched, w)

abbrev store : Store ℕ
store = record {
  fetch = read_local;
  repository = λ ref. none;
  resolve_local = λ ref. ref;
  lies_inside = λ key. true;
  quoted = λ s. s;
}

abbrev features : List ResolvedFeature
features = unfetched a [] ∷ []

abbrev universe : List Entry
universe = (a, []) ∷ ((b, []) ∷ [])

abbrev content : Text → FeatureSourceKind → FetchResult
content ref kind = (read_local ref kind 0).0

steady :
    (ref : Text) (kind : FeatureSourceKind) (w : ℕ) → (read_local ref kind w).0 ≡ content ref kind
steady ref local_dir w = refl
steady ref oci w = refl
steady ref https w = refl

pinned :
    (ref : Text) (kind : FeatureSourceKind) (got : Fetched)
    → content ref kind ≡ fetched got
    → (got.resolved_ref == []) ≡ false
unfolding ◌==◌
pinned ref local_dir got e =
    let same : 47 ∷ ref ≡ got.resolved_ref = cc e in subst (λ r. (r == []) ≡ false) same refl
pinned ref oci got e = absurd (cc e)
pinned ref https got e = absurd (cc e)

metadata_if-IsKnown : (c : Bool) → IsKnown universe 1 (dependencies (metadata_if c))
unfolding IsIn AreIn
metadata_if-IsKnown true = ((inr (inl refl), tt), omega arith)
metadata_if-IsKnown false = ((inl refl, tt), omega arith)

bounded :
    (ref : Text) (kind : FeatureSourceKind) (got : Fetched)
    → content ref kind ≡ fetched got
    → IsKnown universe 1 (dependencies got.metadata)
bounded ref local_dir got e =
    let same : metadata_of ref ≡ got.metadata = cc e in
    subst (λ m. IsKnown universe 1 (dependencies m)) same (metadata_if-IsKnown (ref == a))
bounded ref oci got e = absurd (cc e)
bounded ref https got e = absurd (cc e)

circle : IsSteady universe 1 ops store no_lock content
circle = record {
  steady = steady;
  pinned = pinned;
  bounded = bounded;
  same_as_itself = λ opts. refl;
}

layer_loop-finishes_example :
    ((t : Layers ℕ) × (layer_loop ops store no_lock 5 features (initial_layers features 0)
        ≡ laid t))
    ⊎ ((e : LayerError) × (layer_loop ops store no_lock 5 features (initial_layers features 0)
          ≡ not_laid e))
unfolding IsIn ArePending weights all_rooms
layer_loop-finishes_example =
    layer_loop-finishes universe 1 ops store no_lock content circle 5 features
      (initial_layers features 0) (is_asked (a, []) (inl refl), tt) (omega arith)

abbrev layers_of : Laid ℕ → Layers ℕ
layers_of (laid t) = t
layers_of (not_laid e) = initial_layers [] 0
layers_of out_of_fuel = initial_layers [] 0

abbrev outcome : Laid ℕ
outcome = layer_loop ops store no_lock 2 features (initial_layers features 0)

abbrev final : Layers ℕ
final = layers_of outcome

outcome_lem : outcome ≡ laid final
unfolding layer_loop layer_round fetch_round ref_to_fetch pin keep_or_drop add_dependencies
    dependencies_of gather requested same_options merge_options overlay put_defaults
    classify_feature_ref duplicate_feature check_local_dependency has_prefix lookup sort_by
    sort_from insert_by any ◌==◌
outcome_lem = refl

both_fetched : map (λ f. f.ref) final.done ≡ a ∷ b ∷ []
unfolding layer_loop layer_round fetch_round ref_to_fetch pin keep_or_drop add_dependencies
    dependencies_of gather requested same_options merge_options overlay put_defaults
    classify_feature_ref duplicate_feature check_local_dependency has_prefix lookup sort_by
    sort_from insert_by any ◌==◌
both_fetched = refl

layer_loop-covered_example :
    (all (covered (λ key. has_ref key final.done || has_ref key final.aliases)) final.done ≡ true)
    × (all (has_copy ops final.done) final.aliases ≡ true)
unfolding all ◌==◌
layer_loop-covered_example =
    layer_loop-covered ops store no_lock 2 features 0 final refl outcome_lem

-- A registry's port is taken for a tag.
oci_ref_bare_id-port : oci_ref_bare_id (text "localhost:5000/a/git") ≡ text "localhost"
unfolding oci_ref_bare_id normalize_id strip_tag strip_digest cut_last has_scheme has_prefix
oci_ref_bare_id-port = refl

-- `./a` depends on `./b`.
abbrev with_b : ResolvedFeature
with_b = record (unfetched a []) { metadata = metadata_of a }
