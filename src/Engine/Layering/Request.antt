-- ===== src/Engine/Layering/Request.antt =====
-- up.go, one feature: whether the base image has it, what it depends on, and whether another one is
-- the same.
use devcontainer.Base.{
  Bool, true, false, not, ◌&&◌, ◌||◌, List, [], ◌∷◌, ◌++◌, Option, none, some, Text, text, ◌==◌,
  text_ltb, Map, lookup, any, sort_by, if◌then◌else◌,
}
use devcontainer.Config.Types.{
  Json, str, ResolvedFeature, FeatureMetadata, dependencies, FeatureSourceKind, oci, https,
  local_dir,
}
use devcontainer.Feature.Order.{cut_last, has_prefix, normalize_id}
use devcontainer.Feature.Match.{MatchMode, match_permissive, match_strict, matches}
use devcontainer.Feature.Options.{OptionError}
use devcontainer.Feature.Lockfile.{FeatureIntegrityError}
use devcontainer.Feature.Graph.{JsonOps, same_options}
use devcontainer.Feature.Label.{empty_metadata}
use devcontainer.Engine.Lock.{FeatureLock, accepts_baked, is_local}

pub data LayerError : Type 0 where
  fetch_failed no_pinned_ref depends_on_unread : (ref : Text) → LayerError
  not_intact : FeatureIntegrityError → LayerError
  bad_options : (ref : Text) → OptionError → LayerError
  local_dependency_of_published absolute_dependency dependency_outside :
      (ref key : Text) → LayerError

-- config.ClassifyFeatureRef
unfoldable pub classify_feature_ref : Text → FeatureSourceKind
classify_feature_ref ref =
    if has_prefix (text "./") ref || (has_prefix (text "../") ref || has_prefix (text "/") ref)
    then local_dir
    else if has_prefix (text "https://") ref || has_prefix (text "http://") ref
    then https
    else oci

abbrev pub is_oci : FeatureSourceKind → Bool
is_oci oci = true
is_oci _ = false

-- The segment behind the last `/`, without tag and digest.
unfoldable pub oci_ref_bare_id : Text → Text
oci_ref_bare_id ref = elim (cut_last b'/' (normalize_id ref)) [
  | none ↦ normalize_id ref
  | some (pre, post) ↦ post
]

abbrev pub text_or_empty : Option Json → Text
text_or_empty (some (str s)) = s
text_or_empty _ = []

pub option_version_string : Map Json → Text
option_version_string options = text_or_empty (lookup (text "version") options)

-- A feature that nothing is known of but its reference and the options asked for.
abbrev pub unfetched : Text → Map Json → ResolvedFeature
unfetched key opts = record {
  ref = key;
  resolved_ref = [];
  dir = [];
  metadata = empty_metadata;
  options = opts;
  source_kind = classify_feature_ref key;
  already_installed = false;
}

module _ (lock : FeatureLock) (strict : Bool) (baked : List FeatureMetadata) where
  abbrev pub asked : ResolvedFeature → FeatureMetadata
  asked f = record empty_metadata {
    id = oci_ref_bare_id f.ref;
    version = option_version_string f.options;
  }

  abbrev pub match_mode : MatchMode
  match_mode = if strict then match_strict else match_permissive

  pub first_accepted : ResolvedFeature → List FeatureMetadata → Option FeatureMetadata
  first_accepted f [] = none
  first_accepted f (b ∷ bs) =
      let later = first_accepted f bs in
      if matches b (asked f) match_mode && accepts_baked lock f b then some b else later

  -- The entry of the base image's label that satisfies `f`.
  pub baked_feature : ResolvedFeature → Option FeatureMetadata
  baked_feature f =
      if not (is_oci f.source_kind) || (oci_ref_bare_id f.ref == [])
      then none
      else first_accepted f baked

  abbrev pub mark_with : ResolvedFeature → Option FeatureMetadata → ResolvedFeature
  mark_with f none = f
  mark_with f (some meta) = record f {
    already_installed = true;
    metadata = meta;
    resolved_ref = meta.resolved_ref;
  }

  pub mark : ResolvedFeature → ResolvedFeature
  mark f = if f.already_installed then f else mark_with f (baked_feature f)

  pub mark_already_installed : List ResolvedFeature → List ResolvedFeature
  mark_already_installed [] = []
  mark_already_installed (f ∷ features) = mark f ∷ mark_already_installed features

pub data Dependencies : Type 0 where
  wanted : List ResolvedFeature → Dependencies
  forbidden : LayerError → Dependencies

module _ (ops : JsonOps) where
  -- The same reference with the same options.
  unfoldable pub requested : List ResolvedFeature → Text → Map Json → Bool
  requested features key opts = any (λ g. (g.ref == key) && same_options ops g opts) features

  unfoldable pub duplicate_feature : List ResolvedFeature → ResolvedFeature → Bool
  duplicate_feature earlier f =
      any
        (λ g.
          not (g.resolved_ref == [])
          && ((g.resolved_ref == f.resolved_ref) && ops.deep_equal g.options f.options))
        earlier

  -- The path is resolved by the file system.
  unfoldable pub check_local_dependency :
      (lies_inside : Text → Bool) → ResolvedFeature → Text → Option LayerError
  check_local_dependency lies_inside f key =
      if not (is_local f.source_kind)
      then some (local_dependency_of_published f.ref key)
      else if has_prefix (text "/") key
      then some (absolute_dependency f.ref key)
      else if not (lies_inside key)
      then some (dependency_outside f.ref key)
      else none

  abbrev pub check_dependency :
      (lies_inside : Text → Bool) → ResolvedFeature → Text → Option LayerError
  check_dependency lies_inside f key =
      if is_local (classify_feature_ref key) then check_local_dependency lies_inside f key else none

  module _ (lies_inside : Text → Bool) (features : List ResolvedFeature) (f : ResolvedFeature) where
    -- The loop over the sorted keys, with what it has gathered so far.
    unfoldable pub gather : List ResolvedFeature → Map (Map Json) → Dependencies
    gather out [] = wanted out
    gather out ((key, opts) ∷ entries) =
        elim (requested features key opts || requested out key opts) [
          | true ↦ gather out entries
          | false ↦ elim (check_dependency lies_inside f key) [
            | some e ↦ forbidden e
            | none ↦ gather (out ++ unfetched key opts ∷ []) entries
          ]
        ]

    -- `dependencies`
    unfoldable pub dependencies_of : Dependencies
    dependencies_of = gather [] (sort_by (λ a b. text_ltb a.0 b.0) (dependencies f.metadata))
