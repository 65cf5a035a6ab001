-- ===== src/Engine/Layering/Rooms.antt =====
-- What entries of the universe may still bring, and that a feature that is kept uses one up.
use devcontainer.Base.{
  ℕ, suc, ◌+◌, ◌≤◌, Bool, true, false, List, [], ◌∷◌, ◌++◌, Option, none, some, Text, ◌==◌, ==_refl,
  Map, any, if◌then◌else◌, ◌≡◌, refl, ap, arith, inl, inr,
}
use devcontainer.Config.Types.{Json, ResolvedFeature, FeatureSourceKind, dependencies}
use devcontainer.Feature.Graph.{JsonOps}
use devcontainer.Feature.Options.{Merged, merged, rejected, merge_options}
use devcontainer.Feature.Lockfile.{FeatureIntegrityError}
use devcontainer.Engine.Lock.{FeatureLock, pin}
use devcontainer.Engine.Layering.Request.{duplicate_feature, unfetched}
use devcontainer.Engine.Layering.{
  Store, FetchResult, Fetched, fetched, not_fetched, ref_to_fetch, fits,
}
use devcontainer.Engine.Layering.Costs.{Entry, IsIn, IsKnown, all_rooms}

duplicate_feature-append :
    (ops : JsonOps) (fs : List ResolvedFeature) (g f : ResolvedFeature)
    → duplicate_feature ops fs f ≡ true
    → duplicate_feature ops (fs ++ g ∷ []) f ≡ true
unfolding duplicate_feature any
duplicate_feature-append ops [] g f h = absurd (cc h)
duplicate_feature-append ops (k ∷ fs) g f h = ground (arith, h, duplicate_feature-append ops fs g f)

pub duplicate_feature_self :
    (ops : JsonOps) (fs : List ResolvedFeature) (f : ResolvedFeature)
    → (f.resolved_ref == []) ≡ false
    → ops.deep_equal f.options f.options ≡ true
    → duplicate_feature ops (fs ++ f ∷ []) f ≡ true
unfolding duplicate_feature any
duplicate_feature_self ops [] f h same = ground (arith, h, same, ==_refl f.resolved_ref)
duplicate_feature_self ops (k ∷ fs) f h same =
    ground (arith, duplicate_feature_self ops fs f h same)

module _ (universe : List Entry) (width : ℕ) {S : Type 0} (ops : JsonOps) (store : Store S)
    (lock : FeatureLock) (content : Text → FeatureSourceKind → FetchResult) where
  -- A store that gives each reference the same content at any time. What it gives has a resolved
  -- reference and asks for at most `width` entries of the universe, with features in a circle or not.
  pub record IsSteady : Type 0 where
    pub steady :
        (ref : Text) (kind : FeatureSourceKind) (w : S)
        → (store.fetch ref kind w).0 ≡ content ref kind
    pub pinned :
        (ref : Text) (kind : FeatureSourceKind) (got : Fetched)
        → content ref kind ≡ fetched got
        → (got.resolved_ref == []) ≡ false
    pub bounded :
        (ref : Text) (kind : FeatureSourceKind) (got : Fetched)
        → content ref kind ≡ fetched got
        → IsKnown universe width (dependencies got.metadata)
    pub same_as_itself : (opts : Map Json) → ops.deep_equal opts opts ≡ true

  -- The feature that fetching makes of one that is asked for, if it gives one.
  abbrev pub chosen : ResolvedFeature → Merged → Option ResolvedFeature
  chosen f (rejected unknown e) = none
  chosen f (merged options unknown) = some (record f { options = options })

  abbrev pub checked :
      Option FeatureIntegrityError → ResolvedFeature → Fetched → Option ResolvedFeature
  checked (some e) f got = none
  checked none f got =
      chosen (record f { dir = got.dir; resolved_ref = got.resolved_ref; metadata = got.metadata })
        (merge_options ops.sprint ops.same got.metadata f.options)

  abbrev pub found : ResolvedFeature → FetchResult → Option ResolvedFeature
  found f not_fetched = none
  found f (fetched got) = checked (fits ops store lock (pin lock f) f got) f got

  abbrev pub found_at : ResolvedFeature → Option Text → Option ResolvedFeature
  found_at f none = none
  found_at f (some ref) = found f (content ref f.source_kind)

  abbrev pub prepared : ResolvedFeature → Option ResolvedFeature
  prepared f = found_at f (ref_to_fetch ops store lock f (pin lock f))

  abbrev pub is_done_as : List ResolvedFeature → Option ResolvedFeature → Bool
  is_done_as done none = true
  is_done_as done (some f) = duplicate_feature ops done f

  -- Would the entry give nothing new?
  unfoldable pub settled : List ResolvedFeature → Entry → Bool
  settled done e = is_done_as done (prepared (unfetched e.0 e.1))

  settled-append :
      (done : List ResolvedFeature) (g : ResolvedFeature) (e : Entry)
      → settled done e ≡ true
      → settled (done ++ g ∷ []) e ≡ true
  unfolding settled
  settled-append done g e =
      elim (prepared (unfetched e.0 e.1))
        as (λ r. is_done_as done r ≡ true → is_done_as (done ++ g ∷ []) r ≡ true) [
          | none ↦ λ h. refl
          | some f ↦ duplicate_feature-append ops done g f
        ]

  -- The rounds that the entries of the universe may still bring.
  pub rooms : List Entry → List ResolvedFeature → ℕ
  rooms [] done = 0
  rooms (e ∷ es) done = (if settled done e then 0 else suc width) + rooms es done

  pub rooms-append-le :
      (es : List Entry) (done : List ResolvedFeature) (g : ResolvedFeature)
      → rooms es (done ++ g ∷ []) ≤ rooms es done
  unfolding rooms
  rooms-append-le [] done g = omega arith
  rooms-append-le (e ∷ es) done g =
      ground (arith, settled-append done g e, rooms-append-le es done g)

  pub rooms-append-lt :
      (es : List Entry) (e : Entry) (done : List ResolvedFeature) (g : ResolvedFeature)
      → IsIn e es
      → settled done e ≡ false
      → settled (done ++ g ∷ []) e ≡ true
      → rooms es (done ++ g ∷ []) + suc width ≤ rooms es done
  unfolding rooms IsIn
  rooms-append-lt [] e done g h before after = absurd h
  rooms-append-lt (k ∷ es) e done g (inl same) before after = ground (
    arith,
    ap (settled done) same,
    ap (settled (done ++ g ∷ [])) same,
    before,
    after,
    rooms-append-le es done g,
  )
  rooms-append-lt (k ∷ es) e done g (inr later) before after =
      ground (arith, settled-append done g k, rooms-append-lt es e done g later before after)

  pub rooms-le-all_rooms :
      (es : List Entry) (done : List ResolvedFeature) → rooms es done ≤ all_rooms universe width es
  unfolding rooms all_rooms
  rooms-le-all_rooms [] done = omega arith
  rooms-le-all_rooms (e ∷ es) done = ground (arith, rooms-le-all_rooms es done)
