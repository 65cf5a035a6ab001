-- ===== src/Engine/Layering/Closed.antt =====
-- What the loop that fetches features leaves: each feature with what it depends on.
use devcontainer.Base.{
  ℕ, zero, suc, Bool, true, not, ◌||◌, List, [], ◌∷◌, ◌++◌, Option, none, some, Text, ◌==◌, Map,
  text_ltb, sort_by, any, all, all-append, ◌≡◌, refl, subst, arith, if_ind,
}
use devcontainer.Config.Types.{Json, ResolvedFeature, dependencies}
use devcontainer.Feature.Graph.{JsonOps}
use devcontainer.Feature.Options.{Merged, merged, rejected}
use devcontainer.Feature.Lockfile.{LockedFeature, FeatureIntegrityError}
use devcontainer.Engine.Lock.{FeatureLock, pin}
use devcontainer.Engine.Layering.Request.{
  Dependencies, wanted, forbidden, duplicate_feature, gather, dependencies_of,
}
use devcontainer.Engine.Layering.{
  Store, Layers, Round, stopped, went_on, laid, emit_feature, resolve_start, resolved, Fetched,
  FetchResult, fetched, not_fetched, add_dependencies, with_dependencies, with_known,
  baked_round_of, baked_round, keep_or_drop, with_options, if_intact, with_fetched, fits, fetch_at,
  fetch_round, layer_round, layer_loop, Laid, not_laid, out_of_fuel, initial_layers,
}
use devcontainer.Engine.Layering.Gathered.{
  has_ref, is_fresh, covered, has_ref-append, has_ref-snoc, all_mono, covered_mono, IsComplete,
  IsComplete-sort_by, gather-IsComplete, has_copy, has_copy-snoc, duplicate_feature-has_copy,
}

module _ {S : Type 0} (ops : JsonOps) (store : Store S) (lock : FeatureLock) where
  -- Is `key` done, left out as a duplicate or still to do?
  abbrev known : List ResolvedFeature → Layers S → Text → Bool
  known rest s key = has_ref key s.done || (has_ref key s.aliases || has_ref key rest)

  -- What the features that are done depend on is known, and what is to do is fresh;
  -- what was left out is the copy of a feature that is done.
  IsOpen : List ResolvedFeature → Layers S → Type 0
  IsOpen rest s =
      (all (covered (known rest s)) s.done ≡ true)
      × (all is_fresh rest ≡ true)
      × (all (has_copy ops s.done) s.aliases ≡ true)

  IsOpenRound : Round S → Type 0
  IsOpenRound (stopped e) = Unit
  IsOpenRound (went_on rest s) = IsOpen rest s

  -- As `IsOpen`, with the feature `ref` in work beside the rest.
  IsReady : (ref : Text) (rest done aliases : List ResolvedFeature) → Type 0
  IsReady ref rest done aliases =
      (all
          (covered (λ key.
            has_ref key done || (has_ref key aliases || ((ref == key) || has_ref key rest))))
          done
        ≡ true)
      × (all is_fresh rest ≡ true)
      × (all (has_copy ops done) aliases ≡ true)

  with_dependencies-IsOpen :
      (f : ResolvedFeature) (rest : List ResolvedFeature) (s : Layers S) (deps : Dependencies)
      → IsReady f.ref rest s.done s.aliases
      → IsComplete ops store.lies_inside (s.done ++ (f ∷ rest)) f [] (dependencies f.metadata) deps
      → IsOpenRound (with_dependencies ops store lock f rest s deps)
  unfolding IsOpenRound IsOpen IsReady IsComplete has_ref any all covered
  with_dependencies-IsOpen f rest s (forbidden e) ready complete = tt
  with_dependencies-IsOpen f rest s (wanted deps) ready complete =
      let grows : (key : Text)
          → (has_ref key s.done || (has_ref key s.aliases || ((f.ref == key) || has_ref key rest)))
            ≡ true
          → known (rest ++ deps) (record s { done = s.done ++ f ∷ [] }) key ≡ true =
        λ key h.
          ground (arith, h, has_ref-append key s.done (f ∷ []), has_ref-append key rest deps) in
      let here : covered (known (rest ++ deps) (record s { done = s.done ++ f ∷ [] })) f ≡ true =
        all_mono _ _ (dependencies f.metadata)
          (λ e h. ground (
            arith,
            h,
            has_ref-append e.0 s.done (f ∷ rest),
            has_ref-append e.0 s.done (f ∷ []),
            has_ref-append e.0 rest deps,
          ))
          complete.0 in
      (
        ground (
          arith,
          all-append (covered (known (rest ++ deps) (record s { done = s.done ++ f ∷ [] }))) s.done
              (f ∷ []),
          all_mono _ _ s.done (covered_mono _ _ grows) ready.0,
          here,
        ),
        ground (arith, all-append is_fresh rest deps, ready.1, complete.1),
        has_copy-snoc ops s.done f s.aliases ready.2,
      )

  add_dependencies-IsOpen :
      (f : ResolvedFeature) (rest : List ResolvedFeature) (s : Layers S)
      → IsReady f.ref rest s.done s.aliases
      → IsOpenRound (add_dependencies ops store lock f rest s)
  unfolding add_dependencies dependencies_of all
  add_dependencies-IsOpen f rest s ready =
      let features = s.done ++ (f ∷ rest) in
      let entries = dependencies f.metadata in
      let less = λ (a c : Text × Map Json). text_ltb a.0 c.0 in
      let sorted = sort_by less entries in
      with_dependencies-IsOpen f rest s (gather ops store.lies_inside features f [] sorted) ready (
        IsComplete-sort_by ops store.lies_inside features f less entries _
          (gather-IsComplete ops store.lies_inside features f [] sorted refl))

  keep_or_drop-IsOpen :
      (f : ResolvedFeature) (rest : List ResolvedFeature) (s : Layers S)
      → IsReady f.ref rest s.done s.aliases
      → IsOpenRound (keep_or_drop ops store lock f rest s)
  unfolding keep_or_drop IsOpenRound IsOpen IsReady all
  keep_or_drop-IsOpen f rest s ready =
      if_ind IsOpenRound (duplicate_feature ops s.done f)
        (λ copy. (
          all_mono _ _ s.done
              (covered_mono _ _ (λ key h. ground (arith, h, has_ref-snoc key s.aliases f))) ready.0,
          ready.1,
          ground (
            arith,
            all-append (has_copy ops s.done) s.aliases (f ∷ []),
            duplicate_feature-has_copy ops s.done f copy,
            ready.2,
          ),
        ))
        (λ _. add_dependencies-IsOpen f rest s ready)

  with_options-IsOpen :
      (f : ResolvedFeature) (rest : List ResolvedFeature) (s : Layers S) (m : Merged)
      → IsReady f.ref rest s.done s.aliases
      → IsOpenRound (with_options ops store lock f rest s m)
  unfolding IsOpenRound
  with_options-IsOpen f rest s (rejected unknown e) ready = tt
  with_options-IsOpen f rest s (merged options unknown) ready =
      keep_or_drop-IsOpen (record f { options = options }) rest _ ready

  if_intact-IsOpen :
      (e : Option FeatureIntegrityError) (f : ResolvedFeature) (got : Fetched)
      (rest : List ResolvedFeature) (s : Layers S)
      → IsReady f.ref rest s.done s.aliases
      → IsOpenRound (if_intact ops store lock e f got rest s)
  unfolding IsOpenRound
  if_intact-IsOpen (some e) f got rest s ready = tt
  if_intact-IsOpen none f got rest s ready =
      with_options-IsOpen
        (record f { dir = got.dir; resolved_ref = got.resolved_ref; metadata = got.metadata }) rest
        (emit_feature (resolved f.ref got.resolved_ref) s) _ ready

  with_fetched-IsOpen :
      (pinned : Option LockedFeature) (f : ResolvedFeature) (rest : List ResolvedFeature)
      (s : Layers S) (r : FetchResult × S)
      → IsReady f.ref rest s.done s.aliases
      → IsOpenRound (with_fetched ops store lock pinned f rest s r)
  unfolding IsOpenRound
  with_fetched-IsOpen pinned f rest s (not_fetched, w) ready = tt
  with_fetched-IsOpen pinned f rest s (fetched got, w) ready =
      if_intact-IsOpen (fits ops store lock pinned f got) f got rest _ ready

  with_known-IsOpen :
      (f : ResolvedFeature) (rest : List ResolvedFeature) (s : Layers S) (r : FetchResult × S)
      → IsReady f.ref rest s.done s.aliases
      → IsOpenRound (with_known ops store lock f rest s r)
  unfolding IsOpenRound
  with_known-IsOpen f rest s (not_fetched, w) ready = tt
  with_known-IsOpen f rest s (fetched got, w) ready = add_dependencies-IsOpen _ rest _ ready

  baked_round_of-IsOpen :
      (deps : Option (Map (Map Json))) (f : ResolvedFeature) (rest : List ResolvedFeature)
      (s : Layers S)
      → IsReady f.ref rest s.done s.aliases
      → IsOpenRound (baked_round_of ops store lock deps f rest s)
  baked_round_of-IsOpen (some deps) f rest s ready = add_dependencies-IsOpen f rest s ready
  baked_round_of-IsOpen none f rest s ready = with_known-IsOpen f rest s _ ready

  fetch_at-IsOpen :
      (ref : Option Text) (pinned : Option LockedFeature) (f : ResolvedFeature)
      (rest : List ResolvedFeature) (s : Layers S)
      → IsReady f.ref rest s.done s.aliases
      → IsOpenRound (fetch_at ops store lock ref pinned f rest s)
  unfolding IsOpenRound
  fetch_at-IsOpen none pinned f rest s ready = tt
  fetch_at-IsOpen (some ref) pinned f rest s ready =
      with_fetched-IsOpen pinned f rest (emit_feature (resolve_start f.ref) s) _ ready

  layer_round-IsOpen :
      (f : ResolvedFeature) (rest : List ResolvedFeature) (s : Layers S)
      → IsOpen (f ∷ rest) s
      → IsOpenRound (layer_round ops store lock f rest s)
  unfolding layer_round baked_round fetch_round IsOpen IsReady has_ref any all
  layer_round-IsOpen f rest s opened =
      let ready : IsReady f.ref rest s.done s.aliases =
        (opened.0, ground (arith, opened.1), opened.2) in
      if_ind IsOpenRound f.already_installed
        (λ _. baked_round_of-IsOpen f.metadata.depends_on f rest s ready)
        (λ _.
          if_ind IsOpenRound (not (f.dir == [])) (λ local. ground (arith, local, opened.1))
            (λ _. fetch_at-IsOpen _ (pin lock f) f rest s ready))

  -- The features that are done depend on ones that are done or that were left out as copies of those.
  IsClosed : Laid S → Type 0
  IsClosed (laid t) = IsOpen [] t
  IsClosed (not_laid e) = Unit
  IsClosed out_of_fuel = Unit

  layer_loop-IsClosed :
      (fuel : ℕ) (rest : List ResolvedFeature) (s : Layers S)
      → IsOpen rest s
      → IsClosed (layer_loop ops store lock fuel rest s)
  unfolding layer_loop IsClosed IsOpenRound
  layer_loop-IsClosed fuel [] s opened = opened
  layer_loop-IsClosed zero (f ∷ rest) s opened = tt
  layer_loop-IsClosed (suc fuel) (f ∷ rest) s opened =
      elim (layer_round ops store lock f rest s)
          as (λ r.
            IsOpenRound r
            → IsClosed (elim r [
              | stopped e ↦ not_laid e
              | went_on rest' s' ↦ layer_loop ops store lock fuel rest' s'
            ])) [ stopped e ↦ λ _. tt | went_on rest' s' ↦ layer_loop-IsClosed fuel rest' s' ]
        (layer_round-IsOpen f rest s opened)

  -- When the loop over features without a directory succeeds, whatever is done depends on references
  -- of features that are done too or that were left out, and each one left out has the content and the
  -- options of one that is done.
  pub layer_loop-covered :
      (fuel : ℕ) (features : List ResolvedFeature) (w : S) (t : Layers S)
      → all is_fresh features ≡ true
      → layer_loop ops store lock fuel features (initial_layers features w) ≡ laid t
      → (all (covered (λ key. has_ref key t.done || has_ref key t.aliases)) t.done ≡ true)
        × (all (has_copy ops t.done) t.aliases ≡ true)
  unfolding IsClosed IsOpen all has_ref any
  layer_loop-covered fuel features w t fresh e =
      let closed =
        subst IsClosed e
          (layer_loop-IsClosed fuel features (initial_layers features w) (refl, fresh, refl)) in
      (all_mono _ _ t.done (covered_mono _ _ (λ key h. ground (arith, h))) closed.0, closed.2)
