-- ===== src/Engine/Layering/Ends.antt =====
-- The loop that fetches features ends, also where features depend on one another in a circle.
use devcontainer.Base.{
  ℕ, zero, suc, ◌+◌, ◌≤◌, ◌<◌, false, not, List, [], ◌∷◌, ◌++◌, Option, none, some, Text, ◌==◌, Map,
  text_ltb, sort_by, ◌≡◌, ◌∙◌, refl, map, sym, ap, arith, if_ind, inl, inr, ◌⊎◌,
}
use devcontainer.Config.Types.{Json, ResolvedFeature, FeatureSourceKind, dependencies}
use devcontainer.Feature.Graph.{JsonOps}
use devcontainer.Feature.Options.{Merged, merged, rejected}
use devcontainer.Feature.Lockfile.{FeatureIntegrityError}
use devcontainer.Engine.Lock.{FeatureLock, pin}
use devcontainer.Engine.Layering.Request.{
  LayerError, Dependencies, wanted, forbidden, duplicate_feature, dependencies_of, unfetched,
}
use devcontainer.Engine.Layering.{
  Store, Layers, Round, stopped, went_on, laid, not_laid, FetchResult, Fetched, fetched,
  not_fetched, add_dependencies, with_dependencies, baked_ref, with_known, baked_round_of,
  baked_round, keep_or_drop, with_options, if_intact, with_fetched, fits, fetch_at, fetch_round,
  layer_round, layer_loop, emit_feature, resolve_start, resolved, option_warning,
}
use devcontainer.Engine.Layering.Costs.{
  Entry, IsIn, AreIn-sort_by, length-sort_by, IsKnown, IsPending, in_base, is_there, is_asked,
  ArePending, ArePending-append, all_rooms, weights, weights-append, IsWithin, gather-IsWithin,
}
use devcontainer.Engine.Layering.Rooms.{
  IsSteady, chosen, checked, found, found_at, prepared, is_done_as, settled, rooms, rooms-append-le,
  rooms-append-lt, rooms-le-all_rooms, duplicate_feature_self,
}

module _ (universe : List Entry) (width : ℕ) {S : Type 0} (ops : JsonOps) (store : Store S)
    (lock : FeatureLock) (content : Text → FeatureSourceKind → FetchResult) where
  GoesDown : ℕ → Round S → Type 0
  GoesDown b (stopped e) = Unit
  GoesDown b (went_on rest s) =
      ArePending universe width rest
      × (rooms universe width ops store lock content universe s.done + weights universe width rest
          < b)

  with_dependencies-GoesDown :
      (f : ResolvedFeature) (rest : List ResolvedFeature) (s : Layers S) (b : ℕ)
      (deps : Dependencies)
      → IsWithin universe width width deps
      → ArePending universe width rest
      → rooms universe width ops store lock content universe (s.done ++ f ∷ [])
          + weights universe width rest
          + width
        < b
      → GoesDown b (with_dependencies ops store lock f rest s deps)
  unfolding GoesDown IsWithin
  with_dependencies-GoesDown f rest s b (wanted deps) within pending le = (
    ArePending-append universe width rest deps pending within.0,
    omega (arith, within.1, le, weights-append universe width rest deps),
  )
  with_dependencies-GoesDown f rest s b (forbidden e) within pending le = tt

  add_dependencies-GoesDown :
      (f : ResolvedFeature) (rest : List ResolvedFeature) (s : Layers S) (b : ℕ)
      → IsKnown universe width (dependencies f.metadata)
      → ArePending universe width rest
      → rooms universe width ops store lock content universe (s.done ++ f ∷ [])
          + weights universe width rest
          + width
        < b
      → GoesDown b (add_dependencies ops store lock f rest s)
  unfolding add_dependencies dependencies_of ArePending weights
  add_dependencies-GoesDown f rest s b known pending le =
      let less = λ (a c : Entry). text_ltb a.0 c.0 in
      let entries = dependencies f.metadata in
      with_dependencies-GoesDown f rest s b _
        (gather-IsWithin universe width ops store.lies_inside (s.done ++ (f ∷ rest)) f width []
          (sort_by less entries) tt (AreIn-sort_by universe less entries known.0)
          (omega (arith, known.1, length-sort_by universe less entries)))
        pending le

  -- A feature that an entry was prepared to is left out, or leaves the entry settled.
  keep_or_drop-GoesDown :
      IsSteady universe width ops store lock content
      → (e : Entry) (f : ResolvedFeature) (rest : List ResolvedFeature) (s : Layers S) (b : ℕ)
      → IsIn e universe
      → prepared universe width ops store lock content (unfetched e.0 e.1) ≡ some f
      → (f.resolved_ref == []) ≡ false
      → IsKnown universe width (dependencies f.metadata)
      → ArePending universe width rest
      → rooms universe width ops store lock content universe s.done + weights universe width rest
        < b
      → GoesDown b (keep_or_drop ops store lock f rest s)
  unfolding keep_or_drop GoesDown settled
  keep_or_drop-GoesDown world e f rest s b here is has known pending le =
      if_ind (GoesDown b) (duplicate_feature ops s.done f) (λ _. (pending, le))
        (λ new. add_dependencies-GoesDown f rest s b known pending (
          omega (
            arith,
            le,
            rooms-append-lt universe width ops store lock content universe e s.done f here
                (ap (is_done_as universe width ops store lock content s.done) is ∙ new)
                (ap (is_done_as universe width ops store lock content (s.done ++ f ∷ [])) is
                  ∙ duplicate_feature_self ops s.done f has (world.same_as_itself f.options)),
          )))

  with_options-GoesDown :
      IsSteady universe width ops store lock content
      → (e : Entry) (f : ResolvedFeature) (rest : List ResolvedFeature) (s : Layers S) (b : ℕ)
        (m : Merged)
      → IsIn e universe
      → prepared universe width ops store lock content (unfetched e.0 e.1)
        ≡ chosen universe width ops store lock content f m
      → (f.resolved_ref == []) ≡ false
      → IsKnown universe width (dependencies f.metadata)
      → ArePending universe width rest
      → rooms universe width ops store lock content universe s.done + weights universe width rest
        < b
      → GoesDown b (with_options ops store lock f rest s m)
  unfolding GoesDown
  with_options-GoesDown world e f rest s b (rejected unknown x) here is has known pending le = tt
  with_options-GoesDown world e f rest s b (merged options unknown) here is has known pending le =
      keep_or_drop-GoesDown world e (record f { options = options }) rest
        (record s {
          warnings = s.warnings ++ map (option_warning ops store lock f.metadata) unknown;
        })
        b here is has known pending le

  if_intact-GoesDown :
      IsSteady universe width ops store lock content
      → (e : Entry) (err : Option FeatureIntegrityError) (got : Fetched)
        (rest : List ResolvedFeature) (s : Layers S) (b : ℕ)
      → IsIn e universe
      → prepared universe width ops store lock content (unfetched e.0 e.1)
        ≡ checked universe width ops store lock content err (unfetched e.0 e.1) got
      → (got.resolved_ref == []) ≡ false
      → IsKnown universe width (dependencies got.metadata)
      → ArePending universe width rest
      → rooms universe width ops store lock content universe s.done + weights universe width rest
        < b
      → GoesDown b (if_intact ops store lock err (unfetched e.0 e.1) got rest s)
  unfolding GoesDown
  if_intact-GoesDown world e (some x) got rest s b here is has known pending le = tt
  if_intact-GoesDown world e none got rest s b here is has known pending le =
      with_options-GoesDown world e
        (record (unfetched e.0 e.1) {
          dir = got.dir;
          resolved_ref = got.resolved_ref;
          metadata = got.metadata;
        })
        rest (emit_feature (resolved e.0 got.resolved_ref) s) b _ here is has known pending le

  with_fetched-GoesDown :
      IsSteady universe width ops store lock content
      → (e : Entry) (ref : Text) (rest : List ResolvedFeature) (s : Layers S) (b : ℕ)
        (r : FetchResult × S)
      → IsIn e universe
      → prepared universe width ops store lock content (unfetched e.0 e.1)
        ≡ found universe width ops store lock content (unfetched e.0 e.1) r.0
      → content ref (unfetched e.0 e.1).source_kind ≡ r.0
      → ArePending universe width rest
      → rooms universe width ops store lock content universe s.done + weights universe width rest
        < b
      → GoesDown b
          (with_fetched ops store lock (pin lock (unfetched e.0 e.1)) (unfetched e.0 e.1) rest s r)
  unfolding GoesDown
  with_fetched-GoesDown world e ref rest s b (not_fetched, w) here is at pending le = tt
  with_fetched-GoesDown world e ref rest s b (fetched got, w) here is at pending le =
      if_intact-GoesDown world e
        (fits ops store lock (pin lock (unfetched e.0 e.1)) (unfetched e.0 e.1) got) got rest
        (record s { world = w }) b here is (world.pinned ref _ got at) (world.bounded ref _ got at)
        pending le

  fetch_at-GoesDown :
      IsSteady universe width ops store lock content
      → (e : Entry) (ref : Option Text) (rest : List ResolvedFeature) (s : Layers S) (b : ℕ)
      → IsIn e universe
      → prepared universe width ops store lock content (unfetched e.0 e.1)
        ≡ found_at universe width ops store lock content (unfetched e.0 e.1) ref
      → ArePending universe width rest
      → rooms universe width ops store lock content universe s.done + weights universe width rest
        < b
      → GoesDown b
          (fetch_at ops store lock ref (pin lock (unfetched e.0 e.1)) (unfetched e.0 e.1) rest s)
  unfolding GoesDown
  fetch_at-GoesDown world e none rest s b here is pending le = tt
  fetch_at-GoesDown world e (some ref) rest s b here is pending le =
      let f = unfetched e.0 e.1 in
      let now = sym (world.steady ref f.source_kind s.world) in
      with_fetched-GoesDown world e ref rest (emit_feature (resolve_start f.ref) s) b
        (store.fetch ref f.source_kind s.world) here
        (is ∙ ap (found universe width ops store lock content f) now) now pending le

  with_known-GoesDown :
      IsSteady universe width ops store lock content
      → (f : ResolvedFeature) (ref : Text) (rest : List ResolvedFeature) (s : Layers S) (b : ℕ)
        (r : FetchResult × S)
      → content ref f.source_kind ≡ r.0
      → ArePending universe width rest
      → rooms universe width ops store lock content universe s.done
          + weights universe width rest
          + width
        < b
      → GoesDown b (with_known ops store lock f rest s r)
  unfolding GoesDown
  with_known-GoesDown world f ref rest s b (not_fetched, w) at pending le = tt
  with_known-GoesDown world f ref rest s b (fetched got, w) at pending le =
      let f' = record f {
        metadata = record f.metadata { depends_on = some (dependencies got.metadata) };
      } in
      add_dependencies-GoesDown f' rest (record s { world = w }) b (world.bounded ref _ got at)
        pending
        (omega
          (arith, le, rooms-append-le universe width ops store lock content universe s.done f'))

  baked_round_of-GoesDown :
      IsSteady universe width ops store lock content
      → (deps : Option (Map (Map Json))) (f : ResolvedFeature) (rest : List ResolvedFeature)
        (s : Layers S) (b : ℕ)
      → IsKnown universe width (dependencies f.metadata)
      → ArePending universe width rest
      → rooms universe width ops store lock content universe s.done
          + weights universe width rest
          + width
        < b
      → GoesDown b (baked_round_of ops store lock deps f rest s)
  baked_round_of-GoesDown world (some deps) f rest s b known pending le =
      add_dependencies-GoesDown f rest s b known pending
        (omega (arith, le, rooms-append-le universe width ops store lock content universe s.done f))
  baked_round_of-GoesDown world none f rest s b known pending le =
      with_known-GoesDown world f (baked_ref ops store lock f) rest s b _
        (sym (world.steady (baked_ref ops store lock f) f.source_kind s.world)) pending le

  layer_round-GoesDown :
      IsSteady universe width ops store lock content
      → (f : ResolvedFeature) (rest : List ResolvedFeature) (s : Layers S)
      → IsPending universe width f
      → ArePending universe width rest
      → GoesDown
          (rooms universe width ops store lock content universe s.done
            + weights universe width (f ∷ rest))
          (layer_round ops store lock f rest s)
  unfolding layer_round baked_round fetch_round weights GoesDown ◌==◌
  layer_round-GoesDown world f rest s (in_base installed known) pending =
      if_ind
        (GoesDown (
          rooms universe width ops store lock content universe s.done
          + weights universe width (f ∷ rest)))
        f.already_installed
        (λ _.
          baked_round_of-GoesDown world f.metadata.depends_on f rest s _ known pending
            (ground (arith, installed)))
        (λ other. absurd (cc (installed, other)))
  layer_round-GoesDown world f rest s (is_there fresh there) pending =
      if_ind
        (GoesDown (
          rooms universe width ops store lock content universe s.done
          + weights universe width (f ∷ rest)))
        f.already_installed (λ installed. absurd (cc (installed, fresh)))
        (λ _.
          if_ind
            (GoesDown (
              rooms universe width ops store lock content universe s.done
              + weights universe width (f ∷ rest)))
            (not (f.dir == []))
            (λ _. (
              pending,
              ground (
                arith,
                fresh,
                rooms-append-le universe width ops store lock content universe s.done f,
              ),
            ))
            (λ empty. absurd (ground (arith, empty, there))))
  layer_round-GoesDown world f rest s (is_asked e here) pending =
      fetch_at-GoesDown world e _ rest s _ here refl pending (omega arith)

  finishes :
      IsSteady universe width ops store lock content
      → (fuel : ℕ) (rest : List ResolvedFeature) (s : Layers S) → ArePending universe width rest
      → rooms universe width ops store lock content universe s.done + weights universe width rest
        ≤ fuel
      → ((t : Layers S) × (layer_loop ops store lock fuel rest s ≡ laid t))
        ⊎ ((e : LayerError) × (layer_loop ops store lock fuel rest s ≡ not_laid e))
  unfolding layer_loop ArePending GoesDown weights
  finishes world fuel [] s pending le = inl (s, refl)
  finishes world zero (f ∷ rest) s pending le = absurd (ground (arith, le))
  finishes world (suc fuel) (f ∷ rest) s pending le =
      elim (layer_round ops store lock f rest s)
          as (λ r.
            GoesDown
              (rooms universe width ops store lock content universe s.done
                + weights universe width (f ∷ rest))
              r
            → ((t : Layers S) × ((elim r [
              | stopped e ↦ not_laid e
              | went_on rest' s' ↦ layer_loop ops store lock fuel rest' s'
            ])
                  ≡ laid t))
              ⊎ ((e : LayerError) × ((elim r [
                | stopped e ↦ not_laid e
                | went_on rest' s' ↦ layer_loop ops store lock fuel rest' s'
              ])
                    ≡ not_laid e))) [
                      | stopped e ↦ λ _. inr (e, refl)
                      | went_on rest' s' ↦
                          λ down. finishes world fuel rest' s' down.0 (omega (arith, down.1, le))
                    ]
        (layer_round-GoesDown world f rest s pending.0 pending.1)

  -- The loop over features of the base image, features that are there and features asked for ends, with
  -- all of them done or with an error, also where they depend on one another in a circle: a round for
  -- each of them, one and `width` more for each entry of the universe, and `width` more for each
  -- feature of the base image are enough, if the store always gives the same, and what it gives has
  -- a resolved reference and asks for at most `width` features, all from a finite universe.
  pub layer_loop-finishes :
      IsSteady universe width ops store lock content
      → (fuel : ℕ) (rest : List ResolvedFeature) (s : Layers S) → ArePending universe width rest
      → all_rooms universe width universe + weights universe width rest ≤ fuel
      → ((t : Layers S) × (layer_loop ops store lock fuel rest s ≡ laid t))
        ⊎ ((e : LayerError) × (layer_loop ops store lock fuel rest s ≡ not_laid e))
  layer_loop-finishes world fuel rest s pending le =
      finishes world fuel rest s pending (
        omega (arith, le, rooms-le-all_rooms universe width ops store lock content universe s.done))
