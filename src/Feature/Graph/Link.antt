-- ===== src/Feature/Graph/Link.antt =====
-- The whole graph of features: its in-degrees, and an edge for each requirement.
use devcontainer.Base.{
  ℕ, zero, suc, ◌+◌, ◌≤◌, ◌<◌, true, List, [], ◌∷◌, some, Map, length, length-le_of_get_elem?,
  get_elem?, Option-cases, inl, inr, ◌≡◌, refl, arith,
}
use devcontainer.Config.Types.{ResolvedFeature}
use devcontainer.Feature.Graph.{
  JsonOps, Adjacency, add_edges, predecessors, link, graph, index_from,
}
use devcontainer.Feature.Graph.Counts.{count}
use devcontainer.Feature.Graph.Edges.{open_edges_none, count-le-open_edges}
use devcontainer.Feature.Graph.Build.{IsCounted, add_edges-IsCounted, count-add_edges}
use devcontainer.Feature.Graph.Sources.{
  requires, predecessors-range, predecessors-requires, requires-predecessors,
}

module _ (ops : JsonOps) (features : List ResolvedFeature) where
  abbrev idx : Map (List ℕ)
  idx = index_from 0 features []

  link-IsCounted :
      (i : ℕ) (fs : List ResolvedFeature) (g : Adjacency)
      → i + length fs ≤ length features
      → IsCounted (length features) g
      → IsCounted (length features) (link ops features idx i fs g)
  unfolding link
  link-IsCounted i [] g h c = c
  link-IsCounted i (f ∷ fs) g h c =
      link-IsCounted (suc i) fs (add_edges (predecessors ops features idx f) i g) (omega arith) (
        add_edges-IsCounted (length features) (predecessors ops features idx f) i g
          (λ k above. predecessors-range ops features f k above) (omega arith) c)

  pub graph-IsCounted : IsCounted (length features) (graph ops features)
  unfolding graph
  graph-IsCounted =
      link-IsCounted 0 features _ (omega arith)
        (record { total = λ j. open_edges_none (length features) j; range = λ j above. refl })

  -- Later features add no edges into earlier ones.
  link-below :
      (i : ℕ) (fs : List ResolvedFeature) (g : Adjacency) (j k : ℕ)
      → j < i
      → count j ((link ops features idx i fs g).adj k) ≡ count j (g.adj k)
  unfolding link
  link-below i [] g j k h = refl
  link-below i (f ∷ fs) g j k h = ground (
    arith,
    link-below (suc i) fs (add_edges (predecessors ops features idx f) i g) j k (omega arith),
    count-add_edges (predecessors ops features idx f) i g k j,
  )

  link_lem :
      (i : ℕ) (fs : List ResolvedFeature) (g : Adjacency) (at j k : ℕ) (f : ResolvedFeature)
      → get_elem? fs at ≡ some f
      → i + at ≡ j
      → count j ((link ops features idx i fs g).adj k)
        ≡ count j (g.adj k) + count k (predecessors ops features idx f)
  unfolding link
  link_lem i [] g at j k f e h = cc
  link_lem i (f' ∷ fs) g zero j k f e h = ground (
    arith,
    link-below (suc i) fs (add_edges (predecessors ops features idx f') i g) j k (omega arith),
    count-add_edges (predecessors ops features idx f') i g k j,
  )
  link_lem i (f' ∷ fs) g (suc at) j k f e h = ground (
    arith,
    link_lem (suc i) fs (add_edges (predecessors ops features idx f') i g) at j k f e (omega arith),
    count-add_edges (predecessors ops features idx f') i g k j,
  )

  count-graph :
      (i k : ℕ) (f : ResolvedFeature)
      → get_elem? features i ≡ some f
      → count i ((graph ops features).adj k) ≡ count k (predecessors ops features idx f)
  unfolding graph count
  count-graph i k f at = omega (arith, link_lem 0 features _ i i k f at (omega arith))

  -- An edge leads from what is required to what requires it, and there are no others.
  pub graph-requires :
      (i k : ℕ) (f g : ResolvedFeature)
      → get_elem? features i ≡ some f
      → get_elem? features k ≡ some g
      → requires ops features f g ≡ true
      → 0 < count i ((graph ops features).adj k)
  graph-requires i k f g at_i at_k h =
      omega (arith, count-graph i k f at_i, predecessors-requires ops features f k g at_k h)

  pub requires-graph :
      (i k : ℕ)
      → k < length features
      → 0 < count i ((graph ops features).adj k)
      → (f : ResolvedFeature) × (g : ResolvedFeature) × (get_elem? features i ≡ some f)
        × (get_elem? features k ≡ some g)
        × (requires ops features f g ≡ true)
  requires-graph i k below m = elim (Option-cases (get_elem? features i)) [
    | inl absent ↦ absurd (
        ground (
          arith,
          length-le_of_get_elem? features i absent,
          count-le-open_edges (length features) (graph ops features).adj k i below,
          graph-IsCounted.total i,
          graph-IsCounted.range i,
        ))
    | inr (f, at) ↦
        let (g, at_k, need) =
          requires-predecessors ops features f k (omega (arith, m, count-graph i k f at)) in
        (f, g, at, at_k, need)
  ]
