-- ===== src/Feature/Graph/Depth.antt =====
-- The depth limits of the sort, and that it ends.
use devcontainer.Base.{
  ℕ, ◌+◌, ◌≤◌, ◌<◌, true, false, List, [], Option, none, some, Text, length, lt-length_of_get_elem?,
  get_elem?, ltb, leb, ◌≡◌, ◌≢◌, refl, arith, Bool-cases, inl, inr,
}
use devcontainer.Config.Types.{ResolvedFeature, Warning}
use devcontainer.Feature.Graph.{
  JsonOps, installs, too_deep, Kahn, graph, start, finish, topo_sort, dag_error_depth, cycle_result,
}
use devcontainer.Feature.Graph.Counts.{count, count-range_from}
use devcontainer.Feature.Graph.Sources.{requires}
use devcontainer.Feature.Graph.Link.{graph-IsCounted, graph-requires, requires-graph}
use devcontainer.Feature.Graph.Loop.{Inv, graph-IsSized, run_rule, start-Inv}
use devcontainer.Feature.Graph.Deepening.{Chain, alone, further, IsDeep, visit-IsDeep}
use devcontainer.Feature.Graph.Order.{after_loop, out-all, installed-installs}

module _ (ops : JsonOps) (features : List ResolvedFeature) where
  abbrev n : ℕ
  n = length features

  abbrev adj : ℕ → List ℕ
  adj = (graph ops features).adj

  -- A chain of `k` requirements that ends in the feature at an index, each feature of it requiring
  -- the one before.
  pub data Requirements : ℕ → ℕ → Type 0 where
    first : (j : ℕ) → Requirements 0 j
    next :
        {k i m : ℕ} (j : ℕ) (f g : ResolvedFeature)
        → Requirements k i
        → get_elem? features j ≡ some f
        → get_elem? features i ≡ some g
        → requires ops features f g ≡ true
        → m ≡ k + 1
        → Requirements m j

  run-IsDeep :
      (t : Kahn) × (after_loop ops features ≡ some t)
      × Inv n adj t
      × IsDeep n adj t
      × (t.ready ≡ [])
  unfolding start count
  run-IsDeep =
      let counted = graph-IsCounted ops features in
      let sized = graph-IsSized n (graph ops features) counted in
      run_rule ops features adj sized (IsDeep n adj)
        (λ s i rest head inv d. visit-IsDeep ops features adj sized s i rest head inv d) n
        (start ops features (graph ops features)) (omega arith)
        (start-Inv ops features adj sized (graph ops features) refl counted)
        (record {
          deeper = λ k j o e. absurd (omega (arith, o));
          bounded = λ k o. omega arith;
          chains = λ j. alone j;
          longest = (0, alone 0);
        })

  Requirements-le :
      (t : Kahn)
      → IsDeep n adj t
      → ((i : ℕ) → i < n → 0 < count i t.out)
      → {k j : ℕ} → Requirements k j
      → k ≤ t.depth j
  Requirements-le t d full (first j) = omega arith
  Requirements-le t d full (next {k = k} {i = i} j f g chain at_j at_i need e) =
      let below : i < n = lt-length_of_get_elem? features i g at_i in
      omega (
        arith,
        Requirements-le t d full chain,
        d.deeper i j (full i below) (graph-requires ops features j i f g at_j at_i need),
      )

  Requirements-Chain : {k j : ℕ} → Chain n adj k j → Requirements k j
  Requirements-Chain (alone j) = first j
  Requirements-Chain (further {i = i} j chain below edge e) =
      let (f, g, at_j, at_i, need) = requires-graph ops features j i below edge in
      next j f g (Requirements-Chain chain) at_j at_i need e

  Requirements-le-max :
      (t : Kahn)
      → IsDeep n adj t
      → ((i : ℕ) → i < n → 0 < count i t.out)
      → {k j : ℕ} → Requirements k j
      → k ≤ t.max_depth
  Requirements-le-max t d full (first j) = omega arith
  Requirements-le-max t d full (next {k = k} {i = i} j f g chain at_j at_i need e) = omega (
    arith,
    Requirements-le t d full (next j f g chain at_j at_i need e),
    d.bounded j (full j (lt-length_of_get_elem? features j f at_j)),
  )

  all_out :
      (t : Kahn) → Inv n adj t → ltb (length t.out) n ≡ false → (i : ℕ) → i < n → 0 < count i t.out
  all_out t inv full i below =
      ground (arith, out-all ops features t inv full i, count-range_from i 0 n)

  -- Where several features are sorted, no chain of requirements among them is as long as the limit: one of
  -- exactly that length is refused too.
  pub topo_sort-lt-limit :
      (plan : List ResolvedFeature) (warns : List Warning)
      → topo_sort ops features ≡ installs plan warns
      → 1 < length features
      → {k j : ℕ} → Requirements k j
      → k < dag_error_depth
  unfolding topo_sort
  topo_sort-lt-limit plan warns e several chain =
      let large : leb (length features) 1 ≡ false = ground arith in
      let (t, ends, full, shallow, at) =
        installed-installs ops features (after_loop ops features) plan warns (rw large at e) in
      let (t', ends', inv, deep, done) = run-IsDeep in
      let same : t ≡ t' = cc in
      let full' : ltb (length t'.out) n ≡ false = (rw same at full) in
      let shallow' : t'.max_depth < dag_error_depth = (rw same at shallow) in
      omega (arith, shallow', Requirements-le-max t' deep (all_out t' inv full') chain)

  cycle_result-ne-too_deep :
      (path : Option (List Text)) (d : ℕ) (deepest : List Text)
      → cycle_result ops features path ≢ too_deep d deepest
  cycle_result-ne-too_deep none d deepest e = cc
  cycle_result-ne-too_deep (some path) d deepest e = cc

  found-too_deep :
      (k : Option Kahn) (d : ℕ) (path : List Text)
      → finish ops features adj k ≡ too_deep d path
      → (t : Kahn) × (k ≡ some t) × (dag_error_depth ≤ t.max_depth) × (d ≡ t.max_depth)
  unfolding finish
  found-too_deep none d path e = cc
  found-too_deep (some t) d path e = elim (Bool-cases (ltb (length t.out) n)) [
    | inl short ↦ absurd (cycle_result-ne-too_deep _ d path (rw short at e))
    | inr full ↦ elim (Bool-cases (leb dag_error_depth t.max_depth)) [
      | inl deep ↦
          let same : too_deep t.max_depth t.deepest_path ≡ too_deep d path =
            (rw (full, deep) at e) in
          (t, refl, ground (arith, deep), cc)
      | inr shallow ↦ absurd (cc (rw (full, shallow) at e))
    ]
  ]

  -- The features are refused as too deep only if a chain of requirements is as long as reported, and
  -- that is at least the limit.
  pub topo_sort-too_deep :
      (d : ℕ) (path : List Text)
      → topo_sort ops features ≡ too_deep d path
      → (dag_error_depth ≤ d) × (j : ℕ) × Requirements d j
  unfolding topo_sort
  topo_sort-too_deep d path e = elim (Bool-cases (leb (length features) 1)) [
    | inl small ↦ absurd (cc (rw small at e))
    | inr large ↦
        let (t, ends, at_limit, is) =
          found-too_deep (after_loop ops features) d path (rw large at e) in
        let (t', ends', inv, deep, done) = run-IsDeep in
        let same : t ≡ t' = cc in
        let (j, chain) = deep.longest in
        rw (is, same) (rw same at at_limit, j, Requirements-Chain chain)
  ]
