-- ===== src/Feature/Graph/Order.antt =====
-- What a successful sort of the features returns.
use mathlib.Core.List.{Perm}
use mathlib.Core.List.Perm
use devcontainer.Base.{
  ℕ, ◌+◌, ◌≤◌, ◌<◌, Bool, true, false, not, ◌&&◌, List, [], ◌∷◌, ◌++◌, Option, none, some, length,
  get_elem?, nat_beq, ltb, leb, any, if◌then◌else◌, ◌≡◌, ◌≢◌, Text, refl, ap, arith, Bool-cases,
  Option-cases, inl, inr,
}
use devcontainer.Config.Types.{ResolvedFeature, Warning}
use devcontainer.Feature.Graph.{
  JsonOps, installs, Kahn, pick, graph, run, start, finish, topo_sort, dag_error_depth,
  cycle_result, depth_warnings,
}
use devcontainer.Feature.Graph.Counts.{
  count, count-append, count-range_from, range_from, length-le_of_count,
}
use devcontainer.Feature.Graph.Sources.{requires}
use devcontainer.Feature.Graph.Link.{graph-IsCounted, graph-requires}
use devcontainer.Feature.Graph.Loop.{Inv, IsBefore, graph-IsSized, run_rule, start-Inv}
use devcontainer.Feature.Graph.Picks.{pick-perm, any-pick, pick_all}

module _ (ops : JsonOps) (features : List ResolvedFeature) where
  -- No feature requires one that stands behind it.
  unfoldable pub in_order : List ResolvedFeature → Bool
  in_order [] = true
  in_order (f ∷ plan) = not (any (requires ops features f) plan) && in_order plan

  abbrev adj : ℕ → List ℕ
  adj = (graph ops features).adj

  pick-in_order :
      (seen is : List ℕ)
      → ((j : ℕ) → count j seen + count j is ≤ (if ltb j (length features) then 1 else 0))
      → IsBefore (length features) adj seen is
      → in_order (pick features is) ≡ true
  unfolding in_order pick count
  pick-in_order seen [] h before = refl
  pick-in_order seen (i ∷ is) h before =
      let rest =
        pick-in_order (seen ++ i ∷ []) is (λ j. ground (arith, h j, count-append j seen (i ∷ [])))
          before.1 in
      elim (Option-cases (get_elem? features i)) [
        | inl e ↦ rw (e, pick) rest
        | inr (f, e) ↦
            let none_behind = any-pick features (requires ops features f) is (λ k g m at.
              elim (Bool-cases (requires ops features f g)) [
                | inr no_need ↦ no_need
                | inl need ↦ absurd (
                    ground (
                      arith,
                      h k,
                      before.0 k (ground (arith, h k))
                          (graph-requires ops features i k f g e at need),
                    ))
              ]) in
            rw (e, pick) (ground (arith, none_behind, rest))
      ]

  -- What the main loop leaves.
  abbrev pub after_loop : Option Kahn
  after_loop = run ops features (length features) adj (start ops features (graph ops features))

  pub run_graph : (t : Kahn) × (after_loop ≡ some t) × Inv (length features) adj t × (t.ready ≡ [])
  unfolding start
  run_graph =
      let counted = graph-IsCounted ops features in
      let sized = graph-IsSized (length features) (graph ops features) counted in
      let (t, ends, inv, _, done) =
        run_rule ops features adj sized (λ s. Unit {0}) (λ s i rest head inv u. tt)
          (length features) (start ops features (graph ops features)) (omega arith)
          (start-Inv ops features adj sized (graph ops features) refl counted) tt in
      (t, ends, inv, done)

  module _ (t : Kahn) (inv : Inv (length features) adj t) where
    out-le : (j : ℕ) → count j t.out ≤ (if ltb j (length features) then 1 else 0)
    out-le j = ground (arith, inv.relaxing.once j)

    out-in_order : in_order (pick features t.out) ≡ true
    unfolding count
    out-in_order = pick-in_order [] t.out (λ j. omega (arith, out-le j)) inv.ordered

    -- A list as long as the features that repeats no index holds all of them.
    pub out-all :
        ltb (length t.out) (length features) ≡ false
        → (j : ℕ) → count j t.out ≡ count j (range_from 0 (length features))
    unfolding count
    out-all full j = elim (Bool-cases (ltb j (length features) && nat_beq (count j t.out) 0)) [
      | inr fine ↦ ground (arith, fine, out-le j, count-range_from j 0 (length features))
      | inl missing ↦
          let fits : length (j ∷ t.out) ≤ length features =
            length-le_of_count (length features) (j ∷ t.out)
              (λ k. ground (arith, out-le k, missing, ap (λ m. count m t.out) {x = j} {y = k})) in
          absurd (ground (arith, full, fits))
    ]

    out-perm : ltb (length t.out) (length features) ≡ false → Perm (pick features t.out) features
    out-perm full =
        let p = pick-perm features t.out (range_from 0 (length features)) (out-all full) in
        rw (pick_all features) at p

  cycle_result-ne-installs :
      (path : Option (List Text)) (plan : List ResolvedFeature) (warns : List Warning)
      → cycle_result ops features path ≢ installs plan warns
  cycle_result-ne-installs none plan warns e = cc
  cycle_result-ne-installs (some path) plan warns e = cc

  in_order_short : (fs : List ResolvedFeature) → length fs ≤ 1 → in_order fs ≡ true
  unfolding in_order any
  in_order_short [] h = refl
  in_order_short (f ∷ []) h = refl
  in_order_short (f ∷ g ∷ fs) h = absurd (omega arith)

  pub installed-installs :
      (k : Option Kahn) (plan : List ResolvedFeature) (warns : List Warning)
      → finish ops features adj k ≡ installs plan warns
      → (t : Kahn) × (k ≡ some t)
        × (ltb (length t.out) (length features) ≡ false)
        × (t.max_depth < dag_error_depth)
        × (plan ≡ pick features t.out)
  unfolding finish
  installed-installs none plan warns e = cc
  installed-installs (some t) plan warns e =
      elim (Bool-cases (ltb (length t.out) (length features))) [
        | inl short ↦ absurd (cycle_result-ne-installs _ plan warns (rw short at e))
        | inr full ↦ elim (Bool-cases (leb dag_error_depth t.max_depth)) [
          | inl deep ↦ absurd (cc (rw (full, deep) at e))
          | inr shallow ↦
              let same : installs (pick features t.out) (depth_warnings t.max_depth t.deepest_path)
                  ≡ installs plan warns =
                (rw (full, shallow) at e) in
              (t, refl, full, ground (arith, shallow), cc)
        ]
      ]

  -- A successful sort returns the given features, each as often as it was given, and none of them
  -- requires one that comes later.
  pub topo_sort-installs :
      (plan : List ResolvedFeature) (warns : List Warning)
      → topo_sort ops features ≡ installs plan warns
      → Perm plan features × (in_order plan ≡ true)
  unfolding topo_sort
  topo_sort-installs plan warns e = elim (Bool-cases (leb (length features) 1)) [
    | inl small ↦
        let same : features ≡ plan = cc (rw small at e) in
        rw (← same) (Perm.refl features, in_order_short features (ground (arith, small)))
    | inr large ↦
        let (t, ends, full, shallow, at) =
          installed-installs after_loop plan warns (rw large at e) in
        let (t', ends', inv, done) = run_graph in
        let same : t' ≡ t = cc in
        rw (at, ← same) (out-perm t' inv (rw (← same) at full), out-in_order t' inv)
  ]
