-- ===== src/Compose/Graph/Cycles.antt =====
-- The cycle that `TopoSort` reports is one, and it reports one exactly when the graph has one.
use devcontainer.Base.{
  ℕ, zero, suc, ◌<◌, true, false, not, ◌&&◌, List, [], ◌∷◌, ◌++◌, some, ◌≡◌, refl, ap, sym, subst,
  ◌∙◌, ◌≢◌, inl, inr, ◌↔◌, Text, ◌==◌, eq_of_==, ==_refl, contains, contains-append, contains-sort,
  contains_perm, flatten, contains-filter, length-filter-lt, length-filter-le, filter_ext,
  filter-filter, any_iff, filter, any, length, sort, Bool-cases, List-cases, arith, Map, keys,
}
use mathlib.Core.List.{append_assoc, append-nil}
use devcontainer.Compose.Project.{Project, ServiceConfig}
use devcontainer.Compose.Graph.{
  Level, Sorted, levels_of, cycle_error, nil_project, out_of_fuel, cycle_result, find_cycle,
  walk_cycle, path_from, next_deps, build_deps, deps_of, satisfied, ready, topo_sort,
}
use devcontainer.Compose.Graph.Edges.{Edge, Edge-deps}
use devcontainer.Compose.Graph.Rounds.{Rule, sort_levels_ind}
use devcontainer.Compose.Graph.Levels.{IsLeveled, length-keys, topo_sort-levels}

-- Each service of the list depends on the next.
abbrev pub IsWalk : Map ServiceConfig → List Text → Type 0
IsWalk services [] = Unit {0}
IsWalk services (a ∷ []) = Unit {0}
IsWalk services (a ∷ b ∷ walk) = Edge services a b × IsWalk services (b ∷ walk)

-- A walk with at least one edge that ends where it began, so one through two services or more.
pub record IsCycle (services : Map ServiceConfig) (cycle : List Text) : Type 0 where
  pub start : Text
  pub middle : List Text
  pub closed : cycle ≡ start ∷ (middle ++ start ∷ [])
  pub walk : IsWalk services cycle

module _ (services : Map ServiceConfig) where
  IsWalk-tail : (a : Text) (walk : List Text) → IsWalk services (a ∷ walk) → IsWalk services walk
  IsWalk-tail a [] w = tt
  IsWalk-tail a (b ∷ walk) w = w.1

  IsWalk-snoc :
      (walk : List Text) (a b : Text)
      → IsWalk services (walk ++ a ∷ [])
      → Edge services a b
      → IsWalk services ((walk ++ a ∷ []) ++ b ∷ [])
  IsWalk-snoc [] a b w e = (e, tt)
  IsWalk-snoc (c ∷ []) a b w e = (w.0, (e, tt))
  IsWalk-snoc (c ∷ d ∷ walk) a b w e = (w.0, IsWalk-snoc (d ∷ walk) a b w.1 e)

  -- The part of a walk from a service on is a walk, and begins with that service.
  path_from_lem :
      (next : Text) (path rest : List Text)
      → contains path next ≡ true
      → IsWalk services (path ++ rest)
      → (tail : List Text) × (path_from next path ≡ next ∷ tail)
        × IsWalk services (path_from next path ++ rest)
  unfolding contains path_from
  path_from_lem next [] rest m w = cc
  path_from_lem next (p ∷ path) rest m w = elim (Bool-cases (p == next)) [
    | inl same ↦ (path, rw same (ap (λ z. z ∷ path) (eq_of_== p next same)), rw same w)
    | inr other ↦
        rw other
          (path_from_lem next path rest (ground (arith, m, other)) (IsWalk-tail p (path ++ rest) w))
  ]

  module _ (remaining : List Text) (stuck : ready (build_deps services) remaining ≡ []) where
    -- The services off the path that the walk can still reach.
    abbrev unvisited : List Text → ℕ
    unvisited path = length (filter (λ n. not (contains path n)) remaining)

    unvisited-snoc :
        (path : List Text) (next : Text)
        → contains remaining next ≡ true
        → contains path next ≡ false
        → unvisited (path ++ next ∷ []) < unvisited path
    unfolding contains
    unvisited-snoc path next m fresh =
        let off = λ (n : Text). not (contains path n) in
        let differs = λ (n : Text). not (next == n) in
        let same : filter (λ n. not (contains (path ++ next ∷ []) n)) remaining
            ≡ filter (λ n. off n && differs n) remaining =
          filter_ext (λ n. not (contains (path ++ next ∷ []) n)) (λ n. off n && differs n) remaining
            (λ n. ground (arith, contains-append path (next ∷ []) n)) in
        let shorter =
          length-filter-lt differs (filter off remaining) next
            (ground (arith, contains-filter off remaining next, m, fresh)) (rw (==_refl next)) in
        omega (arith, ap length (same ∙ sym (filter-filter differs off remaining)), shorter)

    -- A stuck service has a pending dependency.
    next_deps_cases :
        (cur : Text)
        → contains remaining cur ≡ true
        → (next : Text) × (rest : List Text) × (next_deps (build_deps services) remaining cur
            ≡ next ∷ rest)
          × (contains remaining next ≡ true)
          × Edge services cur next
    unfolding next_deps ready satisfied contains
    next_deps_cases cur m =
        let deps = deps_of (build_deps services) cur in
        let blocked : any (contains remaining) deps ≡ true = ground (
          arith,
          contains-filter (satisfied (build_deps services) remaining) remaining cur,
          ap (λ l. contains l cur) stuck,
          m,
        ) in
        let (k, listed, pending) = any_iff (contains remaining) deps blocked in
        let inside = λ (x : Text).
          (contains-sort (filter (contains remaining) deps) x
            ∙ contains-filter (contains remaining) deps x) in
        elim (List-cases (sort (filter (contains remaining) deps))) [
          | inl empty ↦ absurd (cc (inside k, ap (λ l. contains l k) empty, listed, pending))
          | inr (next, rest, e) ↦
              let found : contains deps next && contains remaining next ≡ true =
                sym (inside next) ∙ ap (λ l. contains l next) e ∙ rw (==_refl next) in
              (
                next,
                rest,
                e,
                ground (arith, found),
                Edge-deps services cur next (ground (arith, found)),
              )
        ]

    walk_cycle-IsCycle :
        (fuel : ℕ) (seeds path : List Text) (cur : Text)
        → unvisited path < fuel
        → contains remaining cur ≡ true
        → ((x : Text) → Edge services cur x → IsWalk services (path ++ x ∷ []))
        → (cycle : List Text) × (walk_cycle fuel (build_deps services) remaining seeds path cur
            ≡ some cycle)
          × IsCycle services cycle
    unfolding walk_cycle
    walk_cycle-IsCycle zero seeds path cur h m w = absurd (omega arith)
    walk_cycle-IsCycle (suc fuel) seeds path cur h m w =
        let (next, rest, e, pending, edge) = next_deps_cases cur m in
        rw (e, walk_cycle)
          (elim (Bool-cases (contains path next)) [
            | inl back ↦
                let (tail, shape, walk) = path_from_lem next path (next ∷ []) back (w next edge) in
                rw back (
                  path_from next path ++ next ∷ [],
                  refl,
                  record {
                    start = next;
                    middle = tail;
                    closed = ap (λ l. l ++ next ∷ []) shape;
                    walk = walk;
                  },
                )
            | inr fresh ↦ rw fresh (
                walk_cycle-IsCycle fuel seeds (path ++ next ∷ []) next
                  (omega (arith, unvisited-snoc path next pending fresh)) pending
                  (λ x step. IsWalk-snoc path next x (w next edge) step))
          ])

    -- Where nothing is ready, the walk from the least pending service closes a cycle.
    find_cycle-IsCycle :
        (n : Text)
        → contains remaining n ≡ true
        → (cycle : List Text) × (find_cycle (build_deps services) remaining ≡ some cycle)
          × IsCycle services cycle
    unfolding contains find_cycle
    find_cycle-IsCycle n m = elim (List-cases (sort remaining)) [
      | inl empty ↦ absurd (cc (contains-sort remaining n, ap (λ l. contains l n) empty, m))
      | inr (start, rest, e) ↦
          let listed : contains remaining start ≡ true =
            sym (contains-sort remaining start)
            ∙ ap (λ l. contains l start) e
            ∙ rw (==_refl start) in
          rw (e, find_cycle)
            (walk_cycle-IsCycle (suc (length remaining)) (start ∷ rest) (start ∷ []) start
              (omega (arith, length-filter-le (λ k. not (contains (start ∷ []) k)) remaining))
              listed (λ x edge. (edge, tt)))
    ]

-- What a result of `TopoSort` on a project promises if it is an error: a cycle.
abbrev pub ErrorFits : Map ServiceConfig → Sorted → Type 0
ErrorFits services (levels_of levels) = Unit {0}
ErrorFits services (cycle_error cycle) = IsCycle services cycle
ErrorFits services nil_project = ⊥
ErrorFits services out_of_fuel = ⊥

ErrorFits-Rule :
    (services : Map ServiceConfig)
    → Rule (build_deps services) (λ _ _. Unit {0}) (ErrorFits services)
unfolding contains
ErrorFits-Rule services = record {
  finish = λ levels _. tt;
  stuck = λ levels n ns _ h.
      let (cycle, e, fits) = find_cycle-IsCycle services (n ∷ ns) h n (rw (==_refl n)) in
      subst (λ r. ErrorFits services (cycle_result r)) (sym e) fits;
  round = λ levels remaining _. tt;
}

pub topo_sort-ErrorFits :
    (project : Project) → ErrorFits project.services (topo_sort (some project))
unfolding topo_sort
topo_sort-ErrorFits project =
    sort_levels_ind (ErrorFits-Rule project.services) (length project.services) []
      (keys project.services) (omega (arith, length-keys project.services)) tt

-- When `TopoSort` returns a cycle error, the reported list is a cycle of the service graph: it
-- ends with the service that it begins with, and each service in it depends on the next.
pub topo_sort-IsCycle :
    (project : Project) (cycle : List Text)
    → topo_sort (some project) ≡ cycle_error cycle
    → IsCycle project.services cycle
topo_sort-IsCycle project cycle h =
    subst (ErrorFits project.services) h (topo_sort-ErrorFits project)

module _ (services : Map ServiceConfig) (S : Text → Type 0)
    (next : (a : Text) → S a → (b : Text) × S b × Edge services a b) where
  clear_level :
      (level : Level) (levels : List Level) (done : List Text)
      → IsLeveled services done (level ∷ levels)
      → ((a : Text) → contains done a ≡ true → ¬ S a)
      → (a : Text) → contains (done ++ level) a ≡ true
      → ¬ S a
  clear_level level levels done h clear a m s = elim (Bool-cases (contains done a)) [
    | inl early ↦ clear a early s
    | inr late ↦
        let (b, sb, e) = next a s in
        clear b (h.0 a b (ground (arith, contains-append done level a, m, late)) e) sb
  ]

  -- A set of services of which each has a dependency in the set has no place in any level.
  not-in-levels :
      (levels : List Level) (done : List Text)
      → IsLeveled services done levels
      → ((a : Text) → contains done a ≡ true → ¬ S a)
      → (a : Text) → contains (done ++ flatten levels) a ≡ true
      → ¬ S a
  not-in-levels [] done h clear a m = clear a (rw append-nil at m)
  not-in-levels (level ∷ levels) done h clear a m =
      not-in-levels levels (done ++ level) h.1 (clear_level level levels done h clear) a
        (rw append_assoc m)

-- Each service of a walk but the last depends on another service of the walk.
walk_next :
    (services : Map ServiceConfig) (walk : List Text) (z a : Text)
    → IsWalk services (walk ++ z ∷ [])
    → contains walk a ≡ true
    → (b : Text) × (contains (walk ++ z ∷ []) b ≡ true) × Edge services a b
unfolding contains
walk_next services [] z a w m = cc
walk_next services (x ∷ []) z a w m = (
  z,
  ground (arith, ==_refl z),
  subst (λ t. Edge services t z) (eq_of_== x a (ground (arith, m))) w.0,
)
walk_next services (x ∷ y ∷ walk) z a w m = elim (Bool-cases (x == a)) [
  | inl same ↦
      (y, ground (arith, ==_refl y), subst (λ t. Edge services t y) (eq_of_== x a same) w.0)
  | inr other ↦
      let (b, inside, e) = walk_next services (y ∷ walk) z a w.1 (ground (arith, m, other)) in
      (b, ground (arith, inside), e)
]

module _ (project : Project) (cycle : List Text) (c : IsCycle project.services cycle) where
  open c use {start, middle, closed, walk}

  cycle_next :
      (a : Text)
      → contains cycle a ≡ true
      → (b : Text) × (contains cycle b ≡ true) × Edge project.services a b
  unfolding contains
  cycle_next a m =
      let split : contains ((start ∷ middle) ++ start ∷ []) a ≡ true =
        ap (λ l. contains l a) (sym closed) ∙ m in
      let (b, inside, e) =
        walk_next project.services (start ∷ middle) start a
          (subst (IsWalk project.services) closed walk)
          (ground (arith, split, contains-append middle (start ∷ []) a)) in
      (b, ap (λ l. contains l b) closed ∙ inside, e)

  cycle_start : contains cycle start ≡ true
  unfolding contains
  cycle_start = rw (closed, ==_refl start)

  no_levels : (levels : List Level) → topo_sort (some project) ≢ levels_of levels
  unfolding contains
  no_levels levels e =
      let (placed, leveled, _) = topo_sort-levels project levels e in
      let (b, inside, edge) = cycle_next start cycle_start in
      not-in-levels project.services (λ a. contains cycle a ≡ true) cycle_next levels [] leveled
        (λ a m. cc) b (contains_perm b placed ∙ edge.is_service) inside

levels_of_acyclic :
    (services : Map ServiceConfig) (r : Sorted)
    → ErrorFits services r
    → ((cycle : List Text) → ¬ IsCycle services cycle)
    → (levels : List Level) × (r ≡ levels_of levels)
levels_of_acyclic services (levels_of levels) fits acyclic = (levels, refl)
levels_of_acyclic services (cycle_error cycle) fits acyclic = absurd (acyclic cycle fits)
levels_of_acyclic services nil_project fits acyclic = absurd fits
levels_of_acyclic services out_of_fuel fits acyclic = absurd fits

-- `TopoSort` returns levels exactly when no different services depend on one another in a circle. That a
-- service depends on itself makes no circle here: it does not keep `TopoSort` from returning levels.
pub topo_sort_iff_acyclic :
    (project : Project)
    → ((levels : List Level) × (topo_sort (some project) ≡ levels_of levels))
      ↔ ((cycle : List Text) → ¬ IsCycle project.services cycle)
topo_sort_iff_acyclic project = (
  λ (levels, e) cycle c. no_levels project cycle c levels e,
  levels_of_acyclic project.services (topo_sort (some project)) (topo_sort-ErrorFits project),
)
