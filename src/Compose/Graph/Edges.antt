-- ===== src/Compose/Graph/Edges.antt =====
-- The edges of the service graph, and the dependency sets that `TopoSort` builds from them.
use devcontainer.Base.{
  true, false, not, ◌&&◌, ◌||◌, List, [], ◌∷◌, some, ◌≡◌, ap, inl, inr, Text, ◌==◌, eq_of_==,
  ==_refl, contains, contains-append, Map, keys, lookup, lookup-map, map_found, Bool-cases,
  Option-cases, arith,
}
use devcontainer.Compose.Project.{ServiceConfig}
use devcontainer.Compose.Graph.{service_edges, add_dep, collect_deps, build_deps, deps_of, or_nil}

-- `a` names `b` as a dependency or joins one of its namespaces, and `b` is another service. A service
-- that names itself has no edge for that.
pub record Edge (services : Map ServiceConfig) (a b : Text) : Type 0 where
  pub config : ServiceConfig
  pub found : lookup a services ≡ some config
  pub names : contains (service_edges config) b ≡ true
  pub is_service : contains (keys services) b ≡ true
  pub other : (b == a) ≡ false

contains-add_dep :
    (names : List Text) (name : Text) (deps : List Text) (d b : Text)
    → contains (add_dep names name deps d) b
      ≡ contains deps b || ((d == b) && contains names b && not (b == name))
unfolding add_dep contains
contains-add_dep names name deps d b = elim (Bool-cases (d == b)) [
  | inl same ↦ rw (eq_of_== d b same) (ground (arith, ==_refl b, contains-append deps (b ∷ []) b))
  | inr other ↦ ground (arith, other, contains-append deps (d ∷ []) b)
]

contains-collect_deps :
    (names : List Text) (name : Text) (deps edges : List Text) (b : Text)
    → contains (collect_deps names name deps edges) b
      ≡ contains deps b || (contains edges b && contains names b && not (b == name))
unfolding collect_deps contains
contains-collect_deps names name deps [] b = ground arith
contains-collect_deps names name deps (d ∷ ds) b = ground (
  arith,
  contains-collect_deps names name (add_dep names name deps d) ds b,
  contains-add_dep names name deps d b,
)

deps_of-lookup :
    (services : Map ServiceConfig) (a : Text)
    → deps_of (build_deps services) a
      ≡ or_nil
          (map_found (λ c. collect_deps (keys services) a [] (service_edges c)) (lookup a services))
unfolding deps_of build_deps
deps_of-lookup services a =
    ap or_nil (lookup-map (λ n c. collect_deps (keys services) n [] (service_edges c)) a services)

deps_of-build_deps :
    (services : Map ServiceConfig) (a b : Text) {svc : ServiceConfig}
    → lookup a services ≡ some svc
    → contains (deps_of (build_deps services) a) b
      ≡ contains (service_edges svc) b && contains (keys services) b && not (b == a)
unfolding contains
deps_of-build_deps services a b {svc} found =
    rw (deps_of-lookup services a, found)
      (contains-collect_deps (keys services) a [] (service_edges svc) b)

-- The dependency sets hold exactly the edges.
pub Edge-deps :
    (services : Map ServiceConfig) (a b : Text)
    → contains (deps_of (build_deps services) a) b ≡ true
    → Edge services a b
unfolding contains
Edge-deps services a b h = elim (Option-cases (lookup a services)) [
  | inl absent ↦ cc (h, rw absent at (deps_of-lookup services a))
  | inr (svc, found) ↦
      let e = deps_of-build_deps services a b found in
      record {
        config = svc;
        found = found;
        names = ground (arith, e, h);
        is_service = ground (arith, e, h);
        other = ground (arith, e, h);
      }
]

pub deps_of-Edge :
    (services : Map ServiceConfig) (a b : Text)
    → Edge services a b
    → contains (deps_of (build_deps services) a) b ≡ true
deps_of-Edge services a b e =
    ground (arith, deps_of-build_deps services a b e.found, e.names, e.is_service, e.other)
