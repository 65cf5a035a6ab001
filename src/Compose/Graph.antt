-- ===== src/Compose/Graph.antt =====
-- compose/graph.go: the service graph, its levels, and the closure of a set of services.
mod Samples
pub mod Levels
pub mod Closure
pub mod Cycles
pub mod Edges
mod Rounds
use devcontainer.Base.{
  ℕ, zero, suc, ◌+◌, Bool, true, false, not, ◌&&◌, ◌||◌, List, [], ◌∷◌, ◌++◌, map, Option, none,
  some, Text, text, ◌==◌, contains, Map, keys, lookup, filter, any, length, take, drop, sort, ltb,
  if◌then◌else◌, is_empty,
}
use devcontainer.Compose.Project.{Project, ServiceConfig}

-- Services that can start together.
abbrev pub Level : Type 0
Level = List Text

-- What `TopoSort` returns; the loops run on fuel, and `out_of_fuel` is not an outcome of the code.
pub data Sorted : Type 0 where
  levels_of : List Level → Sorted
  cycle_error : List Text → Sorted
  nil_project : Sorted
  out_of_fuel : Sorted

abbrev pub service_prefix : Text
service_prefix = text "service:"

unfoldable pub service_ref_target : Text → Text
service_ref_target v =
    if ltb (length service_prefix) (length v) && (take (length service_prefix) v == service_prefix)
    then drop (length service_prefix) v
    else []

unfoldable pub service_edges : ServiceConfig → List Text
service_edges svc =
    keys svc.depends_on
    ++ filter (λ peer. not (peer == []))
        (map service_ref_target (svc.network_mode ∷ svc.pid ∷ svc.ipc ∷ []))

-- `deps[name][dep] = struct{}{}`, for the dependencies that are services other than `name`.
unfoldable pub add_dep : List Text → Text → List Text → Text → List Text
add_dep names name deps dep =
    if contains names dep && not (dep == name) && not (contains deps dep)
    then deps ++ dep ∷ []
    else deps

unfoldable pub collect_deps : List Text → Text → List Text → List Text → List Text
collect_deps names name deps [] = deps
collect_deps names name deps (dep ∷ edges) =
    collect_deps names name (add_dep names name deps dep) edges

-- The dependency graph: the services, and the set that each depends on.
abbrev pub Deps : Type 0
Deps = Map (List Text)

unfoldable pub build_deps : Map ServiceConfig → Deps
build_deps services =
    map (λ e. (e.0, collect_deps (keys services) e.0 [] (service_edges e.1))) services

-- `deps[name]`; a missing name has no dependencies.
abbrev pub or_nil : Option (List Text) → List Text
or_nil none = []
or_nil (some ds) = ds

unfoldable pub deps_of : Deps → Text → List Text
deps_of deps name = or_nil (lookup name deps)

-- No dependency of `name` is still pending.
unfoldable pub satisfied : Deps → List Text → Text → Bool
satisfied deps remaining name = not (any (contains remaining) (deps_of deps name))

-- The still-pending dependencies of `cur`, least first.
pub next_deps : Deps → List Text → Text → List Text
next_deps deps remaining cur = sort (filter (contains remaining) (deps_of deps cur))

-- The path from the first `next` on.
pub path_from : Text → List Text → List Text
path_from next [] = []
path_from next (p ∷ path) = if p == next then p ∷ path else path_from next path

-- The walk of `findCycle`; `none` means that the fuel ran out.
pub walk_cycle : ℕ → Deps → List Text → List Text → List Text → Text → Option (List Text)
walk_cycle zero deps remaining seeds path cur = none
walk_cycle (suc fuel) deps remaining seeds path cur = elim (next_deps deps remaining cur) [
  | [] ↦ some seeds
  | next ∷ _ ↦
      let rest = walk_cycle fuel deps remaining seeds (path ++ next ∷ []) next in
      if contains path next then some (path_from next path ++ next ∷ []) else rest
]

pub find_cycle : Deps → List Text → Option (List Text)
find_cycle deps remaining = elim (sort remaining) [
  | [] ↦ some []
  | start ∷ rest ↦
      walk_cycle (suc (length remaining)) deps remaining (start ∷ rest) (start ∷ []) start
]

abbrev pub cycle_result : Option (List Text) → Sorted
cycle_result none = out_of_fuel
cycle_result (some cycle) = cycle_error cycle

-- The services that can start now, and those that must wait.
unfoldable pub ready : Deps → List Text → List Text
ready deps remaining = filter (satisfied deps remaining) remaining

unfoldable pub pending_after : List Text → List Text → List Text
pending_after started remaining = filter (λ name. not (contains started name)) remaining

-- The main loop of `TopoSort`.
unfoldable pub sort_levels : ℕ → Deps → List Level → List Text → Sorted
sort_levels fuel deps levels [] = levels_of levels
sort_levels zero deps levels (n ∷ ns) = out_of_fuel
sort_levels (suc fuel) deps levels (n ∷ ns) =
    let remaining = n ∷ ns in
    let now = ready deps remaining in
    let rest = sort_levels fuel deps (levels ++ sort now ∷ []) (pending_after now remaining) in
    if is_empty now then cycle_result (find_cycle deps remaining) else rest

unfoldable pub topo_sort : Option Project → Sorted
topo_sort none = nil_project
topo_sort (some project) =
    sort_levels (length project.services) (build_deps project.services) [] (keys project.services)

-- What a visit of `name` adds to the work list: nothing if it is no service of the project.
abbrev pub edges_found : Option ServiceConfig → List Text
edges_found none = []
edges_found (some svc) = service_edges svc

unfoldable pub successors : Map ServiceConfig → Text → List Text
successors services name = edges_found (lookup name services)

-- The work list of `ServiceClosure`; `none` means that the fuel ran out.
unfoldable pub closure_loop : ℕ → Map ServiceConfig → List Text → List Text → Option (List Text)
closure_loop fuel services seen [] = some seen
closure_loop zero services seen (name ∷ queue) = none
closure_loop (suc fuel) services seen (name ∷ queue) =
    let skip = closure_loop fuel services seen queue in
    let visit = closure_loop fuel services (name ∷ seen) (queue ++ successors services name) in
    if contains seen name then skip else visit

-- Enough rounds: the names asked for, and for each service once its edges.
unfoldable pub closure_fuel : Map ServiceConfig → List Text → ℕ
closure_fuel [] names = length names
closure_fuel ((_, svc) ∷ services) names = length (service_edges svc) + closure_fuel services names

unfoldable pub service_closure : Option Project → List Text → Option (List Text)
service_closure none names = some names
service_closure (some project) names =
    elim (closure_loop (closure_fuel project.services names) project.services [] names) [
      | none ↦ none
      | some seen ↦ some (sort seen)
    ]
