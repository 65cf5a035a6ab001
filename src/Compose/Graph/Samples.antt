-- ===== src/Compose/Graph/Samples.antt =====
-- Small projects, what the service graph code does on them, and the theorems applied to them.
use devcontainer.Base.{
  true, List, [], ◌∷◌, some, ◌≡◌, refl, ◌↔◌, Text, text, contains, keys, lookup, flatten, IsSorted,
  filter, any, sort, text_ltb, ◌==◌,
}
use mathlib.Core.List.{Perm}
use devcontainer.Compose.Samples.{service, project}
use devcontainer.Compose.Project.{Project}
use devcontainer.Compose.Graph.{
  Level, levels_of, cycle_error, service_ref_target, service_edges, collect_deps, add_dep,
  build_deps, deps_of, satisfied, next_deps, path_from, walk_cycle, find_cycle, ready,
  pending_after, sort_levels, topo_sort, successors, closure_loop, closure_fuel, service_closure,
}
use devcontainer.Compose.Graph.Levels.{IsLeveled, AllSorted, topo_sort-levels}
use devcontainer.Compose.Graph.Cycles.{IsCycle, topo_sort-IsCycle, topo_sort_iff_acyclic}
use devcontainer.Compose.Graph.Closure.{Reach, service_closure_lem}

-- The app needs the database and shares the network of the proxy.
abbrev web : Project
web = project (
    (text "app", service ("db" ∷ []) "service:proxy")
    ∷ (text "db", service [] "")
    ∷ (text "proxy", service ("db" ∷ "missing" ∷ []) "host")
    ∷ [])

abbrev web_levels : List Level
web_levels = (text "db" ∷ []) ∷ (text "proxy" ∷ []) ∷ (text "app" ∷ []) ∷ []

abbrev looped : Project
looped = project (
    (text "a", service ("b" ∷ []) "")
    ∷ (text "b", service ("c" ∷ []) "")
    ∷ (text "c", service [] "service:b")
    ∷ [])

program : Unit {0}
unfolding topo_sort sort_levels ready pending_after satisfied find_cycle walk_cycle next_deps
    path_from build_deps collect_deps deps_of service_edges service_ref_target service_closure
    closure_loop closure_fuel successors lookup filter any sort contains ◌==◌ add_dep text_ltb
program = tt

topo_sort-web : topo_sort (some web) ≡ levels_of web_levels
unfolding program
topo_sort-web = refl

topo_sort-looped : topo_sort (some looped) ≡ cycle_error (text "b" ∷ text "c" ∷ text "b" ∷ [])
unfolding program
topo_sort-looped = refl

service_closure-web :
    service_closure (some web) (text "proxy" ∷ text "other" ∷ [])
    ≡ some (text "db" ∷ text "missing" ∷ text "other" ∷ text "proxy" ∷ [])
unfolding program
service_closure-web = refl

topo_sort-levels_example :
    Perm (flatten web_levels) (keys web.services)
    × IsLeveled web.services [] web_levels
    × AllSorted web_levels
topo_sort-levels_example = topo_sort-levels web web_levels topo_sort-web

topo_sort-IsCycle_example : IsCycle looped.services (text "b" ∷ text "c" ∷ text "b" ∷ [])
topo_sort-IsCycle_example =
    topo_sort-IsCycle looped (text "b" ∷ text "c" ∷ text "b" ∷ []) topo_sort-looped

topo_sort_iff_acyclic_example :
    ((levels : List Level) × (topo_sort (some web) ≡ levels_of levels))
    ↔ ((cycle : List Text) → ¬ IsCycle web.services cycle)
topo_sort_iff_acyclic_example = topo_sort_iff_acyclic web

service_closure_lem_example :
    (out : List Text) × (service_closure (some web) (text "proxy" ∷ []) ≡ some out)
    × IsSorted out
    × ((x : Text) → (contains out x ≡ true) ↔ Reach web.services (text "proxy" ∷ []) x)
service_closure_lem_example = service_closure_lem web (text "proxy" ∷ [])
