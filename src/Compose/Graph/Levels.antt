-- ===== src/Compose/Graph/Levels.antt =====
-- The levels of a successful `TopoSort`: every service once, behind all that it depends on.
use devcontainer.Base.{
  suc, true, false, List, [], ◌∷◌, ◌++◌, Option, none, some, ◌≡◌, refl, ap, subst, Text, contains,
  contains-append, contains-sort, contains_perm, sort-IsSorted, IsSorted, flatten, flatten-snoc,
  contains-filter, any_of_contains, length, sort, arith, Map, keys, sort-perm,
}
use mathlib.Core.List.{Perm, append_assoc, append-nil}
use mathlib.Core.List.Perm
use devcontainer.Compose.Project.{Project, ServiceConfig}
use devcontainer.Compose.Graph.{
  Level, Sorted, levels_of, cycle_result, find_cycle, build_deps, deps_of, satisfied, ready,
  pending_after, topo_sort,
}
use devcontainer.Compose.Graph.Edges.{Edge, deps_of-Edge}
use devcontainer.Compose.Graph.Rounds.{Rule, round-perm, sort_levels_ind}

-- Each service of the levels has all of its dependencies in `done` or in an earlier level.
abbrev pub IsLeveled : Map ServiceConfig → List Text → List Level → Type 0
IsLeveled services done [] = Unit {0}
IsLeveled services done (level ∷ levels) =
    ((a b : Text) → contains level a ≡ true → Edge services a b → contains done b ≡ true)
    × IsLeveled services (done ++ level) levels

abbrev pub AllSorted : List Level → Type 0
AllSorted [] = Unit {0}
AllSorted (level ∷ levels) = IsSorted level × AllSorted levels

AllSorted-snoc :
    (levels : List Level) (level : Level)
    → AllSorted levels
    → IsSorted level
    → AllSorted (levels ++ level ∷ [])
AllSorted-snoc [] level h k = (k, tt)
AllSorted-snoc (l ∷ ls) level h k = (h.0, AllSorted-snoc ls level h.1 k)

module _ (services : Map ServiceConfig) where
  IsLeveled-snoc :
      (levels : List Level) (done : List Text) (level : Level)
      → IsLeveled services done levels
      → ((a b : Text)
          → contains level a ≡ true
          → Edge services a b
          → contains (done ++ flatten levels) b ≡ true)
      → IsLeveled services done (levels ++ level ∷ [])
  IsLeveled-snoc [] done level h k = (λ a b m e. rw append-nil at (k a b m e), tt)
  IsLeveled-snoc (l ∷ ls) done level h k =
      (h.0, IsLeveled-snoc ls (done ++ l) level h.1 (λ a b m e. rw append_assoc (k a b m e)))

  record Inv (levels : List Level) (remaining : List Text) : Type 0 where
    placed : Perm (flatten levels ++ remaining) (keys services)
    leveled : IsLeveled services [] levels
    sorted : AllSorted levels

  -- A service that is ready has no dependency among the pending ones.
  ready-deps :
      (remaining : List Text) (a b : Text)
      → contains (ready (build_deps services) remaining) a ≡ true
      → Edge services a b
      → contains remaining b ≡ false
  unfolding ready satisfied
  ready-deps remaining a b h e = ground (
    arith,
    h,
    contains-filter (satisfied (build_deps services) remaining) remaining a,
    any_of_contains (contains remaining) (deps_of (build_deps services) a) b
        (deps_of-Edge services a b e),
  )

  placed_deps :
      (levels : List Level) (remaining : List Text)
      → Inv levels remaining
      → (a b : Text) → contains (ready (build_deps services) remaining) a ≡ true
      → Edge services a b
      → contains (flatten levels) b ≡ true
  placed_deps levels remaining inv a b h e = ground (
    arith,
    ready-deps remaining a b h e,
    contains_perm b inv.placed,
    contains-append (flatten levels) remaining b,
    e.is_service,
  )

  Inv-round :
      (levels : List Level) (remaining : List Text)
      → Inv levels remaining
      → Inv
          (levels ++ sort (ready (build_deps services) remaining) ∷ [])
          (pending_after (ready (build_deps services) remaining) remaining)
  Inv-round levels remaining inv =
      let now = ready (build_deps services) remaining in
      record {
        placed =
            rw (flatten-snoc levels (sort now), append_assoc)
              (Perm.trans
                (Perm.append_left (flatten levels) (
                  Perm.trans (Perm.append_right _ (sort-perm now))
                    (round-perm (build_deps services) remaining)))
                inv.placed);
        leveled =
            IsLeveled-snoc levels [] (sort now) inv.leveled
              (λ a b m e. placed_deps levels remaining inv a b (rw contains-sort at m) e);
        sorted = AllSorted-snoc levels (sort now) inv.sorted (sort-IsSorted now);
      }

-- What a result of `TopoSort` promises if it is a list of levels.
abbrev LevelsFit : Map ServiceConfig → Sorted → Type 0
LevelsFit services (levels_of levels) =
    Perm (flatten levels) (keys services) × IsLeveled services [] levels × AllSorted levels
LevelsFit services _ = Unit {0}

cycle_result-LevelsFit :
    (services : Map ServiceConfig) (o : Option (List Text)) → LevelsFit services (cycle_result o)
cycle_result-LevelsFit services none = tt
cycle_result-LevelsFit services (some c) = tt

LevelsFit-Rule :
    (services : Map ServiceConfig) → Rule (build_deps services) (Inv services) (LevelsFit services)
LevelsFit-Rule services = record {
  finish = λ levels inv. (rw append-nil at inv.placed, inv.leveled, inv.sorted);
  stuck = λ levels n ns inv h.
      cycle_result-LevelsFit services (find_cycle (build_deps services) (n ∷ ns));
  round = Inv-round services;
}

pub length-keys : {V : Type 0} (m : Map V) → length (keys m) ≡ length m
length-keys [] = refl
length-keys (e ∷ m) = ap suc (length-keys m)

topo_sort-LevelsFit : (project : Project) → LevelsFit project.services (topo_sort (some project))
unfolding topo_sort
topo_sort-LevelsFit project =
    sort_levels_ind (LevelsFit-Rule project.services) (length project.services) []
      (keys project.services) (omega (arith, length-keys project.services))
      (record { placed = Perm.refl _; leveled = tt; sorted = tt })

-- When `TopoSort` returns levels, they hold every service of the project exactly as often as the
-- project does, each service stands in a level behind those of all the services that it depends
-- on, and each level is sorted.
pub topo_sort-levels :
    (project : Project) (levels : List Level)
    → topo_sort (some project) ≡ levels_of levels
    → Perm (flatten levels) (keys project.services)
      × IsLeveled project.services [] levels
      × AllSorted levels
topo_sort-levels project levels h =
    subst (LevelsFit project.services) h (topo_sort-LevelsFit project)
