-- ===== src/Compose/Orchestrator/Down/Teardown.antt =====
-- Down: which containers go, and in what order.
use devcontainer.Base.{
  ℕ, suc, ◌≤◌, ◌<◌, true, false, List, [], ◌∷◌, ◌++◌, Option, none, some, Text, Map, lookup-keys,
  is_some, contains, contains-nil, contains-append, contains_perm, flatten, AllBelow, IsFalling,
  sort_by-IsFalling, sort_by, sort_by-perm, ◌≡◌, ◌⊎◌, inl, inr, refl, ap, sym, ◌∙◌, subst, if_ind,
  Bool-cases, arith,
}
use mathlib.Core.List.{Perm}
use devcontainer.Compose.Project.{Project, ServiceConfig}
use devcontainer.Compose.Graph.{
  Level, Sorted, levels_of, cycle_error, nil_project, out_of_fuel, topo_sort,
}
use devcontainer.Compose.Graph.Edges.{Edge}
use devcontainer.Compose.Graph.Levels.{IsLeveled, topo_sort-levels}
use devcontainer.Compose.Runtime.{Container}
use devcontainer.Compose.Orchestrator.Down.{
  service_label_of, level_index_from, level_index, name_less, teardown_less, order_by_levels,
  order_containers_for_teardown,
}

level_index_from-le :
    (i : ℕ) (levels : List Level) (a : Text)
    → contains (flatten levels) a ≡ true
    → i ≤ level_index_from i levels a
unfolding level_index_from
level_index_from-le i [] a m = absurd (contains-nil a m)
level_index_from-le i (level ∷ levels) a m =
    if_ind (λ k. i ≤ k) (contains level a) (λ _. omega arith)
      (λ h. omega (
        arith,
        level_index_from-le (suc i) levels a
            (ground (arith, contains-append level (flatten levels) a, h, m)),
      ))

-- What a service depends on stands in an earlier level.
level_index_from-Edge :
    (services : Map ServiceConfig) (before : List Text) (i : ℕ) (levels : List Level) (a b : Text)
    → IsLeveled services before levels
    → contains (flatten levels) a ≡ true
    → Edge services a b
    → (contains before b ≡ true) ⊎ (level_index_from i levels b < level_index_from i levels a)
unfolding level_index_from
level_index_from-Edge services before i [] a b leveled m e = absurd (contains-nil a m)
level_index_from-Edge services before i (level ∷ levels) a b leveled m e =
    elim (Bool-cases (contains level a)) [
      | inl here ↦ inl (leveled.0 a b here e)
      | inr later ↦
          let m' : contains (flatten levels) a ≡ true =
            ground (arith, contains-append level (flatten levels) a, later, m) in
          elim (Bool-cases (contains level b)) [
            | inl b_here ↦
                inr (rw (later, b_here) (omega (arith, level_index_from-le (suc i) levels a m')))
            | inr b_later ↦
                elim (level_index_from-Edge services (before ++ level) (suc i) levels a b leveled.1
                  m' e) [
                    | inl seen ↦ inl (ground (arith, contains-append before level b, seen, b_later))
                    | inr less ↦ inr (rw (later, b_later) less)
                  ]
          ]
    ]

-- Nothing that is torn down later depends on the service of this container.
abbrev NoneNeeds : Map ServiceConfig → Container → List Container → Type 0
NoneNeeds services c [] = Unit {0}
NoneNeeds services c (d ∷ cs) =
    (¬ Edge services (service_label_of d) (service_label_of c)) × NoneNeeds services c cs

-- Each container goes before those of the services that its own service depends on.
abbrev pub IsTeardownOrder : Map ServiceConfig → List Container → Type 0
IsTeardownOrder services [] = Unit {0}
IsTeardownOrder services (c ∷ cs) = NoneNeeds services c cs × IsTeardownOrder services cs

module _ (project : Project) (levels : List Level)
    (sorted : topo_sort (some project) ≡ levels_of levels) where
  -- A container whose service needs another one is of a later level.
  level_index-Edge :
      (d c : Container)
      → Edge project.services (service_label_of d) (service_label_of c)
      → level_index levels c < level_index levels d
  unfolding level_index
  level_index-Edge d c e =
      let (placed, leveled, _) = topo_sort-levels project levels sorted in
      let a = service_label_of d in
      let m : contains (flatten levels) a ≡ true =
        contains_perm a placed ∙ sym (lookup-keys a project.services) ∙ ap is_some e.found in
      elim (level_index_from-Edge project.services [] 0 levels a (service_label_of c) leveled m e) [
        | inl none_before ↦ absurd (contains-nil (service_label_of c) none_before)
        | inr less ↦ less
      ]

  AllBelow-NoneNeeds :
      (c : Container) (cs : List Container)
      → AllBelow (level_index levels) (level_index levels c) cs
      → NoneNeeds project.services c cs
  AllBelow-NoneNeeds c [] below = tt
  AllBelow-NoneNeeds c (d ∷ cs) below =
      (λ e. omega (arith, level_index-Edge d c e, below.0), AllBelow-NoneNeeds c cs below.1)

  IsFalling-IsTeardownOrder :
      (cs : List Container)
      → IsFalling (level_index levels) cs
      → IsTeardownOrder project.services cs
  IsFalling-IsTeardownOrder [] falling = tt
  IsFalling-IsTeardownOrder (c ∷ cs) falling =
      (AllBelow-NoneNeeds c cs falling.0, IsFalling-IsTeardownOrder cs falling.1)

teardown_less-le :
    (levels : List Level) (a b : Container)
    → teardown_less levels a b ≡ true
    → level_index levels b ≤ level_index levels a
unfolding teardown_less
teardown_less-le levels a b h = ground arith

teardown_less-ge :
    (levels : List Level) (a b : Container)
    → teardown_less levels a b ≡ false
    → level_index levels a ≤ level_index levels b
unfolding teardown_less
teardown_less-ge levels a b h = ground arith

-- Only the order changes.
order_by_levels-perm : (sorted : Sorted) (cs : List Container) → Perm (order_by_levels sorted cs) cs
order_by_levels-perm (levels_of levels) cs = sort_by-perm (teardown_less levels) cs
order_by_levels-perm (cycle_error cycle) cs = sort_by-perm name_less cs
order_by_levels-perm nil_project cs = sort_by-perm name_less cs
order_by_levels-perm out_of_fuel cs = sort_by-perm name_less cs

pub order_containers_for_teardown-perm :
    (cs : List Container) (project : Option Project)
    → Perm (order_containers_for_teardown cs project) cs
unfolding order_containers_for_teardown
order_containers_for_teardown-perm cs none = sort_by-perm name_less cs
order_containers_for_teardown-perm cs (some project) =
    order_by_levels-perm (topo_sort (some project)) cs

order_by_levels-IsTeardownOrder :
    (project : Project) (levels : List Level) (sorted : Sorted) (cs : List Container)
    → topo_sort (some project) ≡ sorted
    → sorted ≡ levels_of levels
    → IsTeardownOrder project.services (order_by_levels sorted cs)
order_by_levels-IsTeardownOrder project levels sorted cs e h =
    subst (λ o. IsTeardownOrder project.services (order_by_levels o cs)) (sym h)
      (IsFalling-IsTeardownOrder project levels (e ∙ h) (sort_by (teardown_less levels) cs) (
        sort_by-IsFalling (level_index levels) (teardown_less levels) (teardown_less-le levels)
          (teardown_less-ge levels) cs))

-- Where the services of a project can be sorted, the order for teardown puts each container before
-- those of the services that its own service depends on.
pub order_containers_for_teardown-IsTeardownOrder :
    (project : Project) (levels : List Level) (cs : List Container)
    → topo_sort (some project) ≡ levels_of levels
    → IsTeardownOrder project.services (order_containers_for_teardown cs (some project))
unfolding order_containers_for_teardown
order_containers_for_teardown-IsTeardownOrder project levels cs h =
    order_by_levels-IsTeardownOrder project levels (topo_sort (some project)) cs refl h
