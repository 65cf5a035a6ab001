-- ===== src/Compose/Graph/Closure.antt =====
-- `ServiceClosure` returns exactly the names that can be reached from those asked for.
use devcontainer.Base.{
  ℕ, zero, suc, ◌+◌, ◌≤◌, Bool, true, false, ◌||◌, List, [], ◌∷◌, ◌++◌, some, ◌≡◌, refl, ap, inl,
  inr, ◌↔◌, Text, ◌==◌, eq_of_==, ==_refl, contains, eq_iff, contains-append, contains-sort,
  IsSorted, sort-IsSorted, length, length-append, sort, if◌then◌else◌, Bool-cases, arith, Map,
  lookup,
}
use devcontainer.Compose.Project.{Project, ServiceConfig}
use devcontainer.Compose.Graph.Edges.{Edge}
use devcontainer.Compose.Graph.{
  edges_found, service_edges, successors, closure_loop, closure_fuel, service_closure,
}

-- The names that `docker compose up names...` starts.
pub data Reach (services : Map ServiceConfig) (names : List Text) : Text → Type 0 where
  root : {a : Text} → contains names a ≡ true → Reach services names a
  step :
      {a b : Text}
      → Reach services names a
      → contains (successors services a) b ≡ true
      → Reach services names b

-- The edges of the services that are still to be visited.
abbrev weight : List Text → Map ServiceConfig → ℕ
weight seen [] = 0
weight seen ((n, svc) ∷ services) =
    (if contains seen n then 0 else length (service_edges svc)) + weight seen services

weight-le :
    (seen : List Text) (name : Text) (services : Map ServiceConfig)
    → weight (name ∷ seen) services ≤ weight seen services
unfolding contains
weight-le seen name [] = omega arith
weight-le seen name ((n, svc) ∷ services) = ground (arith, weight-le seen name services)

weight-visit :
    (seen : List Text) (name : Text) (services : Map ServiceConfig)
    → contains seen name ≡ false
    → weight (name ∷ seen) services + length (successors services name) ≤ weight seen services
unfolding contains successors lookup
weight-visit seen name [] h = omega arith
weight-visit seen name ((n, svc) ∷ services) h = elim (Bool-cases (n == name)) [
  | inl same ↦
      let e = eq_of_== n name same in
      ground (arith, weight-le seen name services, same, ap (contains seen) e, h, eq_iff name n, e)
  | inr other ↦
      ground (arith, weight-visit seen name services h, other, eq_iff n name, eq_iff name n)
]

closure_fuel_lem :
    (services : Map ServiceConfig) (names : List Text)
    → closure_fuel services names ≡ length names + weight [] services
unfolding closure_fuel contains
closure_fuel_lem [] names = omega arith
closure_fuel_lem ((n, svc) ∷ services) names = omega (arith, closure_fuel_lem services names)

module _ (services : Map ServiceConfig) (names : List Text) where
  abbrev either : List Text → List Text → Text → Bool
  either seen queue x = contains seen x || contains queue x

  record Inv (seen queue : List Text) : Type 0 where
    sound : (x : Text) → either seen queue x ≡ true → Reach services names x
    roots : (x : Text) → contains names x ≡ true → either seen queue x ≡ true
    closed :
        (a b : Text)
        → contains seen a ≡ true
        → contains (successors services a) b ≡ true
        → either seen queue b ≡ true

  shrink :
      (seen : List Text) (name : Text) (queue : List Text)
      → contains seen name ≡ true
      → (x : Text) → either seen (name ∷ queue) x ≡ true
      → either seen queue x ≡ true
  unfolding contains
  shrink seen name queue m x h = elim (Bool-cases (name == x)) [
    | inl same ↦ ground (arith, ap (contains seen) (eq_of_== name x same), m)
    | inr other ↦ ground (arith, h, other)
  ]

  Inv-skip :
      (seen : List Text) (name : Text) (queue : List Text)
      → contains seen name ≡ true
      → Inv seen (name ∷ queue)
      → Inv seen queue
  unfolding contains
  Inv-skip seen name queue m inv = record {
    sound = λ x h. inv.sound x (ground (arith, h));
    roots = λ x h. shrink seen name queue m x (inv.roots x h);
    closed = λ a b h k. shrink seen name queue m b (inv.closed a b h k);
  }

  visit_sound :
      (seen : List Text) (name : Text) (queue : List Text)
      → Inv seen (name ∷ queue)
      → (x : Text) → either (name ∷ seen) (queue ++ successors services name) x ≡ true
      → Reach services names x
  unfolding contains
  visit_sound seen name queue inv x h = elim (Bool-cases (either seen (name ∷ queue) x)) [
    | inl old ↦ inv.sound x old
    | inr new ↦
        step (inv.sound name (ground (arith, ==_refl name)))
          (ground (arith, h, new, contains-append queue (successors services name) x))
  ]

  Inv-visit :
      (seen : List Text) (name : Text) (queue : List Text)
      → Inv seen (name ∷ queue)
      → Inv (name ∷ seen) (queue ++ successors services name)
  unfolding contains
  Inv-visit seen name queue inv = record {
    sound = λ x h. visit_sound seen name queue inv x h;
    roots =
        λ x h. ground (arith, inv.roots x h, contains-append queue (successors services name) x);
    closed = λ a b h k. elim (Bool-cases (name == a)) [
      | inl same ↦ ground (
        arith,
        ap (λ n. contains (successors services n) b) (eq_of_== name a same),
        k,
        contains-append queue (successors services name) b,
      )
      | inr other ↦ ground (
        arith,
        inv.closed a b (ground (arith, h, other)) k,
        contains-append queue (successors services name) b,
      )
    ];
  }

  closure_loop_lem :
      (fuel : ℕ) (seen queue : List Text)
      → length queue + weight seen services ≤ fuel
      → Inv seen queue
      → (out : List Text) × (closure_loop fuel services seen queue ≡ some out) × Inv out []
  unfolding closure_loop
  closure_loop_lem fuel seen [] h inv = (seen, refl, inv)
  closure_loop_lem zero seen (name ∷ queue) h inv = absurd (omega arith)
  closure_loop_lem (suc fuel) seen (name ∷ queue) h inv = elim (Bool-cases (contains seen name)) [
    | inl old ↦
        rw old (closure_loop_lem fuel seen queue (omega arith) (Inv-skip seen name queue old inv))
    | inr new ↦ rw new (
        closure_loop_lem fuel (name ∷ seen) (queue ++ successors services name)
          (omega (
            arith,
            weight-visit seen name services new,
            length-append queue (successors services name),
          ))
          (Inv-visit seen name queue inv))
  ]

  Reach-Inv :
      (out : List Text) → Inv out [] → (x : Text) → Reach services names x → contains out x ≡ true
  unfolding contains
  Reach-Inv out inv x (root h) = ground (arith, inv.roots x h)
  Reach-Inv out inv x (step {a} {b} r h) = ground (arith, inv.closed a x (Reach-Inv out inv a r) h)

  Inv-start : Inv [] names
  unfolding contains
  Inv-start = record { sound = λ x h. root h; roots = λ x h. h; closed = λ a b h k. cc }

-- `ServiceClosure` always returns, and its result is the sorted list of exactly the names that can
-- be reached from the names asked for by the edges that `TopoSort` orders by.
pub service_closure_lem :
    (project : Project) (names : List Text)
    → (out : List Text) × (service_closure (some project) names ≡ some out)
      × IsSorted out
      × ((x : Text) → (contains out x ≡ true) ↔ Reach project.services names x)
unfolding service_closure contains
service_closure_lem project names =
    let services = project.services in
    let (seen, e, inv) =
      closure_loop_lem services names (closure_fuel services names) [] names
        (omega (arith, closure_fuel_lem services names)) (Inv-start services names) in
    (
      sort seen,
      rw (e, service_closure),
      sort-IsSorted seen,
      λ x. (
        λ h. inv.sound x (ground (arith, h, contains-sort seen x)),
        λ r. ground (arith, Reach-Inv services names seen inv x r, contains-sort seen x),
      ),
    )

-- What is reached is closed under dependencies.
pub Reach-Edge :
    (services : Map ServiceConfig) (names : List Text) (a b : Text)
    → Reach services names a
    → Edge services a b
    → Reach services names b
unfolding successors
Reach-Edge services names a b r e =
    step r (rw (ap (λ o. contains (edges_found o) b) e.found) e.names)
