-- ===== src/Feature/Install/Overrides.antt =====
-- What a successful Order returns.
use mathlib.Core.List.{Perm}
use mathlib.Core.List.Perm
use devcontainer.Base.{
  ℕ, ◌<◌, length, nat_beq, true, List, [], ◌∷◌, ◌++◌, Text, filter, any, all, not, subst, Bool, ◌≡◌,
  refl,
}
use devcontainer.Config.Types.{ResolvedFeature, Warning}
use devcontainer.Feature.Order.{split_by_override, same_id}
use devcontainer.Feature.Order.Split.{
  split_by_override_lem, split_by_override-named, split_by_override-in_entry_order, entry_index,
  split_by_override_stable, in_entry_order,
}
use devcontainer.Feature.Graph.{
  JsonOps, Installation, installs, cycle_error, too_deep, out_of_fuel, topo_sort,
}
use devcontainer.Feature.Graph.Order.{in_order, topo_sort-installs}
use devcontainer.Feature.Install.{behind, order_features}

split_by_override-nil : (order : List Text) → split_by_override [] order ≡ ([], [])
unfolding split_by_override filter
split_by_override-nil [] = refl
split_by_override-nil (ord ∷ order) = rw (split_by_override-nil order) refl

module _ (ops : JsonOps) where
  behind-installs :
      (overridden plan : List ResolvedFeature) (warns : List Warning) (r : Installation)
      → behind overridden r ≡ installs plan warns
      → (sorted : List ResolvedFeature) × (r ≡ installs sorted warns)
        × (plan ≡ overridden ++ sorted)
  behind-installs overridden plan warns (installs sorted more) e = (sorted, cc, cc)
  behind-installs overridden plan warns (cycle_error path) e = cc
  behind-installs overridden plan warns (too_deep d path) e = cc
  behind-installs overridden plan warns out_of_fuel e = cc

  abbrev pub is_named : (override_order : List Text) → ResolvedFeature → Bool
  is_named override_order f = any (λ ord. same_id ord f) override_order

  -- The plan begins with features that entries name, in the order of the entries, those of one entry as
  -- they were given, and goes on with the
  -- features that none names, sorted.
  abbrev pub IsPlan : (features : List ResolvedFeature) → List Text → List ResolvedFeature → Type 0
  IsPlan features override_order plan =
      (overridden : List ResolvedFeature) × (sorted : List ResolvedFeature) × (plan
        ≡ overridden ++ sorted)
      × (all (is_named override_order) overridden ≡ true)
      × (in_entry_order override_order overridden ≡ true)
      × ((i : ℕ)
          → i < length override_order
          → filter (λ f. nat_beq (entry_index override_order f) i) overridden
            ≡ filter (λ f. nat_beq (entry_index override_order f) i) features)
      × Perm sorted (filter (λ f. not (is_named override_order f)) features)
      × (in_order ops (filter (λ f. not (is_named override_order f)) features) sorted ≡ true)

  -- A successful Order returns the given features, each as often as it was given: first those that an
  -- entry of the override order names, in the order of the entries and those of one entry as they were
  -- given, then those that no entry names, of which none requires a later one. A feature counts for the
  -- first entry that names it.
  pub order_features-installs :
      (features : List ResolvedFeature) (override_order : List Text) (plan : List ResolvedFeature)
      (warns : List Warning)
      → order_features ops features override_order ≡ installs plan warns
      → Perm plan features × IsPlan features override_order plan
  unfolding order_features in_order filter all in_entry_order
  order_features-installs [] order plan warns e =
      let empty : [] ≡ plan = cc in
      rw (← empty) (Perm.refl [], ([], [], refl, refl, refl, (λ i below. refl), Perm.refl [], refl))
  order_features-installs (f ∷ fs) order plan warns e =
      let features = f ∷ fs in
      let parts = split_by_override features order in
      let (sorted, sorts, is) = behind-installs parts.0 plan warns (topo_sort ops parts.1) e in
      let (same, ordered) = topo_sort-installs ops parts.1 sorted warns sorts in
      let (together, rest) = split_by_override_lem features order in
      (
        rw is (Perm.trans (Perm.append_left parts.0 same) together),
        (
          parts.0,
          sorted,
          is,
          split_by_override-named features order,
          split_by_override-in_entry_order features order,
          split_by_override_stable features order,
          subst (Perm sorted) rest same,
          subst (λ r. in_order ops r sorted ≡ true) rest ordered,
        ),
      )
