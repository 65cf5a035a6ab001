-- ===== src/Compose/Orchestrator/Gates/Requirements.antt =====
-- Which requirements a level has to meet.
use devcontainer.Base.{
  Bool, true, false, not, ◌&&◌, List, [], ◌∷◌, some, Text, ◌==◌, eq_of_==, ==_refl, Map, lookup,
  insert, lookup-insert, contains, ◌≡◌, ◌≢◌, ◌⊎◌, refl, inl, inr, ap, sym, ◌∙◌, subst, if_ind,
  Bool-cases, Option-cases, arith, if◌then◌else◌,
}
use devcontainer.Compose.Project.{ServiceConfig, ServiceDependency}
use devcontainer.Compose.Graph.{Level}
use devcontainer.Compose.Orchestrator.Gates.{
  Requirement, is_gated, replaces, require, require_all, requirements,
}

-- Some entry of `depends_on` requires the service strictly, and under this condition.
abbrev pub NeedsStrictly : (dep_name condition : Text) → Map ServiceDependency → Type 0
NeedsStrictly dep_name condition [] = ⊥
NeedsStrictly dep_name condition ((name, dep) ∷ deps) =
    ((name ≡ dep_name) × (dep.condition ≡ condition) × (dep.required ≡ true))
    ⊎ NeedsStrictly dep_name condition deps

-- Some kept service does.
abbrev pub IsNeeded : (keep : List Text) (dep_name condition : Text) → Map ServiceConfig → Type 0
IsNeeded keep dep_name condition [] = ⊥
IsNeeded keep dep_name condition ((_, dependent) ∷ services) =
    ((contains keep dependent.name ≡ true) × NeedsStrictly dep_name condition dependent.depends_on)
    ⊎ IsNeeded keep dep_name condition services

abbrev pub IsStrict : Map Requirement → Text → Type 0
IsStrict required name =
    (req : Requirement) × (lookup name required ≡ some req) × (req.optional ≡ false)

-- Every strict requirement has its reason.
abbrev IsJustified : (Text → Text → Type 0) → Map Requirement → Type 0
IsJustified P required =
    (name : Text) (req : Requirement)
    → lookup name required ≡ some req
    → req.optional ≡ false
    → P name req.condition

abbrev requirement : ServiceDependency → Requirement
requirement dep = record { condition = dep.condition; optional = not dep.required }

insert-IsStrict :
    (required : Map Requirement) (key name : Text) (new : Requirement)
    → replaces (lookup key required) ≡ true
    → IsStrict required name
    → IsStrict (insert key new required) name
insert-IsStrict required key name new free (req, found, strict) = elim (Bool-cases (key == name)) [
  | inl same ↦
      absurd (cc (rw (ap (λ k. lookup k required) (eq_of_== key name same), found) at free, strict))
  | inr other ↦ (req, lookup-insert key name new required ∙ rw other found, strict)
]

require-IsStrict :
    (level : Level) (required : Map Requirement) (key : Text) (dep : ServiceDependency)
    (name : Text)
    → IsStrict required name
    → IsStrict (require level required key dep) name
unfolding require
require-IsStrict level required key dep name strict =
    if_ind (λ r. IsStrict r name)
      (contains level key && is_gated dep.condition && replaces (lookup key required))
      (λ h. insert-IsStrict required key name (requirement dep) (ground arith) strict) (λ _. strict)

require_all-IsStrict :
    (level : Level) (required : Map Requirement) (deps : Map ServiceDependency) (name : Text)
    → IsStrict required name
    → IsStrict (require_all level required deps) name
unfolding require_all
require_all-IsStrict level required [] name strict = strict
require_all-IsStrict level required ((key, dep) ∷ deps) name strict =
    require_all-IsStrict level (require level required key dep) deps name
      (require-IsStrict level required key dep name strict)

requirements-IsStrict :
    (level : Level) (keep : List Text) (required : Map Requirement) (services : Map ServiceConfig)
    (name : Text)
    → IsStrict required name
    → IsStrict (requirements level keep required services) name
unfolding requirements
requirements-IsStrict level keep required [] name strict = strict
requirements-IsStrict level keep required ((_, dependent) ∷ services) name strict =
    requirements-IsStrict level keep
      (if contains keep dependent.name
        then require_all level required dependent.depends_on
        else required)
      services name
      (if_ind (λ r. IsStrict r name) (contains keep dependent.name)
        (λ _. require_all-IsStrict level required dependent.depends_on name strict) (λ _. strict))

-- A strict entry for a service of the level leaves a strict requirement of the service.
replaces-IsStrict :
    (required : Map Requirement) (name : Text)
    → replaces (lookup name required) ≡ false
    → IsStrict required name
replaces-IsStrict required name h = elim (Option-cases (lookup name required)) [
  | inl new ↦ absurd (cc (rw new at h))
  | inr (prev, found) ↦ (prev, found, rw found at h)
]

require_strictly :
    (level : Level) (required : Map Requirement) (name : Text) (dep : ServiceDependency)
    → contains level name ≡ true
    → is_gated dep.condition ≡ true
    → dep.required ≡ true
    → IsStrict (require level required name dep) name
unfolding require
require_strictly level required name dep on_level gated strictly =
    if_ind (λ r. IsStrict r name)
      (contains level name && is_gated dep.condition && replaces (lookup name required))
      (λ _. (
        requirement dep,
        lookup-insert name name (requirement dep) required ∙ rw (==_refl name) refl,
        ap not strictly,
      ))
      (λ h. replaces-IsStrict required name (ground (arith, h, on_level, gated)))

require_all-strictly :
    (level : Level) (required : Map Requirement) (deps : Map ServiceDependency)
    (name condition : Text)
    → contains level name ≡ true
    → is_gated condition ≡ true
    → NeedsStrictly name condition deps
    → IsStrict (require_all level required deps) name
unfolding require_all
require_all-strictly level required [] name condition on_level gated needs = absurd needs
require_all-strictly level required ((key, dep) ∷ deps) name condition on_level gated
      (inl (same, under, strictly)) =
    require_all-IsStrict level (require level required key dep) deps name (
      subst (λ k. IsStrict (require level required k dep) name) (sym same)
        (require_strictly level required name dep on_level (ap is_gated under ∙ gated) strictly))
require_all-strictly level required ((key, dep) ∷ deps) name condition on_level gated (inr later) =
    require_all-strictly level (require level required key dep) deps name condition on_level gated
      later

-- Every service of the level that a kept service requires strictly is required strictly.
pub requirements-strictly :
    (level : Level) (keep : List Text) (required : Map Requirement) (services : Map ServiceConfig)
    (name condition : Text)
    → contains level name ≡ true
    → is_gated condition ≡ true
    → IsNeeded keep name condition services
    → IsStrict (requirements level keep required services) name
unfolding requirements
requirements-strictly level keep required [] name condition on_level gated needed = absurd needed
requirements-strictly level keep required ((_, dependent) ∷ services) name condition on_level gated
      (inl (kept, needs)) =
    requirements-IsStrict level keep
      (if contains keep dependent.name
        then require_all level required dependent.depends_on
        else required)
      services name
      (rw kept (
        require_all-strictly level required dependent.depends_on name condition on_level gated
          needs))
requirements-strictly level keep required ((_, dependent) ∷ services) name condition on_level gated
      (inr later) =
    requirements-strictly level keep
      (if contains keep dependent.name
        then require_all level required dependent.depends_on
        else required)
      services name condition on_level gated later

not-false : (b : Bool) → not b ≡ false → b ≡ true
not-false b h = ground arith

module _ (P : Text → Text → Type 0) where
  require-IsJustified :
      (level : Level) (required : Map Requirement) (key : Text) (dep : ServiceDependency)
      → IsJustified P required
      → (dep.required ≡ true → is_gated dep.condition ≡ true → P key dep.condition)
      → IsJustified P (require level required key dep)
  unfolding require
  require-IsJustified level required key dep old new =
      if_ind (IsJustified P)
        (contains level key && is_gated dep.condition && replaces (lookup key required))
        (λ h name req found strict. elim (Bool-cases (key == name)) [
          | inl same ↦
              let this = rw (lookup-insert key name (requirement dep) required, same) at found in
              let e : requirement dep ≡ req = cc this in
              subst (λ r. P name r.condition) e
                (subst (λ k. P k dep.condition) (eq_of_== key name same)
                  (new (not-false dep.required (ap (λ r. r.optional) e ∙ strict))
                    (ground (arith, h))))
          | inr other ↦
              old name req (rw (lookup-insert key name (requirement dep) required, other) at found)
                strict
        ])
        (λ _. old)

  require_all-IsJustified :
      (level : Level) (required : Map Requirement) (deps : Map ServiceDependency)
      → IsJustified P required
      → ((name condition : Text)
          → is_gated condition ≡ true
          → NeedsStrictly name condition deps
          → P name condition)
      → IsJustified P (require_all level required deps)
  unfolding require_all
  require_all-IsJustified level required [] old new = old
  require_all-IsJustified level required ((key, dep) ∷ deps) old new =
      require_all-IsJustified level (require level required key dep) deps
        (require-IsJustified level required key dep old
          (λ strictly gated. new key dep.condition gated (inl (refl, refl, strictly))))
        (λ name condition gated needs. new name condition gated (inr needs))

  requirements-IsJustified :
      (level : Level) (keep : List Text) (required : Map Requirement) (services : Map ServiceConfig)
      → IsJustified P required
      → ((name condition : Text)
          → is_gated condition ≡ true
          → IsNeeded keep name condition services
          → P name condition)
      → IsJustified P (requirements level keep required services)
  unfolding requirements
  requirements-IsJustified level keep required [] old new = old
  requirements-IsJustified level keep required ((_, dependent) ∷ services) old new =
      requirements-IsJustified level keep
        (if contains keep dependent.name
          then require_all level required dependent.depends_on
          else required)
        services
        (if_ind (IsJustified P) (contains keep dependent.name)
          (λ kept.
            require_all-IsJustified level required dependent.depends_on old
              (λ name condition gated needs. new name condition gated (inl (kept, needs))))
          (λ _. old))
        (λ name condition gated needed. new name condition gated (inr needed))

pub lookup-nothing : (name : Text) (req : Requirement) → lookup name [] ≢ some req
unfolding lookup
lookup-nothing name req h = cc h

-- A strict requirement is under a condition that some kept service asks for.
pub requirements-IsNeeded :
    (level : Level) (keep : List Text) (services : Map ServiceConfig) (name : Text)
    (req : Requirement)
    → lookup name (requirements level keep [] services) ≡ some req
    → req.optional ≡ false
    → (is_gated req.condition ≡ true) × IsNeeded keep name req.condition services
requirements-IsNeeded level keep services =
    requirements-IsJustified
      (λ name condition. (is_gated condition ≡ true) × IsNeeded keep name condition services) level
      keep [] services (λ name req found strict. absurd (lookup-nothing name req found))
      (λ name condition gated needed. (gated, needed))
