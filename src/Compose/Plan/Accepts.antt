-- ===== src/Compose/Plan/Accepts.antt =====
-- `Validate` passes exactly the plans that an independent description accepts.
use Prim.Native.String.{String}
use devcontainer.Base.{
  Bool, true, false, not, ◌&&◌, List, [], ◌∷◌, ◌++◌, Option, none, some, Text, text, ◌==◌, eq_iff,
  Map, keys, is_empty, ◌≡◌, refl, ◌↔◌, ◌⊎◌, inl, inr, arith, Bool-cases, ap, ◌∙◌, ℤ, pos,
}
use devcontainer.Compose.Project.{
  Project, ServiceConfig, ServiceDependency, DeployConfig, Limits, exceeds_one, is_zero,
}
use devcontainer.Compose.Plan.{
  Capabilities, refuse_if, limits_unsupported, limits_found, replicas_bad, resources_unsupported,
  deploy_unsupported, deploy_found, scale_bad, unsupported_hooks, Refusal, service_unsupported,
  services_unsupported, networks_unsupported, unsupported_of, refuse_unsupported_fields,
  condition_refusal, or_refusal, depends_refusal, refuse_unsupported_conditions, validate,
}

-- deploy.resources.limits holds memory and cpus at most.
pub record LimitsFit (l : Limits) : Type 0 where
  pub pids : l.pids ≡ pos 0
  pub devices : l.devices ≡ []
  pub generic_resources : l.generic_resources ≡ []

abbrev pub SomeLimitsFit : Option Limits → Type 0
SomeLimitsFit none = Unit {0}
SomeLimitsFit (some l) = LimitsFit l

abbrev pub SingleReplica : Option ℤ → Type 0
SingleReplica none = Unit {0}
SingleReplica (some n) = n ≡ pos 1

-- deploy holds the implicit single replica and resource limits at most.
pub record DeployFits (d : DeployConfig) : Type 0 where
  pub mode : (d.mode ≡ []) ⊎ (d.mode ≡ text "replicated")
  pub replicas : SingleReplica d.replicas
  pub labels : d.labels ≡ []
  pub update_config : d.update_config ≡ none
  pub rollback_config : d.rollback_config ≡ none
  pub restart_policy : d.restart_policy ≡ none
  pub endpoint_mode : d.endpoint_mode ≡ []
  pub constraints : d.constraints ≡ []
  pub preferences : d.preferences ≡ []
  pub max_replicas : d.max_replicas ≡ 0
  pub reservations : d.reservations ≡ none
  pub limits : SomeLimitsFit d.limits

is_empty-append : {A : Type 0} (xs ys : List A) → is_empty (xs ++ ys) ≡ is_empty xs && is_empty ys
is_empty-append [] ys = refl
is_empty-append (x ∷ xs) ys = refl

is_empty-refuse_if :
    (b : Bool) (service : Text) (field reason : String)
    → is_empty (refuse_if b service field reason) ≡ not b
is_empty-refuse_if true service field reason = refl
is_empty-refuse_if false service field reason = refl

ruleset emptiness = (is_empty-append, is_empty-refuse_if)

is_empty_iff : {A : Type 0} (xs : List A) → (is_empty xs ≡ true) ↔ (xs ≡ [])
is_empty_iff xs = ground arith

is_zero_iff : (n : ℤ) → (is_zero n ≡ true) ↔ (n ≡ pos 0)
is_zero_iff n = ground arith

limits_iff :
    (service : Text) (l : Limits) → (is_empty (limits_unsupported service l) ≡ true) ↔ LimitsFit l
unfolding limits_unsupported
limits_iff service l = simp emptiness (ground (arith, is_zero_iff l.pids))

some_limits_iff :
    (service : Text) (o : Option Limits)
    → (is_empty (limits_found service o) ≡ true) ↔ SomeLimitsFit o
some_limits_iff service none = (λ _. tt, λ _. refl)
some_limits_iff service (some l) = limits_iff service l

replicas_iff : (r : Option ℤ) → (replicas_bad r ≡ false) ↔ SingleReplica r
replicas_iff none = (λ _. tt, λ _. refl)
replicas_iff (some n) = ground arith

deploy_iff :
    (service : Text) (d : DeployConfig)
    → (is_empty (deploy_unsupported service d) ≡ true) ↔ DeployFits d
unfolding deploy_unsupported resources_unsupported
deploy_iff service d = simp emptiness (
    ground (
      arith,
      eq_iff d.mode [],
      eq_iff d.mode (text "replicated"),
      eq_iff d.endpoint_mode [],
      some_limits_iff service d.limits,
      replicas_iff d.replicas,
    ))

abbrev pub SomeDeployFits : Option DeployConfig → Type 0
SomeDeployFits none = Unit {0}
SomeDeployFits (some d) = DeployFits d

some_deploy_iff :
    (service : Text) (o : Option DeployConfig)
    → (is_empty (deploy_found service o) ≡ true) ↔ SomeDeployFits o
some_deploy_iff service none = (λ _. tt, λ _. refl)
some_deploy_iff service (some d) = deploy_iff service d

-- At most one replica is asked for.
abbrev pub ScaleFits : Option ℤ → Type 0
ScaleFits none = Unit {0}
ScaleFits (some n) = exceeds_one n ≡ false

scale_iff : (r : Option ℤ) → (scale_bad r ≡ false) ↔ ScaleFits r
scale_iff none = (λ _. tt, λ _. refl)
scale_iff (some n) = (λ h. h, λ h. h)

-- A service that uses nothing which the orchestrator never implements.
pub record ServiceFits (svc : ServiceConfig) : Type 0 where
  pub secrets : svc.secrets ≡ []
  pub configs : svc.configs ≡ []
  pub deploy : SomeDeployFits svc.deploy
  pub develop : svc.develop ≡ none
  pub links : svc.links ≡ []
  pub scale : ScaleFits svc.scale
  pub pre_start : svc.pre_start ≡ []
  pub post_start : svc.post_start ≡ []
  pub pre_stop : svc.pre_stop ≡ []

service_iff :
    (name : Text) (svc : ServiceConfig)
    → (is_empty (service_unsupported name svc) ≡ true) ↔ ServiceFits svc
unfolding service_unsupported unsupported_hooks
service_iff name svc =
    simp emptiness (ground (arith, some_deploy_iff name svc.deploy, scale_iff svc.scale))

abbrev pub AllServices : (Text → ServiceConfig → Type 0) → Map ServiceConfig → Type 0
AllServices P [] = Unit {0}
AllServices P ((name, svc) ∷ services) = P name svc × AllServices P services

services_iff :
    (services : Map ServiceConfig)
    → (is_empty (services_unsupported services) ≡ true)
      ↔ AllServices (λ _ svc. ServiceFits svc) services
unfolding services_unsupported
services_iff [] = (λ _. tt, λ _. refl)
services_iff ((name, svc) ∷ services) =
    rw is_empty-append (ground (arith, service_iff name svc, services_iff services))

abbrev pub AllDefault : List Text → Type 0
AllDefault [] = Unit {0}
AllDefault (name ∷ names) = (name ≡ text "default") × AllDefault names

networks_iff :
    (names : List Text) → (is_empty (networks_unsupported names) ≡ true) ↔ AllDefault names
unfolding networks_unsupported
networks_iff [] = (λ _. tt, λ _. refl)
networks_iff (name ∷ names) =
    rw is_empty-append (ground (arith, eq_iff name (text "default"), networks_iff names))

-- The backend can honour the condition.
pub record ConditionFits (caps : Capabilities) (condition : Text) : Type 0 where
  pub healthy : condition ≡ text "service_healthy" → caps.healthchecks ≡ true
  pub completed : condition ≡ text "service_completed_successfully" → caps.exit_codes ≡ true

healthy_not_completed : (text "service_completed_successfully" == text "service_healthy") ≡ false
unfolding ◌==◌
healthy_not_completed = refl

condition_iff :
    (caps : Capabilities) (name condition : Text)
    → (condition_refusal caps name condition ≡ none) ↔ ConditionFits caps condition
unfolding condition_refusal
condition_iff caps name condition =
    let is_healthy = eq_iff condition (text "service_healthy") in
    let is_completed = eq_iff condition (text "service_completed_successfully") in
    (
      λ h. record {
        healthy = λ e. ground (arith, is_healthy.1 e, h);
        completed = λ e. ground (
          arith,
          ap (λ c. c == text "service_healthy") e ∙ healthy_not_completed,
          is_completed.1 e,
          h,
        );
      },
      λ f. elim (Bool-cases (condition == text "service_healthy")) [
        | inl a ↦ ground (arith, a, f.healthy (is_healthy.0 a))
        | inr a ↦ elim (Bool-cases (condition == text "service_completed_successfully")) [
          | inl b ↦ ground (arith, a, b, f.completed (is_completed.0 b))
          | inr b ↦ ground (arith, a, b)
        ]
      ],
    )

abbrev pub AllConditions : Capabilities → Map ServiceDependency → Type 0
AllConditions caps [] = Unit {0}
AllConditions caps ((_, dep) ∷ deps) = ConditionFits caps dep.condition × AllConditions caps deps

or_refusal_iff : (a b : Option Refusal) → (or_refusal a b ≡ none) ↔ ((a ≡ none) × (b ≡ none))
or_refusal_iff none b = (λ h. (refl, h), λ h. h.1)
or_refusal_iff (some e) b = ground arith

depends_iff :
    (caps : Capabilities) (name : Text) (deps : Map ServiceDependency)
    → (depends_refusal caps name deps ≡ none) ↔ AllConditions caps deps
unfolding depends_refusal
depends_iff caps name [] = (λ _. tt, λ _. refl)
depends_iff caps name ((n, dep) ∷ deps) = ground (
  arith,
  or_refusal_iff (condition_refusal caps name dep.condition) (depends_refusal caps name deps),
  condition_iff caps name dep.condition,
  depends_iff caps name deps,
)

conditions_iff :
    (caps : Capabilities) (services : Map ServiceConfig)
    → (refuse_unsupported_conditions caps services ≡ none)
      ↔ AllServices (λ _ svc. AllConditions caps svc.depends_on) services
unfolding refuse_unsupported_conditions
conditions_iff caps [] = (λ _. tt, λ _. refl)
conditions_iff caps ((name, svc) ∷ services) = ground (
  arith,
  or_refusal_iff (depends_refusal caps name svc.depends_on)
      (refuse_unsupported_conditions caps services),
  depends_iff caps name svc.depends_on,
  conditions_iff caps services,
)

-- A project that the orchestrator can run on a backend with the given capabilities.
pub record IsAcceptable (caps : Capabilities) (proj : Project) : Type 0 where
  pub secrets : proj.secrets ≡ []
  pub configs : proj.configs ≡ []
  pub networks : AllDefault (keys proj.networks)
  pub services : AllServices (λ _ svc. ServiceFits svc) proj.services
  pub conditions : AllServices (λ _ svc. AllConditions caps svc.depends_on) proj.services

-- `Validate` passes a plan exactly when its project uses nothing that the orchestrator never
-- implements and every `depends_on` condition is one that the backend can honour.
pub validate_iff :
    (caps : Capabilities) (proj : Project)
    → (validate caps (some proj) ≡ none) ↔ IsAcceptable caps proj
unfolding validate refuse_unsupported_fields unsupported_of
validate_iff caps proj = simp emptiness (
    ground (
      arith,
      networks_iff (keys proj.networks),
      services_iff proj.services,
      conditions_iff caps proj.services,
    ))
