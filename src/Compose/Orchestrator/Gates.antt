-- ===== src/Compose/Orchestrator/Gates.antt =====
-- compose/orchestrator.go: waiting for the conditions of `depends_on` between two levels.
pub mod Waits
pub mod Requirements
pub mod Met
mod Samples
use devcontainer.Base.{
  ℕ, zero, suc, ◌+◌, ℤ, Bool, true, false, not, ◌&&◌, ◌||◌, List, [], ◌∷◌, Option, none, some, Text,
  text, ◌==◌, Map, lookup, insert, contains, ltb, if◌then◌else◌,
}
use devcontainer.Compose.Project.{
  Project, ServiceConfig, ServiceDependency, HealthCheckConfig, is_zero,
}
use devcontainer.Compose.Graph.{Level}
use devcontainer.Compose.Runtime.{
  ContainerDetails, ContainerState, is_running, is_exited, HealthStatus, unreported, starting,
  healthy, unhealthy, Runtime, State,
}
use devcontainer.Compose.Orchestrator.{text_at, ask, tell}

abbrev pub service_healthy : Text
service_healthy = text "service_healthy"

abbrev pub service_completed : Text
service_completed = text "service_completed_successfully"

abbrev pub is_gated : (condition : Text) → Bool
is_gated condition = (condition == service_healthy) || (condition == service_completed)

-- The test's first word is looked at where there is one.
pub declares_active_healthcheck : Option HealthCheckConfig → Bool
declares_active_healthcheck none = false
declares_active_healthcheck (some h) =
    if h.disable then false else elim h.test [ [] ↦ false | word ∷ _ ↦ not (word == text "NONE") ]

pub record Requirement : Type 0 where
  pub condition : Text
  pub optional : Bool

-- What a second requirement of the same service does to the first: a strict one stays.
abbrev pub replaces : Option Requirement → Bool
replaces none = true
replaces (some prev) = prev.optional

unfoldable pub require :
    Level → Map Requirement → (dep_name : Text) → ServiceDependency → Map Requirement
require level required dep_name dep =
    if contains level dep_name && is_gated dep.condition && replaces (lookup dep_name required)
    then insert dep_name (record { condition = dep.condition; optional = not dep.required })
        required
    else required

unfoldable pub require_all : Level → Map Requirement → Map ServiceDependency → Map Requirement
require_all level required [] = required
require_all level required ((dep_name, dep) ∷ deps) =
    require_all level (require level required dep_name dep) deps

-- The requirements of the kept services on those of the level.
unfoldable pub requirements :
    Level → (keep : List Text) → Map Requirement → Map ServiceConfig → Map Requirement
requirements level keep required [] = required
requirements level keep required ((_, dependent) ∷ services) =
    requirements level keep
      (if contains keep dependent.name
        then require_all level required dependent.depends_on
        else required)
      services

-- Why a wait ends. The code's wait ends for one of the first six reasons; the last one is that the
-- rounds ran out.
pub data Waited : Type 0 where
  satisfied : Waited
  reported_unhealthy : Waited
  exited_with : (code : ℤ) → Waited
  never_reported : Waited
  timed_out : Waited
  context_done : Waited
  out_of_rounds : Waited

-- What one look at a container says: the wait is over, or it goes on. `unreported` says that the
-- service declares a healthcheck and nothing is reported of it.
pub data Look : Type 0 where
  over : Waited → Look
  goes_on : (unreported : Bool) → Look

unfoldable pub look_health : HealthStatus → ContainerState → (declares was_unreported : Bool) → Look
look_health healthy state declares was_unreported = over satisfied
look_health unhealthy state declares was_unreported = over reported_unhealthy
look_health starting state declares was_unreported = goes_on was_unreported
look_health unreported state declares was_unreported =
    if declares
    then goes_on (is_running state)
    else if is_running state
    then over satisfied
    else goes_on was_unreported

pub look_exit : ContainerState → ℤ → (was_unreported : Bool) → Look
look_exit state code was_unreported =
    if is_exited state
    then over (if is_zero code then satisfied else exited_with code)
    else goes_on was_unreported

unfoldable pub look :
    (condition : Text) → (declares was_unreported : Bool) → Option ContainerDetails → Look
look condition declares was_unreported none = goes_on was_unreported
look condition declares was_unreported (some d) =
    if condition == service_healthy
    then look_health d.health d.state declares was_unreported
    else if condition == service_completed
    then look_exit d.state d.exit_code was_unreported
    else goes_on was_unreported

abbrev pub expiry : (unreported : Bool) → Waited
expiry true = never_reported
expiry false = timed_out

-- The errors of a gate, with the service that was waited for.
pub record GateError : Type 0 where
  pub service : Text
  pub reason : Waited

-- What a round of a wait does with what it has seen.
abbrev pub after_look :
    {S : Type 0} → Look → (is_late : Bool) → State S → (Bool → Waited × State S) → Waited × State S
after_look (over reason) is_late s k = (reason, s)
after_look (goes_on now_unreported) true s k = (expiry now_unreported, s)
after_look (goes_on now_unreported) false s k = k now_unreported

abbrev pub declared_by : Option ServiceConfig → Bool
declared_by none = false
declared_by (some svc) = declares_active_healthcheck svc.health_check

abbrev pub is_satisfied : Waited → Bool
is_satisfied satisfied = true
is_satisfied _ = false

-- The model's own outcome, which ends the loop of the gate whatever the requirement says.
abbrev pub is_out : Waited → Bool
is_out out_of_rounds = true
is_out _ = false

module _ {S : Type 0} (rt : Runtime S) where
  -- `sleep` is the wait for the next poll; a context that ends meanwhile is seen by the next round.
  unfoldable pub wait_for :
      (rounds : ℕ)
      → (id condition : Text) → (declares : Bool) → (deadline : ℕ) → (was_unreported : Bool)
      → State S
      → Waited × State S
  wait_for zero id condition declares deadline was s = (out_of_rounds, s)
  wait_for (suc rounds) id condition declares deadline was s =
      let (found, s') = ask (rt.inspect_container id) s in
      let rest = λ (now_unreported : Bool).
        wait_for rounds id condition declares deadline now_unreported
          (record s' { world = rt.sleep s'.world }) in
      if rt.cancelled s.world
      then (context_done, s)
      else after_look (look condition declares was found) (ltb deadline (rt.now s'.world)) s' rest

  -- The loop over the requirements. A service without a container is skipped, and so is the failure
  -- of an optional one; a wait that runs out of rounds, which the code's do not, is always an error.
  unfoldable pub gates :
      (rounds : ℕ)
      → Map ServiceConfig
      → (ids : Map Text) → (deadline : ℕ) → Map Requirement
      → State S
      → Option GateError × State S
  gates rounds services ids deadline [] s = (none, s)
  gates rounds services ids deadline ((name, req) ∷ required) s =
      let (reason, s') =
        wait_for rounds (text_at name ids) req.condition (declared_by (lookup name services))
          deadline false s in
      let skipped = gates rounds services ids deadline required s in
      let passed = gates rounds services ids deadline required s' in
      if text_at name ids == []
      then skipped
      else if is_satisfied reason || (req.optional && not (is_out reason))
      then passed
      else (some (record { service = name; reason = reason }), s')

  unfoldable pub gate_level :
      (rounds health_timeout : ℕ)
      → Project
      → Level
      → (ids : Map Text) → (keep : List Text) → State S
      → Option GateError × State S
  gate_level rounds health_timeout project level ids keep s =
      gates rounds project.services ids (rt.now s.world + health_timeout)
        (requirements level keep [] project.services) s
