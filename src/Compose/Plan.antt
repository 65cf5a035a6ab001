-- ===== src/Compose/Plan.antt =====
-- compose/plan.go and the errors of compose/errors.go: the validation of a plan before any
-- backend interaction.
mod Accepts
mod Samples
use Prim.Native.String.{String}
use devcontainer.Base.{
  ℕ, zero, suc, ◌+◌, Bool, true, false, not, ◌&&◌, ◌||◌, List, [], ◌∷◌, ◌++◌, Option, none, some,
  Text, text, ◌==◌, Map, keys, is_empty, is_some, nat_beq, sort_by, text_ltb, if◌then◌else◌, ℤ,
}
use devcontainer.Compose.Project.{
  Project, ServiceConfig, ServiceDependency, DeployConfig, Limits, exceeds_one, is_one, is_zero,
}

-- runtime.Capabilities
pub record Capabilities : Type 0 where
  pub healthchecks : Bool
  pub exit_codes : Bool
  pub service_name_dns : Bool

pub record UnsupportedField : Type 0 where
  pub service : Text
  pub field : Text
  pub reason : Text

-- What `Validate` refuses a plan with.
pub data Refusal : Type 0 where
  nil_plan : Refusal
  unsupported_fields : List UnsupportedField → Refusal
  unsupported_feature : (capability service detail : Text) → Refusal

-- `if bad { found = append(found, UnsupportedField{service, field, reason}) }`
abbrev pub refuse_if : Bool → Text → String → String → List UnsupportedField
refuse_if bad service field reason =
    if bad then record { service = service; field = text field; reason = text reason } ∷ [] else []

pub limits_unsupported : Text → Limits → List UnsupportedField
limits_unsupported service l =
    refuse_if (not (is_zero l.pids)) service "deploy.resources.limits.pids"
      "pids limit is not implemented"
    ++ (refuse_if (not (is_empty l.devices)) service "deploy.resources.limits.devices"
          "device requests are not implemented"
        ++ refuse_if (not (is_empty l.generic_resources)) service
            "deploy.resources.limits.generic_resources" "generic resources are not implemented")

abbrev pub limits_found : Text → Option Limits → List UnsupportedField
limits_found service none = []
limits_found service (some l) = limits_unsupported service l

pub resources_unsupported : Text → DeployConfig → List UnsupportedField
resources_unsupported service d =
    refuse_if (is_some d.reservations) service "deploy.resources.reservations"
      "soft-limit reservations are not honored on this runtime"
    ++ limits_found service d.limits

abbrev pub replicas_bad : Option ℤ → Bool
replicas_bad none = false
replicas_bad (some r) = not (is_one r)

pub deploy_unsupported : Text → DeployConfig → List UnsupportedField
deploy_unsupported service d =
    refuse_if (not (d.mode == []) && not (d.mode == text "replicated")) service "deploy.mode"
      "only the implicit single-replica mode is supported"
    ++ (refuse_if (replicas_bad d.replicas) service "deploy.replicas"
          "multi-replica services are not supported"
        ++ (refuse_if (not (is_empty d.labels)) service "deploy.labels"
              "use service-level labels instead"
            ++ (refuse_if (is_some d.update_config) service "deploy.update_config"
                  "Swarm rolling-update; not implemented"
                ++ (refuse_if (is_some d.rollback_config) service "deploy.rollback_config"
                      "Swarm rolling-update; not implemented"
                    ++ (refuse_if (is_some d.restart_policy) service "deploy.restart_policy"
                          "use the top-level restart: field instead"
                        ++ (refuse_if (not (d.endpoint_mode == [])) service "deploy.endpoint_mode"
                              "Swarm load balancing; not implemented"
                            ++ (refuse_if
                                  (not (is_empty d.constraints)
                                    || not (is_empty d.preferences)
                                    || not (nat_beq d.max_replicas 0))
                                  service "deploy.placement" "Swarm scheduling; not implemented"
                                ++ resources_unsupported service d)))))))

abbrev pub deploy_found : Text → Option DeployConfig → List UnsupportedField
deploy_found service none = []
deploy_found service (some d) = deploy_unsupported service d

abbrev pub hook_reason : String
hook_reason = "lifecycle hooks are not executed by the native orchestrator"

unfoldable pub unsupported_hooks : Text → ServiceConfig → List UnsupportedField
unsupported_hooks service svc =
    refuse_if (not (is_empty svc.pre_start)) service "pre_start" hook_reason
    ++ (refuse_if (not (is_empty svc.post_start)) service "post_start" hook_reason
        ++ refuse_if (not (is_empty svc.pre_stop)) service "pre_stop" hook_reason)

abbrev pub scale_bad : Option ℤ → Bool
scale_bad none = false
scale_bad (some n) = exceeds_one n

unfoldable pub service_unsupported : Text → ServiceConfig → List UnsupportedField
service_unsupported name svc =
    refuse_if (not (is_empty svc.secrets)) name "secrets" "Swarm-only construct; not implemented"
    ++ (refuse_if (not (is_empty svc.configs)) name "configs"
          "Swarm-only construct; not implemented"
        ++ (deploy_found name svc.deploy
            ++ (refuse_if (is_some svc.develop) name "develop"
                  "file-sync feature; out of scope for our runtime"
                ++ (refuse_if (not (is_empty svc.links)) name "links"
                      "legacy; replaced by network DNS in compose v2"
                    ++ (refuse_if (scale_bad svc.scale) name "scale"
                          "multi-replica services not supported"
                        ++ unsupported_hooks name svc)))))

unfoldable pub services_unsupported : Map ServiceConfig → List UnsupportedField
services_unsupported [] = []
services_unsupported ((name, svc) ∷ services) =
    service_unsupported name svc ++ services_unsupported services

unfoldable pub networks_unsupported : List Text → List UnsupportedField
networks_unsupported [] = []
networks_unsupported (name ∷ names) =
    (if name == text "default"
      then []
      else record {
        service = [];
        field = text "networks." ++ name;
        reason = text "only the project's default network is supported";
      }
        ∷ [])
    ++ networks_unsupported names

-- What `refuseUnsupportedFields` collects.
unfoldable pub unsupported_of : Project → List UnsupportedField
unsupported_of proj =
    refuse_if (not (is_empty proj.secrets)) [] "secrets" "Swarm-only construct; not implemented"
    ++ (refuse_if (not (is_empty proj.configs)) [] "configs" "Swarm-only construct; not implemented"
        ++ (networks_unsupported (keys proj.networks) ++ services_unsupported proj.services))

pub field_less : UnsupportedField → UnsupportedField → Bool
field_less a b =
    if a.service == b.service then text_ltb a.field b.field else text_ltb a.service b.service

pub sort_fields : List UnsupportedField → List UnsupportedField
sort_fields found = sort_by field_less found

unfoldable pub refuse_unsupported_fields : Project → Option Refusal
refuse_unsupported_fields proj =
    let found = unsupported_of proj in
    if is_empty found then none else some (unsupported_fields (sort_fields found))

-- The refusal of one `depends_on` entry of the service `name`.
unfoldable pub condition_refusal : Capabilities → Text → Text → Option Refusal
condition_refusal caps name condition =
    if condition == text "service_healthy"
    then (if caps.healthchecks
        then none
        else some (
            unsupported_feature (text "Healthchecks") name
              (text "depends_on.condition: service_healthy requires backend healthcheck support")))
    else if condition == text "service_completed_successfully"
    then (if caps.exit_codes
        then none
        else some (
            unsupported_feature (text "ExitCodes") name (
              text
                "depends_on.condition: service_completed_successfully requires backend exit-code surfacing")))
    else none

-- The first refusal of the two.
abbrev pub or_refusal : Option Refusal → Option Refusal → Option Refusal
or_refusal none r = r
or_refusal (some e) r = some e

unfoldable pub depends_refusal : Capabilities → Text → Map ServiceDependency → Option Refusal
depends_refusal caps name [] = none
depends_refusal caps name ((_, dep) ∷ deps) =
    or_refusal (condition_refusal caps name dep.condition) (depends_refusal caps name deps)

unfoldable pub refuse_unsupported_conditions : Capabilities → Map ServiceConfig → Option Refusal
refuse_unsupported_conditions caps [] = none
refuse_unsupported_conditions caps ((name, svc) ∷ services) =
    or_refusal (depends_refusal caps name svc.depends_on)
      (refuse_unsupported_conditions caps services)

-- `Plan.Validate`; `none` is a plan that passes. A nil plan is one with no project here.
unfoldable pub validate : Capabilities → Option Project → Option Refusal
validate caps none = some nil_plan
validate caps (some proj) =
    or_refusal (refuse_unsupported_fields proj) (refuse_unsupported_conditions caps proj.services)
